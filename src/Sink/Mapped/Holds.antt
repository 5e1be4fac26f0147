-- ===== src/Sink/Mapped/Holds.antt =====
-- What `MmapSink` of src/sink.cpp and `MemorySink` of src/sink.hpp hold: the bytes that were written, and behind them
-- what was in the file before.
use neptools.Prelude.{
  ℕ, ◌+◌, ◌-◌, ◌*◌, ◌%◌, ◌/◌, ◌^◌, ◌≤◌, ◌<◌, ◌≡◌, sym, ap, ◌∙◌, ◌⊎◌, [], ◌∷◌, ◌++◌, arith, leb,
  length, take, drop, min, length-take, append_assoc, append-nil, Bool-cases, inl, inr,
}
use native.Mathlib.Nat.{div-add-mod, mod-lt, mul_comm}
use neptools.Prelude.Bytes.{Bytes}
use neptools.Prelude.Slices.{take-append, drop-append, drop-drop}
use neptools.Prelude.Result.{Result, ok}
use neptools.Sink.Mapped.{Mapped, overwrite}

-- The buffer ends in the file: at its end, or after a chunk.
abbrev pub IsMap : ℕ → Mapped → Type 0
IsMap chunk s =
    (s.offset + s.buf_size ≤ s.size) × ((s.buf_size ≡ chunk) ⊎ (s.offset + s.buf_size ≡ s.size))

-- The sink holds `block`, and `tail` is still to be written over.
pub record Holds (chunk : ℕ) (s : Mapped) (block tail : Bytes) : Type 0 where
  pub parts : s.file ≡ block ++ tail
  pub whole : length block + length tail ≡ s.size
  pub bounded : s.size < 2 ^ 63
  pub place : length block ≡ s.offset + s.buf_put
  pub room : s.buf_put ≤ s.buf_size
  pub map : IsMap chunk s ⊎ (s.offset ≡ s.size)

-- An operation succeeded, and the sink holds other bytes now.
pub record Puts (chunk : ℕ) (block tail : Bytes) (r : Result Mapped) : Type 0 where
  pub after : Mapped
  pub result : r ≡ ok after
  pub holds : Holds chunk after block tail

-- Bytes written behind those that are held.
pub overwrite-behind :
    (block tail new : Bytes) (at_k : ℕ)
    → at_k ≡ length block
    → overwrite (block ++ tail) at_k new ≡ (block ++ new) ++ drop (length new) tail
overwrite-behind block tail new at_k h =
    ap (λ k. overwrite (block ++ tail) k new) h
    ∙ ap (λ xs. xs ++ (new ++ drop (length block + length new) (block ++ tail)))
        (take-append block tail)
    ∙ ap (λ xs. block ++ (new ++ xs))
        (sym (drop-drop (length new) (length block) (block ++ tail))
          ∙ ap (drop (length new)) (drop-append block tail))
    ∙ sym (append_assoc block new (drop (length new) tail))

-- `n` bytes in whole chunks.
pub record IsChunks (chunk len n : ℕ) : Type 0 where
  pub below : n ≤ len
  pub rest : len - n < chunk

pub rounded-IsChunks : (chunk len : ℕ) → 0 < chunk → IsChunks chunk len (len / chunk * chunk)
rounded-IsChunks chunk len p =
    let whole : len / chunk * chunk + len % chunk ≡ len =
      ap (λ k. k + len % chunk) (mul_comm (len / chunk) chunk) ∙ div-add-mod len chunk in
    let below = mod-lt len p in cut_at (len / chunk * chunk) whole below
  where
    cut_at : (n : ℕ) → n + len % chunk ≡ len → len % chunk < chunk → IsChunks chunk len n
    cut_at n whole below = record { below = omega arith; rest = omega arith }

pub nothing-behind :
    (block new tail : Bytes)
    → length new ≡ 0
    → block ++ tail ≡ (block ++ new) ++ drop (length new) tail
nothing-behind block [] tail h = ap (λ xs. xs ++ tail) (sym (append-nil block))
nothing-behind block (x ∷ new) tail h = absurd (omega arith)

pub map_size :
    (chunk offset size : ℕ)
    → offset < size
    → (min chunk (size - offset) ≡ chunk) ⊎ (offset + min chunk (size - offset) ≡ size)
map_size chunk offset size h = elim (Bool-cases (leb chunk (size - offset))) [
  | inl y ↦ let le : chunk ≤ size - offset = ground arith in inl (omega arith)
  | inr n ↦ let lt : size - offset < chunk = ground arith in inr (omega arith)
]

pub less-chunk : (q len chunk : ℕ) → q ≡ 0 → len - q * chunk < chunk → len < chunk
less-chunk q len chunk h below =
    let none : q * chunk ≡ 0 = ap (λ k. k * chunk) h ∙ omega arith in omega arith

pub taken-length : (n : ℕ) (block : Bytes) → n ≤ length block → length (take n block) ≡ n
taken-length n block le = let e = length-take n block in omega arith
