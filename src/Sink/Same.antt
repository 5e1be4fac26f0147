-- ===== src/Sink/Same.antt =====
-- The sinks of src/sink.hpp as one abstract file: blocks that are written one behind the other, whichever sink takes
-- them.
use neptools.Prelude.{
  ℕ, ◌+◌, ◌-◌, ◌≤◌, ◌<◌, ◌^◌, ◌≡◌, refl, sym, ap, ◌∙◌, List, [], ◌∷◌, ◌++◌, arith, length,
  replicate, drop, length-append, length-drop, length-take, take, length-replicate,
  take-append-drop, append_assoc, append-nil, inl, inr, ltb, min, Bool-cases,
}
use neptools.Prelude.Bytes.{Bytes}
use neptools.Prelude.Slices.{drop-drop}
use neptools.Prelude.Result.{Result, ok, err, assertion, ◌>>=◌}
use neptools.Sink.{Sink, new_sink, write, flush}
use neptools.Sink.Writes.{output, IsSink, write-Wrote, flush-output}
use neptools.Sink.Mapped.{Mapped, memory_sink, mmap_sink, memory_write, mmap_write}
use neptools.Sink.Mapped.Holds.{Holds}
use neptools.Sink.Mapped.Writes.{
  fitting, buffered, write_over-all, buffered-Holds, moved, mmap_write-Puts,
}

-- All of the blocks, one behind the other.
abbrev pub joined : List Bytes → Bytes
joined [] = []
joined (block ∷ blocks) = block ++ joined blocks

-- One `Write` for each block.
unfoldable pub write_all {ℓ} : {S : Type ℓ} → (Bytes → S → Result S) → List Bytes → S → Result S
write_all put [] s = ok s
write_all put (block ∷ blocks) s = do t ← put block s; write_all put blocks t

-- A `put` succeeded: the sink holds `held` now, with `tail` still to be written over.
pub record Took {ℓ} {S : Type ℓ} (Inv : S → Bytes → Bytes → Type 0) (held tail : Bytes)
    (r : Result S) : Type ℓ where
  pub after : S
  pub result : r ≡ ok after
  pub kept : Inv after held tail

-- What each sink promises: a block that fits is put behind what is held, and a sink that is full closes to what it
-- holds.
pub record IsSinkOf {ℓ} {S : Type ℓ} (put : Bytes → S → Result S) (closed : S → Bytes)
    (Inv : S → Bytes → Bytes → Type 0) : Type ℓ where
  pub takes :
      (s : S) (held block tail : Bytes)
      → Inv s held tail
      → length block ≤ length tail
      → Took Inv (held ++ block) (drop (length block) tail) (put block s)
  pub closes : (s : S) (held tail : Bytes) → Inv s held tail → length tail ≡ 0 → closed s ≡ held

module _ {ℓ} {S : Type ℓ} (put : Bytes → S → Result S) (closed : S → Bytes)
    (Inv : S → Bytes → Bytes → Type 0) (laws : IsSinkOf put closed Inv) where
  write_all-block :
      (s t : S) (block : Bytes) (blocks : List Bytes) {r : Result S}
      → put block s ≡ ok t
      → write_all put blocks t ≡ r
      → write_all put (block ∷ blocks) s ≡ r
  unfolding write_all
  write_all-block s t block blocks e e' = rw e e'

  write_all-none : (s : S) → write_all put [] s ≡ ok s
  unfolding write_all
  write_all-none s = refl

  write_all-closed :
      (blocks : List Bytes) (s : S) (held tail : Bytes)
      → Inv s held tail
      → length (joined blocks) ≡ length tail
      → (write_all put blocks s >>= λ t. ok (closed t)) ≡ ok (held ++ joined blocks)
  write_all-closed [] s held tail i e =
      ap (λ r. r >>= λ t. ok (closed t)) (write_all-none s)
      ∙ ap (λ xs. ok xs) (laws.closes s held tail i (sym e) ∙ sym (append-nil held))
  write_all-closed (block ∷ blocks) s held tail i e =
      let len = length-append block (joined blocks) in
      let left = length-drop (length block) tail in
      let m = laws.takes s held block tail i (omega arith) in
      ap (λ r. r >>= λ t. ok (closed t)) (write_all-block s m.after block blocks m.result refl)
      ∙ write_all-closed blocks m.after (held ++ block) (drop (length block) tail) m.kept
          (omega arith)
      ∙ ap (λ xs. ok xs) (append_assoc held block (joined blocks))

-- `SimpleSink`: the file when it has been flushed.
abbrev pub flushed : Sink → Bytes
flushed s = (flush s).written

abbrev HoldsSimple : ℕ → Sink → Bytes → Bytes → Type 0
HoldsSimple chunk s held tail =
    IsSink chunk s × (output s ≡ held) × (length held + length tail ≡ s.size)

simple-IsSinkOf : (chunk : ℕ) → IsSinkOf (write chunk) flushed (HoldsSimple chunk)
simple-IsSinkOf chunk = record {
  takes = λ s held block tail (w, e, whole) fits.
      let len = length-append s.written s.buf in
      let out : length (output s) ≡ length held = ap length e in
      let m = write-Wrote chunk block s w (omega arith) in
      let moved = length-append held block in
      let left = length-drop (length block) tail in
      record {
        after = m.after;
        result = m.result;
        kept = (m.sink, m.appended ∙ ap (λ xs. xs ++ block) e, omega (arith, m.same_size));
      };
  closes =
      λ s held tail (w, e, whole) none. let (w', f, b, z, told) = flush-output chunk s w in f ∙ e;
}

nothing_left : (xs ys tail : Bytes) → xs ≡ ys ++ tail → length tail ≡ 0 → xs ≡ ys
nothing_left xs ys [] e h = e ∙ append-nil ys
nothing_left xs ys (x ∷ tail) e h = absurd (omega arith)

mmap-IsSinkOf : (chunk : ℕ) → 0 < chunk → IsSinkOf (mmap_write chunk) (λ s. s.file) (Holds chunk)
mmap-IsSinkOf chunk positive = record {
  takes = λ s held block tail h fits.
      let m = mmap_write-Puts chunk s held block tail positive h fits in
      record { after = m.after; result = m.result; kept = m.holds };
  closes = λ s held tail h none. nothing_left s.file held tail h.parts none;
}

-- The buffer of `MemorySink` is all of the file.
abbrev HoldsMemory : Mapped → Bytes → Bytes → Type 0
HoldsMemory s held tail = Holds 1 s held tail × (s.offset + s.buf_size ≡ s.size)

memory_write-all :
    (s : Mapped) (block : Bytes)
    → s.offset + s.buf_put + length block ≤ s.size
    → s.size < 2 ^ 63
    → length (drop (fitting block s) block) ≡ 0
    → memory_write block s ≡ ok (buffered block s)
unfolding memory_write
memory_write-all s block fits b none = write_over-all (λ rest t. err assertion) block s fits b none

memory-IsSinkOf : IsSinkOf memory_write (λ s. s.file) HoldsMemory
memory-IsSinkOf = record {
  takes = λ s held block tail (h, all) fits.
      let cp = fitting block s in
      let rest_len : length (drop cp block) ≡ length block - cp = length-drop cp block in
      let none : length (drop cp block) ≡ 0 = omega (arith, h.whole, h.place) in
      let front_len : length (take cp block) ≡ min cp (length block) = length-take cp block in
      record {
        after = buffered block s;
        result = memory_write-all s block (omega (arith, h.whole, h.place)) h.bounded none;
        kept = (
          moved 1 (buffered block s) (held ++ take cp block) (drop cp block)
              (drop (length (take cp block)) tail) (held ++ block) (drop (length block) tail) none
              (append_assoc held (take cp block) (drop cp block)
                ∙ ap (λ xs. held ++ xs) (take-append-drop cp block))
              (drop-drop (length (drop cp block)) (length (take cp block)) tail
                ∙ ap (λ k. drop k tail) (omega arith))
              (buffered-Holds 1 s held block tail h fits (take cp block) refl),
          all,
        );
      };
  closes = λ s held tail (h, all) none. nothing_left s.file held tail h.parts none;
}

mmap_sink-Holds :
    (limit chunk size : ℕ)
    → chunk ≤ limit
    → size < 2 ^ 63
    → Holds chunk (mmap_sink limit chunk size) [] (replicate size 0)
unfolding mmap_sink
mmap_sink-Holds limit chunk size le b =
    let z : length (replicate {A = ℕ} size 0) ≡ size = length-replicate size 0 in
    record {
      parts = refl;
      whole = omega arith;
      bounded = b;
      place = refl;
      room = omega arith;
      map = inl (elim (Bool-cases (ltb size limit)) [
        | inl y ↦ (ground arith, inr (ground arith))
        | inr n ↦ (ground arith, inl (ground arith))
      ]);
    }

-- `SimpleSink`, `MmapSink` and `MemorySink` of one size below 2^63 are one file: blocks whose lengths
-- add up to the size are taken without an error by each of them, in any split and whatever their
-- chunks are, if `MMAP_CHUNK` is positive and at most `MMAP_LIMIT`, and each closes to the blocks one
-- behind the other. Nothing of the memory's old bytes is left.
pub sinks-same :
    (mem_chunk limit chunk size : ℕ) (memory : Bytes) (blocks : List Bytes)
    → 0 < chunk
    → chunk ≤ limit
    → size < 2 ^ 63
    → length memory ≡ size
    → length (joined blocks) ≡ size
    → ((write_all (write mem_chunk) blocks (new_sink size) >>= λ t. ok (flushed t))
        ≡ ok (joined blocks))
      × ((write_all (mmap_write chunk) blocks (mmap_sink limit chunk size) >>= λ t. ok t.file)
          ≡ ok (joined blocks))
      × ((write_all memory_write blocks (memory_sink memory) >>= λ t. ok t.file)
          ≡ ok (joined blocks))
sinks-same mem_chunk limit chunk size memory blocks p le b m e =
    let z : length (replicate {A = ℕ} size 0) ≡ size = length-replicate size 0 in
    let empty : IsSink mem_chunk (new_sink size) = record {
      room = omega arith;
      place = refl;
      bounded = omega arith;
      fits = omega arith;
    } in
    let new : Holds 1 (memory_sink memory) [] memory = record {
      parts = refl;
      whole = omega arith;
      bounded = omega arith;
      place = refl;
      room = omega arith;
      map = inl (omega arith, inr (omega arith));
    } in
    (
      write_all-closed (write mem_chunk) flushed (HoldsSimple mem_chunk) (simple-IsSinkOf mem_chunk)
          blocks (new_sink size) [] (replicate size 0) (empty, refl, omega arith) (omega arith),
      write_all-closed (mmap_write chunk) (λ s. s.file) (Holds chunk) (mmap-IsSinkOf chunk p) blocks
          (mmap_sink limit chunk size) [] (replicate size 0) (mmap_sink-Holds limit chunk size le b)
          (omega arith),
      write_all-closed memory_write (λ s. s.file) HoldsMemory memory-IsSinkOf blocks
          (memory_sink memory) [] memory (new, omega arith) (omega arith),
    )
