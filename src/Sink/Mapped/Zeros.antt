-- ===== src/Sink/Mapped/Zeros.antt =====
-- Zeros in the buffer of `MmapSink` of src/sink.cpp, in a file that is zero there.
use neptools.Prelude.{
  replicate-append, ℕ, zero, suc, ◌+◌, ◌-◌, ◌≤◌, ◌≡◌, refl, sym, ap, ◌∙◌, ◌++◌, arith, length,
  replicate, length-append, length-replicate, append_assoc, drop,
}
use neptools.Prelude.Bytes.{Bytes}
use neptools.Sink.Mapped.{Mapped, overwrite}
use neptools.Sink.Mapped.Holds.{Holds, overwrite-behind}

pub zeros_join :
    (held : Bytes) (n m : ℕ)
    → (held ++ replicate n 0) ++ replicate m 0 ≡ held ++ replicate (n + m) 0
zeros_join held n m =
    append_assoc held (replicate n 0) (replicate m 0)
    ∙ ap (λ xs. held ++ xs) (replicate-append n m 0)

pub zeros_moved :
    (held : Bytes) (n left : ℕ)
    → n ≤ left
    → held ++ replicate left 0 ≡ (held ++ replicate n 0) ++ replicate (left - n) 0
zeros_moved held n left le =
    let e : n + (left - n) ≡ left = omega arith in
    sym (zeros_join held n (left - n) ∙ ap (λ k. held ++ replicate k 0) e)

drop-zeros : (n k : ℕ) → drop {A = ℕ} n (replicate k 0) ≡ replicate (k - n) 0
drop-zeros zero k = let e : k - 0 ≡ k = omega arith in rw e refl
drop-zeros (suc n) zero = let e : 0 - suc n ≡ 0 = omega arith in rw e refl
drop-zeros (suc n) (suc k) = let e : suc k - suc n ≡ k - n = omega arith in rw e (drop-zeros n k)

-- The zeros that go into the buffer.
abbrev pub zeroed : ℕ → Mapped → Mapped
zeroed cp s = record s {
  file = overwrite s.file (s.offset + s.buf_put) (replicate cp 0);
  buf_put = s.buf_put + cp;
}

module _ (chunk : ℕ) where
  pub zeroed-Holds :
      (s : Mapped) (held : Bytes) (left cp : ℕ)
      → Holds chunk s held (replicate left 0)
      → cp ≤ left
      → cp ≤ s.buf_size - s.buf_put
      → Holds chunk (zeroed cp s) (held ++ replicate cp 0) (replicate (left - cp) 0)
  zeroed-Holds s held left cp h le room =
      let z : length (replicate {A = ℕ} left 0) ≡ left = length-replicate left 0 in
      let y : length (replicate {A = ℕ} cp 0) ≡ cp = length-replicate cp 0 in
      let x : length (replicate {A = ℕ} (left - cp) 0) ≡ left - cp =
        length-replicate (left - cp) 0 in
      let moved = length-append held (replicate cp 0) in
      record {
        parts =
            ap (λ xs. overwrite xs (s.offset + s.buf_put) (replicate cp 0)) h.parts
            ∙ overwrite-behind held (replicate left 0) (replicate cp 0) (s.offset + s.buf_put)
                (sym h.place)
            ∙ ap (λ xs. (held ++ replicate cp 0) ++ xs)
                (ap (λ k. drop k (replicate left 0)) y ∙ drop-zeros cp left);
        whole = omega (arith, h.whole);
        bounded = h.bounded;
        place = omega (arith, h.place);
        room = omega (arith, h.room);
        map = h.map;
      }
