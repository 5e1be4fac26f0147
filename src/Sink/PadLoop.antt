-- ===== src/Sink/PadLoop.antt =====
-- The loop of `SimpleSink::Pad_` of src/sink.cpp.
use neptools.Prelude.{
  replicate-append, ℕ, zero, suc, ◌+◌, ◌-◌, ◌%◌, ◌≤◌, ◌<◌, ◌≡◌, sym, ap, ◌∙◌, [], ◌++◌, arith, ltb,
  leb, replicate, append-nil, Bool-cases, inl, inr, ltb→lt,
}
use native.Mathlib.Nat.{mod-eq-sub-mod, mod-eq_of_lt}
use neptools.Prelude.Bytes.{Bytes}
use neptools.Prelude.Result.{Result, ok}
use neptools.Sink.{pad_loop}

module _ (chunk : ℕ) (positive : 0 < chunk) where
  -- Where the loop ends, if it starts `d` before the end.
  pub record LoopEnds (i len : ℕ) (r : Result (Bytes × ℕ)) : Type 0 where
    pub last : ℕ
    pub result : r ≡ ok (replicate (last - i) 0, last)
    pub forward : i ≤ last
    pub even : (len - i) % chunk ≡ 0 → last ≡ len
    pub odd : 0 < (len - i) % chunk → last + (len - i) % chunk ≡ len + chunk

  loop_done : (fuel i len : ℕ) → len ≤ i → pad_loop chunk fuel i len ≡ ok ([], i)
  unfolding pad_loop
  loop_done zero i len h = ground arith
  loop_done (suc fuel) i len h = ground arith

  loop_round :
      (fuel i len last : ℕ) (bytes : Bytes)
      → i < len
      → pad_loop chunk fuel (i + chunk) len ≡ ok (bytes, last)
      → pad_loop chunk (suc fuel) i len ≡ ok (replicate chunk 0 ++ bytes, last)
  unfolding pad_loop
  loop_round fuel i len last bytes h e = ground (arith, e)

  pub pad_loop-LoopEnds :
      (fuel i len : ℕ) → i ≤ len → len - i ≤ fuel → LoopEnds i len (pad_loop chunk fuel i len)
  pad_loop-LoopEnds zero i len le enough =
      let none : len - i ≡ 0 = omega arith in
      let same : i - i ≡ 0 = omega arith in
      record {
        last = i;
        result = rw same (loop_done zero i len (omega arith));
        forward = omega arith;
        even = λ h. omega arith;
        odd = λ h. absurd (omega arith);
      }
  pad_loop-LoopEnds (suc fuel) i len le enough = elim (Bool-cases (ltb i len)) [
    | inr c ↦
        let done : len ≤ i = ground arith in
        let same : i - i ≡ 0 = omega arith in
        record {
          last = i;
          result = rw same (loop_done (suc fuel) i len done);
          forward = omega arith;
          even = λ h. omega arith;
          odd = λ h. absurd (omega arith);
        }
    | inl c ↦
        let below = ltb→lt i len c in
        elim (Bool-cases (leb (i + chunk) len)) [
          | inl more ↦
              let near : i + chunk ≤ len = ground arith in
              let q = pad_loop-LoopEnds fuel (i + chunk) len near (omega arith) in
              let same : (len - i) % chunk ≡ (len - (i + chunk)) % chunk =
                let e : len - i - chunk ≡ len - (i + chunk) = omega arith in
                mod-eq-sub-mod {n = len - i} {m = chunk} (omega arith) ∙ ap (λ k. k % chunk) e in
              let count : chunk + (q.last - (i + chunk)) ≡ q.last - i = omega (arith, q.forward) in
              record {
                last = q.last;
                result =
                    loop_round fuel i len q.last (replicate (q.last - (i + chunk)) 0) below q.result
                    ∙ ap (λ b. ok (b, q.last))
                        (replicate-append chunk (q.last - (i + chunk)) 0
                          ∙ ap (λ k. replicate k 0) count);
                forward = omega (arith, q.forward);
                even = λ h. q.even (sym same ∙ h);
                odd = λ h. rw same (q.odd (rw same at h));
              }
          | inr end ↦
              let past : len < i + chunk = ground arith in
              let rest : (len - i) % chunk ≡ len - i = mod-eq_of_lt (omega arith) in
              let count : i + chunk - i ≡ chunk = omega arith in
              record {
                last = i + chunk;
                result =
                    loop_round fuel i len (i + chunk) [] below
                      (loop_done fuel (i + chunk) len (omega arith))
                    ∙ ap (λ b. ok (b, i + chunk))
                        (append-nil (replicate chunk 0) ∙ ap (λ k. replicate k 0) (sym count));
                forward = omega arith;
                even = λ h. absurd (omega arith);
                odd = λ h. omega arith;
              }
        ]
  ]
