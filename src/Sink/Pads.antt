-- ===== src/Sink/Pads.antt =====
-- `SimpleSink::Pad_` and `Sink::Pad` of src/sink.hpp and src/sink.cpp: how many zeros they write.
use neptools.Prelude.{
  replicate-append, ℕ, ◌+◌, ◌-◌, ◌%◌, ◌^◌, ◌≤◌, ◌<◌, ◌≡◌, refl, sym, ap, ◌∙◌, ◌&&◌, ◌++◌, arith,
  leb, ◌==◌, if◌then◌else◌, length, replicate, min, length-append, length-replicate, append_assoc,
  append-nil, Bool-cases, inl, inr,
}
use native.Mathlib.Nat.{mod-eq-sub-mod, mod-eq_of_lt, mod-lt}
use neptools.Prelude.Bytes.{Bytes}
use neptools.Prelude.Result.{ok}
use neptools.Sink.{Sink, pad_loop, pad_rest, pad}
use neptools.Sink.Writes.{output, IsSink, Wrote, buffered-IsSink}
use neptools.Sink.PadLoop.{pad_loop-LoopEnds}

module _ (chunk : ℕ) (positive : 0 < chunk) where
  -- The zeros that `Pad_` writes behind a full buffer, of `len` that it should write.
  abbrev pub kept_zeros : ℕ → ℕ
  kept_zeros len = if leb chunk len && len % chunk == 0 then len - chunk else len

  pad_rest-big :
      (len last : ℕ) (bytes : Bytes) (s : Sink)
      → length s.buf ≡ chunk
      → chunk ≤ len
      → pad_loop chunk len chunk len ≡ ok (bytes, last)
      → pad_rest chunk len s
        ≡ ok (record {
          written = output s ++ bytes;
          buf = replicate (len % chunk) 0;
          offset = ((s.offset + length s.buf) % 2 ^ 64 + last - chunk) % 2 ^ 64;
          size = s.size;
        })
  unfolding pad_rest
  pad_rest-big len last bytes s full big e = ground (arith, e)

  pad_rest-small :
      (len : ℕ) (s : Sink)
      → length s.buf ≡ chunk
      → len < chunk
      → pad_rest chunk len s
        ≡ ok (record {
          written = output s;
          buf = replicate len 0;
          offset = (s.offset + length s.buf) % 2 ^ 64;
          size = s.size;
        })
  unfolding pad_rest
  pad_rest-small len s full small =
      let same : len % chunk ≡ len = mod-eq_of_lt small in ground arith

  -- How far the loop went, and the zeros that it left to the buffer.
  loop_total :
      (len last : ℕ)
      → chunk ≤ len
      → ((len - chunk) % chunk ≡ 0 → last ≡ len)
      → (0 < (len - chunk) % chunk → last + (len - chunk) % chunk ≡ len + chunk)
      → chunk ≤ last
      → (last - chunk + len % chunk ≡ kept_zeros len) × (kept_zeros len ≤ len)
  loop_total len last big even odd forward =
      let same : len % chunk ≡ (len - chunk) % chunk = mod-eq-sub-mod {n = len} {m = chunk} big in
      elim (Bool-cases (len % chunk == 0)) [
        | inl z ↦ let e : last ≡ len = even (sym same ∙ ground arith) in ground arith
        | inr n ↦
            let p : 0 < len % chunk = ground arith in
            let e : last + (len - chunk) % chunk ≡ len + chunk = odd (omega arith) in ground arith
      ]

  pad_rest-Wrote :
      (len : ℕ) (s : Sink)
      → IsSink chunk s
      → length s.buf ≡ chunk
      → length (output s) + len ≤ s.size
      → Wrote chunk s (replicate (kept_zeros len) 0) (pad_rest chunk len s)
  pad_rest-Wrote len s w full fits = elim (Bool-cases (leb chunk len)) [
    | inr c ↦
        let small : len < chunk = ground arith in
        let keeps : kept_zeros len ≡ len = ground arith in
        let a = length-append s.written s.buf in
        let b = length-append (output s) (replicate len 0) in
        let z : length (replicate {A = ℕ} len 0) ≡ len = length-replicate len 0 in
        record {
          after = record {
            written = output s;
            buf = replicate len 0;
            offset = (s.offset + length s.buf) % 2 ^ 64;
            size = s.size;
          };
          result = pad_rest-small len s full small;
          sink = record {
            room = omega arith;
            place = omega (arith, w.place, w.bounded, w.fits);
            bounded = w.bounded;
            fits = omega arith;
          };
          same_size = refl;
          appended = ap (λ k. output s ++ replicate k 0) (sym keeps);
        }
    | inl c ↦
        let big : chunk ≤ len = ground arith in
        let q = pad_loop-LoopEnds chunk positive len chunk len big (omega arith) in
        let (total, below) = loop_total len q.last big q.even q.odd q.forward in
        let zeros : Bytes = replicate (q.last - chunk) 0 in
        let end : Bytes = replicate (len % chunk) 0 in
        let a = length-append s.written s.buf in
        let b = length-append (output s) zeros in
        let d = length-append (output s ++ zeros) end in
        let x : length zeros ≡ q.last - chunk = length-replicate (q.last - chunk) 0 in
        let y : length end ≡ len % chunk = length-replicate (len % chunk) 0 in
        record {
          after = record {
            written = output s ++ zeros;
            buf = end;
            offset = ((s.offset + length s.buf) % 2 ^ 64 + q.last - chunk) % 2 ^ 64;
            size = s.size;
          };
          result = pad_rest-big len q.last zeros s full big q.result;
          sink = record {
            room = omega (arith, y, mod-lt len positive);
            place = omega (arith, w.place, w.bounded, w.fits, q.forward, total, below, a, b, x);
            bounded = w.bounded;
            fits = omega (arith, total, below, a, b, d, x, y);
          };
          same_size = refl;
          appended =
              append_assoc (output s) zeros end
              ∙ ap (λ xs. output s ++ xs) (replicate-append (q.last - chunk) (len % chunk) 0)
              ∙ ap (λ k. output s ++ replicate k 0) total;
        }
  ]

  -- What `Pad` leaves to `Pad_`.
  abbrev pub pad_left_over : ℕ → Sink → ℕ
  pad_left_over len s = len - min len (chunk - length s.buf)

  -- The zeros that `Pad` writes.
  abbrev pub padded : ℕ → Sink → ℕ
  padded len s = min len (chunk - length s.buf) + kept_zeros (pad_left_over len s)

  pad-all :
      (len : ℕ) (s : Sink)
      → length (output s) + len ≤ s.size
      → IsSink chunk s
      → pad_left_over len s ≡ 0
      → pad chunk len s
        ≡ ok (record s { buf = s.buf ++ replicate (min len (chunk - length s.buf)) 0 })
  unfolding pad
  pad-all len s fits w none = ground (arith, w.place, w.bounded, length-append s.written s.buf)

  pad-more :
      (len : ℕ) (s : Sink) {r : Sink}
      → length (output s) + len ≤ s.size
      → IsSink chunk s
      → 0 < pad_left_over len s
      → pad_rest chunk
          (pad_left_over len s)
          (record s { buf = s.buf ++ replicate (min len (chunk - length s.buf)) 0 })
        ≡ ok r
      → pad chunk len s ≡ ok r
  unfolding pad
  pad-more len s fits w some e =
      ground (arith, w.place, w.bounded, length-append s.written s.buf, e)

  -- `Pad` of a length that fits into the rest of a sink's size succeeds. It writes as many zeros as
  -- it should, or a whole chunk less: the latter exactly if what is left when the buffer is full is a
  -- positive multiple of the chunk.
  pub pad-Wrote :
      (len : ℕ) (s : Sink)
      → IsSink chunk s
      → length (output s) + len ≤ s.size
      → Wrote chunk s (replicate (padded len s) 0) (pad chunk len s)
  pad-Wrote len s w fits =
      let cp = min len (chunk - length s.buf) in
      let left = pad_left_over len s in
      let front : Bytes = replicate cp 0 in
      let t : Sink = record s { buf = s.buf ++ front } in
      let front_len : length front ≡ cp = length-replicate cp 0 in
      let left_len : length (replicate {A = ℕ} left 0) ≡ left = length-replicate left 0 in
      let ready =
        buffered-IsSink chunk front (replicate left 0) s w (omega (arith, w.room)) (omega arith) in
      let t_len = length-append s.buf front in
      let out_t = length-append s.written (s.buf ++ front) in
      let out_s = length-append s.written s.buf in
      let joined : (k : ℕ) → output t ++ replicate k 0 ≡ output s ++ replicate (cp + k) 0 = λ k.
        ap (λ xs. xs ++ replicate k 0) (sym (append_assoc s.written s.buf front))
        ∙ append_assoc (output s) front (replicate k 0)
        ∙ ap (λ xs. output s ++ xs) (replicate-append cp k 0) in
      elim (Bool-cases (left == 0)) [
        | inl z ↦
            let none : left ≡ 0 = ground arith in
            let zeros : cp + kept_zeros left ≡ cp + 0 = ground (arith, positive) in
            record {
              after = t;
              result = pad-all len s fits w none;
              sink = ready;
              same_size = refl;
              appended =
                  sym (append-nil (output t))
                  ∙ joined 0
                  ∙ ap (λ k. output s ++ replicate k 0) (sym zeros);
            }
        | inr n ↦
            let some : 0 < left = ground arith in
            let m = pad_rest-Wrote left t ready (omega (arith, w.room)) (omega arith) in
            record {
              after = m.after;
              result = pad-more len s fits w some m.result;
              sink = m.sink;
              same_size = m.same_size;
              appended = m.appended ∙ joined (kept_zeros left);
            }
      ]
