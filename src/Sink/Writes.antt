-- ===== src/Sink/Writes.antt =====
-- What src/sink.cpp puts into the file: the bytes that were written, one block behind the other.
use neptools.Prelude.{
  ℕ, ◌+◌, ◌-◌, ◌%◌, ◌^◌, ◌≤◌, ◌<◌, ◌≡◌, refl, sym, ap, ◌∙◌, true, false, [], ◌∷◌, ◌++◌, arith, leb,
  ◌==◌, length, take, drop, min, length-append, length-take, length-drop, take-append-drop,
  append_assoc, append-nil, Bool-cases, inl, inr,
}
use mathlib.Core.Path.{subst}
use neptools.Prelude.Bytes.{Bytes}
use neptools.Prelude.Result.{Result, ok}
use neptools.Sink.{Sink, tell, flush, write_rest, write}

-- What is in the file, and what is in the buffer behind it.
abbrev pub output : Sink → Bytes
output s = s.written ++ s.buf

-- The buffer is not overfull, and the offset is that of its start in the file.
pub record IsSink (chunk : ℕ) (s : Sink) : Type 0 where
  pub room : length s.buf ≤ chunk
  pub place : s.offset ≡ length s.written
  pub bounded : s.size < 2 ^ 64
  pub fits : length (output s) ≤ s.size

-- An operation succeeded, and put `block` behind what was there.
pub record Wrote (chunk : ℕ) (s : Sink) (block : Bytes) (r : Result Sink) : Type 0 where
  pub after : Sink
  pub result : r ≡ ok after
  pub sink : IsSink chunk after
  pub same_size : after.size ≡ s.size
  pub appended : output after ≡ output s ++ block

length-zero : (xs : Bytes) → length xs ≡ 0 → xs ≡ []
length-zero [] h = refl
length-zero (x ∷ xs) h = absurd (omega arith)

flush_none : (s : Sink) → (length s.buf == 0) ≡ true → flush s ≡ s
unfolding flush
flush_none s z = rw z refl

flush_some :
    (s : Sink)
    → (length s.buf == 0) ≡ false
    → flush s ≡ record {
      written = output s;
      buf = [];
      offset = (s.offset + length s.buf) % 2 ^ 64;
      size = s.size;
    }
unfolding flush
flush_some s n = rw n refl

abbrev Flushed : ℕ → Sink → Sink → Type 0
Flushed chunk s t =
    IsSink chunk t × (t.written ≡ output s) × (t.buf ≡ []) × (t.size ≡ s.size) × (tell t ≡ tell s)

-- `Flush` of a sink that is as it should be empties the buffer into the file, behind what was written before. The
-- size and what `Tell` says stay, and the sink is as it should be: its offset is behind all that was written.
pub flush-output :
    (chunk : ℕ) (s : Sink)
    → IsSink chunk s
    → IsSink chunk (flush s)
      × ((flush s).written ≡ output s)
      × ((flush s).buf ≡ [])
      × ((flush s).size ≡ s.size)
      × (tell (flush s) ≡ tell s)
flush-output chunk s w = elim (Bool-cases (length s.buf == 0)) [
  | inl z ↦
      let none : s.buf ≡ [] = length-zero s.buf (ground arith) in
      subst (Flushed chunk s) (sym (flush_none s z))
        (w, sym (ap (λ b. s.written ++ b) none ∙ append-nil s.written), none, refl, refl)
  | inr n ↦
      let len = length-append s.written s.buf in
      let end = append-nil (s.written ++ s.buf) in
      subst (Flushed chunk s) (sym (flush_some s n)) (
        record {
          room = omega arith;
          place = omega (arith, w.place, w.fits, w.bounded, len);
          bounded = w.bounded;
          fits = rw end w.fits;
        },
        refl,
        refl,
        refl,
        omega arith,
      )
]

module _ (chunk : ℕ) where
  write_rest-Wrote :
      (block : Bytes) (s : Sink)
      → IsSink chunk s
      → length s.buf ≡ chunk
      → length (output s) + length block ≤ s.size
      → Wrote chunk s block (write_rest chunk block s)
  unfolding write_rest
  write_rest-Wrote block s w full fits = elim (Bool-cases (leb chunk (length block))) [
    | inl big ↦
        let all = output s ++ block in
        let len = length-append s.written s.buf in
        let len' = length-append (output s) block in
        let end = append-nil all in
        record {
          after = record {
            written = all;
            buf = [];
            offset = ((s.offset + length s.buf) % 2 ^ 64 + length block) % 2 ^ 64;
            size = s.size;
          };
          result = ground arith;
          sink = record {
            room = omega arith;
            place = omega (arith, w.place, w.fits, w.bounded, len, len');
            bounded = w.bounded;
            fits = rw end (omega (arith, len'));
          };
          same_size = refl;
          appended = end;
        }
    | inr small ↦
        let len = length-append s.written s.buf in
        let len' = length-append (output s) block in
        record {
          after = record {
            written = output s;
            buf = block;
            offset = (s.offset + length s.buf) % 2 ^ 64;
            size = s.size;
          };
          result = ground arith;
          sink = record {
            room = ground arith;
            place = omega (arith, w.place, w.fits, w.bounded, len);
            bounded = w.bounded;
            fits = omega (arith, len');
          };
          same_size = refl;
          appended = refl;
        }
  ]

  -- What the buffer takes of a block, before anything is written.
  pub buffered-IsSink :
      (front rest : Bytes) (s : Sink)
      → IsSink chunk s
      → length s.buf + length front ≤ chunk
      → length (output s) + (length front + length rest) ≤ s.size
      → IsSink chunk (record s { buf = s.buf ++ front })
  buffered-IsSink front rest s w room fits =
      let a = length-append s.buf front in
      let b = length-append s.written (s.buf ++ front) in
      let d = length-append s.written s.buf in
      record { room = omega arith; place = w.place; bounded = w.bounded; fits = omega arith }

  write-all :
      (block : Bytes) (s : Sink)
      → length (output s) + length block ≤ s.size
      → IsSink chunk s
      → length (drop (min (length block) (chunk - length s.buf)) block) ≡ 0
      → write chunk block s
        ≡ ok (record s { buf = s.buf ++ take (min (length block) (chunk - length s.buf)) block })
  unfolding write
  write-all block s fits w none = ground (arith, w.place, w.bounded, length-append s.written s.buf)

  write-more :
      (block : Bytes) (s : Sink) {r : Sink}
      → length (output s) + length block ≤ s.size
      → IsSink chunk s
      → 0 < length (drop (min (length block) (chunk - length s.buf)) block)
      → write_rest chunk
          (drop (min (length block) (chunk - length s.buf)) block)
          (record s { buf = s.buf ++ take (min (length block) (chunk - length s.buf)) block })
        ≡ ok r
      → write chunk block s ≡ ok r
  unfolding write
  write-more block s fits w some e =
      ground (arith, w.place, w.bounded, length-append s.written s.buf, e)

  -- `Write` of a block that fits into the rest of a sink's size succeeds, and puts the block behind
  -- what was written before, in the file or in the buffer, which is not overfull; the offset is again
  -- that of the buffer in the file.
  pub write-Wrote :
      (block : Bytes) (s : Sink)
      → IsSink chunk s
      → length (output s) + length block ≤ s.size
      → Wrote chunk s block (write chunk block s)
  write-Wrote block s w fits =
      let cp = min (length block) (chunk - length s.buf) in
      let front = take cp block in
      let rest = drop cp block in
      let t : Sink = record s { buf = s.buf ++ front } in
      let front_len = length-take cp block in
      let rest_len = length-drop cp block in
      let whole : output t ++ rest ≡ output s ++ block =
        ap (λ xs. xs ++ rest) (sym (append_assoc s.written s.buf front))
        ∙ append_assoc (output s) front rest
        ∙ ap (λ xs. output s ++ xs) (take-append-drop cp block) in
      let t_len = length-append s.buf front in
      let ready = buffered-IsSink front rest s w (omega (arith, w.room)) (omega arith) in
      elim (Bool-cases (length rest == 0)) [
        | inl z ↦
            let none : length rest ≡ 0 = ground arith in
            record {
              after = t;
              result = write-all block s fits w none;
              sink = ready;
              same_size = refl;
              appended =
                  sym (append-nil (output t))
                  ∙ ap (λ xs. output t ++ xs) (sym (length-zero rest none))
                  ∙ whole;
            }
        | inr n ↦
            let some : 0 < length rest = ground arith in
            let out_len = length-append (output t) rest in
            let out_len' = length-append (output s) block in
            let same_len : length (output t ++ rest) ≡ length (output s ++ block) =
              ap length whole in
            let m = write_rest-Wrote rest t ready (omega (arith, w.room)) (omega arith) in
            record {
              after = m.after;
              result = write-more block s fits w some m.result;
              sink = m.sink;
              same_size = m.same_size;
              appended = m.appended ∙ whole;
            }
      ]
