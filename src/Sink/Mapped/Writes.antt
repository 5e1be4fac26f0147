-- ===== src/Sink/Mapped/Writes.antt =====
-- `Sink::Write` of src/sink.hpp over the buffers of `MmapSink` and `MemorySink`.
use neptools.Prelude.{
  ℕ, ◌+◌, ◌-◌, ◌^◌, ◌≤◌, ◌<◌, ◌≡◌, refl, sym, ap, ◌∙◌, true, [], ◌∷◌, ◌++◌, arith, ◌==◌, length,
  take, drop, min, length-append, length-take, length-drop, take-append-drop, append_assoc,
  append-nil, Bool-cases, inl, inr,
}
use mathlib.Core.Path.{subst}
use neptools.Prelude.Bytes.{Bytes}
use neptools.Prelude.Slices.{drop-drop}
use neptools.Prelude.Result.{Result, ok}
use neptools.Sink.Mapped.{Mapped, overwrite, write_over, at_end_of_map, mmap_write_rest, mmap_write}
use neptools.Sink.Mapped.Holds.{Holds, Puts, overwrite-behind}
use neptools.Sink.Mapped.Rest.{mmap_write_rest-Puts}

-- What the buffer takes of a block.
abbrev pub fitting : Bytes → Mapped → ℕ
fitting block s = min (length block) (s.buf_size - s.buf_put)

abbrev pub buffered : Bytes → Mapped → Mapped
buffered block s = record s {
  file = overwrite s.file (s.offset + s.buf_put) (take (fitting block s) block);
  buf_put = s.buf_put + fitting block s;
}

pub write_over-all :
    (write_ : Bytes → Mapped → Result Mapped) (block : Bytes) (s : Mapped)
    → s.offset + s.buf_put + length block ≤ s.size
    → s.size < 2 ^ 63
    → length (drop (fitting block s) block) ≡ 0
    → write_over write_ block s ≡ ok (buffered block s)
unfolding write_over
write_over-all write_ block s fits b none = ground arith

write_over-more :
    (write_ : Bytes → Mapped → Result Mapped) (block : Bytes) (s : Mapped)
    → s.offset + s.buf_put + length block ≤ s.size
    → s.size < 2 ^ 63
    → 0 < length (drop (fitting block s) block)
    → write_over write_ block s ≡ write_ (drop (fitting block s) block) (buffered block s)
unfolding write_over
write_over-more write_ block s fits b some = ground arith

module _ (chunk : ℕ) where
  pub buffered-Holds :
      (s : Mapped) (held block tail : Bytes)
      → Holds chunk s held tail
      → length block ≤ length tail
      → (front : Bytes) → take (fitting block s) block ≡ front
      → Holds chunk (buffered block s) (held ++ front) (drop (length front) tail)
  buffered-Holds s held block tail h fits front e =
      let moved = length-append held front in
      let left = length-drop (length front) tail in
      let len : length front ≡ min (fitting block s) (length block) =
        ap length (sym e) ∙ length-take (fitting block s) block in
      record {
        parts =
            ap (λ xs. overwrite s.file (s.offset + s.buf_put) xs) e
            ∙ ap (λ xs. overwrite xs (s.offset + s.buf_put) front) h.parts
            ∙ overwrite-behind held tail front (s.offset + s.buf_put) (sym h.place);
        whole = omega (arith, h.whole);
        bounded = h.bounded;
        place = omega (arith, h.place);
        room = omega (arith, h.room);
        map = h.map;
      }

  -- Nothing more was written.
  pub moved :
      (s : Mapped) (held rest tail all behind : Bytes)
      → length rest ≡ 0
      → held ++ rest ≡ all
      → drop (length rest) tail ≡ behind
      → Holds chunk s held tail
      → Holds chunk s all behind
  moved s held [] tail all behind none whole same h =
      subst (λ xs. Holds chunk s xs behind) (sym (append-nil held) ∙ whole)
        (subst (λ xs. Holds chunk s held xs) same h)
  moved s held (x ∷ rest) tail all behind none whole same h = absurd (omega arith)

  -- What does not fit is written only behind a full chunk, and only when the file goes on.
  full-at_end :
      (s : Mapped) (held block tail : Bytes)
      → Holds chunk s held tail
      → length block ≤ length tail
      → 0 < length block - fitting block s
      → at_end_of_map chunk (buffered block s) ≡ true
  full-at_end s held block tail h fits some = elim h.map [
    | inl (below, inl full) ↦ ground (arith, h.room, h.whole, h.place, below, full)
    | inl (below, inr end) ↦ absurd (omega (arith, h.room, h.whole, h.place, below, end))
    | inr end ↦ absurd (omega (arith, h.room, h.whole, h.place, end))
  ]

  -- `Write` to a mapped file smaller than 2^63 bytes, in positive chunks, of a block that fits into the
  -- rest of the size, succeeds. The file has the block behind what was written before, and is unchanged
  -- behind it; the buffer is again one that lies in the file, with its `Tell` behind the block.
  pub mmap_write-Puts :
      (s : Mapped) (held block tail : Bytes)
      → 0 < chunk
      → Holds chunk s held tail
      → length block ≤ length tail
      → Puts chunk (held ++ block) (drop (length block) tail) (mmap_write chunk block s)
  unfolding mmap_write
  mmap_write-Puts s held block tail positive h fits =
      let cp = fitting block s in
      let front = take cp block in
      let rest = drop cp block in
      let ready = buffered-Holds s held block tail h fits front refl in
      let front_len : length front ≡ min cp (length block) = length-take cp block in
      let rest_len : length rest ≡ length block - cp = length-drop cp block in
      let tail_len = length-drop (length front) tail in
      let room : s.offset + s.buf_put + length block ≤ s.size = omega (arith, h.whole, h.place) in
      let whole : (held ++ front) ++ rest ≡ held ++ block =
        append_assoc held front rest ∙ ap (λ xs. held ++ xs) (take-append-drop cp block) in
      let behind : drop (length rest) (drop (length front) tail) ≡ drop (length block) tail =
        drop-drop (length rest) (length front) tail ∙ ap (λ k. drop k tail) (omega arith) in
      elim (Bool-cases (length rest == 0)) [
        | inl z ↦
            let none : length rest ≡ 0 = ground arith in
            record {
              after = buffered block s;
              result = write_over-all (mmap_write_rest chunk) block s room h.bounded none;
              holds =
                  moved (buffered block s) (held ++ front) rest (drop (length front) tail)
                    (held ++ block) (drop (length block) tail) none whole behind ready;
            }
        | inr n ↦
            let some : 0 < length rest = ground arith in
            let m =
              mmap_write_rest-Puts chunk positive (buffered block s) (held ++ front) rest
                (drop (length front) tail) ready
                (full-at_end s held block tail h fits (omega arith)) some (omega arith) in
            record {
              after = m.after;
              result =
                  write_over-more (mmap_write_rest chunk) block s room h.bounded some ∙ m.result;
              holds =
                  subst (λ xs. Holds chunk m.after xs (drop (length block) tail)) whole
                    (subst (λ xs. Holds chunk m.after ((held ++ front) ++ rest) xs) behind m.holds);
            }
      ]
