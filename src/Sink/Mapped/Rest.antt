-- ===== src/Sink/Mapped/Rest.antt =====
-- `MmapSink::Write_` and `MmapSink::MapNext` of src/sink.cpp: what the sink holds after them.
use neptools.Prelude.{
  ℕ, ◌+◌, ◌-◌, ◌*◌, ◌%◌, ◌/◌, ◌^◌, ◌≤◌, ◌<◌, ◌≡◌, refl, sym, ap, ◌∙◌, true, false, ◌++◌, arith, ltb,
  leb, ◌==◌, length, take, drop, min, length-append, length-drop, take-append-drop, append_assoc,
  Bool-cases, inl, inr,
}
use mathlib.Core.Path.{subst}
use neptools.Prelude.Bytes.{Bytes}
use neptools.Prelude.Slices.{drop-drop}
use neptools.Prelude.Result.{ok, ◌>>=◌}
use neptools.Sink.Mapped.{
  Mapped, overwrite, map_next, at_end_of_map, write_chunks, copy_in, mmap_write_rest,
}
use neptools.Sink.Mapped.Holds.{
  Holds, Puts, overwrite-behind, rounded-IsChunks, nothing-behind, map_size, less-chunk,
  taken-length,
}

module _ (chunk : ℕ) (positive : 0 < chunk) where
  pub map_next-more :
      (len : ℕ) (s : Mapped)
      → s.offset < s.size
      → len ≤ min chunk (s.size - s.offset)
      → s.size < 2 ^ 63
      → map_next chunk len s
        ≡ ok (record s { mapped = true; buf_put = len; buf_size = min chunk (s.size - s.offset) })
  unfolding map_next
  map_next-more len s lt le b =
      let e : (s.size + 2 ^ 64 - s.offset) % 2 ^ 64 ≡ s.size - s.offset = omega arith in
      let l : ltb s.offset s.size ≡ true = ground arith in
      let fits : leb len (min chunk (s.size - s.offset)) ≡ true = ground arith in
      rw (map_next, e, l, fits) refl

  pub map_next-end :
      (len : ℕ) (s : Mapped)
      → s.size ≤ s.offset
      → map_next chunk len s ≡ ok (record s { mapped = false })
  unfolding map_next
  map_next-end len s le = ground arith

  -- The map that follows, with `new` copied into it: the sink held `block`, which ends at the offset.
  mapped-Puts :
      (s : Mapped) (block new tail : Bytes)
      → s.file ≡ block ++ tail
      → length block + length tail ≡ s.size
      → s.size < 2 ^ 63
      → length block ≡ s.offset
      → length new < chunk
      → length new ≤ length tail
      → (s.size ≤ s.offset → s.buf_put ≡ 0)
      → Puts chunk
          (block ++ new)
          (drop (length new) tail)
          (map_next chunk (length new) s >>= copy_in chunk new)
  unfolding copy_in
  mapped-Puts s block new tail f z b p n l none_put = elim (Bool-cases (ltb s.offset s.size)) [
    | inl more ↦
        let lt : s.offset < s.size = ground arith in
        let size = min chunk (s.size - s.offset) in
        let t : Mapped = record s { mapped = true; buf_put = length new; buf_size = size } in
        let e = map_next-more (length new) s lt (omega arith) b in
        let moved = length-append block new in
        let left = length-drop (length new) tail in
        record {
          after = record t { file = overwrite s.file s.offset new };
          result = ap (λ r. r >>= copy_in chunk new) e;
          holds = record {
            parts =
                ap (λ xs. overwrite xs s.offset new) f
                ∙ overwrite-behind block tail new s.offset (sym p);
            whole = omega arith;
            bounded = b;
            place = omega arith;
            room = omega arith;
            map = inl (omega arith, map_size chunk s.offset s.size lt);
          };
        }
    | inr end ↦
        let ge : s.size ≤ s.offset = ground arith in
        let t : Mapped = record s { mapped = false } in
        let nothing : length new ≡ 0 = omega arith in
        let moved = length-append block new in
        let left = length-drop (length new) tail in
        let put = none_put ge in
        record {
          after = t;
          result =
              ap (λ r. r >>= copy_in chunk new) (map_next-end (length new) s ge) ∙ ground arith;
          holds = record {
            parts = f ∙ nothing-behind block new tail nothing;
            whole = omega arith;
            bounded = b;
            place = omega arith;
            room = omega arith;
            map = inr (omega arith);
          };
        }
  ]

  mmap_write_rest-small :
      (block : Bytes) (s : Mapped)
      → at_end_of_map chunk s ≡ true
      → length block / chunk == 0 ≡ true
      → mmap_write_rest chunk block s ≡ (
          map_next chunk (length block) (record s { offset = (s.offset + s.buf_put) % 2 ^ 64 })
          >>= copy_in chunk block)
  unfolding mmap_write_rest
  mmap_write_rest-small block s e small = rw (mmap_write_rest, write_chunks, e, small) refl

  mmap_write_rest-big :
      (block : Bytes) (s : Mapped)
      → at_end_of_map chunk s ≡ true
      → length block / chunk == 0 ≡ false
      → mmap_write_rest chunk block s ≡ (
          map_next chunk (length (drop (length block / chunk * chunk) block)) (record s {
            file =
                overwrite s.file
                  ((s.offset + s.buf_put) % 2 ^ 64)
                  (take (length block / chunk * chunk) block);
            offset = ((s.offset + s.buf_put) % 2 ^ 64 + length block / chunk * chunk) % 2 ^ 64;
            buf_put = 0;
          })
          >>= copy_in chunk (drop (length block / chunk * chunk) block))
  unfolding mmap_write_rest
  mmap_write_rest-big block s e big = rw (mmap_write_rest, write_chunks, e, big) refl

  -- The whole chunks are written first, and what is left goes to the map that follows.
  big-Puts :
      (s : Mapped) (held block tail : Bytes)
      → Holds chunk s held tail
      → (to_write : ℕ) → to_write ≤ length block
      → length block - to_write < chunk
      → length block ≤ length tail
      → (s.offset + s.buf_put) % 2 ^ 64 ≡ length held
      → length (take to_write block) ≡ to_write
      → length (drop to_write block) ≡ length block - to_write
      → Puts chunk (held ++ block) (drop (length block) tail) (
          map_next chunk (length (drop to_write block)) (record s {
            file = overwrite s.file ((s.offset + s.buf_put) % 2 ^ 64) (take to_write block);
            offset = ((s.offset + s.buf_put) % 2 ^ 64 + to_write) % 2 ^ 64;
            buf_put = 0;
          })
          >>= copy_in chunk (drop to_write block))
  big-Puts s held block tail h to_write below rest fits at_k taken left =
      let front = take to_write block in
      let back = drop to_write block in
      let moved : length (held ++ front) ≡ length held + length front = length-append held front in
      let gone = length-drop (length front) tail in
      let m =
        mapped-Puts
          (record s {
            file = overwrite s.file ((s.offset + s.buf_put) % 2 ^ 64) front;
            offset = ((s.offset + s.buf_put) % 2 ^ 64 + to_write) % 2 ^ 64;
            buf_put = 0;
          })
          (held ++ front) back (drop (length front) tail)
          (ap (λ xs. overwrite xs ((s.offset + s.buf_put) % 2 ^ 64) front) h.parts
            ∙ overwrite-behind held tail front ((s.offset + s.buf_put) % 2 ^ 64) at_k)
          (omega (arith, h.whole)) h.bounded (omega (arith, h.whole, h.bounded)) (omega arith)
          (omega arith) (λ end. refl) in
      subst
        (λ xs. Puts chunk xs (drop (length block) tail) (
          map_next chunk (length back) (record s {
            file = overwrite s.file ((s.offset + s.buf_put) % 2 ^ 64) front;
            offset = ((s.offset + s.buf_put) % 2 ^ 64 + to_write) % 2 ^ 64;
            buf_put = 0;
          })
          >>= copy_in chunk back))
        (append_assoc held front back ∙ ap (λ xs. held ++ xs) (take-append-drop to_write block))
        (subst
          (λ xs. Puts chunk ((held ++ front) ++ back) xs (
            map_next chunk (length back) (record s {
              file = overwrite s.file ((s.offset + s.buf_put) % 2 ^ 64) front;
              offset = ((s.offset + s.buf_put) % 2 ^ 64 + to_write) % 2 ^ 64;
              buf_put = 0;
            })
            >>= copy_in chunk back))
          (drop-drop (length back) (length front) tail ∙ ap (λ k. drop k tail) (omega arith)) m)

  pub mmap_write_rest-Puts :
      (s : Mapped) (held block tail : Bytes)
      → Holds chunk s held tail
      → at_end_of_map chunk s ≡ true
      → 0 < length block
      → length block ≤ length tail
      → Puts chunk (held ++ block) (drop (length block) tail) (mmap_write_rest chunk block s)
  mmap_write_rest-Puts s held block tail h e some fits =
      elim (Bool-cases (length block / chunk == 0)) [
        | inl y ↦
            let chunks = rounded-IsChunks chunk (length block) positive in
            let small : length block < chunk =
              less-chunk (length block / chunk) (length block) chunk (ground arith) chunks.rest in
            let m =
              mapped-Puts (record s { offset = (s.offset + s.buf_put) % 2 ^ 64 }) held block tail
                h.parts h.whole h.bounded (omega (arith, h.place, h.whole, h.bounded)) small fits
                (λ end. absurd (omega (arith, h.place, h.whole, h.bounded))) in
            record {
              after = m.after;
              result = mmap_write_rest-small block s e y ∙ m.result;
              holds = m.holds;
            }
        | inr n ↦
            let to_write = length block / chunk * chunk in
            let chunks = rounded-IsChunks chunk (length block) positive in
            let at_k : (s.offset + s.buf_put) % 2 ^ 64 ≡ length held =
              omega (arith, h.place, h.whole, h.bounded) in
            let taken : length (take to_write block) ≡ to_write =
              taken-length to_write block chunks.below in
            let left : length (drop to_write block) ≡ length block - to_write =
              length-drop to_write block in
            let m =
              big-Puts s held block tail h to_write chunks.below chunks.rest fits at_k taken left in
            record {
              after = m.after;
              result = mmap_write_rest-big block s e n ∙ m.result;
              holds = m.holds;
            }
      ]
