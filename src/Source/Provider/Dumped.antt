-- ===== src/Source/Provider/Dumped.antt =====
-- `Source::GetChunk` and `Source::Dump` of src/source.cpp: the sink is given the window's bytes.
use neptools.Prelude.{
  ℕ, zero, suc, ◌+◌, ◌-◌, ◌≤◌, ◌<◌, ◌≡◌, ◌∙◌, [], ◌++◌, arith, ltb, length, take, drop, min,
  Bool-cases, inl, inr, length-take, length-drop, ltb→lt,
}
use neptools.Prelude.Bytes.{Bytes}
use neptools.Prelude.Result.{ok}
use neptools.Prelude.Slices.{blocks_join}
use neptools.Source.Provider.{LowIo, Lru, get_chunk, dump_chunks}
use neptools.Source.Provider.Chunks.{IsLru, copied_lem, covers_lem}
use neptools.Source.Provider.Cached.{get_temporary_entry-Found, Gives}

module _ (io : LowIo) (chunk_size : ℕ) (positive : 0 < chunk_size) (offset size : ℕ)
    (fits : offset + size ≤ length io.file) where
  -- `GetChunk` returned `n` bytes of the window, at least one.
  record IsPart (offs : ℕ) (l : Lru) : Type 0 where
    pub n : ℕ
    pub lru : Lru
    pub result :
        get_chunk io chunk_size offset size offs l ≡ ok (take n (drop (offset + offs) io.file), lru)
    pub some_bytes : 0 < n
    pub in_window : n ≤ size - offs
    pub kept : IsLru io lru

  get_chunk-IsPart : (offs : ℕ) (l : Lru) → offs < size → IsLru io l → IsPart offs l
  unfolding get_chunk
  get_chunk-IsPart offs l h w =
      let (l', e, f) =
        get_temporary_entry-Found io chunk_size positive (offs + offset) l (omega arith) w in
      let (below, above) = covers_lem io (offs + offset) l'.front f.covered in
      let n = min (l'.front.size - (offs + offset - l'.front.offset)) (size - offs) in
      let c = copied_lem io (offs + offset) n l' f (omega arith) (omega arith) in
      let order : offs + offset ≡ offset + offs = omega arith in
      record {
        n = n;
        lru = l';
        result = ground (arith, e, c, order);
        some_bytes = omega arith;
        in_window = omega arith;
        kept = f.lru;
      }

  length-block : (offs n : ℕ) → offs + n ≤ size → length (take n (drop (offset + offs) io.file)) ≡ n
  length-block offs n h = rw length-take (rw length-drop (omega arith))

  -- A round of the loop that finds bytes left.
  dump_chunks-step :
      (fuel offs n : ℕ) (chunk bytes : Bytes) (l l' l'' : Lru)
      → offs < size
      → get_chunk io chunk_size offset size offs l ≡ ok (chunk, l')
      → length chunk ≡ n
      → dump_chunks io chunk_size fuel offset size (offs + n) l' ≡ ok (bytes, l'')
      → dump_chunks io chunk_size (suc fuel) offset size offs l ≡ ok (chunk ++ bytes, l'')
  unfolding dump_chunks
  dump_chunks-step fuel offs n chunk bytes l l' l'' h e c r =
      let r' : dump_chunks io chunk_size fuel offset size (offs + length chunk) l'
          ≡ ok (bytes, l'') =
        rw c r in
      ground (arith, e, r')

  dump_chunks-end :
      (fuel offs : ℕ) (l : Lru)
      → size ≤ offs
      → dump_chunks io chunk_size fuel offset size offs l ≡ ok ([], l)
  unfolding dump_chunks
  dump_chunks-end zero offs l h = ground arith
  dump_chunks-end (suc fuel) offs l h = ground arith

  -- The loop of `Source::Dump` over a window of the file, from `offs` on and with chunks that hold
  -- the file's bytes, gives the sink the rest of the window, and the chunks that are kept
  -- afterwards hold the file's bytes. As many rounds as bytes are enough, and no assertion fails.
  pub dump_chunks-Gives :
      (fuel offs : ℕ) (l : Lru)
      → size - offs ≤ fuel
      → IsLru io l
      → Gives io (offset + offs) (size - offs) (dump_chunks io chunk_size fuel offset size offs l)
  dump_chunks-Gives zero offs l h w =
      let none_left : size - offs ≡ 0 = omega arith in
      record {
        lru = l;
        result = rw none_left (dump_chunks-end zero offs l (omega arith));
        kept = w;
      }
  dump_chunks-Gives (suc fuel) offs l h w = elim (Bool-cases (ltb offs size)) [
    | inr c ↦
        let none_left : size - offs ≡ 0 = ground arith in
        record {
          lru = l;
          result = rw none_left (dump_chunks-end (suc fuel) offs l (ground arith));
          kept = w;
        }
    | inl c ↦
        let below = ltb→lt offs size c in
        let g = get_chunk-IsPart offs l below w in
        let n = length-block offs g.n (omega (arith, g.in_window)) in
        let later =
          dump_chunks-Gives fuel (offs + g.n) g.lru (omega (arith, g.some_bytes)) g.kept in
        let whole : g.n + (size - (offs + g.n)) ≡ size - offs = omega (arith, g.in_window) in
        let order : offset + (offs + g.n) ≡ offset + offs + g.n = omega arith in
        let joined = blocks_join g.n (size - (offs + g.n)) (offset + offs) io.file in
        record {
          lru = later.lru;
          result =
              dump_chunks-step fuel offs g.n (take g.n (drop (offset + offs) io.file))
                (take (size - (offs + g.n)) (drop (offset + (offs + g.n)) io.file)) l g.lru
                later.lru below g.result n later.result
              ∙ rw (order, joined, whole);
          kept = later.kept;
        }
  ]
