-- ===== src/Source/Provider/Cached.antt =====
-- The reads that go through the kept chunks, src/source.cpp: they return the file's bytes, and keep
-- the chunks right.
use neptools.Prelude.{
  ℕ, zero, suc, ◌+◌, ◌-◌, ◌≤◌, ◌<◌, ◌≡◌, refl, ap, ◌∙◌, true, none, some, [], ◌++◌, arith, ltb,
  length, take, drop, Bool-cases, Option-cases, inl, inr,
}
use neptools.Prelude.Bytes.{Bytes}
use neptools.Prelude.Result.{Result, ok, ◌>>=◌}
use neptools.Prelude.Slices.{blocks_join}
use neptools.Source.Provider.{
  LowIo, Lru, covers, lru_get, ensure_chunk, to_copy, copied, copy_chunks, provider_pread,
  pread_cached, get_temporary_entry,
}
use neptools.Source.Provider.Chunks.{
  IsLru, Found, lru_get-Found, ensure_chunk-Found, copied_lem, to_copy-positive,
}

module _ (io : LowIo) where
  -- A read gave the file's `len` bytes at `offs`, and left an array of chunks that hold the file's
  -- bytes.
  pub record Gives (offs len : ℕ) (r : Result (Bytes × Lru)) : Type 0 where
    pub lru : Lru
    pub result : r ≡ ok (take len (drop offs io.file), lru)
    pub kept : IsLru io lru

  -- A round of either loop: what it copies, and what the rest gives, is the whole.
  round-Gives :
      (offs len : ℕ) (l : Lru) (later : Result (Bytes × Lru))
      → Found io offs l
      → 0 < len
      → Gives (offs + to_copy offs len l) (len - to_copy offs len l) later
      → Gives offs len
          (later >>= λ (bytes, l'). ok (copied offs (to_copy offs len l) l ++ bytes, l'))
  round-Gives offs len l later f p g =
      let n = to_copy offs len l in
      let whole : n + (len - n) ≡ len = omega arith in
      let joined =
        blocks_join n (len - n) offs io.file ∙ ap (λ k. take k (drop offs io.file)) whole in
      record {
        lru = g.lru;
        result = rw (
          g.result,
          copied_lem io offs n l f (omega arith) (to_copy-positive io offs len l f p),
          joined,
        );
        kept = g.kept;
      }

  module _ (chunk_size : ℕ) (positive : 0 < chunk_size) where
    copy_chunks-Gives :
        (fuel offs len : ℕ) (l : Lru)
        → len ≤ fuel
        → offs + len ≤ length io.file
        → IsLru io l
        → Gives offs len (copy_chunks io chunk_size fuel offs len l)
    unfolding copy_chunks
    copy_chunks-Gives fuel offs zero l h fits w = record { lru = l; result = refl; kept = w }
    copy_chunks-Gives zero offs (suc len) l h fits w = absurd (omega arith)
    copy_chunks-Gives (suc fuel) offs (suc len) l h fits w =
        let l' = ensure_chunk io chunk_size offs l in
        let f = ensure_chunk-Found io chunk_size positive offs l (omega arith) w in
        let n = to_copy offs (suc len) l' in
        let p = to_copy-positive io offs (suc len) l' f (omega arith) in
        round-Gives offs (suc len) l' _ f (omega arith)
          (copy_chunks-Gives fuel (offs + n) (suc len - n) l' (omega arith) (omega arith) f.lru)

    provider_pread-Gives :
        (offs len : ℕ) (l : Lru)
        → 0 < len
        → offs + len ≤ length io.file
        → IsLru io l
        → Gives offs len (provider_pread io chunk_size offs len l)
    unfolding provider_pread
    provider_pread-Gives offs len l p fits w = elim (Bool-cases (ltb chunk_size len)) [
      | inl c ↦ record { lru = l; result = ground (arith, io.pread_lem offs len fits); kept = w }
      | inr c ↦
          let g = copy_chunks-Gives len offs len l (omega arith) fits w in
          record { lru = g.lru; result = ground (arith, g.result); kept = g.kept }
    ]

    pread_cached-none :
        (fuel offs : ℕ) (l : Lru) → pread_cached io chunk_size fuel offs 0 l ≡ ok ([], l)
    unfolding pread_cached
    pread_cached-none zero offs l = refl
    pread_cached-none (suc fuel) offs l = refl

    pread_cached-hit :
        (fuel offs len : ℕ) (l l' : Lru)
        → lru_get offs l ≡ some l'
        → pread_cached io chunk_size (suc fuel) offs (suc len) l ≡ (
            pread_cached io chunk_size fuel
              (offs + to_copy offs (suc len) l')
              (suc len - to_copy offs (suc len) l')
              l'
            >>= λ (bytes, l''). ok (copied offs (to_copy offs (suc len) l') l' ++ bytes, l''))
    unfolding pread_cached
    pread_cached-hit fuel offs len l l' h = ground arith

    pread_cached-miss :
        (fuel offs len : ℕ) (l : Lru)
        → lru_get offs l ≡ none
        → pread_cached io chunk_size (suc fuel) offs (suc len) l
          ≡ provider_pread io chunk_size offs (suc len) l
    unfolding pread_cached
    pread_cached-miss fuel offs len l h = ground arith

    -- Read through the chunks, which hold the file's bytes and are not empty, `len` bytes of the
    -- file at `offs` are the file's, whatever the chunks are, and the chunks that are kept
    -- afterwards hold the file's bytes. As many rounds as bytes are enough.
    pub pread_cached-Gives :
        (fuel offs len : ℕ) (l : Lru)
        → len ≤ fuel
        → offs + len ≤ length io.file
        → IsLru io l
        → Gives offs len (pread_cached io chunk_size fuel offs len l)
    pread_cached-Gives (suc fuel) offs (suc len) l h fits w = elim (Option-cases (lru_get offs l)) [
      | inl e ↦
          rw (pread_cached-miss fuel offs len l e)
            (provider_pread-Gives offs (suc len) l (omega arith) fits w)
      | inr (l', e) ↦
          let f = lru_get-Found io offs l l' w e in
          let n = to_copy offs (suc len) l' in
          let p = to_copy-positive io offs (suc len) l' f (omega arith) in
          rw (pread_cached-hit fuel offs len l l' e) (
            round-Gives offs (suc len) l' _ f (omega arith) (
              pread_cached-Gives fuel (offs + n) (suc len - n) l' (omega arith) (omega arith)
                f.lru))
    ]
    pread_cached-Gives zero offs (suc len) l h fits w = absurd (omega arith)
    pread_cached-Gives fuel offs zero l h fits w = record {
      lru = l;
      result = pread_cached-none fuel offs l;
      kept = w;
    }

    get_temporary_entry-hit :
        (offs : ℕ) (l l' : Lru)
        → lru_get offs l ≡ some l'
        → get_temporary_entry io chunk_size offs l ≡ ok l'
    unfolding get_temporary_entry
    get_temporary_entry-hit offs l l' h = ground arith

    get_temporary_entry-miss :
        (offs : ℕ) (l : Lru)
        → lru_get offs l ≡ none
        → covers offs (ensure_chunk io chunk_size offs l).front ≡ true
        → get_temporary_entry io chunk_size offs l ≡ ok (ensure_chunk io chunk_size offs l)
    unfolding get_temporary_entry provider_pread
    get_temporary_entry-miss offs l h c = ground arith

    -- `GetTemporaryEntry` of an offset in the file returns a chunk there: its assertion holds.
    pub get_temporary_entry-Found :
        (offs : ℕ) (l : Lru)
        → offs < length io.file
        → IsLru io l
        → (l' : Lru) × (get_temporary_entry io chunk_size offs l ≡ ok l') × Found io offs l'
    get_temporary_entry-Found offs l h w = elim (Option-cases (lru_get offs l)) [
      | inr (l', e) ↦ (l', get_temporary_entry-hit offs l l' e, lru_get-Found io offs l l' w e)
      | inl e ↦
          let f = ensure_chunk-Found io chunk_size positive offs l h w in
          (ensure_chunk io chunk_size offs l, get_temporary_entry-miss offs l e f.covered, f)
    ]
