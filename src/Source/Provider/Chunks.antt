-- ===== src/Source/Provider/Chunks.antt =====
-- The chunks that a provider keeps, src/source.cpp: each holds the file's bytes at its place.
use neptools.Prelude.{
  ℕ, zero, suc, ◌+◌, ◌-◌, ◌*◌, ◌/◌, ◌≤◌, ◌<◌, ◌≡◌, refl, ap, ◌∙◌, true, none, some, List, [], ◌∷◌,
  ◌++◌, arith, leb, length, take, drop, min, Bool-cases, Option-cases, ltb→lt, leb→le, inl, inr,
}
use native.Mathlib.Nat.{div-add-mod', mod-lt}
use neptools.Prelude.Slices.{drop-drop, take-drop-take}
use neptools.Source.Provider.{
  LowIo, BufEntry, Lru, new_lru, lru_push, covers, lru_find, lru_get, ensure_chunk, to_copy, copied,
}

pub record IsChunk (io : LowIo) (e : BufEntry) : Type 0 where
  pub fits : e.offset + e.size ≤ length io.file
  pub holds : e.ptr ≡ take e.size (drop e.offset io.file)

abbrev pub AreChunks : LowIo → List BufEntry → Type 0
AreChunks io [] = Unit {0}
AreChunks io (e ∷ es) = IsChunk io e × AreChunks io es

pub record IsLru (io : LowIo) (l : Lru) : Type 0 where
  pub first : IsChunk io l.front
  pub others : AreChunks io l.rest

module _ (io : LowIo) where
  AreChunks-append :
      (xs ys : List BufEntry) → AreChunks io xs → AreChunks io ys → AreChunks io (xs ++ ys)
  AreChunks-append [] ys hx hy = hy
  AreChunks-append (x ∷ xs) ys hx hy = (hx.0, AreChunks-append xs ys hx.1 hy)

  AreChunks-take : (n : ℕ) (xs : List BufEntry) → AreChunks io xs → AreChunks io (take n xs)
  AreChunks-take zero xs h = tt
  AreChunks-take (suc n) [] h = tt
  AreChunks-take (suc n) (x ∷ xs) h = (h.0, AreChunks-take n xs h.1)

  -- The array of a new provider.
  pub new_lru-IsLru : IsLru io new_lru
  new_lru-IsLru =
      let e : IsChunk io new_lru.front = record { fits = omega arith; holds = refl } in
      record { first = e; others = (e, (e, (e, tt))) }

  -- What a search finds covers the offset, and is now the first entry.
  pub record Found (offs : ℕ) (l : Lru) : Type 0 where
    pub lru : IsLru io l
    pub covered : covers offs l.front ≡ true

  lru_find-Found :
      (offs : ℕ) (seen xs : List BufEntry) (l : Lru)
      → AreChunks io seen
      → AreChunks io xs
      → lru_find offs seen xs ≡ some l
      → Found offs l
  unfolding lru_find
  lru_find-Found offs seen [] l hs hx h = cc
  lru_find-Found offs seen (x ∷ xs) l hs hx h = elim (Bool-cases (covers offs x)) [
    | inl c ↦
        let moved : record { front = x; rest = seen ++ xs } ≡ l = ground arith in
        rw (← moved) (record {
          lru = record { first = hx.0; others = AreChunks-append seen xs hs hx.1 };
          covered = c;
        })
    | inr c ↦
        lru_find-Found offs (seen ++ x ∷ []) xs l (AreChunks-append seen (x ∷ []) hs (hx.0, tt))
          hx.1 (ground (arith))
  ]

  pub lru_get-Found :
      (offs : ℕ) (l l' : Lru) → IsLru io l → lru_get offs l ≡ some l' → Found offs l'
  lru_get-Found offs l l' w h =
      lru_find-Found offs [] (l.front ∷ l.rest) l' tt (w.first, w.others) h

  module _ (chunk_size : ℕ) (positive : 0 < chunk_size) where
    ensure_chunk-hit :
        (offs : ℕ) (l l' : Lru) → lru_get offs l ≡ some l' → ensure_chunk io chunk_size offs l ≡ l'
    unfolding ensure_chunk
    ensure_chunk-hit offs l l' h = ground arith

    ensure_chunk-miss :
        (offs : ℕ) (l : Lru)
        → lru_get offs l ≡ none
        → ensure_chunk io chunk_size offs l ≡ (
            let ch_offs = offs / chunk_size * chunk_size in
            let size = min chunk_size (length io.file - ch_offs) in
            lru_push (io.pread ch_offs size) ch_offs size l)
    unfolding ensure_chunk
    ensure_chunk-miss offs l h = ground arith

    pub ensure_chunk-Found :
        (offs : ℕ) (l : Lru)
        → offs < length io.file
        → IsLru io l
        → Found offs (ensure_chunk io chunk_size offs l)
    ensure_chunk-Found offs l h w = elim (Option-cases (lru_get offs l)) [
      | inr (l', e) ↦ rw (ensure_chunk-hit offs l l' e) (lru_get-Found offs l l' w e)
      | inl e ↦
          let ch_offs = offs / chunk_size * chunk_size in
          let size = min chunk_size (length io.file - ch_offs) in
          let below : ch_offs ≤ offs = omega (arith, div-add-mod' offs chunk_size) in
          let above : offs < ch_offs + chunk_size =
            omega (arith, div-add-mod' offs chunk_size, mod-lt offs positive) in
          let fits : ch_offs + size ≤ length io.file = omega arith in
          rw (ensure_chunk-miss offs l e) (record {
            lru = record {
              first = record { fits = fits; holds = io.pread_lem ch_offs size fits };
              others = AreChunks-take (length l.rest) (l.front ∷ l.rest) (w.first, w.others);
            };
            covered = ground arith;
          })
    ]

  pub covers_lem :
      (offs : ℕ) (x : BufEntry)
      → covers offs x ≡ true
      → (x.offset ≤ offs) × (offs < x.offset + x.size)
  covers_lem offs x h = elim (Bool-cases (leb x.offset offs)) [
    | inl a ↦ (leb→le x.offset offs a, ltb→lt offs (x.offset + x.size) (ground arith))
    | inr a ↦ absurd (ground arith)
  ]

  -- The bytes copied out of a first entry that covers the offset.
  pub copied_lem :
      (offs n : ℕ) (l : Lru)
      → Found offs l
      → n ≤ l.front.size - (offs - l.front.offset)
      → 0 < n
      → copied offs n l ≡ take n (drop offs io.file)
  copied_lem offs n l f h p =
      let (below, above) = covers_lem offs l.front f.covered in
      let e : l.front.offset + (offs - l.front.offset) ≡ offs = omega arith in
      ap (λ xs. take n (drop (offs - l.front.offset) xs)) f.lru.first.holds
      ∙ take-drop-take n (offs - l.front.offset) l.front.size (drop l.front.offset io.file)
          (omega arith)
      ∙ ap (take n) (drop-drop (offs - l.front.offset) l.front.offset io.file)
      ∙ ap (λ i. take n (drop i io.file)) e

  pub to_copy-positive : (offs len : ℕ) (l : Lru) → Found offs l → 0 < len → 0 < to_copy offs len l
  to_copy-positive offs len l f h =
      let (below, above) = covers_lem offs l.front f.covered in omega arith
