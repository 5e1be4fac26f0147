-- ===== src/Source/Provider.antt =====
-- src/source.cpp: the chunks of a file that a provider keeps, the last used one first, and the reads
-- that go through them. The descriptor, `Libshit::LowIo`, is a parameter.
pub mod Chunks
pub mod Cached
pub mod Dumped
use neptools.Prelude.{
  ℕ, zero, suc, ◌+◌, ◌-◌, ◌*◌, ◌/◌, ◌≤◌, ◌≡◌, Bool, true, false, ◌&&◌, Option, none, some, List, [],
  ◌∷◌, ◌++◌, ltb, leb, ◌==◌, if◌then◌else◌, length, take, drop, min,
}
use neptools.Prelude.Bytes.{Bytes}
use neptools.Prelude.Result.{Result, ok, err, ◌>>=◌, ◌>>◌, guard, assertion, out_of_fuel}

-- An open file: `pread offs len` is the block that `LowIo::Pread` (or `Mmap`) gives.
pub record LowIo : Type 0 where
  pub file : Bytes
  pub pread : ℕ → ℕ → Bytes
  pub pread_lem :
      (offs len : ℕ) → offs + len ≤ length file → pread offs len ≡ take len (drop offs file)

-- `ptr` is the memory pointed to.
pub record BufEntry : Type 0 where
  pub ptr : Bytes
  pub offset : ℕ
  pub size : ℕ

-- The array `lru`: its entry 0, and the entries behind it.
pub record Lru : Type 0 where
  pub front : BufEntry
  pub rest : List BufEntry

abbrev null_entry : BufEntry
null_entry = record { ptr = []; offset = 0; size = 0 }

-- The array of a new provider.
abbrev pub new_lru : Lru
new_lru = record { front = null_entry; rest = null_entry ∷ null_entry ∷ null_entry ∷ [] }

abbrev pub lru_push : Bytes → ℕ → ℕ → Lru → Lru
lru_push ptr offset size l = record {
  front = record { ptr = ptr; offset = offset; size = size };
  rest = take (length l.rest) (l.front ∷ l.rest);
}

abbrev pub covers : ℕ → BufEntry → Bool
covers offs x = leb x.offset offs && ltb offs (x.offset + x.size)

-- The loop of `LruGet`: `seen` are the entries before the one looked at.
unfoldable pub lru_find : ℕ → List BufEntry → List BufEntry → Option Lru
lru_find offs seen [] = none
lru_find offs seen (x ∷ xs) = elim (covers offs x) [
  | true ↦ some (record { front = x; rest = seen ++ xs })
  | false ↦ lru_find offs (seen ++ x ∷ []) xs
]

-- `LruGet`: `none` where the source returns false, and leaves the array as it is.
abbrev pub lru_get : ℕ → Lru → Option Lru
lru_get offs l = lru_find offs [] (l.front ∷ l.rest)

-- The bytes that a loop copies out of the first entry, and how many.
abbrev pub to_copy : ℕ → ℕ → Lru → ℕ
to_copy offs len l = min len (l.front.size - (offs - l.front.offset))

abbrev pub copied : ℕ → ℕ → Lru → Bytes
copied offs n l = take n (drop (offs - l.front.offset) l.front.ptr)

-- `UnixLike<T>` over an open file, with the chunk size of `MmapProvider` or `UnixProvider`.
module _ (io : LowIo) (chunk_size : ℕ) where
  unfoldable pub ensure_chunk : ℕ → Lru → Lru
  ensure_chunk offs l =
      let ch_offs = offs / chunk_size * chunk_size in
      let size = min chunk_size (length io.file - ch_offs) in
      elim (lru_get offs l) [
        | some l' ↦ l'
        | none ↦ lru_push (io.pread ch_offs size) ch_offs size l
      ]

  -- The loop of `UnixLike<T>::Pread`. The fuel counts its rounds.
  unfoldable pub copy_chunks : ℕ → ℕ → ℕ → Lru → Result (Bytes × Lru)
  copy_chunks fuel offs zero l = ok ([], l)
  copy_chunks zero offs (suc len) l = err out_of_fuel
  copy_chunks (suc fuel) offs (suc len) l =
      let l' = ensure_chunk offs l in
      let n = to_copy offs (suc len) l' in
      let later = copy_chunks fuel (offs + n) (suc len - n) l' in
      later >>= λ (bytes, l''). ok (copied offs n l' ++ bytes, l'')

  -- `UnixLike<T>::Pread`.
  unfoldable pub provider_pread : ℕ → ℕ → Lru → Result (Bytes × Lru)
  unfolding copy_chunks
  provider_pread offs len l =
      if ltb chunk_size len
      then ok (io.pread offs len, l)
      else if len == 0
      then ok ([], ensure_chunk offs l)
      else copy_chunks len offs len l

  -- The loop of `Source::Pread_`, `offs` counted from the start of the file.
  unfoldable pub pread_cached : ℕ → ℕ → ℕ → Lru → Result (Bytes × Lru)
  pread_cached fuel offs zero l = ok ([], l)
  pread_cached zero offs (suc len) l = err out_of_fuel
  pread_cached (suc fuel) offs (suc len) l = elim (lru_get offs l) [
    | none ↦ provider_pread offs (suc len) l
    | some l' ↦
        let n = to_copy offs (suc len) l' in
        pread_cached fuel (offs + n) (suc len - n) l' >>= λ (bytes, l'').
        ok (copied offs n l' ++ bytes, l'')
  ]

  -- `GetTemporaryEntry`: afterwards the entry is the array's first; its assertion.
  unfoldable pub get_temporary_entry : ℕ → Lru → Result Lru
  get_temporary_entry offs l = elim (lru_get offs l) [
    | some l' ↦ ok l'
    | none ↦ do (bytes, l') ← provider_pread offs 0 l; guard (covers offs l'.front) assertion; ok l'
  ]

  -- The part of the first entry that `GetChunk` returns.
  abbrev entry_chunk : ℕ → ℕ → ℕ → Lru → Bytes
  entry_chunk offset size offs l =
      let eoffs = offs + offset - l.front.offset in
      take (min (l.front.size - eoffs) (size - offs)) (drop eoffs l.front.ptr)

  -- `GetChunk` of the window of `size` bytes at `offset`, and its assertion.
  unfoldable pub get_chunk : ℕ → ℕ → ℕ → Lru → Result (Bytes × Lru)
  get_chunk offset size offs l = do
    guard (ltb offs size) assertion
    l' ← get_temporary_entry (offs + offset) l
    ok (entry_chunk offset size offs l', l')

  -- The loop of `Source::Dump` over that window from `offs` on: what the sink is given.
  unfoldable pub dump_chunks : ℕ → ℕ → ℕ → ℕ → Lru → Result (Bytes × Lru)
  dump_chunks zero offset size offs l = if ltb offs size then err out_of_fuel else ok ([], l)
  dump_chunks (suc fuel) offset size offs l = elim (ltb offs size) [
    | false ↦ ok ([], l)
    | true ↦ do
      (chunk, l') ← get_chunk offset size offs l
      (bytes, l'') ← dump_chunks fuel offset size (offs + length chunk) l'
      ok (chunk ++ bytes, l'')
  ]

  -- `strnlen` and the append of one chunk: the bytes before a zero, and whether there was one.
  pub before_zero : Bytes → Bytes × Bool
  before_zero [] = ([], false)
  before_zero (b ∷ bs) = elim (b == 0) [
    | true ↦ ([], true)
    | false ↦ let rest = before_zero bs in (b ∷ rest.0, rest.1)
  ]

  -- The loop of `PreadCString`.
  unfoldable pub cstring_chunks : ℕ → ℕ → ℕ → ℕ → Lru → Result (Bytes × Lru)
  cstring_chunks zero offset size offs l = err out_of_fuel
  cstring_chunks (suc fuel) offset size offs l = do
    (chunk, l') ← get_chunk offset size offs l
    let (part, found) = before_zero chunk
    elim found [
      | true ↦ ok (part, l')
      | false ↦ cstring_chunks fuel offset size (offs + length chunk) l' >>= λ (bytes, l'').
          ok (part ++ bytes, l'')
    ]
