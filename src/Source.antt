-- ===== src/Source.antt =====
-- src/source.hpp, src/source.cpp: a read-only, seekable window on a block of data.
pub mod Reads
pub mod Struct
pub mod Consumed
pub mod Provider
mod Tests
use neptools.Prelude.{
  ℕ, zero, suc, ◌+◌, ◌-◌, ◌%◌, ◌^◌, Bool, true, false, ◌&&◌, List, [], ◌∷◌, ◌++◌, ltb, leb, ◌==◌,
  if◌then◌else◌, length, take, drop,
}
use neptools.Prelude.Bytes.{Bytes, from_le}
use neptools.Prelude.Result.{Error, decode_error, assertion, Result, ok, err, ◌>>=◌, ◌>>◌, guard}

-- `contents` is what the provider `p` provides; `Source.Provider` is about how it does so.
pub record Source : Type 0 where
  pub contents : Bytes
  pub offset : ℕ
  pub size : ℕ
  pub get : ℕ

-- `Source(NotNullSmartPtr<Provider>)`, so also `FromMemory`.
abbrev pub from_memory : Bytes → Source
from_memory str = record { contents = str; offset = 0; size = length str; get = 0 }

-- A `LIBSHIT_CHECK` under `Check::Assert`, which is every check's default.
abbrev check_assert : Bool → Result (Unit {0})
check_assert b = guard b assertion

unfoldable pub slice : ℕ → ℕ → Source → Result Source
slice offset size s =
    check_assert (leb offset s.size && leb ((offset + size) % 2 ^ 64) s.size)
    >> ok (record s {
      offset = (s.offset + offset) % 2 ^ 64;
      get = (s.get + 2 ^ 64 - offset) % 2 ^ 64;
      size = size;
    })

-- `Source(Source s, FilePosition offset, FilePosition size)`
unfoldable pub sub_source : Source → ℕ → ℕ → Result Source
sub_source s offset size = do t ← slice offset size s; ok (record t { get = 0 })

unfoldable pub seek : ℕ → Source → Result Source
seek pos s = check_assert (leb pos s.size) >> ok (record s { get = pos })

abbrev pub tell : Source → ℕ
tell s = s.get

abbrev pub get_remaining_size : Source → ℕ
get_remaining_size s = (s.size + 2 ^ 64 - s.get) % 2 ^ 64

unfoldable pub eof : Source → Bool
eof s = s.get == s.size

-- `CheckSize` compares with the provider's size, not with the window's.
unfoldable pub check_size : ℕ → Source → Result (Unit {0})
check_size size s = guard (leb size (length s.contents)) decode_error

unfoldable pub check_remaining_size : ℕ → Source → Result (Unit {0})
unfolding check_size
check_remaining_size size s = check_size ((s.get + size) % 2 ^ 64) s

-- `Pread`: the bytes of the window from `offs` on.
unfoldable pub pread : ℕ → ℕ → Source → Result Bytes
pread offs len s =
    check_assert (leb offs s.size && leb ((offs + len) % 2 ^ 64) s.size)
    >> ok (take len (drop (s.offset + offs) s.contents))

-- `Read`, and `ReadGen` of a structure of `len` bytes.
unfoldable pub read : ℕ → Source → Result (Bytes × Source)
unfolding pread
read len s = do bytes ← pread s.get len s; ok (bytes, record s { get = (s.get + len) % 2 ^ 64 })

-- `ReadLittleUint8`, `ReadLittleUint16`, `ReadLittleUint32`, by their number of bytes.
unfoldable pub read_little : ℕ → Source → Result (ℕ × Source)
unfolding read
read_little n s = do (bytes, t) ← read n s; ok (from_le bytes, t)

-- The bytes before the first zero byte; `none` if there is none.
unfoldable pub until_zero : Bytes → Result Bytes
until_zero [] = err assertion
until_zero (b ∷ bs) = elim (b == 0) [
  | true ↦ ok []
  | false ↦ do rest ← until_zero bs; ok (b ∷ rest)
]

-- `PreadCString` over the window; an assertion of `GetChunk` fails behind its end.
unfoldable pub pread_cstring : ℕ → Source → Result Bytes
pread_cstring offs s =
    if ltb offs s.size
    then until_zero (take (s.size - offs) (drop (s.offset + offs) s.contents))
    else err assertion

unfoldable pub read_cstring : Source → Result (Bytes × Source)
read_cstring s = do
  ret ← pread_cstring s.get s
  t ← seek ((s.get + length ret + 1) % 2 ^ 64) s
  ok (ret, t)
