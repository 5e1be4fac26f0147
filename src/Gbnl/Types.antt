-- ===== src/Gbnl/Types.antt =====
-- The descriptors of a message type in src/format/gbnl.cpp: `Parse_` reads them, with `Pad` for the gaps, and
-- `Dump_` writes them.
pub mod Entries
pub mod Reproduced
use neptools.Prelude.{
  ℕ, zero, suc, ◌+◌, ◌-◌, ◌%◌, ◌^◌, Bool, true, false, List, [], ◌∷◌, ◌++◌, leb, ◌==◌, take, drop,
  if◌then◌else◌,
}
use neptools.Prelude.Bytes.{Bytes}
use neptools.Prelude.Result.{Result, ok, err, ◌>>=◌, ◌>>◌, guard, decode_error}
use neptools.Source.{Source, read}
use neptools.Endian.{Endian, pack_endian, from_endian}
use neptools.Gbnl.{Item, item_size}

-- `TypeDescriptor::Type`
abbrev pub type_int32 : ℕ
type_int32 = 0

abbrev pub type_int8 : ℕ
type_int8 = 1

abbrev pub type_int16 : ℕ
type_int16 = 2

abbrev pub type_float : ℕ
type_float = 3

abbrev pub type_string : ℕ
type_string = 5

abbrev pub type_int64 : ℕ
type_int64 = 6

-- `GetTypeSize`
unfoldable pub get_type_size : ℕ → Result ℕ
get_type_size ty =
    if ty == type_int8
    then ok 1
    else if ty == type_int16
    then ok 2
    else if ty == type_int32
    then ok 4
    else if ty == type_int64
    then ok 8
    else if ty == type_float
    then ok 4
    else if ty == type_string
    then ok 4
    else err decode_error

abbrev gap : ℕ → List Item
gap diff = if diff == 0 then [] else Item.padding diff ∷ []

-- `Pad`: what it adds to the type. It leaves `int8_in_progress` false.
unfoldable pub pad : ℕ → Bool → List Item
pad diff true = if leb diff 3 then Item.int8 ∷ gap diff else Item.fix_string (diff + 1) ∷ []
pad diff false = gap diff

-- What the `switch` of `Parse_` adds; an `INT8` waits for the next `Pad`.
unfoldable pub item_of : ℕ → Result (List Item)
item_of ty =
    if ty == type_int8
    then ok []
    else if ty == type_int16
    then ok (Item.int16 ∷ [])
    else if ty == type_int32
    then ok (Item.int32 ∷ [])
    else if ty == type_int64
    then ok (Item.int64 ∷ [])
    else if ty == type_float
    then ok (Item.float ∷ [])
    else if ty == type_string
    then ok (Item.string ∷ [])
    else err decode_error

-- The loop of `Parse_` over `n` descriptors, and the last `Pad`, whose argument is an `uint16_t`.
unfoldable pub parse_types : Endian → ℕ → ℕ → ℕ → Bool → Source → Result (List Item × Source)
unfolding read get_type_size pad item_of
parse_types e msg_descr_size zero calc_offs int8_in_progress s =
    ok (pad ((msg_descr_size + 2 ^ 64 - calc_offs) % 2 ^ 16) int8_in_progress, s)
parse_types e msg_descr_size (suc n) calc_offs int8_in_progress s = do
  (bytes, t) ← read 4 s
  let type = from_endian e (take 2 bytes)
  let offset = from_endian e (drop 2 bytes)
  guard (leb calc_offs offset) decode_error
  let before = pad (offset - calc_offs) int8_in_progress
  size ← get_type_size type
  here ← item_of type
  (rest, u) ← parse_types e msg_descr_size n (offset + size) (type == type_int8) t
  ok (before ++ (here ++ rest), u)

-- The descriptor of an item that stands at `offs`.
unfoldable pub descriptor : Endian → Item → ℕ → Bytes
descriptor e Item.int8 offs = pack_endian e (2 ∷ 2 ∷ []) (type_int8 ∷ offs ∷ [])
descriptor e Item.int16 offs = pack_endian e (2 ∷ 2 ∷ []) (type_int16 ∷ offs ∷ [])
descriptor e Item.int32 offs = pack_endian e (2 ∷ 2 ∷ []) (type_int32 ∷ offs ∷ [])
descriptor e Item.int64 offs = pack_endian e (2 ∷ 2 ∷ []) (type_int64 ∷ offs ∷ [])
descriptor e Item.float offs = pack_endian e (2 ∷ 2 ∷ []) (type_float ∷ offs ∷ [])
descriptor e Item.string offs = pack_endian e (2 ∷ 2 ∷ []) (type_string ∷ offs ∷ [])
descriptor e (Item.fix_string n) offs = pack_endian e (2 ∷ 2 ∷ []) (type_int8 ∷ offs ∷ [])
descriptor e (Item.padding n) offs = []

-- The loop of `Dump_` over the items; `offs` is an `uint16_t`.
unfoldable pub dump_types : Endian → ℕ → List Item → Bytes
unfolding descriptor
dump_types e offs [] = []
dump_types e offs (i ∷ items) =
    descriptor e i offs ++ dump_types e ((offs + item_size i) % 2 ^ 16) items
