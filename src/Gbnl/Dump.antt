-- ===== src/Gbnl/Dump.antt =====
-- `Gbnl::Dump_`, `Gbnl::DumpHeader` and `Gbnl::GetSize` of src/format/gbnl.cpp. What is written is a list of bytes.
pub mod Layout
pub mod Sizes
pub mod Heads
pub mod Offsets
pub mod Dumped
pub mod Headed
pub mod Repacked
use neptools.Prelude.{
  ℕ, zero, suc, ◌+◌, ◌-◌, ◌*◌, ◌/◌, ◌%◌, ◌^◌, Bool, true, false, List, [], ◌∷◌, ◌++◌, ◌==◌,
  if◌then◌else◌, length, take, drop, replicate,
}
use neptools.Prelude.Bytes.{Bytes}
use neptools.Prelude.Text.{codes}
use neptools.Prelude.Result.{Result, ok, err, ◌>>=◌, ◌>>◌, guard, assertion}
use neptools.Endian.{Endian, to_endian, pack_endian}
use neptools.Gbnl.{Item, Value, Message, Gbnl, item_size}
use neptools.Gbnl.Types.{dump_types}
use neptools.Gbnl.Strings.{dump_strings}

unfoldable pub strncpy : ℕ → Bytes → Bytes
strncpy zero s = []
strncpy (suc n) [] = replicate (suc n) 0
strncpy (suc n) (c ∷ cs) = if c == 0 then replicate (suc n) 0 else c ∷ strncpy n cs

-- `WriteDescr`, where `len` is the size of the item.
unfoldable pub write_value : Endian → ℕ → Value → Bytes
unfolding to_endian strncpy
write_value e len (Value.int8 x) = to_endian e 1 x
write_value e len (Value.int16 x) = to_endian e 2 x
write_value e len (Value.int32 x) = to_endian e 4 x
write_value e len (Value.int64 x) = to_endian e 8 x
write_value e len (Value.float x) = to_endian e 4 x
write_value e len (Value.string str offset) = to_endian e 4 offset
write_value e len (Value.fix_string bs) = strncpy (len - 1) bs ++ (0 ∷ [])
write_value e len (Value.padding bs) = take len bs

-- `m->ForEach(WriteDescr{...})`
unfoldable pub write_message : Endian → List Item → Message → Bytes
unfolding write_value item_size
write_message e [] vs = []
write_message e (i ∷ items) [] = []
write_message e (i ∷ items) (v ∷ vs) = write_value e (item_size i) v ++ write_message e items vs

-- The messages go through one buffer, `msgd`, which the next one overwrites.
unfoldable pub dump_messages : Endian → List Item → Bytes → List Message → Bytes
unfolding write_message
dump_messages e items msgd [] = []
dump_messages e items msgd (m ∷ ms) =
    let written = write_message e items m in
    let msgd' = take (length msgd) (written ++ drop (length written) msgd) in
    msgd' ++ dump_messages e items msgd' ms

-- `Align`
unfoldable pub align : Bool → ℕ → ℕ
align true x = x
align false x = (x + 15) % 2 ^ 64 / 16 * 16

unfoldable pub get_size : Gbnl → ℕ
unfolding align
get_size g =
    let messages = (g.msg_descr_size * length g.messages) % 2 ^ 64 in
    let types = (align g.is_gstl messages + 4 * g.real_item_count) % 2 ^ 64 in
    let strings = (align g.is_gstl types + g.msgs_size) % 2 ^ 64 in
    (align g.is_gstl strings + 64) % 2 ^ 64

abbrev pub header_sizes : List ℕ
header_sizes = 2 ∷ 2 ∷ 4 ∷ 4 ∷ 4 ∷ 4 ∷ 4 ∷ 4 ∷ 4 ∷ 4 ∷ 4 ∷ 4 ∷ 4 ∷ 4 ∷ 4 ∷ 4 ∷ []

abbrev pub endian_char : Endian → ℕ
endian_char Endian.little = b'L'
endian_char Endian.big = b'B'

-- `descr_offset`, `offset_types` and `offset_msgs` of the header.
abbrev pub descr_offset : Gbnl → ℕ
descr_offset g = if g.is_gstl then 64 else 0

unfoldable pub types_offset : Gbnl → ℕ
unfolding align
types_offset g = align g.is_gstl ((descr_offset g + g.msg_descr_size * length g.messages) % 2 ^ 64)

unfoldable pub strings_offset : Gbnl → ℕ
unfolding align types_offset
strings_offset g = align g.is_gstl ((types_offset g + 4 * g.real_item_count) % 2 ^ 64)

-- The fields of the header behind `endian`.
abbrev pub header_fields : Gbnl → List ℕ
header_fields g =
    1
    ∷ 0
    ∷ 16
    ∷ 4
    ∷ g.flags
    ∷ descr_offset g
    ∷ length g.messages
    ∷ g.msg_descr_size
    ∷ g.real_item_count
    ∷ types_offset g
    ∷ g.field_28
    ∷ (if g.msgs_size == 0 then 0 else strings_offset g)
    ∷ g.field_30
    ∷ 0
    ∷ 0
    ∷ 0
    ∷ []

-- `DumpHeader`; `pack_endian` cuts the fields to their sizes.
unfoldable pub dump_header : Gbnl → Bytes
unfolding types_offset strings_offset
dump_header g =
    (if g.is_gstl then codes "GST" else codes "GBN")
    ++ (endian_char g.endian ∷ pack_endian g.endian header_sizes (header_fields g))

-- `sink.Pad(to - from)`
abbrev pub pad_to : ℕ → ℕ → Bytes
pad_to to from = replicate ((to + 2 ^ 64 - from) % 2 ^ 64) 0

-- `Dump_`
unfoldable pub dump_gbnl : Gbnl → Result Bytes
unfolding dump_header dump_messages dump_types dump_strings align
dump_gbnl g =
    let msgs_end = (g.msg_descr_size * length g.messages) % 2 ^ 64 in
    let msgs_end_round = align g.is_gstl msgs_end in
    let control_end = (msgs_end_round + 4 * g.real_item_count) % 2 ^ 64 in
    let control_end_round = align g.is_gstl control_end in
    let (strings, offset) = dump_strings g.messages 0 in
    let offset_round = align g.is_gstl offset in
    guard (offset == g.msgs_size) assertion
    >> ok (
        (if g.is_gstl then dump_header g else [])
        ++ (dump_messages g.endian g.type (replicate g.msg_descr_size 0) g.messages
            ++ (pad_to msgs_end_round msgs_end
                ++ (dump_types g.endian 0 g.type
                    ++ (pad_to control_end_round control_end
                        ++ (strings
                            ++ (pad_to offset_round offset
                                ++ (if g.is_gstl then [] else dump_header g))))))))
