-- ===== src/Gbnl/Parse.antt =====
-- `Gbnl::Parse_` and `Gbnl::Header::Validate` of src/format/gbnl.cpp.
pub mod Typed
pub mod Counted
pub mod Repacked
use neptools.Prelude.{
  ℕ, zero, suc, ◌+◌, ◌-◌, ◌*◌, ◌%◌, ◌^◌, Bool, true, false, ◌&&◌, ◌||◌, List, [], ◌∷◌, ◌==◌, ltb,
  if◌then◌else◌, take, drop, get_or, length,
}
use neptools.Prelude.Bytes.{Bytes}
use neptools.Prelude.Text.{codes, str_eq}
use neptools.Prelude.Result.{Result, ok, err, ◌>>=◌, ◌>>◌, guard, decode_error}
use neptools.Source.{Source, check_size, pread, read, seek, pread_cstring}
use neptools.Endian.{Endian, from_endian, unpack_endian}
use neptools.Gbnl.{Item, Value, Message, Gbnl, no_string}
use neptools.Gbnl.Types.{parse_types}
use neptools.Gbnl.Strings.{recalc_size}
use neptools.Gbnl.Dump.{header_sizes, get_size}

pub record Header : Type 0 where
  pub magic : Bytes
  pub endian : ℕ
  pub field_04 : ℕ
  pub field_06 : ℕ
  pub field_08 : ℕ
  pub field_0c : ℕ
  pub flags : ℕ
  pub descr_offset : ℕ
  pub count_msgs : ℕ
  pub msg_descr_size : ℕ
  pub count_types : ℕ
  pub offset_types : ℕ
  pub field_28 : ℕ
  pub offset_msgs : ℕ
  pub field_30 : ℕ
  pub field_34 : ℕ
  pub field_38 : ℕ
  pub field_3c : ℕ

abbrev pub header_fields_of : Bytes → ℕ → List ℕ → Header
header_fields_of magic endian xs = record {
  magic = magic;
  endian = endian;
  field_04 = get_or xs 0 0;
  field_06 = get_or xs 1 0;
  field_08 = get_or xs 2 0;
  field_0c = get_or xs 3 0;
  flags = get_or xs 4 0;
  descr_offset = get_or xs 5 0;
  count_msgs = get_or xs 6 0;
  msg_descr_size = get_or xs 7 0;
  count_types = get_or xs 8 0;
  offset_types = get_or xs 9 0;
  field_28 = get_or xs 10 0;
  offset_msgs = get_or xs 11 0;
  field_30 = get_or xs 12 0;
  field_34 = get_or xs 13 0;
  field_38 = get_or xs 14 0;
  field_3c = get_or xs 15 0;
}

-- The header in native order.
unfoldable pub header_of : Endian → Bytes → Header
unfolding unpack_endian
header_of e bytes =
    header_fields_of (take 3 bytes) (get_or bytes 3 0) (unpack_endian e header_sizes (drop 4 bytes))

-- `Validate`: a sum of fields has 32 bits, a sum with a `sizeof` 64.
unfoldable pub validate : Header → ℕ → Result (Unit {0})
validate h chunk_size =
    guard (h.endian == b'L' || h.endian == b'B') decode_error
    >> guard (h.field_04 == 1 && h.field_06 == 0 && h.field_08 == 16 && h.field_0c == 4)
        decode_error
    >> guard (ltb ((h.descr_offset + h.msg_descr_size * h.count_msgs) % 2 ^ 32) chunk_size)
        decode_error
    >> guard (ltb ((h.offset_types + 4 * h.count_types) % 2 ^ 64) chunk_size) decode_error
    >> guard (ltb h.offset_msgs chunk_size) decode_error
    >> guard (h.field_34 == 0 && h.field_38 == 0 && h.field_3c == 0) decode_error
    >> (if str_eq h.magic (codes "GBN")
        then guard (h.descr_offset == 0) decode_error
        else if str_eq h.magic (codes "GST")
        then guard (h.descr_offset == 64) decode_error
        else err decode_error)

-- `ReadUint8(endian)` and its like.
unfoldable pub read_endian : Endian → ℕ → Source → Result (ℕ × Source)
unfolding read from_endian
read_endian e n s = do (bytes, t) ← read n s; ok (from_endian e bytes, t)

-- The string at an offset that was read.
unfoldable pub read_string : ℕ → ℕ → Source → Result Value
unfolding pread_cstring
read_string offset_msgs offs s = if offs == no_string then ok (Value.string [] no_string) else do
  guard (ltb offs ((s.size + 2 ^ 64 - offset_msgs) % 2 ^ 64)) decode_error
  str ← pread_cstring ((offset_msgs + offs) % 2 ^ 32) s
  ok (Value.string str 0)

-- The `switch` over an item of a message.
unfoldable pub read_value : Endian → ℕ → Item → Source → Result (Value × Source)
unfolding read_endian read_string read
read_value e offset_msgs Item.int8 s = do (x, t) ← read_endian e 1 s; ok (Value.int8 x, t)
read_value e offset_msgs Item.int16 s = do (x, t) ← read_endian e 2 s; ok (Value.int16 x, t)
read_value e offset_msgs Item.int32 s = do (x, t) ← read_endian e 4 s; ok (Value.int32 x, t)
read_value e offset_msgs Item.int64 s = do (x, t) ← read_endian e 8 s; ok (Value.int64 x, t)
read_value e offset_msgs Item.float s = do (x, t) ← read_endian e 4 s; ok (Value.float x, t)
read_value e offset_msgs Item.string s = do
  (offs, t) ← read_endian e 4 s
  v ← read_string offset_msgs offs t
  ok (v, t)
read_value e offset_msgs (Item.fix_string n) s = do (bs, t) ← read n s; ok (Value.fix_string bs, t)
read_value e offset_msgs (Item.padding n) s = do (bs, t) ← read n s; ok (Value.padding bs, t)

unfoldable pub read_message : Endian → ℕ → List Item → Source → Result (Message × Source)
unfolding read_value
read_message e offset_msgs [] s = ok ([], s)
read_message e offset_msgs (i ∷ items) s = do
  (v, t) ← read_value e offset_msgs i s
  (vs, u) ← read_message e offset_msgs items t
  ok (v ∷ vs, u)

-- The loop over `count` messages, the first at `msgs`, which has 32 bits.
unfoldable pub read_messages : Endian → ℕ → ℕ → List Item → ℕ → ℕ → Source → Result (List Message)
unfolding read_message seek
read_messages e offset_msgs msg_descr_size items zero msgs s = ok []
read_messages e offset_msgs msg_descr_size items (suc count) msgs s = do
  t ← seek msgs s
  (m, u) ← read_message e offset_msgs items t
  ms ← read_messages e offset_msgs msg_descr_size items count ((msgs + msg_descr_size) % 2 ^ 32) u
  ok (m ∷ ms)

-- The header or the footer, which `Parse_` tells by the magic.
unfoldable pub read_header : Source → Result (Bool × Bytes)
unfolding check_size pread
read_header s = do
  enough ← check_size 64 s
  head ← pread 0 64 s
  let is_gstl = str_eq (take 3 head) (codes "GST")
  foot ← elim is_gstl [ true ↦ ok head | false ↦ pread ((s.size + 2 ^ 64 - 64) % 2 ^ 64) 64 s ]
  ok (is_gstl, foot)

-- The messages, once the header is read.
unfoldable pub parse_messages : Bool → Endian → Header → Source → Result Gbnl
unfolding parse_types read_messages seek
parse_messages is_gstl e h s = do
  t ← seek h.offset_types s
  (type, u) ← parse_types e h.msg_descr_size h.count_types 0 false t
  ms ← read_messages e h.offset_msgs h.msg_descr_size type h.count_msgs h.descr_offset u
  ok (record {
    endian = e;
    is_gstl = is_gstl;
    flags = h.flags;
    field_28 = h.field_28;
    field_30 = h.field_30;
    messages = ms;
    type = type;
    msg_descr_size = h.msg_descr_size;
    msgs_size = 0;
    real_item_count = 0;
  })

-- `Parse_`
unfoldable pub parse_gbnl : Source → Result Gbnl
unfolding read_header header_of validate parse_messages recalc_size get_size
parse_gbnl s = do
  (is_gstl, foot) ← read_header s
  let e = if get_or foot 3 0 == b'L' then Endian.little else Endian.big
  let h = header_of e foot
  valid ← validate h s.size
  read_in ← parse_messages is_gstl e h s
  let g = recalc_size read_in
  same_size ← guard (g.msg_descr_size == h.msg_descr_size) decode_error
  all_there ← guard (get_size g == s.size) decode_error
  ok g
