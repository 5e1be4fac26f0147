-- ===== src/Gbnl/Tests.antt =====
-- src/format/gbnl.cpp on a small table: two messages of a number, a string and a short string in place, and
-- one string twice.
use neptools.Gbnl.Strings.{find_string}
use neptools.Prelude.Text.{str_eq}
use neptools.Prelude.Bytes.{from_le, to_le}
use neptools.Endian.{from_endian, pack_endian}
use neptools.Source.{until_zero}
use neptools.Prelude.{◌≡◌, refl, [], ◌∷◌, ◌++◌, false, List, arith}
use neptools.Prelude.Result.{ok, err}
use neptools.Prelude.Text.{codes}
use neptools.Prelude.Bytes.{Bytes}
use neptools.Endian.{Endian}
use neptools.Gbnl.{Item, Value, Gbnl}
use neptools.Gbnl.{item_size, is_real}
use neptools.Source.{Source, from_memory}
use neptools.Source.Consumed.{IsReadable}
use neptools.Prelude.Bytes.{are_bytes-IsBytes}
use neptools.Prelude.{length}
use neptools.Prelude.Result.{decode_error}
use neptools.Gbnl.Types.{parse_types}
use neptools.Gbnl.Types.Reproduced.{TypesReproduced, parse_types-TypesReproduced}
use neptools.Gbnl.Strings.{recalc_size, dump_strings}
use neptools.Gbnl.Strings.Placed.{StringsPlaced, recalc_size-StringsPlaced}
use neptools.Gbnl.Strings.Stands.{MessagesStand}
use neptools.Gbnl.Dump.Headed.{IsDumped}
use neptools.Gbnl.Dump.Repacked.{IsWritable, recalc_size-dump_gbnl}
use neptools.Gbnl.Parse.{parse_gbnl}
use neptools.Gbnl.Parse.Repacked.{parse_gbnl-dump_gbnl}
use neptools.Gbnl.Dump.{dump_gbnl, get_size}

abbrev type : List Item
type = Item.int32 ∷ Item.string ∷ Item.fix_string 6 ∷ Item.int16 ∷ []

abbrev name : Bytes
name = codes "abc" ++ (0 ∷ 0 ∷ 0 ∷ [])

abbrev table : Gbnl
table = record {
  endian = Endian.big;
  is_gstl = false;
  flags = 1;
  field_28 = 2;
  field_30 = 8;
  messages =
      (Value.int32 7 ∷ Value.string (codes "Nep") 0 ∷ Value.fix_string name ∷ Value.int16 5 ∷ [])
      ∷ (Value.int32 8 ∷ Value.string (codes "Nep") 0 ∷ Value.fix_string name ∷ Value.int16 6 ∷ [])
      ∷ [];
  type = type;
  msg_descr_size = 0;
  msgs_size = 0;
  real_item_count = 0;
}

-- The bytes of its file.
abbrev file : Bytes
file =
    0 ∷ 0 ∷ 0 ∷ 7 ∷ 0 ∷ 0 ∷ 0 ∷ 0 ∷ 97 ∷ 98 ∷ 99 ∷ 0 ∷ 0 ∷ 0 ∷ 0 ∷ 5 ∷ 0 ∷ 0 ∷ 0 ∷ 8 ∷ 0 ∷ 0 ∷ 0 ∷ 0
    ∷ 97 ∷ 98 ∷ 99 ∷ 0 ∷ 0 ∷ 0 ∷ 0 ∷ 6 ∷ 0 ∷ 0 ∷ 0 ∷ 0 ∷ 0 ∷ 5 ∷ 0 ∷ 4 ∷ 0 ∷ 1 ∷ 0 ∷ 8 ∷ 0 ∷ 2 ∷ 0
    ∷ 14 ∷ 78 ∷ 101 ∷ 112 ∷ 0 ∷ 0 ∷ 0 ∷ 0 ∷ 0 ∷ 0 ∷ 0 ∷ 0 ∷ 0 ∷ 0 ∷ 0 ∷ 0 ∷ 0 ∷ 71 ∷ 66 ∷ 78 ∷ 66
    ∷ 0 ∷ 1 ∷ 0 ∷ 0 ∷ 0 ∷ 0 ∷ 0 ∷ 16 ∷ 0 ∷ 0 ∷ 0 ∷ 4 ∷ 0 ∷ 0 ∷ 0 ∷ 1 ∷ 0 ∷ 0 ∷ 0 ∷ 0 ∷ 0 ∷ 0 ∷ 0 ∷ 2
    ∷ 0 ∷ 0 ∷ 0 ∷ 16 ∷ 0 ∷ 0 ∷ 0 ∷ 4 ∷ 0 ∷ 0 ∷ 0 ∷ 32 ∷ 0 ∷ 0 ∷ 0 ∷ 2 ∷ 0 ∷ 0 ∷ 0 ∷ 48 ∷ 0 ∷ 0 ∷ 0
    ∷ 8 ∷ 0 ∷ 0 ∷ 0 ∷ 0 ∷ 0 ∷ 0 ∷ 0 ∷ 0 ∷ 0 ∷ 0 ∷ 0 ∷ 0 ∷ []

abbrev parsed : Gbnl
parsed = record table {
  messages =
      (Value.int32 7 ∷ Value.string (codes "Nep") 0 ∷ Value.fix_string name ∷ Value.int16 5 ∷ [])
      ∷ (Value.int32 8 ∷ Value.string (codes "Nep") 0 ∷ Value.fix_string name ∷ Value.int16 6 ∷ [])
      ∷ [];
  msg_descr_size = 16;
  msgs_size = 4;
  real_item_count = 4;
}

recalc_size_table : recalc_size table ≡ parsed
unfolding recalc_size find_string item_size is_real str_eq
recalc_size_table = refl

dump_gbnl_table : dump_gbnl parsed ≡ ok file
unfolding dump_gbnl to_le pack_endian
dump_gbnl_table = refl

parse_gbnl_file : parse_gbnl (from_memory file) ≡ ok parsed
unfolding parse_gbnl str_eq from_le until_zero item_size is_real find_string
parse_gbnl_file = refl

file-IsReadable : IsReadable (from_memory file)
file-IsReadable = record {
  window = record { fits = omega arith; addressable = omega arith };
  bytes = are_bytes-IsBytes file refl;
  in_window = omega arith;
  small = omega arith;
}

-- The window at the descriptors.
abbrev at_types : Source
at_types = record (from_memory file) { get = 32 }

at_types-IsReadable : IsReadable at_types
at_types-IsReadable = record {
  window = record { fits = omega arith; addressable = omega arith };
  bytes = are_bytes-IsBytes file refl;
  in_window = omega arith;
  small = omega arith;
}

parse_types_file :
    parse_types Endian.big 16 4 0 false at_types ≡ ok (type, record at_types { get = 48 })
unfolding parse_types from_endian from_le
parse_types_file = refl

-- The second descriptor stands before the end of the first.
parse_types_unordered :
    parse_types Endian.little 8 2 0 false (from_memory (0 ∷ 0 ∷ 0 ∷ 0 ∷ 0 ∷ 0 ∷ 2 ∷ 0 ∷ []))
    ≡ err decode_error
unfolding parse_types from_endian from_le
parse_types_unordered = refl

-- A gap of three bytes or fewer behind an `INT8` is padding.
parse_types_padding :
    parse_types Endian.little 4 1 0 false (from_memory (1 ∷ 0 ∷ 0 ∷ 0 ∷ []))
    ≡ ok (Item.int8 ∷ Item.padding 3 ∷ [], record (from_memory (1 ∷ 0 ∷ 0 ∷ 0 ∷ [])) { get = 4 })
unfolding parse_types from_endian from_le
parse_types_padding = refl

parse_types-TypesReproduced_example :
    TypesReproduced Endian.big 16 4 at_types (record at_types { get = 48 }) type
parse_types-TypesReproduced_example =
    parse_types-TypesReproduced Endian.big 16 4 at_types (record at_types { get = 48 }) type
      at_types-IsReadable parse_types_file

recalc_size-StringsPlaced_example :
    StringsPlaced table (recalc_size table) (dump_strings (recalc_size table).messages 0)
recalc_size-StringsPlaced_example = recalc_size-StringsPlaced table (omega arith)

get_size-parsed : get_size parsed ≡ 128
unfolding get_size
get_size-parsed = refl

table-IsWritable : IsWritable table
unfolding item_size is_real
table-IsWritable = record {
  have_type = (
    (refl, (tt, (tt, (omega arith, (tt, tt))))),
    ((refl, (tt, (tt, (omega arith, (tt, tt))))), tt),
  );
  type_small = omega arith;
  messages_small = omega arith;
  types_small = omega arith;
  strings_small = omega arith;
  count_small = omega arith;
  whole = rw recalc_size_table (omega (arith, get_size-parsed));
}

recalc_size-dump_gbnl_example :
    (bytes : Bytes) × (dump_gbnl (recalc_size table) ≡ ok bytes)
    × IsDumped (recalc_size table) bytes
recalc_size-dump_gbnl_example = recalc_size-dump_gbnl table table-IsWritable

parse_gbnl-dump_gbnl_example :
    (bytes : Bytes) × (dump_gbnl parsed ≡ ok bytes)
    × (length bytes ≡ 128)
    × IsDumped parsed bytes
    × MessagesStand (dump_strings parsed.messages 0).0 parsed.messages
parse_gbnl-dump_gbnl_example =
    parse_gbnl-dump_gbnl (from_memory file) parsed file-IsReadable (omega arith) parse_gbnl_file
      (omega arith)
