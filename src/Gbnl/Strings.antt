-- ===== src/Gbnl/Strings.antt =====
-- `Gbnl::RecalcSize` of src/format/gbnl.cpp, which gives each string its offset among the strings behind the
-- messages, equal strings the same one, and the loop of `Dump_` that writes them.
pub mod Stands
pub mod Wrote
pub mod Placed
use neptools.Prelude.{
  ℕ, ◌+◌, ◌%◌, ◌^◌, Bool, true, false, Option, none, some, List, [], ◌∷◌, ◌++◌, ◌==◌, if◌then◌else◌,
  length,
}
use neptools.Prelude.Bytes.{Bytes}
use neptools.Prelude.Text.{str_eq}
use neptools.Gbnl.{Item, Value, Message, Gbnl, no_string, item_size, count_real}

-- The loop over the items, whose counters have 64 bits.
unfoldable pub descr_size : List Item → ℕ
descr_size [] = 0
descr_size (i ∷ items) = (item_size i + descr_size items) % 2 ^ 64

-- `offset_map` and `offset`.
pub record Table : Type 0 where
  pub map : List (Bytes × ℕ)
  pub offset : ℕ

unfoldable pub find_string : Bytes → List (Bytes × ℕ) → Option ℕ
find_string str [] = none
find_string str ((s, o) ∷ map) = if str_eq s str then some o else find_string str map

-- `offset_map.emplace(os.str, offset)`: the offset of the string, and the table then.
unfoldable pub emplace : Bytes → Table → ℕ × Table
emplace str t = elim (find_string str t.map) [
  | some o ↦ (o, t)
  | none ↦ (
    t.offset,
    record { map = (str, t.offset) ∷ t.map; offset = (t.offset + length str + 1) % 2 ^ 64 },
  )
]

-- `os.offset` has 32 bits.
unfoldable pub place_value : Value → Table → Value × Table
unfolding emplace
place_value (Value.string str offset) t =
    let (o, t') = emplace str t in
    if offset == no_string
    then (Value.string str offset, t)
    else (Value.string str (o % 2 ^ 32), t')
place_value (Value.int8 x) t = (Value.int8 x, t)
place_value (Value.int16 x) t = (Value.int16 x, t)
place_value (Value.int32 x) t = (Value.int32 x, t)
place_value (Value.int64 x) t = (Value.int64 x, t)
place_value (Value.float x) t = (Value.float x, t)
place_value (Value.fix_string bs) t = (Value.fix_string bs, t)
place_value (Value.padding bs) t = (Value.padding bs, t)

unfoldable pub place_message : Message → Table → Message × Table
unfolding place_value
place_message [] t = ([], t)
place_message (v ∷ vs) t =
    let (v', t') = place_value v t in let (vs', u) = place_message vs t' in (v' ∷ vs', u)

unfoldable pub place_messages : List Message → Table → List Message × Table
unfolding place_message
place_messages [] t = ([], t)
place_messages (m ∷ ms) t =
    let (m', t') = place_message m t in let (ms', u) = place_messages ms t' in (m' ∷ ms', u)

abbrev pub no_strings : Table
no_strings = record { map = []; offset = 0 }

unfoldable pub recalc_size : Gbnl → Gbnl
unfolding descr_size place_messages
recalc_size g =
    let (ms, t) = place_messages g.messages no_strings in
    record g {
      messages = ms;
      msg_descr_size = descr_size g.type;
      real_item_count = count_real g.type;
      msgs_size = t.offset;
    }

-- `Dump_` writes a string if it is the next one: what it writes, and `offset` then.
unfoldable pub dump_string : Value → ℕ → Bytes × ℕ
dump_string (Value.string str o) offset =
    if o == offset then (str ++ (0 ∷ []), (offset + length str + 1) % 2 ^ 64) else ([], offset)
dump_string (Value.int8 x) offset = ([], offset)
dump_string (Value.int16 x) offset = ([], offset)
dump_string (Value.int32 x) offset = ([], offset)
dump_string (Value.int64 x) offset = ([], offset)
dump_string (Value.float x) offset = ([], offset)
dump_string (Value.fix_string bs) offset = ([], offset)
dump_string (Value.padding bs) offset = ([], offset)

unfoldable pub dump_message_strings : Message → ℕ → Bytes × ℕ
unfolding dump_string
dump_message_strings [] offset = ([], offset)
dump_message_strings (v ∷ vs) offset =
    let (bytes, next) = dump_string v offset in
    let (rest, end) = dump_message_strings vs next in (bytes ++ rest, end)

unfoldable pub dump_strings : List Message → ℕ → Bytes × ℕ
unfolding dump_message_strings
dump_strings [] offset = ([], offset)
dump_strings (m ∷ ms) offset =
    let (bytes, next) = dump_message_strings m offset in
    let (rest, end) = dump_strings ms next in (bytes ++ rest, end)
