-- ===== src/Gbnl/Ids/Tests.antt =====
-- The ids of src/format/gbnl.cpp in a table of two messages, which have a string and two strings in place.
use neptools.Prelude.{ℕ, ◌≡◌, ◌⊎◌, refl, arith, false, some, [], ◌∷◌}
use neptools.Prelude.Text.{codes}
use neptools.Endian.{Endian}
use neptools.Gbnl.{Item, Value, Gbnl, Message}
use neptools.Gbnl.Ids.{no_position, number, get_id, find_dst}
use neptools.Gbnl.Ids.Found.{HasId, find_dst-HasId}

abbrev message : Message
message =
    Value.int8 7
    ∷ Value.string (codes "Nep") 0
    ∷ Value.fix_string (0 ∷ [])
    ∷ Value.fix_string (0 ∷ [])
    ∷ []

abbrev table : Gbnl
table = record {
  endian = Endian.little;
  is_gstl = false;
  flags = 0;
  field_28 = 2;
  field_30 = 8;
  messages = message ∷ message ∷ [];
  type = Item.int8 ∷ Item.string ∷ Item.fix_string 1 ∷ Item.fix_string 1 ∷ [];
  msg_descr_size = 0;
  msgs_size = 0;
  real_item_count = 0;
}

find_dst-HasId_example :
    ((p : ℕ) × ((j : ℕ) × ((find_dst table false 10001 0 ≡ (p, j)) × HasId table 10001 j p)))
    ⊎ ((find_dst table false 10001 0 ≡ (no_position, 0)) × ((j p : ℕ) → HasId table 10001 j p → ⊥))
find_dst-HasId_example = find_dst-HasId table 10001 0 (omega arith)

second_message : find_dst table false 10001 0 ≡ (1, 1)
unfolding find_dst number
second_message = refl

-- The second string in place has the id of the first, and is not found.
one_id : get_id table false message (Value.fix_string (0 ∷ [])) 3 1 1 ≡ (some 1, 1)
unfolding get_id number
one_id = refl

first_in_place : find_dst table false 1 0 ≡ (2, 1)
unfolding find_dst number
first_in_place = refl
