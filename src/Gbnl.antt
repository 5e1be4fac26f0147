-- ===== src/Gbnl.antt =====
-- src/format/gbnl.hpp, src/format/gbnl.cpp: a table of messages, which are structures of one type, with the
-- strings that they refer to. A structure (src/dynamic_struct.hpp) is the list of its values, its
-- type the list of its items.
pub mod Types
pub mod Strings
pub mod Dump
pub mod Parse
pub mod Ids
mod Tests
use neptools.Prelude.{ℕ, ◌+◌, ◌%◌, ◌^◌, Bool, true, false, List, [], ◌∷◌, if◌then◌else◌}
use neptools.Prelude.Bytes.{Bytes}
use neptools.Endian.{Endian}

-- An item of a type: the index of its C++ type, and the size of those that have one of their own.
pub data Item : Type 0 where
  int8 int16 int32 int64 float string : Item
  fix_string padding : ℕ → Item

-- A value in a structure; a number is its bit pattern. `string` is an `OffsetString`, with the string and
-- the offset, `fix_string` and `padding` have the memory of the item.
pub data Value : Type 0 where
  int8 int16 int32 int64 float : ℕ → Value
  string : Bytes → ℕ → Value
  fix_string padding : Bytes → Value

abbrev pub Message : Type 0
Message = List Value

pub record Gbnl : Type 0 where
  pub endian : Endian
  pub is_gstl : Bool
  pub flags : ℕ
  pub field_28 : ℕ
  pub field_30 : ℕ
  pub messages : List Message
  pub type : List Item
  pub msg_descr_size : ℕ
  pub msgs_size : ℕ
  pub real_item_count : ℕ

-- The offset of a string that is not there.
abbrev pub no_string : ℕ
no_string = 0xffffffff

-- The bytes of an item in a message.
unfoldable pub item_size : Item → ℕ
item_size Item.int8 = 1
item_size Item.int16 = 2
item_size Item.int32 = 4
item_size Item.int64 = 8
item_size Item.float = 4
item_size Item.string = 4
item_size (Item.fix_string n) = n
item_size (Item.padding n) = n

-- Padding has no descriptor.
unfoldable pub is_real : Item → Bool
is_real (Item.padding n) = false
is_real Item.int8 = true
is_real Item.int16 = true
is_real Item.int32 = true
is_real Item.int64 = true
is_real Item.float = true
is_real Item.string = true
is_real (Item.fix_string n) = true

-- `count` in `RecalcSize`.
abbrev pub count_real : List Item → ℕ
count_real [] = 0
count_real (i ∷ items) = (if is_real i then 1 else 0) + count_real items
