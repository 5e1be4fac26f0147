-- ===== src/Context.antt =====
-- src/format/context.cpp, context.hpp, item_base.hpp: the context of a file, which owns the items in
-- file order, the labels that point into them, and, while a file is parsed, the map from file
-- positions to items. Items are known by a number, since the source compares their addresses; a
-- `LabelPtr` is the label's name, which is unique in a context.
pub mod Naming
pub mod Labels
pub mod Setting
pub mod Layout
pub mod Slice
pub mod Split
mod Tests
use neptools.Prelude.{
  ℕ, zero, suc, ◌+◌, ◌-◌, ◌%◌, ◌^◌, ◌≡◌, Bool, true, false, ◌&&◌, Option, none, some, List, [], ◌∷◌,
  ◌++◌, leb, ◌==◌, if◌then◌else◌, length,
}
use neptools.Prelude.Bytes.{Bytes}
use neptools.Prelude.Result.{Error, out_of_range, assertion, Result, ok, err, ◌>>=◌}
use neptools.Prelude.Text.{str_eq, decimal, digits_in, pad_left, codes}
use mathlib.Core.Option

pub record Item : Type 0 where
  pub id : ℕ
  pub position : ℕ
  pub size : ℕ

-- A pointer to an item that is there.
pub record ItemPointer : Type 0 where
  pub item : ℕ
  pub offset : ℕ

-- The item of a dummy label is null.
pub record Label : Type 0 where
  pub name : Bytes
  pub item : Option ℕ
  pub offset : ℕ

-- `children` is `GetChildren()`. The labels stand in the order in which they were attached, which is
-- the order of equal offsets in an item's `labels`.
pub record Context : Type 0 where
  pub children : List Item
  pub pmap : List (ℕ × ℕ)
  pub labels : List Label

abbrev pub label_at : Bytes → ItemPointer → Label
label_at name ptr = record { name = name; item = some ptr.item; offset = ptr.offset }

-- `labels.find(name)`
unfoldable pub find_label : Bytes → List Label → Option Label
find_label name [] = none
find_label name (l ∷ ls) = if str_eq l.name name then some l else find_label name ls

unfoldable pub position_of : ℕ → List Item → Option ℕ
position_of id [] = none
position_of id (i ∷ items) = if i.id == id then some i.position else position_of id items

-- `ToFilePos(label->GetPtr())`
unfoldable pub to_file_pos : List Item → Label → Option ℕ
to_file_pos items l = elim l.item [
  | none ↦ none
  | some id ↦ Option.map (λ p. (p + l.offset) % 2 ^ 64) (position_of id items)
]

-- The file position of the label that a `LabelPtr` refers to.
unfoldable pub label_pos : Context → Bytes → Option ℕ
label_pos c name = elim (find_label name c.labels) [
  | none ↦ none
  | some l ↦ to_file_pos c.children l
]

-- `SetupParseFrom`
unfoldable pub setup_parse_from : Item → Context → Context
setup_parse_from item c = record c {
  pmap = (0, item.id) ∷ [];
  children = c.children ++ (item ∷ []);
}

-- The positions that `UpdatePosition` gives to the children, from `pos` on.
unfoldable pub update_positions : ℕ → List Item → List Item
update_positions pos [] = []
update_positions pos (i ∷ items) =
    record i { position = pos } ∷ update_positions ((pos + i.size) % 2 ^ 64) items

-- `Context::Fixup`
unfoldable pub fixup : Context → Context
fixup c = record c { pmap = []; children = update_positions 0 c.children }

-- `ItemWithChildren::GetSize`
unfoldable pub sum_sizes : List Item → ℕ
sum_sizes [] = 0
sum_sizes (i ∷ items) = (i.size + sum_sizes items) % 2 ^ 64

unfoldable pub get_label : Bytes → Context → Result Label
get_label name c = elim (find_label name c.labels) [ none ↦ err out_of_range | some l ↦ ok l ]

unfoldable pub attach : Label → Context → Context
attach l c = record c { labels = c.labels ++ (l ∷ []) }

unfoldable pub create_label : Bytes → ItemPointer → Context → Result (Bytes × Context)
create_label name ptr c = elim (find_label name c.labels) [
  | none ↦ ok (name, attach (label_at name ptr) c)
  | some l ↦ err out_of_range
]

-- The names that `CreateLabelFallback` tries: `name`, `name_1`, `name_2`, ...
unfoldable pub candidate : Bytes → ℕ → Bytes
candidate name zero = name
candidate name (suc i) = name ++ (b'_' ∷ decimal (suc i))

unfoldable pub taken : Bytes → List Label → Bool
unfolding find_label
taken name ls = elim (find_label name ls) [ none ↦ false | some l ↦ true ]

-- The loop that looks for a free name. The labels are finitely many, so that it ends: `fuel` is
-- their number.
unfoldable pub free_name : ℕ → Bytes → ℕ → List Label → Bytes
free_name zero name i ls = candidate name i
free_name (suc fuel) name i ls =
    let rest = free_name fuel name (i + 1) ls in
    if taken (candidate name i) ls then rest else candidate name i

unfoldable pub fallback_name : Bytes → List Label → Bytes
fallback_name name ls = free_name (length ls) name 0 ls

unfoldable pub create_label_fallback : Bytes → ItemPointer → Context → Bytes × Context
create_label_fallback name ptr c =
    let str = fallback_name name c.labels in (str, attach (label_at str ptr) c)

-- `labels.remove_node`, and the removal of the label itself.
unfoldable pub remove_label : Bytes → List Label → List Label
remove_label name [] = []
remove_label name (l ∷ ls) =
    if str_eq l.name name then remove_label name ls else l ∷ remove_label name ls

unfoldable pub create_or_set_label : Bytes → ItemPointer → Context → Bytes × Context
create_or_set_label name ptr c = elim (find_label name c.labels) [
  | none ↦ (name, attach (label_at name ptr) c)
  | some l ↦ (name, attach (label_at name ptr) (record c { labels = remove_label name c.labels }))
]

unfoldable pub get_or_create_dummy_label : Bytes → Context → Bytes × Context
get_or_create_dummy_label name c = elim (find_label name c.labels) [
  | none ↦ (name, attach (record { name = name; item = none; offset = 0 }) c)
  | some l ↦ (l.name, c)
]

unfoldable pub points_at : Option ℕ → ℕ → Bool
points_at none id = false
points_at (some i) id = i == id

-- `ptr.item->labels.find(ptr.offset)`
unfoldable pub find_offset : ItemPointer → List Label → Option Label
find_offset ptr [] = none
find_offset ptr (l ∷ ls) =
    if points_at l.item ptr.item && l.offset == ptr.offset then some l else find_offset ptr ls

-- `GetLabelTo` behind `GetPointer`: a label that is there, or a new one under a given name.
unfoldable pub get_or_create_at : ItemPointer → Bytes → Context → Bytes × Context
get_or_create_at ptr name c = elim (find_offset ptr c.labels) [
  | none ↦ create_label_fallback name ptr c
  | some l ↦ (l.name, c)
]

-- `"loc_" << std::setw(8) << std::setfill('0') << std::hex << pos`
abbrev pub loc_name : ℕ → Bytes
loc_name pos = codes "loc_" ++ pad_left 8 (digits_in 16 16 pos)

unfoldable pub get_label_to_ptr : ItemPointer → Context → Result (Bytes × Context)
get_label_to_ptr ptr c = elim (position_of ptr.item c.children) [
  | none ↦ err assertion
  | some p ↦ ok (get_or_create_at ptr (loc_name ((p + ptr.offset) % 2 ^ 64)) c)
]

-- `--pmap.upper_bound(pos)`: the entry with the greatest key that is not above `pos`.
unfoldable pub floor_entry : List (ℕ × ℕ) → ℕ → Option (ℕ × ℕ)
floor_entry [] pos = none
floor_entry ((k, v) ∷ m) pos =
    if leb k pos then some (Option.get_or (floor_entry m pos) (k, v)) else none

-- `GetPointer`, with its two assertions: an entry stands before `pos`, and it names an item that is
-- at the entry's position.
unfoldable pub get_pointer : ℕ → Context → Result ItemPointer
get_pointer pos c = elim (floor_entry c.pmap pos) [
  | none ↦ err assertion
  | some (k, id) ↦ elim (position_of id c.children) [
    | none ↦ err assertion
    | some p ↦ if k == p then ok (record { item = id; offset = pos - k }) else err assertion
  ]
]

-- `GetLabelTo(FilePosition)`
unfoldable pub get_label_to : ℕ → Context → Result (Bytes × Context)
get_label_to pos c = do ptr ← get_pointer pos c; get_label_to_ptr ptr c

-- `GetLabelTo(FilePosition, const std::string&)`
unfoldable pub get_label_to_named : ℕ → Bytes → Context → Result (Bytes × Context)
get_label_to_named pos name c = do ptr ← get_pointer pos c; ok (get_or_create_at ptr name c)

-- `Context::Dispose`
unfoldable pub dispose : Context → Context
dispose c = record { children = []; pmap = []; labels = [] }

-- `ToFilePos(lbl->GetPtr())`; a dummy label's null item is dereferenced.
unfoldable pub deref_pos : Context → Bytes → Result ℕ
deref_pos c name = elim (label_pos c name) [ none ↦ err assertion | some p ↦ ok p ]
