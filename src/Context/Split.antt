-- ===== src/Context/Split.antt =====
-- `Item::Replace` of src/format/item.hpp, `Item::Replace_` of src/format/item.cpp, and
-- `RawItem::InternalSlice` and `RawItem::Split2` of src/format/raw_item.cpp: an item takes a place in
-- the bytes of a raw item. `this` is the raw item that is split; its source is known by its size.
pub mod LaidOut
pub mod Pieces
pub mod Kept
pub mod Fixed
pub mod Labels
mod Tests
use neptools.Prelude.{
  ℕ, ◌+◌, ◌-◌, ◌%◌, ◌^◌, Bool, true, false, ◌&&◌, ◌||◌, not, Option, none, some, List, [], ◌∷◌,
  ◌++◌, leb, ◌==◌, if◌then◌else◌,
}
use neptools.Prelude.Result.{Result, ok, err, ◌>>=◌, ◌>>◌, guard, assertion}
use neptools.Context.{Context, Item, Label, position_of}
use neptools.Context.Slice.{Piece, points_to, is_unlabelled, replace_item, slice}

-- The check that no label of the item lies behind the new item.
unfoldable pub are_inside : ℕ → ℕ → List Label → Bool
unfolding points_to
are_inside id size [] = true
are_inside id size (l ∷ ls) =
    (not (points_to id l.item) || leb l.offset size) && are_inside id size ls

unfoldable pub labels_to : ℕ → ℕ → List Label → List Label
unfolding points_to
labels_to id new_id [] = []
labels_to id new_id (l ∷ ls) =
    (if points_to id l.item then record l { item = some new_id } else l) ∷ labels_to id new_id ls

-- The entry at the item's position goes to the new item if it is the item's.
unfoldable pub pmap_replace : ℕ → ℕ → ℕ → List (ℕ × ℕ) → List (ℕ × ℕ)
pmap_replace pos id new_id [] = []
pmap_replace pos id new_id ((k, v) ∷ m) =
    if k == pos && v == id then (k, new_id) ∷ m else (k, v) ∷ pmap_replace pos id new_id m

unfoldable pub replace : ℕ → Item → Context → Result Context
unfolding are_inside labels_to pmap_replace
replace id nitem c = elim (position_of id c.children) [
  | none ↦ err assertion
  | some pos ↦ do
    guard (are_inside id nitem.size c.labels) assertion
    guard (is_unlabelled nitem.id c.labels) assertion
    ok (record {
      children = replace_item id (record nitem { position = pos } ∷ []) c.children;
      pmap = pmap_replace pos id nitem.id c.pmap;
      labels = labels_to id nitem.id c.labels;
    })
]

-- `next` is the number of the item that is created.
unfoldable pub internal_slice : Item → ℕ → ℕ → ℕ → Result Item
internal_slice this next spos slen = do
  guard (leb ((spos + slen) % 2 ^ 64) this.size) assertion
  ok (record { id = next; position = (this.position + spos) % 2 ^ 64; size = slen })

abbrev pub piece : Item → ℕ → Piece
piece i stop = record { first = i; second = stop }

unfoldable pub split_pieces : Item → ℕ → Item → ℕ → ℕ → Result (List Piece)
unfolding internal_slice
split_pieces this pos nitem next rem_len =
    let front = if pos == 0 then [] else piece this pos ∷ [] in
    let middle = piece nitem ((pos + nitem.size) % 2 ^ 64) in
    if rem_len == 0
    then ok (front ++ (middle ∷ []))
    else if pos == 0
    then ok (front ++ (middle ∷ piece this this.size ∷ []))
    else do
      rest ← internal_slice this next ((pos + nitem.size) % 2 ^ 64) rem_len
      ok (front ++ (middle ∷ piece rest this.size ∷ []))

-- `src.Slice(_, size)` of the item.
unfoldable pub resize : ℕ → ℕ → List Item → List Item
resize id size [] = []
resize id size (i ∷ items) =
    (if i.id == id then record i { size = size } else i) ∷ resize id size items

-- `GetSize() - len - pos`
abbrev pub remaining : Item → ℕ → ℕ → ℕ
remaining this len pos = (this.size + 2 ^ 64 + 2 ^ 64 - len - pos) % 2 ^ 64

-- `Split2` where the new item does not fill the raw item.
unfoldable pub split_apart : Item → ℕ → Item → ℕ → Context → Result Context
unfolding split_pieces resize
split_apart this pos nitem next c = do
  let rem_len = remaining this nitem.size pos
  seq ← split_pieces this pos nitem next rem_len
  c' ← slice this.id seq c
  let size = if pos == 0 then rem_len else pos
  ok (record c' { children = resize this.id size c'.children })

-- `Split2`
unfoldable pub split : Item → ℕ → Item → ℕ → Context → Result Context
unfolding replace split_apart
split this pos nitem next c =
    guard (leb pos this.size && leb ((pos + nitem.size) % 2 ^ 64) this.size) assertion
    >> (if pos == 0 && remaining this nitem.size pos == 0
        then replace this.id nitem c
        else split_apart this pos nitem next c)

-- `Split`: the bytes from `offset` become a raw item of their own, of the number `next`.
unfoldable pub split_raw : Item → ℕ → ℕ → ℕ → ℕ → Context → Result Context
unfolding internal_slice split
split_raw this offset size next next_rest c = do
  it ← internal_slice this next offset size
  split this offset it next_rest c
