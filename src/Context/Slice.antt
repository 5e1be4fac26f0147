-- ===== src/Context/Slice.antt =====
-- `Item::Slice` and `Item::Removed` of src/format/item.cpp: an item of a context is replaced by pieces, and its labels
-- go to the pieces that they point into.
pub mod Items
pub mod Positions
use neptools.Prelude.{
  ℕ, zero, suc, ◌+◌, ◌-◌, ◌%◌, ◌^◌, Bool, true, false, ◌&&◌, ◌||◌, not, Option, none, some, List,
  [], ◌∷◌, ◌++◌, ltb, leb, ◌==◌, if◌then◌else◌, length,
}
use neptools.Prelude.Result.{Result, ok, err, ◌>>=◌, ◌>>◌, guard, assertion}
use neptools.Context.{Context, Item, Label, position_of}

-- A piece, and the offset of its end in the item that is sliced.
pub record Piece : Type 0 where
  pub first : Item
  pub second : ℕ

unfoldable pub is_sorted : List Piece → Bool
is_sorted [] = true
is_sorted (a ∷ []) = true
is_sorted (a ∷ b ∷ seq) = not (ltb b.second a.second) && is_sorted (b ∷ seq)

-- The piece that a label at `off` goes to, and its offset there: `start` is the end of the piece
-- before. A label at the end of a piece stays in it only if the piece is empty.
unfoldable pub place : List Piece → ℕ → ℕ → Option (ℕ × ℕ)
place [] start off = none
place (el ∷ seq) start off =
    let later = place seq el.second off in
    if ltb off el.second || off == el.second && off == start
    then some (el.first.id, off - start)
    else later

-- The pieces with their positions.
unfoldable pub placed_items : ℕ → ℕ → List Piece → List Item
placed_items base start [] = []
placed_items base start (el ∷ seq) =
    record el.first { position = (base + start) % 2 ^ 64 } ∷ placed_items base el.second seq

unfoldable pub points_to : ℕ → Option ℕ → Bool
points_to id none = false
points_to id (some i) = i == id

unfoldable pub label_at_place : Label → Option (ℕ × ℕ) → Result Label
label_at_place l none = err assertion
label_at_place l (some (i, o)) = ok (record l { item = some i; offset = o })

-- The loop over the labels of the item; no label is left behind it.
unfoldable pub move_label : ℕ → List Piece → Label → Result Label
unfolding points_to label_at_place place
move_label id seq l = if points_to id l.item then label_at_place l (place seq 0 l.offset) else ok l

unfoldable pub move_labels : ℕ → List Piece → List Label → Result (List Label)
unfolding move_label
move_labels id seq [] = ok []
move_labels id seq (l ∷ ls) = do
  l' ← move_label id seq l
  ls' ← move_labels id seq ls
  ok (l' ∷ ls')

-- The pieces take the place of the item in the list of its parent.
unfoldable pub replace_item : ℕ → List Item → List Item → List Item
replace_item id news [] = []
replace_item id news (i ∷ items) =
    let rest = replace_item id news items in if i.id == id then news ++ items else i ∷ rest

-- `Removed`: the entry at the item's position is erased if it is the item's.
unfoldable pub pmap_remove : ℕ → ℕ → List (ℕ × ℕ) → List (ℕ × ℕ)
pmap_remove pos id [] = []
pmap_remove pos id ((k, v) ∷ m) = if k == pos && v == id then m else (k, v) ∷ pmap_remove pos id m

-- `pmap.emplace`: an entry that is there is kept.
unfoldable pub pmap_emplace : ℕ → ℕ → List (ℕ × ℕ) → List (ℕ × ℕ)
pmap_emplace pos id [] = (pos, id) ∷ []
pmap_emplace pos id ((k, v) ∷ m) =
    let rest = pmap_emplace pos id m in
    if ltb pos k then (pos, id) ∷ (k, v) ∷ m else if pos == k then (k, v) ∷ m else (k, v) ∷ rest

unfoldable pub pmap_add : List Item → List (ℕ × ℕ) → List (ℕ × ℕ)
unfolding pmap_emplace
pmap_add [] m = m
pmap_add (i ∷ items) m = pmap_add items (pmap_emplace i.position i.id m)

-- `labels.empty()` of an item.
unfoldable pub is_unlabelled : ℕ → List Label → Bool
unfolding points_to
is_unlabelled id [] = true
is_unlabelled id (l ∷ ls) = not (points_to id l.item) && is_unlabelled id ls

-- Each piece comes without labels; the sliced item lost its own before, and may be a piece.
unfoldable pub are_unlabelled : ℕ → List Piece → List Label → Bool
unfolding is_unlabelled
are_unlabelled id [] ls = true
are_unlabelled id (el ∷ seq) ls =
    (el.first.id == id || is_unlabelled el.first.id ls) && are_unlabelled id seq ls

-- `Item::Slice` of the item `id`, which is a child of the context.
unfoldable pub slice : ℕ → List Piece → Context → Result Context
unfolding is_sorted are_unlabelled placed_items move_labels replace_item pmap_remove pmap_add
slice id seq c = do
  guard (is_sorted seq) assertion
  guard (are_unlabelled id seq c.labels) assertion
  elim (position_of id c.children) [
    | none ↦ err assertion
    | some base ↦ do
      ls ← move_labels id seq c.labels
      let items = placed_items base 0 seq
      let removed = pmap_remove base id c.pmap
      ok (record {
        children = replace_item id items c.children;
        pmap = if length c.pmap == 0 then [] else pmap_add items removed;
        labels = ls;
      })
  ]
