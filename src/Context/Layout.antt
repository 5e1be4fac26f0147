-- ===== src/Context/Layout.antt =====
-- `Context::Fixup` of src/format/context.cpp lays the items out one behind the other.
use neptools.Prelude.{ℕ, ◌+◌, ◌%◌, ◌^◌, ◌<◌, ◌≡◌, refl, none, some, List, [], ◌∷◌, ◌++◌, arith}
use neptools.Context.{
  Context, Item, Label, position_of, update_positions, fixup, sum_sizes, to_file_pos,
}

position_of-update_positions :
    (before after : List Item) (i : Item) (pos : ℕ)
    → pos < 2 ^ 64
    → position_of i.id before ≡ none
    → position_of i.id (update_positions pos (before ++ (i ∷ after)))
      ≡ some ((pos + sum_sizes before) % 2 ^ 64)
unfolding position_of update_positions sum_sizes
position_of-update_positions [] after i pos b h = ground arith
position_of-update_positions (j ∷ before) after i pos b h =
    ground (arith, position_of-update_positions before after i ((pos + j.size) % 2 ^ 64))

-- After `Fixup` a label at `offset` in the item `i` is at the sizes of all items before `i`, plus
-- `offset`.
pub to_file_pos-fixup :
    (c : Context) (before after : List Item) (i : Item) (l : Label)
    → c.children ≡ before ++ (i ∷ after)
    → position_of i.id before ≡ none
    → l.item ≡ some i.id
    → to_file_pos (fixup c).children l ≡ some ((sum_sizes before + l.offset) % 2 ^ 64)
unfolding to_file_pos fixup
to_file_pos-fixup c before after i l e h p =
    ground (arith, position_of-update_positions before after i 0 (omega arith) h, p, e)

sum_sizes-update_positions :
    (items : List Item) (pos : ℕ) → sum_sizes (update_positions pos items) ≡ sum_sizes items
unfolding sum_sizes update_positions
sum_sizes-update_positions [] pos = refl
sum_sizes-update_positions (i ∷ items) pos =
    ground (arith, sum_sizes-update_positions items ((pos + i.size) % 2 ^ 64))
