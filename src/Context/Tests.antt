-- ===== src/Context/Tests.antt =====
-- The operations of src/format/context.cpp on a small file: two items, with one label.
use neptools.Context.{find_offset, floor_entry, free_name, points_at, position_of, taken}
use neptools.Prelude.Text.{digits_in, str_eq}
use neptools.Prelude.{◌≡◌, refl, none, some, List, [], ◌∷◌, arith, ◌%◌, ◌^◌, ◌+◌}
use neptools.Prelude.Result.{ok, err, out_of_range}
use neptools.Prelude.Text.{codes}
use neptools.Context.{
  Context, Item, Label, ItemPointer, get_label_to, create_label, create_or_set_label, fallback_name,
  find_label, label_pos, to_file_pos, get_pointer, get_label_to_ptr, get_or_create_at, fixup,
  sum_sizes, label_at, candidate, create_label_fallback, attach,
}
use neptools.Context.Labels.{UniqueNames, Labelled, get_label_to-Labelled}
use neptools.Context.Setting.{LabelSet, create_or_set_label-LabelSet, create_label-create_label}
use neptools.Context.Naming.{fallback_name-free}
use neptools.Context.Layout.{to_file_pos-fixup}
use neptools.Context.Slice.{
  Piece, slice, is_sorted, are_unlabelled, is_unlabelled, move_labels, move_label, points_to, place,
  label_at_place, placed_items, replace_item, pmap_remove, pmap_add, pmap_emplace,
}
use neptools.Context.Slice.Positions.{slice-label_pos}
use neptools.Context.Slice.Items.{UniqueIds}

abbrev first : Item
first = record { id = 1; position = 0; size = 16 }

abbrev second : Item
second = record { id = 2; position = 16; size = 48 }

abbrev items : List Item
items = first ∷ second ∷ []

abbrev start : Label
start = record { name = codes "start"; item = some 2; offset = 4 }

abbrev small_file : Context
small_file = record { children = items; pmap = (0, 1) ∷ (16, 2) ∷ []; labels = start ∷ [] }

small_file-UniqueNames : UniqueNames small_file.labels
unfolding find_label
small_file-UniqueNames = (refl, tt)

abbrev there : ItemPointer
there = record { item = 2; offset = 8 }

-- The file with a label at position 24.
abbrev labelled_file : Context
labelled_file = record small_file { labels = start ∷ label_at (codes "loc_00000018") there ∷ [] }

get_label_to_new : get_label_to 24 small_file ≡ ok (codes "loc_00000018", labelled_file)
unfolding get_label_to get_pointer floor_entry position_of get_label_to_ptr get_or_create_at
    find_offset points_at create_label_fallback fallback_name attach free_name taken str_eq
    candidate digits_in
get_label_to_new = refl

get_label_to_old : get_label_to 20 small_file ≡ ok (codes "start", small_file)
unfolding get_label_to get_pointer floor_entry position_of get_label_to_ptr get_or_create_at
    find_offset points_at
get_label_to_old = refl

get_label_to-Labelled_example : Labelled small_file (some 24) (codes "loc_00000018") labelled_file
get_label_to-Labelled_example =
    get_label_to-Labelled 24 small_file (codes "loc_00000018") labelled_file (omega arith)
      small_file-UniqueNames get_label_to_new

create_or_set_label-LabelSet_example :
    LabelSet small_file
      (codes "start")
      there
      (create_or_set_label (codes "start") there small_file).1
create_or_set_label-LabelSet_example =
    create_or_set_label-LabelSet (codes "start") there small_file small_file-UniqueNames

fallback_name-free_example :
    find_label (fallback_name (codes "start") small_file.labels) small_file.labels ≡ none
fallback_name-free_example = fallback_name-free (codes "start") small_file.labels

start_1 : fallback_name (codes "start") small_file.labels ≡ codes "start_1"
unfolding fallback_name free_name taken str_eq candidate digits_in
start_1 = refl

abbrev end_created : Context
end_created = attach (label_at (codes "end") there) small_file

create_label_run : create_label (codes "end") there small_file ≡ ok (codes "end", end_created)
unfolding create_label find_label str_eq attach
create_label_run = refl

create_label-create_label_example :
    LabelSet small_file (codes "end") there end_created
    × ((codes "end", end_created) ≡ create_or_set_label (codes "end") there small_file)
    × ((ptr' : ItemPointer) → create_label (codes "end") ptr' end_created ≡ err out_of_range)
create_label-create_label_example =
    create_label-create_label (codes "end") there small_file (codes "end") end_created
      small_file-UniqueNames create_label_run

second_is_not_first : position_of 2 (first ∷ []) ≡ none
unfolding position_of
second_is_not_first = refl

to_file_pos-fixup_example :
    to_file_pos (fixup small_file).children start ≡ some ((sum_sizes (first ∷ []) + 4) % 2 ^ 64)
to_file_pos-fixup_example =
    to_file_pos-fixup small_file (first ∷ []) [] second start refl second_is_not_first refl

-- The second item in two pieces, the label in the first of them.
abbrev pieces : List Piece
pieces =
    record { first = record { id = 3; position = 0; size = 4 }; second = 4 }
    ∷ record { first = record { id = 4; position = 0; size = 44 }; second = 48 }
    ∷ []

abbrev sliced_file : Context
sliced_file = record {
  children =
      first
      ∷ record { id = 3; position = 16; size = 4 }
      ∷ record { id = 4; position = 20; size = 44 }
      ∷ [];
  pmap = (0, 1) ∷ (16, 3) ∷ (20, 4) ∷ [];
  labels = record { name = codes "start"; item = some 4; offset = 0 } ∷ [];
}

slice_second : slice 2 pieces small_file ≡ ok sliced_file
unfolding slice is_sorted are_unlabelled is_unlabelled move_labels move_label points_to place
    label_at_place placed_items replace_item pmap_remove pmap_add pmap_emplace position_of
slice_second = refl

sliced_file-UniqueIds : UniqueIds sliced_file.children
unfolding position_of
sliced_file-UniqueIds = (refl, (refl, (refl, tt)))

start_at_20 : label_pos small_file (codes "start") ≡ some 20
unfolding label_pos find_label to_file_pos position_of str_eq
start_at_20 = refl

slice-label_pos_example : label_pos sliced_file (codes "start") ≡ some 20
slice-label_pos_example =
    slice-label_pos 2 20 pieces small_file sliced_file (codes "start") slice_second
      sliced_file-UniqueIds start_at_20
