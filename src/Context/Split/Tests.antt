-- ===== src/Context/Split/Tests.antt =====
-- `RawItem::Split2` of src/format/raw_item.cpp on a small file of a header and a raw item.
use neptools.Context.Slice.{is_unlabelled, replace_item, slice}
use neptools.Prelude.{◌≡◌, refl, some, [], ◌∷◌, arith}
use neptools.Prelude.Text.{codes}
use neptools.Prelude.Result.{ok, err, assertion}
use neptools.Context.{Context, Item, position_of}
use neptools.Context.Slice.Items.{UniqueIds}
use neptools.Context.Split.{split_raw, split}
use neptools.Context.Split.LaidOut.{IsLaidOut, size_of}
use neptools.Context.{find_label, to_file_pos, label_pos}
use neptools.Prelude.Text.{str_eq}
use neptools.Context.Split.Labels.{split-label_pos}
use neptools.Context.Split.Kept.{split-IsLaidOut}

abbrev head : Item
head = record { id = 1; position = 0; size = 16 }

abbrev raw : Item
raw = record { id = 2; position = 16; size = 48 }

abbrev instruction : Item
instruction = record { id = 3; position = 24; size = 12 }

abbrev raw_file : Context
raw_file = record {
  children = head ∷ raw ∷ [];
  pmap = (0, 1) ∷ (16, 2) ∷ [];
  labels = record { name = codes "loop"; item = some 2; offset = 30 } ∷ [];
}

abbrev split_file : Context
split_file = record {
  children =
      head
      ∷ record raw { size = 8 }
      ∷ instruction
      ∷ record { id = 4; position = 36; size = 28 }
      ∷ [];
  pmap = (0, 1) ∷ (16, 2) ∷ (24, 3) ∷ (36, 4) ∷ [];
  labels = record { name = codes "loop"; item = some 4; offset = 10 } ∷ [];
}

split_middle : split raw 8 instruction 4 raw_file ≡ ok split_file
unfolding split slice position_of
split_middle = refl

-- A new item of the raw item's size replaces it.
split_whole :
    split raw 0 (record instruction { size = 48 }) 4 raw_file
    ≡ ok (record {
      children = head ∷ record { id = 3; position = 16; size = 48 } ∷ [];
      pmap = (0, 1) ∷ (16, 3) ∷ [];
      labels = record { name = codes "loop"; item = some 3; offset = 30 } ∷ [];
    })
unfolding split position_of is_unlabelled replace_item
split_whole = refl

split_behind : split raw 40 instruction 4 raw_file ≡ err assertion
unfolding split
split_behind = refl

-- The same split with a raw item.
split_raw_middle : split_raw raw 8 12 3 4 raw_file ≡ ok split_file
unfolding split_raw slice position_of
split_raw_middle = refl

raw_file-UniqueIds : UniqueIds raw_file.children
unfolding position_of
raw_file-UniqueIds = (refl, (refl, tt))

raw_at : position_of 2 raw_file.children ≡ some 16
unfolding position_of
raw_at = refl

raw_size : size_of 2 raw_file.children ≡ some 48
unfolding size_of
raw_size = refl

split-IsLaidOut_example : IsLaidOut 0 split_file.children 64
split-IsLaidOut_example =
    split-IsLaidOut 16 8 4 64 raw instruction raw_file split_file (omega arith) (omega arith)
      (omega arith) (omega arith) raw_at raw_size raw_file-UniqueIds (refl, (refl, refl))
      split_middle

split_file-UniqueIds : UniqueIds split_file.children
unfolding position_of
split_file-UniqueIds = (refl, (refl, (refl, (refl, tt))))

loop_at_46 : label_pos raw_file (codes "loop") ≡ some 46
unfolding label_pos find_label to_file_pos position_of str_eq
loop_at_46 = refl

split-label_pos_example : label_pos split_file (codes "loop") ≡ some 46
split-label_pos_example =
    split-label_pos 46 8 4 raw instruction raw_file split_file (codes "loop") split_middle
      split_file-UniqueIds loop_at_46
