-- ===== src/Context/Split/Labels.antt =====
-- `RawItem::Split2` of src/format/raw_item.cpp and `Item::Replace` of src/format/item.hpp move no label of
-- the file.
use neptools.Prelude.{
  ℕ, ◌+◌, ◌%◌, ◌^◌, ◌≡◌, refl, sym, ap, ◌∙◌, ◌&&◌, some, List, [], ◌∷◌, arith, ◌==◌, leb,
  if◌then◌else◌, Bool-cases, Option-cases, inl, inr,
}
use mathlib.Core.Path.{subst}
use neptools.Prelude.Bytes.{Bytes}
use neptools.Prelude.Result.{ok, guard, bind-eq-ok, ok-injective, assertion}
use neptools.Context.{Context, Item, Label, position_of, find_label, to_file_pos, label_pos}
use neptools.Context.Slice.{is_unlabelled, points_to, replace_item, slice}
use neptools.Context.Slice.Items.{UniqueIds, position_of-replace_new, position_of-replace_old}
use neptools.Context.Slice.Positions.{slice-label_pos, label_pos-found, label_pos-missing}
use neptools.Context.Split.{
  are_inside, labels_to, replace, split_pieces, resize, remaining, split, split_apart,
}

resize-position_of :
    (e id m : ℕ) (items : List Item) → position_of e (resize id m items) ≡ position_of e items
unfolding position_of resize
resize-position_of e id m [] = refl
resize-position_of e id m (i ∷ items) = ground (arith, resize-position_of e id m items)

UniqueIds-resize : (id m : ℕ) (items : List Item) → UniqueIds (resize id m items) → UniqueIds items
unfolding resize
UniqueIds-resize id m [] u = tt
UniqueIds-resize id m (i ∷ items) u = elim (Bool-cases (i.id == id)) [
  | inl y ↦
      let u' = rw (y) at u in
      (sym (resize-position_of i.id id m items) ∙ u'.0, UniqueIds-resize id m items u'.1)
  | inr n ↦
      let u' = rw (n) at u in
      (sym (resize-position_of i.id id m items) ∙ u'.0, UniqueIds-resize id m items u'.1)
]

-- The new sizes of a file's items leave its labels where they are.
label_pos-resize :
    (id m : ℕ) (c : Context) (name : Bytes)
    → label_pos (record c { children = resize id m c.children }) name ≡ label_pos c name
unfolding label_pos to_file_pos
label_pos-resize id m c name = elim (Option-cases (find_label name c.labels)) [
  | inl e ↦ ground arith
  | inr (l, e) ↦ elim (Option-cases l.item) [
    | inl f ↦ ground arith
    | inr (i, f) ↦ ground (arith, resize-position_of i id m c.children)
  ]
]

abbrev moved_to : ℕ → ℕ → Label → Label
moved_to id new_id l = if points_to id l.item then record l { item = some new_id } else l

labels_to-find :
    (id new_id : ℕ) (m : Bytes) (ls : List Label) (l : Label)
    → find_label m ls ≡ some l
    → find_label m (labels_to id new_id ls) ≡ some (moved_to id new_id l)
unfolding labels_to find_label
labels_to-find id new_id m [] l h = cc
labels_to-find id new_id m (k ∷ ls) l h = ground (arith, labels_to-find id new_id m ls l)

-- Where a label is after the item it points into is replaced by one at the same position.
moved_to-to_file_pos :
    (id base p : ℕ) (nitem : Item) (items : List Item) (l : Label)
    → nitem.position ≡ base
    → position_of id items ≡ some base
    → UniqueIds (replace_item id (nitem ∷ []) items)
    → to_file_pos items l ≡ some p
    → to_file_pos (replace_item id (nitem ∷ []) items) (moved_to id nitem.id l) ≡ some p
unfolding points_to to_file_pos position_of
moved_to-to_file_pos id base p nitem items l same at_base u h = elim (Option-cases l.item) [
  | inl e ↦ absurd (ground arith)
  | inr (i, e) ↦ elim (Bool-cases (i == id)) [
    | inl y ↦
        let here : position_of nitem.id (nitem ∷ []) ≡ some base = ground arith in
        let there =
          position_of-replace_new id nitem.id base base (nitem ∷ []) items u at_base here in
        ground (arith, there)
    | inr n ↦ elim (Option-cases (position_of i items)) [
      | inl e' ↦ absurd (ground arith)
      | inr (q, e') ↦
          let there = position_of-replace_old id i q (nitem ∷ []) items u (ground arith) e' in
          ground (arith, there)
    ]
  ]
]

replace-label_pos :
    (id p : ℕ) (nitem : Item) (c c' : Context) (m : Bytes)
    → replace id nitem c ≡ ok c'
    → UniqueIds c'.children
    → label_pos c m ≡ some p
    → label_pos c' m ≡ some p
unfolding replace
replace-label_pos id p nitem c c' m h u at_p = elim (Option-cases (position_of id c.children)) [
  | inl e ↦ let gone = rw (replace, e) at h in absurd (cc)
  | inr (base, e) ↦ elim (Option-cases (find_label m c.labels)) [
    | inl f ↦ absurd (cc (label_pos-missing c m f))
    | inr (l, f) ↦
        let new = record nitem { position = base } in
        let h₁ = rw (replace, e) at h in
        let (_, _, h₂) = bind-eq-ok (guard (are_inside id nitem.size c.labels) assertion) _ h₁ in
        let (_, _, h₃) = bind-eq-ok (guard (is_unlabelled nitem.id c.labels) assertion) _ h₂ in
        let kids : replace_item id (new ∷ []) c.children ≡ c'.children =
          ap (λ x. x.children) (ok-injective h₃) in
        let marks : labels_to id nitem.id c.labels ≡ c'.labels =
          ap (λ x. x.labels) (ok-injective h₃) in
        let before = sym (label_pos-found c m l f) ∙ at_p in
        let unique : UniqueIds (replace_item id (new ∷ []) c.children) =
          subst UniqueIds (sym kids) u in
        let after = moved_to-to_file_pos id base p new c.children l refl e unique before in
        let found : find_label m c'.labels ≡ some (moved_to id nitem.id l) =
          ap (find_label m) (sym marks) ∙ labels_to-find id nitem.id m c.labels l f in
        label_pos-found c' m (moved_to id nitem.id l) found
        ∙ ap (λ x. to_file_pos x (moved_to id nitem.id l)) (sym kids)
        ∙ after
  ]
]

split_apart-label_pos :
    (p pos next : ℕ) (this nitem : Item) (c c' : Context) (m : Bytes)
    → split_apart this pos nitem next c ≡ ok c'
    → UniqueIds c'.children
    → label_pos c m ≡ some p
    → label_pos c' m ≡ some p
unfolding split_apart
split_apart-label_pos p pos next this nitem c c' m h u at_p =
    let rem_len = remaining this nitem.size pos in
    let size = if pos == 0 then rem_len else pos in
    let (seq, _, h₁) = bind-eq-ok (split_pieces this pos nitem next rem_len) _ h in
    let (d, cut, h₂) = bind-eq-ok (slice this.id seq c) _ h₁ in
    let result : record d { children = resize this.id size d.children } ≡ c' = ok-injective h₂ in
    let kids = ap (λ x. x.children) result in
    let unique : UniqueIds (resize this.id size d.children) = subst UniqueIds (sym kids) u in
    let same =
      slice-label_pos this.id p seq c d m cut (UniqueIds-resize this.id size d.children unique)
        at_p in
    ap (λ x. label_pos x m) (sym result) ∙ label_pos-resize this.id size d m ∙ same

-- A label that has a position in the file before a raw item is split has the same position after
-- it, if the split returns and no two items of the result have one number.
pub split-label_pos :
    (p pos next : ℕ) (this nitem : Item) (c c' : Context) (m : Bytes)
    → split this pos nitem next c ≡ ok c'
    → UniqueIds c'.children
    → label_pos c m ≡ some p
    → label_pos c' m ≡ some p
unfolding split
split-label_pos p pos next this nitem c c' m h u at_p =
    let (_, _, h₁) =
      bind-eq-ok
        (guard (leb pos this.size && leb ((pos + nitem.size) % 2 ^ 64) this.size) assertion) _ h in
    elim (Bool-cases (pos == 0 && remaining this nitem.size pos == 0)) [
      | inl y ↦ replace-label_pos this.id p nitem c c' m (rw y at h₁) u at_p
      | inr n ↦ split_apart-label_pos p pos next this nitem c c' m (rw n at h₁) u at_p
    ]
