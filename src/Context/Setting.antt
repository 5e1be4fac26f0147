-- ===== src/Context/Setting.antt =====
-- `CreateLabel`, `CreateOrSetLabel` and `GetOrCreateDummyLabel` of src/format/context.cpp.
use neptools.Prelude.{
  ◌≡◌, ◌≢◌, refl, sym, ap, none, some, List, [], ◌∷◌, arith, Option-cases, inl, inr, if◌then◌else◌,
  ◌∙◌,
}
use neptools.Prelude.Bytes.{Bytes}
use mathlib.Core.Path.{subst}
use neptools.Prelude.Result.{ok, err, out_of_range, err-ok, ok-injective}
use neptools.Prelude.Text.{str_eq, str_eq_iff}
use neptools.Context.{
  Context, Label, ItemPointer, find_label, label_at, label_pos, to_file_pos, attach, create_label,
  create_or_set_label, remove_label,
}
use neptools.Context.Labels.{
  UniqueNames, pointer_pos, find_label-append_some, find_label-append_none, UniqueNames-append,
}

find_label-remove :
    (n m : Bytes) (ls : List Label)
    → find_label n (remove_label m ls) ≡ (if str_eq m n then none else find_label n ls)
unfolding find_label remove_label
find_label-remove n m [] = ground arith
find_label-remove n m (l ∷ ls) =
    ground
      (arith, find_label-remove n m ls, str_eq_iff l.name m, str_eq_iff l.name n, str_eq_iff m n)

UniqueNames-remove :
    (m : Bytes) (ls : List Label) → UniqueNames ls → UniqueNames (remove_label m ls)
unfolding remove_label
UniqueNames-remove m [] u = tt
UniqueNames-remove m (l ∷ ls) u =
    ground (arith, UniqueNames-remove m ls, find_label-remove l.name m ls)

-- Where a label of a new name leads after it was attached.
attach-label_pos :
    (c : Context) (l : Label)
    → find_label l.name c.labels ≡ none
    → label_pos (attach l c) l.name ≡ to_file_pos c.children l
unfolding label_pos attach
attach-label_pos c l h =
    ground (arith, find_label-append_none l.name c.labels l h, str_eq_iff l.name l.name)

attach-label_pos_ne :
    (c : Context) (l : Label) (m : Bytes) → l.name ≢ m → label_pos (attach l c) m ≡ label_pos c m
unfolding label_pos attach
attach-label_pos_ne c l m ne = elim (Option-cases (find_label m c.labels)) [
  | inl e ↦ ground (arith, find_label-append_none m c.labels l e, str_eq_iff l.name m, ne)
  | inr (k, e) ↦ ground (arith, find_label-append_some m c.labels (l ∷ []) k e)
]

remove-label_pos_ne :
    (c : Context) (n m : Bytes)
    → n ≢ m
    → label_pos (record c { labels = remove_label n c.labels }) m ≡ label_pos c m
unfolding label_pos
remove-label_pos_ne c n m ne = ground (arith, find_label-remove m n c.labels, str_eq_iff n m, ne)

-- What setting `name` to `ptr` leaves: the label is there, the other labels are as they were.
pub record LabelSet (c : Context) (name : Bytes) (ptr : ItemPointer) (c' : Context) : Type 0 where
  pub moved : label_pos c' name ≡ pointer_pos c ptr
  pub others : (m : Bytes) → name ≢ m → label_pos c' m ≡ label_pos c m
  pub unique : UniqueNames c'.labels

set_new :
    (name : Bytes) (ptr : ItemPointer) (c : Context)
    → find_label name c.labels ≡ none
    → UniqueNames c.labels
    → LabelSet c name ptr (attach (label_at name ptr) c)
unfolding to_file_pos
set_new name ptr c h u = record {
  moved = attach-label_pos c (label_at name ptr) h;
  others = λ m ne. attach-label_pos_ne c (label_at name ptr) m ne;
  unique = unfold attach in UniqueNames-append c.labels (label_at name ptr) u h;
}

set_old :
    (name : Bytes) (ptr : ItemPointer) (c : Context)
    → UniqueNames c.labels
    → LabelSet c name ptr
        (attach (label_at name ptr) (record c { labels = remove_label name c.labels }))
set_old name ptr c u =
    let c₁ = record c { labels = remove_label name c.labels } in
    let gone : find_label name c₁.labels ≡ none =
      ground (arith, find_label-remove name name c.labels, str_eq_iff name name) in
    let s = set_new name ptr c₁ gone (UniqueNames-remove name c.labels u) in
    record {
      moved = s.moved;
      others = λ m ne. s.others m ne ∙ remove-label_pos_ne c name m ne;
      unique = s.unique;
    }

set_new_step :
    (name : Bytes) (ptr : ItemPointer) (c : Context)
    → find_label name c.labels ≡ none
    → create_or_set_label name ptr c ≡ (name, attach (label_at name ptr) c)
unfolding create_or_set_label
set_new_step name ptr c e = ground arith

set_old_step :
    (name : Bytes) (ptr : ItemPointer) (c : Context) {l : Label}
    → find_label name c.labels ≡ some l
    → create_or_set_label name ptr c
      ≡ (name, attach (label_at name ptr) (record c { labels = remove_label name c.labels }))
unfolding create_or_set_label
set_old_step name ptr c e = ground arith

-- `CreateOrSetLabel` makes `name` point at `ptr`, whether the label was there or not, and no other
-- label moves.
pub create_or_set_label-LabelSet :
    (name : Bytes) (ptr : ItemPointer) (c : Context)
    → UniqueNames c.labels
    → LabelSet c name ptr (create_or_set_label name ptr c).1
create_or_set_label-LabelSet name ptr c u = elim (Option-cases (find_label name c.labels)) [
  | inl e ↦ rw (set_new_step name ptr c e) (set_new name ptr c e u)
  | inr (l, e) ↦ rw (set_old_step name ptr c e) (set_old name ptr c u)
]

create_label_new :
    (name : Bytes) (ptr : ItemPointer) (c : Context)
    → find_label name c.labels ≡ none
    → create_label name ptr c ≡ ok (create_or_set_label name ptr c)
unfolding create_label create_or_set_label
create_label_new name ptr c e = ground arith

create_label_taken :
    (name : Bytes) (ptr : ItemPointer) (c : Context) {l : Label}
    → find_label name c.labels ≡ some l
    → create_label name ptr c ≡ err out_of_range
unfolding create_label
create_label_taken name ptr c e = ground arith

attach-find_label :
    (c : Context) (l : Label)
    → find_label l.name c.labels ≡ none
    → find_label l.name (attach l c).labels ≡ some l
unfolding attach
attach-find_label c l h =
    ground (arith, find_label-append_none l.name c.labels l h, str_eq_iff l.name l.name)

-- What a `CreateLabel` that succeeds leaves.
abbrev IsCreated : Bytes → ItemPointer → Context → Bytes × Context → Type 0
IsCreated name ptr c r =
    LabelSet c name ptr r.1
    × (r ≡ create_or_set_label name ptr c)
    × ((ptr' : ItemPointer) → create_label name ptr' r.1 ≡ err out_of_range)

-- A `CreateLabel` that succeeds does what `CreateOrSetLabel` does: the label points at `ptr`, no other label
-- moves, and the names are unique again, if they were so. Another `CreateLabel` of the name then throws, wherever it
-- should point.
pub create_label-create_label :
    (name : Bytes) (ptr : ItemPointer) (c : Context) (n : Bytes) (c' : Context)
    → UniqueNames c.labels
    → create_label name ptr c ≡ ok (n, c')
    → LabelSet c name ptr c'
      × ((n, c') ≡ create_or_set_label name ptr c)
      × ((ptr' : ItemPointer) → create_label name ptr' c' ≡ err out_of_range)
create_label-create_label name ptr c n c' u h = elim (Option-cases (find_label name c.labels)) [
  | inr (l, e) ↦ absurd (err-ok out_of_range (n, c') (sym (create_label_taken name ptr c e) ∙ h))
  | inl e ↦
      let same = set_new_step name ptr c e in
      subst (IsCreated name ptr c) (ok-injective (sym (create_label_new name ptr c e) ∙ h)) (
        create_or_set_label-LabelSet name ptr c u,
        refl,
        λ ptr'.
            ap (λ r. create_label name ptr' r.1) same
            ∙ create_label_taken name ptr' (attach (label_at name ptr) c)
                (attach-find_label c (label_at name ptr) e),
      )
]
