-- ===== src/Context/Labels.antt =====
-- Labels of src/format/context.cpp: what `GetLabelTo` and the operations that create labels promise.
use neptools.Prelude.{
  ◌∙◌, ℕ, ◌+◌, ◌%◌, ◌^◌, ◌≤◌, ◌<◌, ◌≡◌, refl, true, Option, none, some, List, [], ◌∷◌, ◌++◌, arith,
  Option-cases, inl, inr, if◌then◌else◌,
}
use mathlib.Core.Path.{subst}
use neptools.Prelude.Bytes.{Bytes}
use neptools.Prelude.Result.{ok, bind-eq-ok, ok-injective}
use neptools.Prelude.Text.{str_eq, str_eq_iff}
use neptools.Context.{
  Context, Label, ItemPointer, find_label, find_offset, points_at, label_at, label_pos, to_file_pos,
  position_of, attach, get_or_create_at, create_label_fallback, fallback_name, get_label_to_ptr,
  deref_pos, get_label_to, get_label_to_named, get_pointer, floor_entry, loc_name,
}
use neptools.Context.Naming.{fallback_name-free}

-- No two labels have one name: the invariant of the intrusive set `labels`.
abbrev pub UniqueNames : List Label → Type 0
UniqueNames [] = Unit {0}
UniqueNames (l ∷ ls) = (find_label l.name ls ≡ none) × UniqueNames ls

pub find_label-append_some :
    (n : Bytes) (ls ms : List Label) (l : Label)
    → find_label n ls ≡ some l
    → find_label n (ls ++ ms) ≡ some l
unfolding find_label
find_label-append_some n [] ms l h = cc
find_label-append_some n (m ∷ ls) ms l h = ground (arith, find_label-append_some n ls ms l)

pub find_label-append_none :
    (n : Bytes) (ls : List Label) (l : Label)
    → find_label n ls ≡ none
    → find_label n (ls ++ (l ∷ [])) ≡ (if str_eq l.name n then some l else none)
unfolding find_label
find_label-append_none n [] l h = refl
find_label-append_none n (m ∷ ls) l h = ground (arith, find_label-append_none n ls l)

pub UniqueNames-append :
    (ls : List Label) (l : Label)
    → UniqueNames ls
    → find_label l.name ls ≡ none
    → UniqueNames (ls ++ (l ∷ []))
unfolding find_label
UniqueNames-append [] l u h = (refl, tt)
UniqueNames-append (m ∷ ls) l u h = ground (
  arith,
  str_eq_iff m.name l.name,
  str_eq_iff l.name m.name,
  find_label-append_none m.name ls l,
  UniqueNames-append ls l,
)

points_at_lem : (i : Option ℕ) (id : ℕ) → points_at i id ≡ true → i ≡ some id
unfolding points_at
points_at_lem none id h = cc
points_at_lem (some j) id h = ground arith

floor_entry_le :
    (m : List (ℕ × ℕ)) (pos : ℕ) (k id : ℕ) → floor_entry m pos ≡ some (k, id) → k ≤ pos
unfolding floor_entry
floor_entry_le [] pos k id h = cc
floor_entry_le ((j, v) ∷ m) pos k id h = elim (Option-cases (floor_entry m pos)) [
  | inl e ↦ ground arith
  | inr ((j', v'), e) ↦ ground (arith, floor_entry_le m pos k id)
]

-- The label that `lctr.find` answers points where it was looked for, and is the one of its name.
find_offset_lem :
    (ptr : ItemPointer) (ls : List Label) (l : Label)
    → UniqueNames ls
    → find_offset ptr ls ≡ some l
    → (find_label l.name ls ≡ some l) × (l.item ≡ some ptr.item) × (l.offset ≡ ptr.offset)
unfolding find_offset find_label
find_offset_lem ptr [] l u h = cc
find_offset_lem ptr (m ∷ ls) l u h = ground (
  arith,
  find_offset_lem ptr ls l,
  points_at_lem m.item ptr.item,
  str_eq_iff m.name m.name,
  str_eq_iff m.name l.name,
)

-- Where a pointer points, in the file.
abbrev pub pointer_pos : Context → ItemPointer → Option ℕ
pointer_pos c ptr = to_file_pos c.children (label_at [] ptr)

fallback-label_pos :
    (ptr : ItemPointer) (name : Bytes) (c : Context)
    → label_pos (create_label_fallback name ptr c).1 (create_label_fallback name ptr c).0
      ≡ pointer_pos c ptr
unfolding label_pos create_label_fallback attach to_file_pos
fallback-label_pos ptr name c =
    let str = fallback_name name c.labels in
    ground (
      arith,
      find_label-append_none str c.labels (label_at str ptr) (fallback_name-free name c.labels),
      str_eq_iff str str,
    )

get_or_create_at_old :
    (ptr : ItemPointer) (name : Bytes) (c : Context) {l : Label}
    → find_offset ptr c.labels ≡ some l
    → get_or_create_at ptr name c ≡ (l.name, c)
unfolding get_or_create_at
get_or_create_at_old ptr name c e = ground arith

get_or_create_at_new :
    (ptr : ItemPointer) (name : Bytes) (c : Context)
    → find_offset ptr c.labels ≡ none
    → get_or_create_at ptr name c ≡ create_label_fallback name ptr c
unfolding get_or_create_at
get_or_create_at_new ptr name c e = ground arith

old-label_pos :
    (ptr : ItemPointer) (c : Context) {l : Label}
    → UniqueNames c.labels
    → find_offset ptr c.labels ≡ some l
    → label_pos c l.name ≡ pointer_pos c ptr
unfolding label_pos to_file_pos
old-label_pos ptr c {l} u e = ground (arith, find_offset_lem ptr c.labels l u e)

-- `c'` is `c` with labels added: the items are the same, and every label of `c` is where it was.
pub record Grows (c c' : Context) : Type 0 where
  pub keeps : (m : Bytes) (p : ℕ) → label_pos c m ≡ some p → label_pos c' m ≡ some p
  pub unique : UniqueNames c'.labels
  pub same_children : c'.children ≡ c.children
  pub same_pmap : c'.pmap ≡ c.pmap

pub Grows-refl : (c : Context) → UniqueNames c.labels → Grows c c
Grows-refl c u = record { keeps = λ m p h. h; unique = u; same_children = refl; same_pmap = refl }

pub Grows-trans : {a b c : Context} → Grows a b → Grows b c → Grows a c
Grows-trans g h = record {
  keeps = λ m p e. h.keeps m p (g.keeps m p e);
  unique = h.unique;
  same_children = h.same_children ∙ g.same_children;
  same_pmap = h.same_pmap ∙ g.same_pmap;
}

-- The label `n` of `c'` is at `pos`, and `c'` is `c` with labels added.
pub record Labelled (c : Context) (pos : Option ℕ) (n : Bytes) (c' : Context) : Type 0 where
  pub points : label_pos c' n ≡ pos
  pub grows : Grows c c'

fallback-keeps :
    (ptr : ItemPointer) (name : Bytes) (c : Context) (m : Bytes) (p : ℕ)
    → label_pos c m ≡ some p
    → label_pos (create_label_fallback name ptr c).1 m ≡ some p
unfolding create_label_fallback label_pos attach
fallback-keeps ptr name c m p h = elim (Option-cases (find_label m c.labels)) [
  | inl e ↦ absurd (ground arith)
  | inr (l, e) ↦
      ground (
        arith,
        find_label-append_some m c.labels (label_at (fallback_name name c.labels) ptr ∷ []) l,
      )
]

pub fallback-Labelled :
    (ptr : ItemPointer) (name : Bytes) (c : Context)
    → UniqueNames c.labels
    → Labelled c
        (pointer_pos c ptr)
        (create_label_fallback name ptr c).0
        (create_label_fallback name ptr c).1
fallback-Labelled ptr name c u = record {
  points = fallback-label_pos ptr name c;
  grows = record {
    keeps = fallback-keeps ptr name c;
    unique =
        unfold create_label_fallback attach in
        UniqueNames-append c.labels _ u (fallback_name-free name c.labels);
    same_children = unfold create_label_fallback attach in refl;
    same_pmap = unfold create_label_fallback attach in refl;
  };
}

-- `GetLabelTo` answers a label, old or new, that points where it was asked for, and moves no other.
pub get_or_create_at-Labelled :
    (ptr : ItemPointer) (name : Bytes) (c : Context)
    → UniqueNames c.labels
    → Labelled c (pointer_pos c ptr) (get_or_create_at ptr name c).0 (get_or_create_at ptr name c).1
get_or_create_at-Labelled ptr name c u = elim (Option-cases (find_offset ptr c.labels)) [
  | inl e ↦ rw (get_or_create_at_new ptr name c e) (fallback-Labelled ptr name c u)
  | inr (l, e) ↦
      rw (get_or_create_at_old ptr name c e)
        (record { points = old-label_pos ptr c u e; grows = Grows-refl c u })
]

-- `GetPointer` answers a pointer to the very position that it was asked for.
pub get_pointer-pointer_pos :
    (pos : ℕ) (c : Context) (ptr : ItemPointer)
    → pos < 2 ^ 64
    → get_pointer pos c ≡ ok ptr
    → pointer_pos c ptr ≡ some pos
unfolding get_pointer to_file_pos
get_pointer-pointer_pos pos c ptr b h = elim (Option-cases (floor_entry c.pmap pos)) [
  | inl e ↦ absurd (ground arith)
  | inr ((k, id), e) ↦ ground (arith, floor_entry_le c.pmap pos k id e)
]

get_label_to_ptr_lem :
    (ptr : ItemPointer) (c : Context) {r : Bytes × Context}
    → get_label_to_ptr ptr c ≡ ok r
    → (name : Bytes) × (r ≡ get_or_create_at ptr name c)
unfolding get_label_to_ptr
get_label_to_ptr_lem ptr c h = elim (Option-cases (position_of ptr.item c.children)) [
  | inl e ↦ absurd (ground arith)
  | inr (p, e) ↦ (loc_name ((p + ptr.offset) % 2 ^ 64), ground arith)
]

-- The label that `GetLabelTo(pos)` answers is at `pos`, whether it was there or is new; every other
-- label stays where it was, and no two labels have one name.
pub get_label_to-Labelled :
    (pos : ℕ) (c : Context) (n : Bytes) (c' : Context)
    → pos < 2 ^ 64
    → UniqueNames c.labels
    → get_label_to pos c ≡ ok (n, c')
    → Labelled c (some pos) n c'
unfolding get_label_to
get_label_to-Labelled pos c n c' b u h =
    let (ptr, found, rest) = bind-eq-ok (get_pointer pos c) _ h in
    let (name, e) = get_label_to_ptr_lem ptr c rest in
    let l = get_or_create_at-Labelled ptr name c u in
    rw (get_pointer-pointer_pos pos c ptr b found, ← e) at l

-- The same of `GetLabelTo(pos, name)`.
pub get_label_to_named-Labelled :
    (pos : ℕ) (name : Bytes) (c : Context) (n : Bytes) (c' : Context)
    → pos < 2 ^ 64
    → UniqueNames c.labels
    → get_label_to_named pos name c ≡ ok (n, c')
    → Labelled c (some pos) n c'
unfolding get_label_to_named
get_label_to_named-Labelled pos name c n c' b u h =
    let (ptr, found, rest) = bind-eq-ok (get_pointer pos c) _ h in
    let l = get_or_create_at-Labelled ptr name c u in
    subst (λ x. Labelled c (some pos) x.0 x.1) (ok-injective rest)
      (rw (get_pointer-pointer_pos pos c ptr b found) at l)

-- The position of a label that `GetLabelTo` answered can be read in every later context.
pub deref_pos-Grows :
    {c c' : Context} (n : Bytes) (pos : ℕ)
    → label_pos c n ≡ some pos
    → Grows c c'
    → deref_pos c' n ≡ ok pos
unfolding deref_pos
deref_pos-Grows n pos h g = ground (arith, g.keeps n pos h)
