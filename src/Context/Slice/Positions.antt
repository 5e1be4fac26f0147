-- ===== src/Context/Slice/Positions.antt =====
-- `Item::Slice` of src/format/item.cpp moves no label: each stays at its position in the file.
use neptools.Prelude.{
  ℕ, ◌+◌, ◌-◌, ◌%◌, ◌^◌, ◌≤◌, ◌≡◌, ◌≢◌, sym, ap, ◌∙◌, ◌&&◌, ◌||◌, none, some, List, [], ◌∷◌, arith,
  ltb, ◌==◌, Bool-cases, Option-cases, inl, inr,
}
use mathlib.Core.Path.{subst}
use neptools.Prelude.Bytes.{Bytes}
use neptools.Prelude.Text.{str_eq}
use neptools.Prelude.Result.{ok, guard, bind-eq-ok, ok-injective, assertion}
use neptools.Context.{Context, Item, Label, position_of, find_label, to_file_pos, label_pos}
use neptools.Context.Slice.{
  Piece, is_sorted, are_unlabelled, place, placed_items, points_to, label_at_place, move_label,
  move_labels, replace_item, slice,
}
use neptools.Context.Slice.Items.{
  UniqueIds, position_of-replace_new, position_of-replace_old, UniqueIds-news,
}

-- A label's piece is at the item's position plus the start of the piece, and the label's offset is
-- counted from there.
record IsPlaced (base off : ℕ) (items : List Item) (start e o : ℕ) : Type 0 where
  pub begin : ℕ
  pub found : position_of e items ≡ some ((base + begin) % 2 ^ 64)
  pub rest : begin + o ≡ off

place-IsPlaced :
    (base : ℕ) (seq : List Piece) (start off e o : ℕ)
    → start ≤ off
    → UniqueIds (placed_items base start seq)
    → place seq start off ≡ some (e, o)
    → IsPlaced base off (placed_items base start seq) start e o
unfolding place placed_items position_of
place-IsPlaced base [] start off e o le u h = cc
place-IsPlaced base (el ∷ seq) start off e o le u h =
    elim (Bool-cases (ltb off el.second || off == el.second && off == start)) [
      | inl here ↦
          let same_e : el.first.id ≡ e = ground arith in
          let same_o : off - start ≡ o = ground arith in
          record { begin = start; found = ground arith; rest = omega arith }
      | inr later ↦
          let past : el.second ≤ off = ground arith in
          let h' : place seq el.second off ≡ some (e, o) = ground arith in
          let q = place-IsPlaced base seq el.second off e o past u.1 h' in
          record { begin = q.begin; found = ground (arith, q.found, u.0); rest = q.rest }
    ]

-- The label of a name after the move.
record IsMoved (id : ℕ) (seq : List Piece) (m : Bytes) (l : Label) (ls : List Label) : Type 0 where
  pub moved : Label
  pub found : find_label m ls ≡ some moved
  pub how : move_label id seq l ≡ ok moved

move_label-name :
    (id : ℕ) (seq : List Piece) (l l' : Label) → move_label id seq l ≡ ok l' → l'.name ≡ l.name
unfolding move_label label_at_place
move_label-name id seq l l' h = elim (Bool-cases (points_to id l.item)) [
  | inr n ↦ ground arith
  | inl y ↦ elim (Option-cases (place seq 0 l.offset)) [
    | inl e ↦ ground arith
    | inr ((i, o), e) ↦ ground arith
  ]
]

move_labels-IsMoved :
    (id : ℕ) (seq : List Piece) (m : Bytes) (ls ls' : List Label) (l : Label)
    → move_labels id seq ls ≡ ok ls'
    → find_label m ls ≡ some l
    → IsMoved id seq m l ls'
unfolding move_labels find_label
move_labels-IsMoved id seq m [] ls' l h f = cc
move_labels-IsMoved id seq m (k ∷ ls) ls' l h f =
    let (k', e₁, h₁) = bind-eq-ok (move_label id seq k) _ h in
    let (ks, e₂, h₂) = bind-eq-ok (move_labels id seq ls) _ h₁ in
    let name = move_label-name id seq k k' e₁ in
    subst (IsMoved id seq m l) (ok-injective h₂) (elim (Bool-cases (str_eq k.name m)) [
      | inl y ↦
          let same : k ≡ l = ground arith in
          record { moved = k'; found = ground (arith, name); how = rw (← same) e₁ }
      | inr n ↦
          let q = move_labels-IsMoved id seq m ls ks l e₂ (ground arith) in
          record { moved = q.moved; found = ground (arith, name, q.found); how = q.how }
    ])

pub to_file_pos-at :
    (items : List Item) (j q o : ℕ) (l : Label)
    → position_of j items ≡ some q
    → to_file_pos items (record l { item = some j; offset = o }) ≡ some ((q + o) % 2 ^ 64)
unfolding to_file_pos
to_file_pos-at items j q o l h = rw h

-- Where a label is after the move, if the item was at `base`.
move_label-to_file_pos :
    (id base p : ℕ) (seq : List Piece) (items : List Item) (l l' : Label)
    → position_of id items ≡ some base
    → UniqueIds (replace_item id (placed_items base 0 seq) items)
    → move_label id seq l ≡ ok l'
    → to_file_pos items l ≡ some p
    → to_file_pos (replace_item id (placed_items base 0 seq) items) l' ≡ some p
unfolding move_label points_to label_at_place to_file_pos
move_label-to_file_pos id base p seq items l l' at_base u how h =
    let news = placed_items base 0 seq in
    elim (Option-cases l.item) [
      | inl e ↦ absurd (ground arith)
      | inr (i, e) ↦ elim (Bool-cases (i == id)) [
        | inr n ↦ elim (Option-cases (position_of i items)) [
          | inl e' ↦ absurd (ground arith)
          | inr (q, e') ↦
              let other : i ≢ id = ground arith in
              let there = position_of-replace_old id i q news items u other e' in
              ground (arith, there)
        ]
        | inl y ↦ elim (Option-cases (place seq 0 l.offset)) [
          | inl e' ↦ absurd (ground arith)
          | inr ((j, o), e') ↦
              let d =
                place-IsPlaced base seq 0 l.offset j o (omega arith)
                  (UniqueIds-news id base news items at_base u) e' in
              let there =
                position_of-replace_new id j ((base + d.begin) % 2 ^ 64) base news items u at_base
                  d.found in
              let same : i ≡ id = ground arith in
              let moved : l' ≡ record l { item = some j; offset = o } = ground arith in
              let was : p ≡ (base + l.offset) % 2 ^ 64 = ground arith in
              let sum : ((base + d.begin) % 2 ^ 64 + o) % 2 ^ 64 ≡ p = omega (arith, d.rest, was) in
              let now =
                to_file_pos-at (replace_item id news items) j ((base + d.begin) % 2 ^ 64) o l
                  there in
              rw moved (now ∙ ap some sum)
        ]
      ]
    ]

pub label_pos-missing :
    (c : Context) (m : Bytes) → find_label m c.labels ≡ none → label_pos c m ≡ none
unfolding label_pos
label_pos-missing c m f = ground arith

pub label_pos-found :
    (c : Context) (m : Bytes) (l : Label)
    → find_label m c.labels ≡ some l
    → label_pos c m ≡ to_file_pos c.children l
unfolding label_pos
label_pos-found c m l f = ground arith

-- A label that has a position in the file before an item is sliced has the same position after it,
-- whether it pointed into the item or elsewhere, if the slicing returns and no two items of the
-- result have one number.
pub slice-label_pos :
    (id p : ℕ) (seq : List Piece) (c c' : Context) (m : Bytes)
    → slice id seq c ≡ ok c'
    → UniqueIds c'.children
    → label_pos c m ≡ some p
    → label_pos c' m ≡ some p
unfolding slice
slice-label_pos id p seq c c' m h u at_p =
    let (_, _, h₁) = bind-eq-ok (guard (is_sorted seq) assertion) _ h in
    let (_, _, h₂) = bind-eq-ok (guard (are_unlabelled id seq c.labels) assertion) _ h₁ in
    elim (Option-cases (position_of id c.children)) [
      | inl e ↦ let gone = rw e at h₂ in absurd (cc)
      | inr (base, e) ↦ elim (Option-cases (find_label m c.labels)) [
        | inl f ↦ absurd (cc (label_pos-missing c m f))
        | inr (l, f) ↦
            let h₃ = rw e at h₂ in
            let (ls, moves, h₄) = bind-eq-ok (move_labels id seq c.labels) _ h₃ in
            let q = move_labels-IsMoved id seq m c.labels ls l moves f in
            let kids = ap (λ x. x.children) (ok-injective h₄) in
            let marks = ap (λ x. x.labels) (ok-injective h₄) in
            let before = sym (label_pos-found c m l f) ∙ at_p in
            let after =
              move_label-to_file_pos id base p seq c.children l q.moved e (rw (← kids) at u) q.how
                before in
            let found : find_label m c'.labels ≡ some q.moved =
              ap (find_label m) (sym marks) ∙ q.found in
            label_pos-found c' m q.moved found ∙ ap (λ x. to_file_pos x q.moved) (sym kids) ∙ after
      ]
    ]
