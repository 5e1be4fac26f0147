-- ===== src/Context/Split/Kept.antt =====
-- `RawItem::Split2` of src/format/raw_item.cpp keeps the items side by side.
use neptools.Prelude.{
  ℕ, ◌+◌, ◌%◌, ◌^◌, ◌≤◌, ◌<◌, ◌≡◌, ◌≢◌, refl, ap, ◌∙◌, false, ◌&&◌, none, some, List, [], ◌∷◌,
  arith, ◌==◌, leb, if◌then◌else◌, Bool-cases, inl, inr,
}
use mathlib.Core.Path.{subst}
use neptools.Prelude.Result.{ok, guard, bind-eq-ok, ok-injective, assertion}
use neptools.Context.{Context, Item, position_of}
use neptools.Context.Slice.{
  Piece, is_sorted, are_unlabelled, is_unlabelled, placed_items, move_labels, replace_item, slice,
}
use neptools.Context.Slice.Items.{UniqueIds}
use neptools.Context.Split.{
  are_inside, replace, split_pieces, resize, remaining, split, split_apart,
}
use neptools.Context.Split.LaidOut.{
  IsLaidOut, size_of, resize-none, replace_item-IsLaidOut, replace_item-gone,
}
use neptools.Context.Split.Pieces.{split_pieces-IsLaidOut}

slice-children :
    (id base : ℕ) (seq : List Piece) (c c' : Context)
    → position_of id c.children ≡ some base
    → slice id seq c ≡ ok c'
    → replace_item id (placed_items base 0 seq) c.children ≡ c'.children
unfolding slice
slice-children id base seq c c' e h =
    let (_, _, h₁) = bind-eq-ok (guard (is_sorted seq) assertion) _ h in
    let (_, _, h₂) = bind-eq-ok (guard (are_unlabelled id seq c.labels) assertion) _ h₁ in
    let h₃ = rw e at h₂ in
    let (ls, _, h₄) = bind-eq-ok (move_labels id seq c.labels) _ h₃ in
    ap (λ x. x.children) (ok-injective h₄)

split_apart-IsLaidOut :
    (base pos next stop : ℕ) (this nitem : Item) (c c' : Context)
    → nitem.id ≢ this.id
    → next ≢ this.id
    → this.size < 2 ^ 64
    → pos + nitem.size ≤ this.size
    → (pos == 0 && remaining this nitem.size pos == 0) ≡ false
    → position_of this.id c.children ≡ some base
    → size_of this.id c.children ≡ some this.size
    → UniqueIds c.children
    → IsLaidOut 0 c.children stop
    → split_apart this pos nitem next c ≡ ok c'
    → IsLaidOut 0 c'.children stop
unfolding split_apart
split_apart-IsLaidOut base pos next stop this nitem c c' apart other small fits not_all e size u a
      h =
    let rem_len = remaining this nitem.size pos in
    let m = if pos == 0 then rem_len else pos in
    let (seq, pieces, h₁) = bind-eq-ok (split_pieces this pos nitem next rem_len) _ h in
    let (d, cut, h₂) = bind-eq-ok (slice this.id seq c) _ h₁ in
    let kids = slice-children this.id base seq c d e cut in
    let done =
      replace_item-IsLaidOut this.id m base this.size 0 stop (placed_items base 0 seq) c.children a
        u e size
        (λ q.
          split_pieces-IsLaidOut base q pos next this nitem seq apart other small fits not_all
            pieces) in
    let result : resize this.id m d.children ≡ c'.children =
      ap (λ x. x.children) (ok-injective h₂) in
    subst (λ x. IsLaidOut 0 x stop) (ap (resize this.id m) kids ∙ result) done

position_of-other : (id : ℕ) (i : Item) → (i.id == id) ≡ false → position_of id (i ∷ []) ≡ none
unfolding position_of
position_of-other id i n = rw n refl

replace-IsLaidOut :
    (base stop : ℕ) (this nitem : Item) (c c' : Context)
    → nitem.id ≢ this.id
    → nitem.size ≡ this.size
    → position_of this.id c.children ≡ some base
    → size_of this.id c.children ≡ some this.size
    → UniqueIds c.children
    → IsLaidOut 0 c.children stop
    → replace this.id nitem c ≡ ok c'
    → IsLaidOut 0 c'.children stop
unfolding replace resize
replace-IsLaidOut base stop this nitem c c' apart same e size u a h =
    let n : (nitem.id == this.id) ≡ false = ground arith in
    let news = record nitem { position = base } ∷ [] in
    let h₁ = rw (replace, e) at h in
    let (_, _, h₂) = bind-eq-ok (guard (are_inside this.id nitem.size c.labels) assertion) _ h₁ in
    let (_, _, h₃) = bind-eq-ok (guard (is_unlabelled nitem.id c.labels) assertion) _ h₂ in
    let kids : replace_item this.id news c.children ≡ c'.children =
      ap (λ x. x.children) (ok-injective h₃) in
    let done =
      replace_item-IsLaidOut this.id 0 base this.size 0 stop news c.children a u e size
        (λ q b. rw n (b, omega arith)) in
    let gone =
      replace_item-gone this.id news c.children
        (position_of-other this.id (record nitem { position = base }) n) u in
    let whole = resize-none this.id 0 (replace_item this.id news c.children) gone in
    subst (λ x. IsLaidOut 0 x stop) (whole ∙ kids) done

-- If the children stand side by side from 0 to `stop`, and no two have one number, then they do so
-- after a raw item of them is split, if the split returns, the new item and the number of the rest
-- are not those of the raw item, and the new item ends inside the raw item, which is smaller than
-- 2^64.
pub split-IsLaidOut :
    (base pos next stop : ℕ) (this nitem : Item) (c c' : Context)
    → nitem.id ≢ this.id
    → next ≢ this.id
    → this.size < 2 ^ 64
    → pos + nitem.size ≤ this.size
    → position_of this.id c.children ≡ some base
    → size_of this.id c.children ≡ some this.size
    → UniqueIds c.children
    → IsLaidOut 0 c.children stop
    → split this pos nitem next c ≡ ok c'
    → IsLaidOut 0 c'.children stop
unfolding split
split-IsLaidOut base pos next stop this nitem c c' apart other small fits e size u a h =
    let (_, _, h₁) =
      bind-eq-ok
        (guard (leb pos this.size && leb ((pos + nitem.size) % 2 ^ 64) this.size) assertion) _ h in
    elim (Bool-cases (pos == 0 && remaining this nitem.size pos == 0)) [
      | inl y ↦
          replace-IsLaidOut base stop this nitem c c' apart (ground arith) e size u a (rw y at h₁)
      | inr n ↦
          split_apart-IsLaidOut base pos next stop this nitem c c' apart other small fits n e size u
            a (rw n at h₁)
    ]
