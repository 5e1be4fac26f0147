-- ===== src/Context/Split/LaidOut.antt =====
-- Where the items of src/format/context.cpp stand side by side, and pieces take the place of one of
-- them.
use neptools.Prelude.{
  ℕ, ◌+◌, ◌%◌, ◌^◌, ◌≡◌, refl, ap, ◌∙◌, true, false, Option, none, some, List, [], ◌∷◌, ◌++◌, arith,
  ◌==◌, if◌then◌else◌, Bool-cases, inl, inr,
}
use mathlib.Core.Path.{subst}
use neptools.Context.{Item, position_of}
use neptools.Context.Slice.{replace_item}
use neptools.Context.Slice.Items.{UniqueIds, position_of-append_none}
use neptools.Context.Split.{resize}

-- The items stand side by side from `pos` to `stop`.
abbrev pub IsLaidOut : ℕ → List Item → ℕ → Type 0
IsLaidOut pos [] stop = pos ≡ stop
IsLaidOut pos (i ∷ items) stop = (i.position ≡ pos % 2 ^ 64) × IsLaidOut (pos + i.size) items stop

unfoldable pub size_of : ℕ → List Item → Option ℕ
size_of id [] = none
size_of id (i ∷ items) = if i.id == id then some i.size else size_of id items

IsLaidOut-append :
    (p q r : ℕ) (xs ys : List Item) → IsLaidOut p xs q → IsLaidOut q ys r → IsLaidOut p (xs ++ ys) r
IsLaidOut-append p q r [] ys a b = rw a b
IsLaidOut-append p q r (x ∷ xs) ys a b = (a.0, IsLaidOut-append (p + x.size) q r xs ys a.1 b)

-- An item that is not there is not resized.
pub resize-none :
    (id m : ℕ) (items : List Item) → position_of id items ≡ none → resize id m items ≡ items
unfolding position_of resize
resize-none id m [] h = refl
resize-none id m (i ∷ items) h =
    let apart : (i.id == id) ≡ false = ground arith in
    let rest = resize-none id m items (ground arith) in rw (apart, rest) refl

resize-append :
    (id m : ℕ) (xs ys : List Item) → resize id m (xs ++ ys) ≡ resize id m xs ++ resize id m ys
unfolding resize
resize-append id m [] ys = refl
resize-append id m (x ∷ xs) ys = rw (resize-append id m xs ys) refl

same_id : (a b : ℕ) → a == b ≡ true → a ≡ b
same_id a b h = ground arith

-- Pieces that fill the item's place leave the others where they are.
pub replace_item-IsLaidOut :
    (id m base n pos stop : ℕ) (news items : List Item)
    → IsLaidOut pos items stop
    → UniqueIds items
    → position_of id items ≡ some base
    → size_of id items ≡ some n
    → ((q : ℕ) → base ≡ q % 2 ^ 64 → IsLaidOut q (resize id m news) (q + n))
    → IsLaidOut pos (resize id m (replace_item id news items)) stop
unfolding position_of size_of replace_item resize
replace_item-IsLaidOut id m base n pos stop news [] a u at size new = absurd (cc)
replace_item-IsLaidOut id m base n pos stop news (i ∷ items) a u at_base size new =
    elim (Bool-cases (i.id == id)) [
      | inl y ↦
          let alone =
            resize-none id m items (cc (u.0, ap (λ x. position_of x items) (same_id i.id id y))) in
          let shape : resize id m (replace_item id news (i ∷ items)) ≡ resize id m news ++ items =
            rw y (resize-append id m news items ∙ ap (λ x. resize id m news ++ x) alone) in
          let there : base ≡ pos % 2 ^ 64 = ground (arith, a.0) in
          let behind : IsLaidOut (pos + n) items stop =
            subst (λ x. IsLaidOut (pos + x) items stop) (ground arith) a.1 in
          rw shape
            (IsLaidOut-append pos (pos + n) stop (resize id m news) items (new pos there) behind)
      | inr z ↦
          let shape : resize id m (replace_item id news (i ∷ items))
              ≡ i ∷ resize id m (replace_item id news items) =
            rw z (rw z refl) in
          let rest =
            replace_item-IsLaidOut id m base n (pos + i.size) stop news items a.1 u.1 (ground arith)
              (ground arith) new in
          rw shape (a.0, rest)
    ]

pub replace_item-gone :
    (id : ℕ) (news items : List Item)
    → position_of id news ≡ none
    → UniqueIds items
    → position_of id (replace_item id news items) ≡ none
unfolding position_of replace_item
replace_item-gone id news [] e u = refl
replace_item-gone id news (i ∷ items) e u = elim (Bool-cases (i.id == id)) [
  | inl y ↦
      let alone : position_of id items ≡ none =
        cc (u.0, ap (λ x. position_of x items) (same_id i.id id y)) in
      rw y (position_of-append_none id news items e ∙ alone)
  | inr z ↦ rw z (rw z (replace_item-gone id news items e u.1))
]
