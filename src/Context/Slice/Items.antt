-- ===== src/Context/Slice/Items.antt =====
-- The numbers and positions of items where pieces replace one of them, as `Item::Slice` of src/format/item.cpp does.
use neptools.Prelude.{
  ℕ, ◌≡◌, ◌≢◌, refl, ◌∙◌, none, some, List, [], ◌∷◌, ◌++◌, arith, ◌==◌, Bool-cases, Option-cases,
  inl, inr,
}
use neptools.Context.{Item, position_of}
use neptools.Context.Slice.{replace_item}

-- No two items have one number.
abbrev pub UniqueIds : List Item → Type 0
UniqueIds [] = Unit {0}
UniqueIds (i ∷ items) = (position_of i.id items ≡ none) × UniqueIds items

position_of-append_some :
    (e p : ℕ) (xs ys : List Item) → position_of e xs ≡ some p → position_of e (xs ++ ys) ≡ some p
unfolding position_of
position_of-append_some e p [] ys h = cc
position_of-append_some e p (x ∷ xs) ys h = ground (arith, position_of-append_some e p xs ys)

pub position_of-append_none :
    (e : ℕ) (xs ys : List Item)
    → position_of e xs ≡ none
    → position_of e (xs ++ ys) ≡ position_of e ys
unfolding position_of
position_of-append_none e [] ys h = refl
position_of-append_none e (x ∷ xs) ys h = ground (arith, position_of-append_none e xs ys)

-- An item behind others is none of them.
UniqueIds-append :
    (e p : ℕ) (xs ys : List Item)
    → UniqueIds (xs ++ ys)
    → position_of e ys ≡ some p
    → position_of e xs ≡ none
unfolding position_of
UniqueIds-append e p [] ys u h = refl
UniqueIds-append e p (x ∷ xs) ys u h = elim (Bool-cases (x.id == e)) [
  | inr n ↦ ground (arith, UniqueIds-append e p xs ys u.1 h)
  | inl y ↦
      let same : x.id ≡ e = ground arith in
      let none_left = UniqueIds-append e p xs ys u.1 h in
      let there : position_of e (xs ++ ys) ≡ some p =
        position_of-append_none e xs ys none_left ∙ h in
      let gone : position_of e (xs ++ ys) ≡ none = rw same at u.0 in absurd (cc)
]

-- Where the pieces are after they replaced the item.
pub position_of-replace_new :
    (id e p q : ℕ) (news items : List Item)
    → UniqueIds (replace_item id news items)
    → position_of id items ≡ some q
    → position_of e news ≡ some p
    → position_of e (replace_item id news items) ≡ some p
unfolding position_of replace_item
position_of-replace_new id e p q news [] u h n = cc
position_of-replace_new id e p q news (i ∷ items) u h n = elim (Bool-cases (i.id == id)) [
  | inl y ↦ ground (arith, position_of-append_some e p news items n)
  | inr z ↦
      let u' : UniqueIds (i ∷ replace_item id news items) = ground arith in
      let there = position_of-replace_new id e p q news items u'.1 (ground arith) n in
      ground (arith, there, u'.0)
]

-- The other items stay.
pub position_of-replace_old :
    (id e p : ℕ) (news items : List Item)
    → UniqueIds (replace_item id news items)
    → e ≢ id
    → position_of e items ≡ some p
    → position_of e (replace_item id news items) ≡ some p
unfolding position_of replace_item
position_of-replace_old id e p news [] u ne h = cc
position_of-replace_old id e p news (i ∷ items) u ne h = elim (Bool-cases (i.id == id)) [
  | inl y ↦
      let u' : UniqueIds (news ++ items) = ground arith in
      let behind : position_of e items ≡ some p = ground arith in
      let apart = UniqueIds-append e p news items u' behind in
      ground (arith, position_of-append_none e news items apart)
  | inr z ↦
      let u' : UniqueIds (i ∷ replace_item id news items) = ground arith in
      ground (arith, position_of-replace_old id e p news items u'.1 ne)
]

UniqueIds-front : (xs ys : List Item) → UniqueIds (xs ++ ys) → UniqueIds xs
UniqueIds-front [] ys u = tt
UniqueIds-front (x ∷ xs) ys u =
    let front : position_of x.id xs ≡ none = elim (Option-cases (position_of x.id xs)) [
      | inl e ↦ e
      | inr (p, e) ↦ absurd (cc (position_of-append_some x.id p xs ys e, u.0))
    ] in
    (front, UniqueIds-front xs ys u.1)

pub UniqueIds-news :
    (id q : ℕ) (news items : List Item)
    → position_of id items ≡ some q
    → UniqueIds (replace_item id news items)
    → UniqueIds news
unfolding position_of replace_item
UniqueIds-news id q news [] h u = cc
UniqueIds-news id q news (i ∷ items) h u = elim (Bool-cases (i.id == id)) [
  | inl y ↦ let u' : UniqueIds (news ++ items) = ground arith in UniqueIds-front news items u'
  | inr n ↦
      let u' : UniqueIds (i ∷ replace_item id news items) = ground arith in
      UniqueIds-news id q news items (ground arith) u'.1
]
