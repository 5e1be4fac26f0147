-- ===== src/Stsc/Text/Shape.antt =====
-- What src/format/stsc/file.cpp counts and passes: separators, strings, and the items between them.
use neptools.Prelude.{
  ℕ, suc, ◌+◌, ◌-◌, ◌≡◌, ◌⊎◌, refl, ap, ◌∙◌, Bool, true, false, ◌||◌, List, [], ◌∷◌, ◌++◌, ◌==◌,
  length, drop, arith, Option, none, some, length-append, inl, inr, if◌then◌else◌,
}
use neptools.Prelude.Bytes.{Bytes}
use neptools.Prelude.Slices.{drop-append}
use neptools.Prelude.Text.{str_eq, str_eq_iff}
use neptools.Stsc.Text.{Child, cstring_item, other_item, escape, sep_dash, skip_others}

-- The lines of dashes.
unfoldable pub separators : List Bytes → ℕ
separators [] = 0
separators (line ∷ is) = let n = separators is in if str_eq line sep_dash then suc n else n

pub separators-line :
    (line : Bytes) (is : List Bytes)
    → str_eq line sep_dash ≡ false
    → separators (line ∷ is) ≡ separators is
unfolding separators
separators-line line is n = rw n refl

pub separators-sep :
    (line : Bytes) (is : List Bytes)
    → str_eq line sep_dash ≡ true
    → separators (line ∷ is) ≡ suc (separators is)
unfolding separators
separators-sep line is y = rw y refl

-- A message is empty, or ends in the escape of its last line.
abbrev pub IsMessage : Bytes → Type 0
IsMessage msg = (msg ≡ []) ⊎ ((front : Bytes) × (msg ≡ front ++ escape))

abbrev pub ends_well : Bytes → Bool
ends_well msg = length msg == 0 || str_eq (drop (length msg - 2) msg) escape

pub IsMessage-ends_well : (msg : Bytes) → IsMessage msg → ends_well msg ≡ true
IsMessage-ends_well msg (inl e) = ap ends_well e
IsMessage-ends_well msg (inr (front, e)) =
    let len : length (front ++ escape) - 2 ≡ length front =
      omega (arith, length-append front escape) in
    let end : drop (length (front ++ escape) - 2) (front ++ escape) ≡ escape =
      ap (λ k. drop k (front ++ escape)) len ∙ drop-append front escape in
    let same = (str_eq_iff (drop (length (front ++ escape) - 2) (front ++ escape)) escape).1 end in
    ap ends_well e ∙ ground (arith, same)

module _ {ℓ} {A : Type ℓ} where
  unfoldable pub string_count : List (Child A) → ℕ
  string_count [] = 0
  string_count (cstring_item s ∷ it) = suc (string_count it)
  string_count (other_item a ∷ it) = string_count it

  -- The children, but for the strings' characters.
  unfoldable pub shape : List (Child A) → List (Option A)
  shape [] = []
  shape (cstring_item s ∷ it) = none ∷ shape it
  shape (other_item a ∷ it) = some a ∷ shape it

  -- `it` is at a string, or at the end.
  abbrev pub AtString : List (Child A) → Type 0
  AtString (other_item a ∷ it) = ⊥
  AtString _ = Unit

  pub shape-append : (xs ys : List (Child A)) → shape (xs ++ ys) ≡ shape xs ++ shape ys
  unfolding shape
  shape-append [] ys = refl
  shape-append (cstring_item s ∷ xs) ys = ap (λ zs. none ∷ zs) (shape-append xs ys)
  shape-append (other_item a ∷ xs) ys = ap (λ zs. some a ∷ zs) (shape-append xs ys)

  -- What `skip_others` passes.
  pub record Skipped (it : List (Child A)) (r : List (Child A) × List (Child A)) : Type ℓ where
    pub parts : it ≡ r.0 ++ r.1
    pub count : string_count r.1 ≡ string_count it
    pub at_string : AtString r.1

  pub skip_others-Skipped : (it : List (Child A)) → Skipped it (skip_others it)
  unfolding skip_others string_count
  skip_others-Skipped [] = record { parts = refl; count = refl; at_string = tt }
  skip_others-Skipped (cstring_item s ∷ it) = record { parts = refl; count = refl; at_string = tt }
  skip_others-Skipped (other_item a ∷ it) =
      let rest = skip_others-Skipped it in
      record {
        parts = ap (λ xs. other_item a ∷ xs) rest.parts;
        count = rest.count;
        at_string = rest.at_string;
      }

  pub string_count-append :
      (xs ys : List (Child A)) → string_count (xs ++ ys) ≡ string_count xs + string_count ys
  unfolding string_count
  string_count-append [] ys = omega arith
  string_count-append (cstring_item s ∷ xs) ys = omega (arith, string_count-append xs ys)
  string_count-append (other_item a ∷ xs) ys = string_count-append xs ys
