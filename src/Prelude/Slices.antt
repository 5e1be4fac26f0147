-- ===== src/Prelude/Slices.antt =====
-- Blocks taken out of a list: `take len (drop offs xs)`.
use neptools.Prelude.{
  ℕ, zero, suc, ◌+◌, ◌≤◌, ◌≡◌, refl, ap, List, [], ◌∷◌, ◌++◌, arith, length, take, drop, sym, ◌∙◌,
}
use native.Mathlib.Nat.{zero-add}

module _ {ℓ} {A : Type ℓ} where
  pub drop-nil : (n : ℕ) → drop {A = A} n [] ≡ []
  drop-nil zero = refl
  drop-nil (suc n) = refl

  pub take-nil : (n : ℕ) → take {A = A} n [] ≡ []
  take-nil zero = refl
  take-nil (suc n) = refl

  pub drop-drop : (n m : ℕ) (xs : List A) → drop n (drop m xs) ≡ drop (m + n) xs
  drop-drop n zero xs = rw zero-add
  drop-drop n (suc m) [] = drop-nil n ∙ sym (drop-nil (suc m + n))
  drop-drop n (suc m) (x ∷ xs) =
      let e : suc m + n ≡ suc (m + n) = omega arith in rw e (drop-drop n m xs)

  take-take : (n m : ℕ) (xs : List A) → n ≤ m → take n (take m xs) ≡ take n xs
  take-take zero m xs h = refl
  take-take (suc n) zero xs h = absurd (omega arith)
  take-take (suc n) (suc m) [] h = refl
  take-take (suc n) (suc m) (x ∷ xs) h = ap (◌∷◌ x) (take-take n m xs (omega arith))

  -- A block of a window is the block of the whole.
  pub take-drop-take :
      (len offs size : ℕ) (xs : List A)
      → offs + len ≤ size
      → take len (drop offs (take size xs)) ≡ take len (drop offs xs)
  take-drop-take len zero size xs h = take-take len size xs (omega arith)
  take-drop-take zero (suc offs) size xs h = refl
  take-drop-take (suc len) (suc offs) zero xs h = absurd (omega arith)
  take-drop-take (suc len) (suc offs) (suc size) [] h = refl
  take-drop-take (suc len) (suc offs) (suc size) (x ∷ xs) h =
      take-drop-take (suc len) offs size xs (omega arith)

  -- A block in two parts.
  pub take_split : (n m : ℕ) (xs : List A) → take n xs ++ take m (drop n xs) ≡ take (n + m) xs
  take_split zero m xs = rw zero-add
  take_split (suc n) m [] = let e : suc n + m ≡ suc (n + m) = omega arith in rw (e, take-nil m)
  take_split (suc n) m (x ∷ xs) =
      let e : suc n + m ≡ suc (n + m) = omega arith in rw e (ap (◌∷◌ x) (take_split n m xs))

  pub blocks_join :
      (n m i : ℕ) (xs : List A)
      → take n (drop i xs) ++ take m (drop (i + n) xs) ≡ take (n + m) (drop i xs)
  blocks_join n m i xs = rw (← drop-drop n i xs) (take_split n m (drop i xs))

  -- The front of an append.
  pub take-append : (xs ys : List A) → take (length xs) (xs ++ ys) ≡ xs
  take-append [] ys = refl
  take-append (x ∷ xs) ys = ap (◌∷◌ x) (take-append xs ys)

  pub drop-append : (xs ys : List A) → drop (length xs) (xs ++ ys) ≡ ys
  drop-append [] ys = refl
  drop-append (x ∷ xs) ys = drop-append xs ys
