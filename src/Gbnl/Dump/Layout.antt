-- ===== src/Gbnl/Dump/Layout.antt =====
-- The blocks of a file, and `Gbnl::Align` of src/format/gbnl.cpp.
use neptools.Prelude.{
  ℕ, ◌+◌, ◌-◌, ◌%◌, ◌^◌, ◌≤◌, ◌<◌, ◌≡◌, refl, sym, ap, ◌∙◌, Bool, true, false, List, [], ◌∷◌, ◌++◌,
  if◌then◌else◌, length, take, drop, arith, length-append, length-replicate,
}
use neptools.Prelude.Bytes.{Bytes}
use neptools.Prelude.Slices.{take-append, drop-append, drop-drop}
use neptools.Gbnl.Dump.{align, pad_to}

-- Blocks that are written one behind the other.
abbrev pub flat : List Bytes → Bytes
flat [] = []
flat (x ∷ xs) = x ++ flat xs

abbrev pub sum_lengths : List Bytes → ℕ
sum_lengths [] = 0
sum_lengths (x ∷ xs) = length x + sum_lengths xs

pub length-flat : (xs : List Bytes) → length (flat xs) ≡ sum_lengths xs
length-flat [] = refl
length-flat (x ∷ xs) = omega (arith, length-append x (flat xs), length-flat xs)

pub sum_lengths-append :
    (xs ys : List Bytes) → sum_lengths (xs ++ ys) ≡ sum_lengths xs + sum_lengths ys
sum_lengths-append [] ys = omega arith
sum_lengths-append (x ∷ xs) ys = omega (arith, sum_lengths-append xs ys)

drop-flat : (xs ys : List Bytes) → drop (sum_lengths xs) (flat (xs ++ ys)) ≡ flat ys
drop-flat [] ys = refl
drop-flat (x ∷ xs) ys =
    sym (drop-drop (sum_lengths xs) (length x) (x ++ flat (xs ++ ys)))
    ∙ ap (drop (sum_lengths xs)) (drop-append x (flat (xs ++ ys)))
    ∙ drop-flat xs ys

-- A block stands behind those before it.
pub block-flat :
    (xs zs : List Bytes) (y : Bytes) (n len : ℕ)
    → n ≡ sum_lengths xs
    → len ≡ length y
    → take len (drop n (flat (xs ++ (y ∷ zs)))) ≡ y
block-flat xs zs y n len h k =
    ap (λ m. take len (drop m (flat (xs ++ (y ∷ zs))))) h
    ∙ ap (take len) (drop-flat xs (y ∷ zs))
    ∙ ap (λ m. take m (y ++ flat zs)) k
    ∙ take-append y (flat zs)

-- `Align` goes up, and pads what is missing.
pub record IsAligned (b : Bool) (x : ℕ) : Type 0 where
  pub above : x ≤ align b x
  pub near : align b x ≤ x + 15
  pub padded : (align b x + 2 ^ 64 - x) % 2 ^ 64 ≡ align b x - x
  pub shifted : align b ((if b then 64 else 0) + x) ≡ (if b then 64 else 0) + align b x

pub align-IsAligned : (b : Bool) (x : ℕ) → x < 2 ^ 63 → IsAligned b x
unfolding align
align-IsAligned true x h = record {
  above = omega arith;
  near = omega arith;
  padded = omega arith;
  shifted = refl;
}
align-IsAligned false x h = record {
  above = omega arith;
  near = omega arith;
  padded = omega arith;
  shifted = omega arith;
}

-- The next end is as far from a multiple of 16 as what is added.
pub align-align :
    (b : Bool) (x y : ℕ)
    → x < 2 ^ 62
    → y < 2 ^ 62
    → align b ((align b x + y) % 2 ^ 64) ≡ align b x + align b y
unfolding align
align-align true x y h k = omega arith
align-align false x y h k = omega arith

-- The padding has the length that `Align` asks for.
pub length-pad_to : (b : Bool) (x : ℕ) → x < 2 ^ 63 → length (pad_to (align b x) x) ≡ align b x - x
length-pad_to b x h = length-replicate _ 0 ∙ (align-IsAligned b x h).padded
