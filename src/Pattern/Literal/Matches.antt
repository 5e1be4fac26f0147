-- ===== src/Pattern/Literal/Matches.antt =====
-- That a pattern of src/pattern_parse.hpp matches its own bytes.
use neptools.Prelude.{
  ℕ, zero, suc, ◌+◌, ◌-◌, ◌*◌, ◌<◌, ◌≡◌, refl, ◌∙◌, ◌%◌, ◌^◌, Bool, true, false, ◌&&◌, ◌||◌, not,
  Option, none, some, [], ◌∷◌, ◌++◌, if◌then◌else◌, length, drop, arith, length-append, inl, inr,
  ◌⊎◌,
}
use mathlib.Core.Path.{subst}
use Prim.Native.Nat.{bit_and}
use neptools.Prelude.Bits.{bit_and_low, bit_and_le, bit_and_again}
use neptools.Prelude.Bytes.{Bytes, IsBytes}
use neptools.Pattern.{Pattern, check_pattern}
use neptools.Pattern.Literal.{
  hex_value, from_hex, append, char_at, fits_two, fits_one, fits_masked, fits_space, append_two,
  append_one, append_masked, step, pattern_parse, do_pattern_parse,
}

-- A pattern that a search can take: pattern and mask are bytes, as many, and the pattern's own bytes match it.
pub record IsPattern (p : Pattern) : Type 0 where
  pub pattern_bytes : IsBytes p.pattern
  pub mask_bytes : IsBytes p.mask
  pub same_size : length p.mask ≡ length p.pattern
  pub matches_itself : check_pattern p.pattern p.pattern p.mask ≡ true

hex_value-lt : (c v : ℕ) → hex_value c ≡ some v → v < 16
unfolding hex_value
hex_value-lt c v h = ground arith

some-cases :
    {A : Type 0} (o : Option A) {B : Type 0} (next : A → Option B) (w : B)
    → elim o as (λ r. Option B) [ none ↦ none | some v ↦ next v ] ≡ some w
    → (v : A) × (o ≡ some v) × (next v ≡ some w)
some-cases none next w h = cc
some-cases (some v) next w h = (v, refl, h)

from_hex_one : (a v : ℕ) → from_hex 0 (a ∷ []) ≡ some v → v < 256
unfolding from_hex
from_hex_one a v h =
    let (d, value, rest) = some-cases (hex_value a) (λ d. some (0 * 16 + d)) v h in
    let e : 0 * 16 + d ≡ v = cc in omega (arith, hex_value-lt a d value, e)

from_hex_two : (a b v : ℕ) → from_hex 0 (a ∷ b ∷ []) ≡ some v → v < 256
unfolding from_hex
from_hex_two a b v h =
    let (d, value, more) = some-cases (hex_value a) (λ d. from_hex (0 * 16 + d) (b ∷ [])) v h in
    let (d', value', rest) =
      some-cases (hex_value b) (λ d'. some ((0 * 16 + d) * 16 + d')) v more in
    let e : (0 * 16 + d) * 16 + d' ≡ v = cc in
    omega (arith, hex_value-lt a d value, hex_value-lt b d' value', e)

IsBytes-snoc : (xs : Bytes) (x : ℕ) → IsBytes xs → x < 256 → IsBytes (xs ++ (x ∷ []))
IsBytes-snoc [] x h k = (k, tt)
IsBytes-snoc (y ∷ ys) x h k = (h.0, IsBytes-snoc ys x h.1 k)

check_pattern-snoc :
    (xs ms : Bytes) (x m : ℕ)
    → length ms ≡ length xs
    → bit_and x m ≡ x
    → check_pattern xs xs ms ≡ true
    → check_pattern (xs ++ (x ∷ [])) (xs ++ (x ∷ [])) (ms ++ (m ∷ [])) ≡ true
unfolding check_pattern
check_pattern-snoc [] [] x m l a h = ground arith
check_pattern-snoc [] (n ∷ ms) x m l a h = absurd (omega arith)
check_pattern-snoc (y ∷ xs) [] x m l a h = absurd (omega arith)
check_pattern-snoc (y ∷ xs) (n ∷ ms) x m l a h =
    let ih = check_pattern-snoc xs ms x m (omega arith) a (ground arith) in ground arith

IsPattern-append :
    (p : Pattern) (pat mask : ℕ)
    → IsPattern p
    → pat < 256
    → mask < 256
    → bit_and pat mask ≡ pat
    → IsPattern (append p pat mask)
unfolding append
IsPattern-append p pat mask h b c a = record {
  pattern_bytes = IsBytes-snoc p.pattern pat h.pattern_bytes b;
  mask_bytes = IsBytes-snoc p.mask mask h.mask_bytes c;
  same_size =
      omega
        (arith, length-append p.mask (mask ∷ []), length-append p.pattern (pat ∷ []), h.same_size);
  matches_itself = check_pattern-snoc p.pattern p.mask pat mask h.same_size a h.matches_itself;
}

-- A value of a byte under the whole mask.
whole-byte : (v : ℕ) → v < 256 → bit_and v 0xff ≡ v
whole-byte v h = let low : bit_and v (2 ^ 8 - 1) ≡ v % 2 ^ 8 = bit_and_low 8 v in low ∙ omega arith

if-cases : {A : Type 0} (b : Bool) (x y w : A) → (if b then x else y) ≡ w → (x ≡ w) ⊎ (y ≡ w)
if-cases true x y w h = inl h
if-cases false x y w h = inr h

some-injective : (p q : Pattern) → some p ≡ some q → p ≡ q
some-injective p q h = cc

nothing-IsPattern : (p q : Pattern) → IsPattern p → some (append p 0 0) ≡ some q → IsPattern q
nothing-IsPattern p q h e =
    subst IsPattern (some-injective _ q e)
      (IsPattern-append p 0 0 h (omega arith) (omega arith) refl)

whole-IsPattern :
    (p q : Pattern) (v : ℕ) → IsPattern p → v < 256 → some (append p v 0xff) ≡ some q → IsPattern q
whole-IsPattern p q v h b e =
    subst IsPattern (some-injective _ q e)
      (IsPattern-append p v 0xff h b (omega arith) (whole-byte v b))

append_two-IsPattern :
    (p q : Pattern) (args : Bytes) → IsPattern p → append_two p args ≡ some q → IsPattern q
unfolding append_two
append_two-IsPattern p q args h e = elim (if-cases _ _ _ (some q) e) [
  | inl nothing ↦ nothing-IsPattern p q h nothing
  | inr value ↦
      let (v, is_hex, same) =
        some-cases (from_hex 0 (char_at args 0 ∷ char_at args 1 ∷ [])) (λ v. some (append p v 0xff))
          q value in
      whole-IsPattern p q v h (from_hex_two (char_at args 0) (char_at args 1) v is_hex) same
]

append_one-IsPattern :
    (p q : Pattern) (args : Bytes) → IsPattern p → append_one p args ≡ some q → IsPattern q
unfolding append_one
append_one-IsPattern p q args h e = elim (if-cases _ _ _ (some q) e) [
  | inl nothing ↦ nothing-IsPattern p q h nothing
  | inr value ↦
      let (v, is_hex, same) =
        some-cases (from_hex 0 (char_at args 0 ∷ [])) (λ v. some (append p v 0xff)) q value in
      whole-IsPattern p q v h (from_hex_one (char_at args 0) v is_hex) same
]

append_masked-IsPattern :
    (p q : Pattern) (args : Bytes) → IsPattern p → append_masked p args ≡ some q → IsPattern q
unfolding append_masked
append_masked-IsPattern p q args h e =
    let (v, is_hex, more) =
      some-cases (from_hex 0 (char_at args 0 ∷ char_at args 1 ∷ []))
        (λ v. elim (from_hex 0 (char_at args 3 ∷ char_at args 4 ∷ [])) [
          | none ↦ none
          | some m ↦ some (append p (bit_and v m) m)
        ])
        q e in
    let (m, is_mask, same) =
      some-cases (from_hex 0 (char_at args 3 ∷ char_at args 4 ∷ []))
        (λ m. some (append p (bit_and v m) m)) q more in
    let below = from_hex_two (char_at args 3) (char_at args 4) m is_mask in
    subst IsPattern (some-injective _ q same) (
      IsPattern-append p (bit_and v m) m h (omega (arith, bit_and_le v m, below)) below
        (bit_and_again v m))

pub none-some : (q : Pattern) → ◌≡◌ {A = Option Pattern} none (some q) → ⊥
none-some q h = cc

abbrev pub chosen :
    Bool
    → Bool
    → Bool
    → Bool
    → Option Pattern
    → Option Pattern
    → Option Pattern
    → Option Pattern
    → Option Pattern × ℕ
chosen two one masked space a b c d =
    if two
    then (a, 3)
    else if one
    then (b, 2)
    else if masked
    then (c, 6)
    else if space
    then (d, 1)
    else (none, 0)

chosen-IsPattern :
    (two one masked space : Bool) (a b c d : Option Pattern) (q : Pattern)
    → (a ≡ some q → IsPattern q)
    → (b ≡ some q → IsPattern q)
    → (c ≡ some q → IsPattern q)
    → (d ≡ some q → IsPattern q)
    → (chosen two one masked space a b c d).0 ≡ some q
    → IsPattern q
chosen-IsPattern true one masked space a b c d q ha hb hc hd e = ha e
chosen-IsPattern false true masked space a b c d q ha hb hc hd e = hb e
chosen-IsPattern false false true space a b c d q ha hb hc hd e = hc e
chosen-IsPattern false false false true a b c d q ha hb hc hd e = hd e
chosen-IsPattern false false false false a b c d q ha hb hc hd e = absurd (none-some q e)

step-IsPattern :
    (p q : Pattern) (args : Bytes) → IsPattern p → (step p args).0 ≡ some q → IsPattern q
unfolding step
step-IsPattern p q args h e =
    let two = fits_two args in
    let one = fits_one args in
    let masked = fits_masked args in
    let space = fits_space args in
    chosen-IsPattern (two && not (one || space)) (one && not (two || (masked || space)))
      (masked && not (one || space)) (space && not (two || (one || masked))) (append_two p args)
      (append_one p args) (append_masked p args) (some p) q (append_two-IsPattern p q args h)
      (append_one-IsPattern p q args h) (append_masked-IsPattern p q args h)
      (λ same. subst IsPattern (some-injective p q same) h) e

pattern_parse-IsPattern :
    (fuel : ℕ) (p q : Pattern) (args : Bytes)
    → IsPattern p
    → pattern_parse fuel p args ≡ some q
    → IsPattern q
unfolding pattern_parse
pattern_parse-IsPattern fuel p q [] h e = subst IsPattern (some-injective p q e) h
pattern_parse-IsPattern zero p q (a ∷ args) h e = cc
pattern_parse-IsPattern (suc fuel) p q (a ∷ args) h e =
    let (next, stepped, more) =
      some-cases (step p (a ∷ args)).0
        (λ r. pattern_parse fuel r (drop (step p (a ∷ args)).1 (a ∷ args))) q e in
    pattern_parse-IsPattern fuel next q _ (step-IsPattern p next (a ∷ args) h stepped) more

-- A literal that compiles stands for a pattern that a search can take: its pattern and its mask are bytes, and as
-- many, and the bytes of the pattern match it.
pub do_pattern_parse-IsPattern :
    (chars : Bytes) (p : Pattern) → do_pattern_parse chars ≡ some p → IsPattern p
unfolding do_pattern_parse check_pattern
do_pattern_parse-IsPattern chars p h =
    pattern_parse-IsPattern (suc (length chars)) (record { pattern = []; mask = [] }) p
      (chars ++ (b' ' ∷ []))
      (record { pattern_bytes = tt; mask_bytes = tt; same_size = refl; matches_itself = refl }) h
