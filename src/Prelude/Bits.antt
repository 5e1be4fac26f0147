-- ===== src/Prelude/Bits.antt =====
-- `&` with a mask of low ones and `|` of fields that do not overlap, as arithmetic.
use neptools.Prelude.{
  ℕ, zero, suc, ◌+◌, ◌-◌, ◌*◌, ◌/◌, ◌%◌, ◌^◌, ◌≤◌, ◌<◌, ◌≡◌, refl, sym, ap, ◌∙◌, arith, min,
}
use Prim.Native.Nat.{max, digits, bit_and, bit_or, bit_and-bitwise, bit_or-bitwise}
use native.Mathlib.Nat.{pow-suc, one-le-pow, mul_comm, div-add-mod, div-div-eq-div-mul}

-- The native operations count down from the first number; any larger bound gives the same.
module _ (end : ℕ → ℕ) (join : ℕ → ℕ → ℕ) where
  abbrev run : ℕ → ℕ → ℕ → ℕ
  run = digits end join

  run-zero : (n x y : ℕ) → x ≡ 0 → run n x y ≡ run 0 0 y
  run-zero zero zero y e = refl
  run-zero zero (suc x) y e = absurd (omega arith)
  run-zero (suc n) zero y e = refl
  run-zero (suc n) (suc x) y e = absurd (omega arith)

  run-bound : (n m x y : ℕ) → x ≤ n → x ≤ m → run n x y ≡ run m x y
  run-bound n m zero y p q = run-zero n 0 y refl ∙ sym (run-zero m 0 y refl)
  run-bound zero m (suc x) y p q = absurd (omega arith)
  run-bound (suc n) zero (suc x) y p q = absurd (omega arith)
  run-bound (suc n) (suc m) (suc x) y p q =
      ap (λ (t : ℕ). t * 2 + join (suc x % 2) (y % 2))
        (run-bound n m (suc x / 2) (y / 2) (omega arith) (omega arith))

  run-half :
      (x y : ℕ)
      → run (suc x) (suc x) y ≡ run (suc x / 2) (suc x / 2) (y / 2) * 2 + join (suc x % 2) (y % 2)
  run-half x y =
      omega (arith, run-bound x (suc x / 2) (suc x / 2) (y / 2) (omega arith) (omega arith))

-- The lowest binary digit, and the others.
or_digit : (x y : ℕ) → bit_or x y ≡ bit_or (x / 2) (y / 2) * 2 + max (x % 2) (y % 2)
or_digit zero y = omega (arith, bit_or-bitwise 0 y, bit_or-bitwise 0 (y / 2))
or_digit (suc x) y =
    omega (
      arith,
      bit_or-bitwise (suc x) y,
      bit_or-bitwise (suc x / 2) (y / 2),
      run-half (λ t. t) max x y,
    )

and_digit : (x y : ℕ) → bit_and x y ≡ bit_and (x / 2) (y / 2) * 2 + min (x % 2) (y % 2)
and_digit zero y = omega (arith, bit_and-bitwise 0 y, bit_and-bitwise 0 (y / 2))
and_digit (suc x) y = omega (
  arith,
  bit_and-bitwise (suc x) y,
  bit_and-bitwise (suc x / 2) (y / 2),
  run-half (λ t. 0) min x y,
)

or_nothing : (bound x : ℕ) → x ≤ bound → bit_or x 0 ≡ x
or_nothing bound zero h = refl
or_nothing zero (suc x) h = absurd (omega arith)
or_nothing (suc bound) (suc x) h =
    omega (arith, or_digit (suc x) 0, or_nothing bound (suc x / 2) (omega arith))

and_nothing : (bound x : ℕ) → x ≤ bound → bit_and x 0 ≡ 0
and_nothing bound zero h = refl
and_nothing zero (suc x) h = absurd (omega arith)
and_nothing (suc bound) (suc x) h =
    omega (arith, and_digit (suc x) 0, and_nothing bound (suc x / 2) (omega arith))

-- `(tag << k) | val` adds, where `val` has at most `k` bits.
pub bit_or_disjoint : (k tag val : ℕ) → val < 2 ^ k → bit_or (tag * 2 ^ k) val ≡ tag * 2 ^ k + val
bit_or_disjoint zero tag val h = ground (arith, or_nothing tag tag (omega arith))
bit_or_disjoint (suc k) tag val h = omega (
  arith,
  ap (λ (t : ℕ). tag * t) (pow-suc 2 k),
  pow-suc 2 k,
  or_digit (tag * 2 ^ suc k) val,
  ap (λ (t : ℕ). bit_or t (val / 2)) half,
  bit_or_disjoint k tag (val / 2) (omega (arith, pow-suc 2 k)),
)
  where
    half : tag * 2 ^ suc k / 2 ≡ tag * 2 ^ k
    half = omega (arith, ap (λ (t : ℕ). tag * t) (pow-suc 2 k))

mod_twice : (p x : ℕ) → x % (p * 2) ≡ x / 2 % p * 2 + x % 2
mod_twice p x = omega (
  arith,
  ap (λ (t : ℕ). x % t) (mul_comm p 2),
  div-add-mod x (2 * p),
  div-add-mod (x / 2) p,
  ap (λ (t : ℕ). p * t) (div-div-eq-div-mul x 2 p),
)

-- `x & (2^k - 1)` is the remainder by `2^k`.
pub bit_and_low : (k x : ℕ) → bit_and x (2 ^ k - 1) ≡ x % 2 ^ k
bit_and_low zero x = omega (arith, and_nothing x x (omega arith))
bit_and_low (suc k) x = omega (
  arith,
  pow-suc 2 k,
  one-le-pow k 2,
  and_digit x (2 ^ suc k - 1),
  ap (λ (t : ℕ). bit_and (x / 2) t) half_mask,
  bit_and_low k (x / 2),
  mod_twice (2 ^ k) x,
  ap (λ (t : ℕ). x % t) (pow-suc 2 k),
)
  where
    half_mask : (2 ^ suc k - 1) / 2 ≡ 2 ^ k - 1
    half_mask = omega (arith, pow-suc 2 k, one-le-pow k 2)

and_le : (bound x m : ℕ) → x ≤ bound → bit_and x m ≤ m
and_le bound zero m h = omega (arith, bit_and-bitwise 0 m)
and_le zero (suc x) m h = absurd (omega arith)
and_le (suc bound) (suc x) m h =
    omega (arith, and_digit (suc x) m, and_le bound (suc x / 2) (m / 2) (omega arith))

-- What `&` leaves is in the mask.
pub bit_and_le : (x m : ℕ) → bit_and x m ≤ m
bit_and_le x m = and_le x x m (omega arith)

and_again : (bound x m : ℕ) → x ≤ bound → bit_and (bit_and x m) m ≡ bit_and x m
and_again bound zero m h = ap (λ k. bit_and k m) (none m) ∙ refl
  where
    none : (m : ℕ) → bit_and 0 m ≡ 0
    none m = bit_and-bitwise 0 m
and_again zero (suc x) m h = absurd (omega arith)
and_again (suc bound) (suc x) m h =
    let r = bit_and (suc x) m in
    let half : r / 2 ≡ bit_and (suc x / 2) (m / 2) = omega (arith, and_digit (suc x) m) in
    let ih = and_again bound (suc x / 2) (m / 2) (omega arith) in
    let halves : bit_and (r / 2) (m / 2) ≡ r / 2 =
      ap (λ k. bit_and k (m / 2)) half ∙ ih ∙ sym half in
    omega (arith, and_digit r m, and_digit (suc x) m, halves)

-- A second `&` with the same mask changes nothing.
pub bit_and_again : (x m : ℕ) → bit_and (bit_and x m) m ≡ bit_and x m
bit_and_again x m = and_again x x m (omega arith)
