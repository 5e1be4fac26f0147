-- ===== src/Prelude/Bytes.antt =====
-- Bytes in memory, and the unsigned integers that they hold, least significant byte first: the
-- layout of `boost::endian::little_uintN_t` and of the integers of a little-endian machine.
use neptools.Prelude.{
  ℕ, zero, suc, ◌+◌, ◌*◌, ◌/◌, ◌%◌, ◌^◌, ◌<◌, ◌≡◌, refl, ap, List, [], ◌∷◌, arith, length, Bool,
  true, false, ltb, ltb→lt, Bool-cases, inl, inr,
}
use native.Mathlib.Nat.{pow-suc}

-- `std::string`, `std::string_view` and blocks of memory.
abbrev pub Bytes : Type 0
Bytes = List ℕ

abbrev pub IsBytes : Bytes → Type 0
IsBytes [] = Unit {0}
IsBytes (b ∷ bs) = (b < 256) × IsBytes bs

unfoldable pub to_le : ℕ → ℕ → Bytes
to_le zero x = []
to_le (suc n) x = (x % 256) ∷ to_le n (x / 256)

unfoldable pub from_le : Bytes → ℕ
from_le [] = 0
from_le (b ∷ bs) = b + 256 * from_le bs

pub length-to_le : (n x : ℕ) → length (to_le n x) ≡ n
unfolding to_le
length-to_le zero x = refl
length-to_le (suc n) x = ap suc (length-to_le n (x / 256))

pub from_le-to_le : (n x : ℕ) → x < 256 ^ n → from_le (to_le n x) ≡ x
unfolding to_le from_le
from_le-to_le zero x h = omega arith
from_le-to_le (suc n) x h =
    omega (arith, pow-suc 256 n, from_le-to_le n (x / 256) (omega (arith, pow-suc 256 n)))

cons_eq : {a b : ℕ} {xs ys : Bytes} → a ≡ b → xs ≡ ys → a ∷ xs ≡ b ∷ ys
cons_eq p q = cc

pub to_le-from_le : (bs : Bytes) → IsBytes bs → to_le (length bs) (from_le bs) ≡ bs
unfolding to_le from_le
to_le-from_le [] h = refl
to_le-from_le (b ∷ bs) h = cons_eq (omega arith) (rw digits_div (to_le-from_le bs h.1))
  where
    digits_div : (b + 256 * from_le bs) / 256 ≡ from_le bs
    digits_div = omega (arith, h.0)

pub from_le-lt : (bs : Bytes) → IsBytes bs → from_le bs < 256 ^ length bs
unfolding from_le
from_le-lt [] h = omega arith
from_le-lt (b ∷ bs) h = omega (arith, pow-suc 256 (length bs), from_le-lt bs h.1, h.0)

-- A test for `IsBytes`.
abbrev pub are_bytes : Bytes → Bool
are_bytes [] = true
are_bytes (b ∷ bs) = elim (ltb b 256) [ true ↦ are_bytes bs | false ↦ false ]

pub are_bytes-IsBytes : (bs : Bytes) → are_bytes bs ≡ true → IsBytes bs
are_bytes-IsBytes [] h = tt
are_bytes-IsBytes (b ∷ bs) h = elim (Bool-cases (ltb b 256)) [
  | inl c ↦ (ltb→lt b 256 c, are_bytes-IsBytes bs (ground arith))
  | inr c ↦ absurd (ground arith)
]
