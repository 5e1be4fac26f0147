-- ===== src/Prelude/Text.antt =====
-- Strings as lists of character codes, and how the standard streams print numbers.
use neptools.Prelude.{
  ℕ, zero, suc, ◌+◌, ◌*◌, ◌/◌, ◌%◌, ◌<◌, ◌≡◌, ◌↔◌, refl, Bool, true, false, ◌&&◌, [], ◌∷◌, ◌++◌,
  arith, ltb, ◌==◌, if◌then◌else◌, length, ◌-◌, replicate, sym, ap, ◌∙◌,
}
use neptools.Prelude.Bytes.{Bytes}
use Prim.Native.String.{String}
use Prim.Native.Char.{code}

-- The codes of a literal.
abbrev pub codes : String → Bytes
codes String.[] = []
codes (String.◌∷◌ c s) = code c ∷ codes s

-- `operator==` of `std::string`, and `memcmp(a, b, n) == 0` on equally long blocks.
unfoldable pub str_eq : Bytes → Bytes → Bool
str_eq [] [] = true
str_eq (x ∷ xs) (y ∷ ys) = x == y && str_eq xs ys
str_eq _ _ = false

pub str_eq_iff : (a b : Bytes) → (str_eq a b ≡ true) ↔ (a ≡ b)
unfolding str_eq
str_eq_iff (x ∷ a) (y ∷ b) = ground (arith, str_eq_iff a b)
str_eq_iff _ _ = ground arith

-- `0`..`9`, then `a`..`f`.
abbrev digit_char : ℕ → ℕ
digit_char d = if ltb d 10 then b'0' + d else b'a' + (d - 10)

-- `os << n` in the given base: the digits of `n`, most significant first. `fuel` bounds their number.
unfoldable pub digits_in : ℕ → ℕ → ℕ → Bytes
digits_in base zero n = []
digits_in base (suc fuel) n =
    let rest = digits_in base fuel (n / base) in
    let d : Bytes = digit_char (n % base) ∷ [] in if ltb n base then d else rest ++ d

-- `os << i`
abbrev pub decimal : ℕ → Bytes
decimal n = digits_in 10 (suc n) n

-- `std::setw(width) << std::setfill('0')`
abbrev pub pad_left : ℕ → Bytes → Bytes
pad_left width s = replicate (width - length s) b'0' ++ s

-- The number that decimal digits stand for, behind `acc`.
read_decimal : ℕ → Bytes → ℕ
read_decimal acc [] = acc
read_decimal acc (c ∷ cs) = read_decimal (acc * 10 + (c - b'0')) cs

read_decimal-append :
    (acc : ℕ) (xs ys : Bytes) → read_decimal acc (xs ++ ys) ≡ read_decimal (read_decimal acc xs) ys
unfolding read_decimal
read_decimal-append acc [] ys = refl
read_decimal-append acc (x ∷ xs) ys = read_decimal-append (acc * 10 + (x - b'0')) xs ys

read_decimal-digits_in : (fuel n : ℕ) → n < fuel → read_decimal 0 (digits_in 10 fuel n) ≡ n
unfolding read_decimal digits_in
read_decimal-digits_in zero n h = absurd (omega arith)
read_decimal-digits_in (suc fuel) n h = ground (
  arith,
  read_decimal-digits_in fuel (n / 10),
  read_decimal-append 0 (digits_in 10 fuel (n / 10)) (digit_char (n % 10) ∷ []),
)

-- Different numbers are printed differently.
pub decimal-injective : (n m : ℕ) → decimal n ≡ decimal m → n ≡ m
decimal-injective n m e =
    sym (read_decimal-digits_in (suc n) n (omega arith))
    ∙ ap (read_decimal 0) e
    ∙ read_decimal-digits_in (suc m) m (omega arith)
