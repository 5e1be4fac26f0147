-- ===== src/Pattern/Literal.antt =====
-- src/pattern_parse.hpp: the pattern that a string literal stands for, which the compiler works out. `none` is a
-- literal that does not compile: no specialization fits, or two do of which neither is more special.
pub mod Matches
pub mod Ends
use neptools.Prelude.{
  ℕ, zero, suc, ◌+◌, ◌-◌, ◌*◌, Bool, true, false, ◌&&◌, ◌||◌, Option, none, some, List, [], ◌∷◌,
  ◌++◌, ◌==◌, leb, if◌then◌else◌, length, drop, get_or, not,
}
use Prim.Native.Nat.{bit_and}
use neptools.Prelude.Bytes.{Bytes}
use neptools.Pattern.{Pattern}

-- `HexValue`
unfoldable pub hex_value : ℕ → Option ℕ
hex_value c =
    if leb b'0' c && leb c b'9'
    then some (c - b'0')
    else if leb b'A' c && leb c b'F'
    then some (c + 10 - b'A')
    else if leb b'a' c && leb c b'f'
    then some (c + 10 - b'a')
    else none

-- `FromHex`
unfoldable pub from_hex : ℕ → Bytes → Option ℕ
unfolding hex_value
from_hex acc [] = some acc
from_hex acc (a ∷ chars) = elim (hex_value a) [
  | none ↦ none
  | some v ↦ from_hex (acc * 16 + v) chars
]

-- `Append`
unfoldable pub append : Pattern → ℕ → ℕ → Pattern
append p pat mask = record { pattern = p.pattern ++ (pat ∷ []); mask = p.mask ++ (mask ∷ []) }

-- A character, or 256 behind the last one.
abbrev pub char_at : Bytes → ℕ → ℕ
char_at args i = get_or args i 256

-- Whether a specialization fits: one for two characters, one for one, one for a value with a mask, and
-- the one for a space.
unfoldable pub fits_two : Bytes → Bool
fits_two args = char_at args 2 == b' '

unfoldable pub fits_one : Bytes → Bool
fits_one args = char_at args 1 == b' '

unfoldable pub fits_masked : Bytes → Bool
fits_masked args = char_at args 2 == b'/' && char_at args 5 == b' '

unfoldable pub fits_space : Bytes → Bool
fits_space args = char_at args 0 == b' '

-- The pattern so far with one byte more.
unfoldable pub append_two : Pattern → Bytes → Option Pattern
unfolding append from_hex
append_two p args =
    if char_at args 0 == b'?' && char_at args 1 == b'?'
    then some (append p 0 0)
    else elim (from_hex 0 (char_at args 0 ∷ char_at args 1 ∷ [])) [
      | none ↦ none
      | some v ↦ some (append p v 0xff)
    ]

unfoldable pub append_one : Pattern → Bytes → Option Pattern
unfolding append from_hex
append_one p args =
    if char_at args 0 == b'?'
    then some (append p 0 0)
    else elim (from_hex 0 (char_at args 0 ∷ [])) [ none ↦ none | some v ↦ some (append p v 0xff) ]

unfoldable pub append_masked : Pattern → Bytes → Option Pattern
unfolding append from_hex
append_masked p args = elim (from_hex 0 (char_at args 0 ∷ char_at args 1 ∷ [])) [
  | none ↦ none
  | some v ↦ elim (from_hex 0 (char_at args 3 ∷ char_at args 4 ∷ [])) [
    | none ↦ none
    | some m ↦ some (append p (bit_and v m) m)
  ]
]

-- The specialization that fits, if there is exactly one: the pattern so far, and how many characters it takes.
unfoldable pub step : Pattern → Bytes → Option Pattern × ℕ
unfolding fits_two fits_one fits_masked fits_space append_two append_one append_masked
step p args =
    let two = fits_two args in
    let one = fits_one args in
    let masked = fits_masked args in
    let space = fits_space args in
    if two && not (one || space)
    then (append_two p args, 3)
    else if one && not (two || (masked || space))
    then (append_one p args, 2)
    else if masked && not (one || space)
    then (append_masked p args, 6)
    else if space && not (two || (one || masked))
    then (some p, 1)
    else (none, 0)

-- `PatternParse`. A step takes a character at least, so `fuel` of their number is enough.
unfoldable pub pattern_parse : ℕ → Pattern → Bytes → Option Pattern
unfolding step
pattern_parse fuel p [] = some p
pattern_parse zero p (a ∷ args) = none
pattern_parse (suc fuel) p (a ∷ args) =
    let (next, taken) = step p (a ∷ args) in
    elim next [ none ↦ none | some q ↦ pattern_parse fuel q (drop taken (a ∷ args)) ]

-- `DoPatternParse`
unfoldable pub do_pattern_parse : Bytes → Option Pattern
unfolding pattern_parse
do_pattern_parse chars =
    pattern_parse (suc (length chars)) (record { pattern = []; mask = [] }) (chars ++ (b' ' ∷ []))
