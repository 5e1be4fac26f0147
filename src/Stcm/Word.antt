-- ===== src/Stcm/Word.antt =====
-- The 32-bit words of an instruction's parameters, src/format/stcm/instruction.hpp: a tag in the two
-- high bits, a value in the others, and the ranges of special values.
pub mod Special
pub mod Tag
use neptools.Prelude.{
  ℕ, ◌+◌, ◌-◌, ◌*◌, ◌/◌, ◌%◌, ◌^◌, ◌≤◌, ◌<◌, ◌≡◌, refl, sym, ap, ◌∙◌, Bool, ◌&&◌, arith, leb,
}
use neptools.Prelude.Bits.{bit_and_low, bit_or_disjoint}
use Prim.Native.Nat.{bit_and, bit_or}
use mathlib.Core.Path.{ap₂}

abbrev pub IsU32 : ℕ → Type 0
IsU32 x = x < 2 ^ 32

-- `TypeTag`, `Value` and `Tag` of `Parameter`; `Tag` takes its value as a `uint32_t`.
unfoldable pub type_tag : ℕ → ℕ
type_tag x = x / 2 ^ 30

unfoldable pub value : ℕ → ℕ
value x = bit_and x 0x3fffffff

unfoldable pub tag : ℕ → ℕ → ℕ
tag t val = bit_or (t * 2 ^ 30 % 2 ^ 32) (val % 2 ^ 32)

abbrev pub is_read_stack : ℕ → Bool
is_read_stack x = leb Special.read_stack_min x && leb x Special.read_stack_max

abbrev pub is_read_4ac : ℕ → Bool
is_read_4ac x = leb Special.read_4ac_min x && leb x Special.read_4ac_max

pub value_lem : (x : ℕ) → value x ≡ x % 2 ^ 30
unfolding value
value_lem x = bit_and_low 30 x

pub tag_lem : (t val : ℕ) → t < 4 → val < 2 ^ 30 → tag t val ≡ t * 2 ^ 30 + val
unfolding tag
tag_lem t val ht hv = ap₂ bit_or (omega arith) (omega arith) ∙ bit_or_disjoint 30 t val hv

-- A word is put together again from its two parts.
pub tag-value : (x t : ℕ) → IsU32 x → type_tag x ≡ t → tag t (value x) ≡ x
unfolding type_tag
tag-value x t h e =
    tag_lem t (value x) (omega arith) (omega (arith, value_lem x)) ∙ omega (arith, value_lem x)
