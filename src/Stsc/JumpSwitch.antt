-- ===== src/Stsc/JumpSwitch.antt =====
-- `InstructionJumpSwitchItemNoire` and `InstructionJumpSwitchItemPotbb` of src/format/stsc/instruction.cpp.
pub mod Expressions
pub mod RoundTrip
use neptools.Prelude.{
  ℕ, zero, suc, ◌+◌, ◌*◌, ◌/◌, ◌%◌, ◌^◌, Bool, true, false, List, [], ◌∷◌, ◌++◌, ltb, leb, ◌==◌,
  length, if◌then◌else◌,
}
use Prim.Native.Nat.{bit_and, bit_or}
use neptools.Prelude.Bytes.{Bytes, to_le}
use neptools.Prelude.Result.{Result, ok, err, ◌>>=◌, ◌>>◌, guard, decode_error, assertion}
use neptools.Source.{Source, check_remaining_size, get_remaining_size, read_little}
use neptools.Source.Struct.{read_gen, pack}
use neptools.Context.{Context, get_label_to, sum_sizes, deref_pos}

-- `FixParams`
pub record SwitchParams : Type 0 where
  pub expected : ℕ
  pub raw_size : ℕ

pub record Expression : Type 0 where
  pub expression : ℕ
  pub target : Bytes

pub record JumpSwitch : Type 0 where
  pub expected_val : ℕ
  pub last_is_default : Bool
  pub expressions : List Expression

abbrev pub switch_sizes : List ℕ
switch_sizes = 4 ∷ 2 ∷ []

abbrev pub expression_sizes : List ℕ
expression_sizes = 4 ∷ 4 ∷ []

unfoldable pub to_switch : List ℕ → Result SwitchParams
to_switch (a ∷ b ∷ []) = ok (record { expected = a; raw_size = b })
to_switch _ = err assertion

-- `ExpressionParams`: the expression, and the position of the target.
unfoldable pub to_pair : List ℕ → Result (ℕ × ℕ)
to_pair (a ∷ b ∷ []) = ok (a, b)
to_pair _ = err assertion

-- `InstructionJumpSwitchItemNoire::FixParams::Validate`: the size is taken with its flag.
unfoldable pub validate_switch : SwitchParams → ℕ → Result (Unit {0})
validate_switch fp rem_size = guard (leb (fp.raw_size * 8) rem_size) decode_error

-- `fp.size & 0x8000` of 16 bits.
abbrev pub has_default : ℕ → Bool
has_default raw = raw / 2 ^ 15 % 2 == 1

-- `last_is_default ? fp.size & 0x7ff : uint16_t(fp.size)`
abbrev pub switch_count : ℕ → ℕ
switch_count raw = if has_default raw then bit_and raw 0x7ff else raw

-- The loop over the expressions.
unfoldable pub parse_expressions :
    ℕ → Context → Source → Result (List Expression × (Context × Source))
unfolding to_pair
parse_expressions zero c s = ok ([], (c, s))
parse_expressions (suc n) c s = do
  (xs, s₁) ← read_gen expression_sizes s
  (e, tgt) ← to_pair xs
  guard (ltb tgt (sum_sizes c.children)) decode_error
  (l, c₁) ← get_label_to tgt c
  (es, rest) ← parse_expressions n c₁ s₁
  ok (record { expression = e; target = l } ∷ es, rest)

-- `InstructionJumpSwitchItemNoire::Parse_`
unfoldable pub parse_switch : Context → Source → Result (JumpSwitch × (Context × Source))
unfolding to_switch validate_switch parse_expressions
parse_switch c s = do
  check_remaining_size 6 s
  (xs, s₁) ← read_gen switch_sizes s
  fp ← to_switch xs
  validate_switch fp (get_remaining_size s₁)
  (es, rest) ← parse_expressions (switch_count fp.raw_size) c s₁
  ok (
    record {
      expected_val = fp.expected;
      last_is_default = has_default fp.raw_size;
      expressions = es;
    },
    rest,
  )

-- `InstructionJumpSwitchItemPotbb::Parse_`, with the trailing byte.
unfoldable pub parse_switch_potbb :
    Context → Source → Result ((JumpSwitch × ℕ) × (Context × Source))
unfolding parse_switch
parse_switch_potbb c s = do
  (i, (c₁, s₁)) ← parse_switch c s
  check_remaining_size 1 s₁
  (b, s₂) ← read_little 1 s₁
  ok ((i, b), (c₁, s₂))

unfoldable pub dump_expressions : Context → List Expression → Result Bytes
dump_expressions c [] = ok []
dump_expressions c (e ∷ es) = do
  pos ← deref_pos c e.target
  bytes ← dump_expressions c es
  ok (pack expression_sizes (e.expression ∷ pos % 2 ^ 32 ∷ []) ++ bytes)

-- `(last_is_default << 15) | expressions.size()`, cut to 16 bits.
unfoldable pub dumped_size : Bool → ℕ → ℕ
dumped_size default count = bit_or ((if default then 1 else 0) * 2 ^ 15) count % 2 ^ 16

-- `InstructionJumpSwitchItemNoire::Dump_`, behind the opcode.
unfoldable pub dump_switch : Context → JumpSwitch → Result Bytes
unfolding dump_expressions dumped_size
dump_switch c i = do
  bytes ← dump_expressions c i.expressions
  ok (
      pack switch_sizes (i.expected_val ∷ dumped_size i.last_is_default (length i.expressions) ∷ [])
      ++ bytes)

-- `InstructionJumpSwitchItemPotbb::Dump_`, behind the opcode.
unfoldable pub dump_switch_potbb : Context → JumpSwitch × ℕ → Result Bytes
unfolding dump_switch
dump_switch_potbb c (i, trailing) = do bytes ← dump_switch c i; ok (bytes ++ to_le 1 trailing)
