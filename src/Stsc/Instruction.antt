-- ===== src/Stsc/Instruction.antt =====
-- `InstructionBase::CreateAndInsert` of src/format/stsc/instruction.cpp, up to the place that the new
-- instruction takes among the items: the opcode is read, and tells which class parses the rest.
pub mod RoundTrip
use neptools.Prelude.{ℕ, ◌%◌, ◌^◌, Bool, true, false, Option, List, ◌++◌}
use neptools.Prelude.Bytes.{Bytes, to_le}
use neptools.Prelude.Result.{Result, ok, err, ◌>>=◌, ◌>>◌, decode_error}
use neptools.Source.{Source, check_size, read_little}
use neptools.Context.{Context}
use neptools.Stsc.Kind.{
  Flavor, Kind, simple, rnd_jump, jump_if, jump_switch_noire, jump_switch_potbb, unimplemented,
  ArgType,
}
use neptools.Stsc.Opcodes.{instruction_map}
use neptools.Stsc.Simple.{Arg, parse_simple, dump_simple}
use neptools.Stsc.RndJump.{parse_rnd_jump, dump_rnd_jump}
use neptools.Stsc.JumpIf.{JumpIf, parse_jump_if, dump_jump_if}
use neptools.Stsc.JumpSwitch.{
  JumpSwitch, parse_switch, parse_switch_potbb, dump_switch, dump_switch_potbb,
}

-- The members of the classes; `types` are the template's arguments.
pub data Body : Type 0 where
  simple_body : (types : List ArgType) → List Arg → Body
  rnd_jump_body : List Bytes → Body
  jump_if_body : JumpIf → Body
  switch_body : JumpSwitch → Body
  switch_potbb_body : JumpSwitch × ℕ → Body

pub record Instruction : Type 0 where
  pub opcode : ℕ
  pub body : Body

-- The constructor of the class that the kind stands for.
unfoldable pub parse_body :
    (ℕ → Option Source) → Kind → Context → Source → Result (Body × (Context × Source))
parse_body raws (simple no_return types) c s = do
  (args, rest) ← parse_simple raws types c s
  ok (simple_body types args, rest)
parse_body raws rnd_jump c s = do (tgts, rest) ← parse_rnd_jump c s; ok (rnd_jump_body tgts, rest)
parse_body raws jump_if c s = do (i, rest) ← parse_jump_if c s; ok (jump_if_body i, rest)
parse_body raws jump_switch_noire c s = do (i, rest) ← parse_switch c s; ok (switch_body i, rest)
parse_body raws jump_switch_potbb c s = do
  (i, rest) ← parse_switch_potbb c s
  ok (switch_potbb_body i, rest)
parse_body raws unimplemented c s = err decode_error

-- `CreateAndInsert`
unfoldable pub create :
    (ℕ → Option Source) → Flavor → Context → Source → Result (Instruction × (Context × Source))
unfolding parse_body
create raws f c s = do
  check_size 1 s
  (opcode, s₁) ← read_little 1 s
  (b, rest) ← parse_body raws (instruction_map f opcode) c s₁
  ok (record { opcode = opcode; body = b }, rest)

unfoldable pub dump_body : Context → Body → Result Bytes
dump_body c (simple_body types args) = dump_simple c types args
dump_body c (rnd_jump_body tgts) = dump_rnd_jump c tgts
dump_body c (jump_if_body i) = dump_jump_if c i
dump_body c (switch_body i) = dump_switch c i
dump_body c (switch_potbb_body i) = dump_switch_potbb c i

-- `InstrDump`, and the rest of each `Dump_`.
unfoldable pub dump_instruction : Context → Instruction → Result Bytes
unfolding dump_body
dump_instruction c i = do bytes ← dump_body c i.body; ok (to_le 1 i.opcode ++ bytes)

-- The two classes of switches.
abbrev pub is_switch : Body → Bool
is_switch (simple_body types args) = false
is_switch (rnd_jump_body tgts) = false
is_switch (jump_if_body i) = false
is_switch (switch_body i) = true
is_switch (switch_potbb_body i) = true
