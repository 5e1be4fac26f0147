-- ===== src/Stsc/RndJump.antt =====
-- `InstructionRndJumpItem` of src/format/stsc/instruction.cpp: a jump to one of some labels.
pub mod RoundTrip
use neptools.Prelude.{ℕ, zero, suc, ◌*◌, ◌%◌, ◌^◌, List, [], ◌∷◌, ◌++◌, ltb, length}
use neptools.Prelude.Bytes.{Bytes, to_le}
use neptools.Prelude.Result.{Result, ok, ◌>>=◌, ◌>>◌, guard, decode_error}
use neptools.Source.{Source, read_little, check_remaining_size}
use neptools.Context.{Context, get_label_to, sum_sizes, deref_pos}

-- The loop over the targets.
unfoldable pub parse_targets : ℕ → Context → Source → Result (List Bytes × (Context × Source))
parse_targets zero c s = ok ([], (c, s))
parse_targets (suc n) c s = do
  (t, s₁) ← read_little 4 s
  guard (ltb t (sum_sizes c.children)) decode_error
  (l, c₁) ← get_label_to t c
  (ls, rest) ← parse_targets n c₁ s₁
  ok (l ∷ ls, rest)

-- `InstructionRndJumpItem::Parse_`
unfoldable pub parse_rnd_jump : Context → Source → Result (List Bytes × (Context × Source))
unfolding parse_targets
parse_rnd_jump c s = do
  check_remaining_size 1 s
  (n, s₁) ← read_little 1 s
  check_remaining_size (4 * n) s₁
  parse_targets n c s₁

unfoldable pub dump_targets : Context → List Bytes → Result Bytes
dump_targets c [] = ok []
dump_targets c (l ∷ ls) = do
  pos ← deref_pos c l
  bytes ← dump_targets c ls
  ok (to_le 4 (pos % 2 ^ 32) ++ bytes)

-- `InstructionRndJumpItem::Dump_`, behind the opcode.
unfoldable pub dump_rnd_jump : Context → List Bytes → Result Bytes
unfolding dump_targets
dump_rnd_jump c tgts = do bytes ← dump_targets c tgts; ok (to_le 1 (length tgts % 2 ^ 8) ++ bytes)
