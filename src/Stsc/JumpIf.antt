-- ===== src/Stsc/JumpIf.antt =====
-- `InstructionJumpIfItem` of src/format/stsc/instruction.cpp: a jump on the value of a tree.
pub mod RoundTrip
use neptools.Prelude.{ℕ, zero, suc, ◌+◌, ◌*◌, ◌%◌, ◌^◌, List, [], ◌∷◌, ◌++◌, ltb, leb, length}
use neptools.Prelude.Bytes.{Bytes}
use neptools.Prelude.Result.{Result, ok, err, ◌>>=◌, ◌>>◌, guard, decode_error, assertion}
use neptools.Source.{Source, check_remaining_size, get_remaining_size}
use neptools.Source.Struct.{read_gen, pack}
use neptools.Context.{Context, get_label_to, sum_sizes, deref_pos}

pub record Node : Type 0 where
  pub operation : ℕ
  pub node_value : ℕ
  pub left : ℕ
  pub right : ℕ

-- `FixParams`: the number of nodes, and the target.
pub record FixParams : Type 0 where
  pub fix_size : ℕ
  pub tgt : ℕ

pub record JumpIf : Type 0 where
  pub jump_tgt : Bytes
  pub tree : List Node

abbrev pub fix_sizes : List ℕ
fix_sizes = 2 ∷ 4 ∷ []

abbrev pub node_sizes : List ℕ
node_sizes = 1 ∷ 4 ∷ 2 ∷ 2 ∷ []

unfoldable pub to_fix : List ℕ → Result FixParams
to_fix (a ∷ b ∷ []) = ok (record { fix_size = a; tgt = b })
to_fix _ = err assertion

unfoldable pub to_node : List ℕ → Result Node
to_node (a ∷ b ∷ c ∷ d ∷ []) = ok (record { operation = a; node_value = b; left = c; right = d })
to_node _ = err assertion

-- `FixParams::Validate`
unfoldable pub validate_fix : FixParams → ℕ → ℕ → Result (Unit {0})
validate_fix fp rem_size size =
    guard (leb (fp.fix_size * 9) rem_size) decode_error >> guard (ltb fp.tgt size) decode_error

-- `NodeParams::Validate`
unfoldable pub validate_node : Node → ℕ → Result (Unit {0})
validate_node nd size =
    guard (leb nd.left size) decode_error >> guard (leb nd.right size) decode_error

-- The loop over the nodes, `size` of them in all.
unfoldable pub parse_nodes : ℕ → ℕ → Source → Result (List Node × Source)
unfolding to_node validate_node
parse_nodes size zero s = ok ([], s)
parse_nodes size (suc n) s = do
  (xs, s₁) ← read_gen node_sizes s
  nd ← to_node xs
  validate_node nd size
  (nds, s₂) ← parse_nodes size n s₁
  ok (nd ∷ nds, s₂)

-- `InstructionJumpIfItem::Parse_`
unfoldable pub parse_jump_if : Context → Source → Result (JumpIf × (Context × Source))
unfolding to_fix validate_fix parse_nodes
parse_jump_if c s = do
  check_remaining_size 6 s
  (xs, s₁) ← read_gen fix_sizes s
  fp ← to_fix xs
  validate_fix fp (get_remaining_size s₁) (sum_sizes c.children)
  (l, c₁) ← get_label_to fp.tgt c
  check_remaining_size (fp.fix_size * 9) s₁
  (nds, s₂) ← parse_nodes fp.fix_size fp.fix_size s₁
  ok (record { jump_tgt = l; tree = nds }, (c₁, s₂))

-- The fields of `NodeParams`; the two indices are `size_t` in a `Node`.
abbrev pub node_fields : Node → List ℕ
node_fields nd = nd.operation ∷ nd.node_value ∷ nd.left % 2 ^ 16 ∷ nd.right % 2 ^ 16 ∷ []

unfoldable pub dump_nodes : List Node → Bytes
dump_nodes [] = []
dump_nodes (nd ∷ nds) = pack node_sizes (node_fields nd) ++ dump_nodes nds

-- `InstructionJumpIfItem::Dump_`, behind the opcode.
unfoldable pub dump_jump_if : Context → JumpIf → Result Bytes
unfolding dump_nodes
dump_jump_if c i = do
  pos ← deref_pos c i.jump_tgt
  ok (pack fix_sizes (length i.tree % 2 ^ 16 ∷ pos % 2 ^ 32 ∷ []) ++ dump_nodes i.tree)
