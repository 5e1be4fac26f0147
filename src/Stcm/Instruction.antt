-- ===== src/Stcm/Instruction.antt =====
-- `InstructionItem` of src/format/stcm/instruction.cpp: the header, its check, and the parameters behind it.
-- The children of an instruction are the items that the parse of the file puts below it later.
pub mod Params
pub mod Target
pub mod RoundTrip
use neptools.Prelude.{
  ℕ, zero, suc, ◌+◌, ◌*◌, ◌%◌, ◌^◌, Bool, true, false, ◌&&◌, ◌||◌, List, [], ◌∷◌, ◌++◌, ltb, leb,
  ◌==◌, if◌then◌else◌, length,
}
use neptools.Prelude.Bytes.{Bytes}
use neptools.Prelude.Result.{Result, ok, err, ◌>>=◌, ◌>>◌, guard, assertion, decode_error}
use neptools.Source.{Source}
use neptools.Source.Struct.{read_gen, pack}
use neptools.Context.{Context, Item, get_label_to, sum_sizes, deref_pos}
use neptools.Stcm.Param.{Param, Parameter, get_variant, dump}

pub record Header : Type 0 where
  pub is_call : ℕ
  pub opcode : ℕ
  pub param_count : ℕ
  pub size : ℕ

abbrev pub header_sizes : List ℕ
header_sizes = 4 ∷ 4 ∷ 4 ∷ 4 ∷ []

abbrev pub parameter_sizes : List ℕ
parameter_sizes = 4 ∷ 4 ∷ 4 ∷ []

abbrev pub header_bytes : Header → Bytes
header_bytes h = pack header_sizes (h.is_call ∷ h.opcode ∷ h.param_count ∷ h.size ∷ [])

abbrev pub parameter_bytes : Parameter → Bytes
parameter_bytes p = pack parameter_sizes (p.param_0 ∷ p.param_4 ∷ p.param_8 ∷ [])

-- The members of the structures that `ReadGen` fills; no other number of fields is read.
unfoldable pub to_header : List ℕ → Result Header
to_header (a ∷ b ∷ c ∷ d ∷ []) = ok (record { is_call = a; opcode = b; param_count = c; size = d })
to_header _ = err assertion

unfoldable pub to_parameter : List ℕ → Result Parameter
to_parameter (a ∷ b ∷ c ∷ []) = ok (record { param_0 = a; param_4 = b; param_8 = c })
to_parameter _ = err assertion

abbrev user_opcodes : ℕ
user_opcodes = 0x1000

abbrev system_opcodes_begin : ℕ
system_opcodes_begin = 0xffffff00

abbrev system_opcodes_end : ℕ
system_opcodes_end = 0xffffff14

-- `Header::Validate`
unfoldable pub validate_header : Header → ℕ → Result (Unit {0})
validate_header h file_size =
    guard (h.is_call == 0 || h.is_call == 1) decode_error
    >> guard (ltb h.param_count 16) decode_error
    >> guard (leb (16 + h.param_count * 12) h.size) decode_error
    >> (if h.is_call == 0
        then guard
            (ltb h.opcode user_opcodes
              || leb system_opcodes_begin h.opcode && leb h.opcode system_opcodes_end)
            decode_error
        else guard (ltb h.opcode file_size) decode_error)

-- `opcode_target`
pub data OpcodeTarget : Type 0 where
  opcode : ℕ → OpcodeTarget
  target : Bytes → OpcodeTarget

pub record InstructionItem : Type 0 where
  pub opcode_target : OpcodeTarget
  pub params : List Param
  pub children : List Item

-- `GetSize`
abbrev pub get_size : InstructionItem → ℕ
get_size i = (16 + length i.params * 12 + sum_sizes i.children) % 2 ^ 64

unfoldable pub parse_target : Header → Context → Result (OpcodeTarget × Context)
parse_target h c =
    let call = get_label_to h.opcode c in
    if h.is_call == 0
    then ok (OpcodeTarget.opcode h.opcode, c)
    else call >>= λ (l, c'). ok (OpcodeTarget.target l, c')

-- The loop over the parameters.
unfoldable pub parse_params : ℕ → Context → Source → Result (List Param × (Context × Source))
parse_params zero c s = ok ([], (c, s))
parse_params (suc n) c s = do
  (xs, s₁) ← read_gen parameter_sizes s
  p ← to_parameter xs
  (v, c₁) ← get_variant p c
  (vs, rest) ← parse_params n c₁ s₁
  ok (v ∷ vs, rest)

-- `Parse_`
unfoldable pub parse : Context → Source → Result (InstructionItem × (Context × Source))
unfolding parse_target parse_params to_header validate_header
parse c s = do
  (xs, s₁) ← read_gen header_sizes s
  h ← to_header xs
  validate_header h (sum_sizes c.children)
  (t, c₁) ← parse_target h c
  (vs, rest) ← parse_params h.param_count c₁ s₁
  ok (record { opcode_target = t; params = vs; children = [] }, rest)

unfoldable pub dump_params : Context → List Param → Result Bytes
dump_params c [] = ok []
dump_params c (v ∷ vs) = do p ← dump c v; bytes ← dump_params c vs; ok (parameter_bytes p ++ bytes)

unfoldable pub dump_header : Context → InstructionItem → OpcodeTarget → Result Header
dump_header c i (OpcodeTarget.opcode n) = ok (record {
  is_call = 0;
  opcode = n;
  param_count = length i.params % 2 ^ 32;
  size = get_size i % 2 ^ 32;
})
dump_header c i (OpcodeTarget.target l) = do
  pos ← deref_pos c l
  ok (record {
    is_call = 1;
    opcode = pos % 2 ^ 32;
    param_count = length i.params % 2 ^ 32;
    size = get_size i % 2 ^ 32;
  })

-- `Dump_`, up to the children, which are dumped behind it.
unfoldable pub dump_item : Context → InstructionItem → Result Bytes
unfolding dump_header dump_params
dump_item c i = do
  h ← dump_header c i i.opcode_target
  bytes ← dump_params c i.params
  ok (header_bytes h ++ bytes)
