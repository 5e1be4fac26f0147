-- ===== src/Stcm/Instruction/Target.antt =====
-- `SetTarget` and `SetOpcode` of src/format/stcm/instruction.cpp: the first words of a header.
use neptools.Prelude.{ℕ, ◌%◌, ◌^◌, ◌<◌, ◌⊎◌, ◌≡◌, arith, length, inl, inr}
use neptools.Prelude.Bytes.{Bytes}
use neptools.Prelude.Result.{ok, Result-cases}
use neptools.Context.{Context, get_label_to, deref_pos}
use neptools.Context.Labels.{UniqueNames, Grows, Grows-refl, get_label_to-Labelled, deref_pos-Grows}
use neptools.Stcm.Instruction.{
  Header, validate_header, OpcodeTarget, InstructionItem, get_size, parse_target, dump_header,
}

-- Which of the two a header is, and what `Validate` made sure of.
target_cases :
    (h : Header) (size : ℕ) (c : Context) (t : OpcodeTarget) (c' : Context)
    → validate_header h size ≡ ok tt
    → parse_target h c ≡ ok (t, c')
    → (h.param_count < 16)
      × ((h.is_call ≡ 0) × (t ≡ OpcodeTarget.opcode h.opcode) × (c' ≡ c)
          ⊎ ((h.is_call ≡ 1)
              × ((l : Bytes) × (get_label_to h.opcode c ≡ ok (l, c'))
                  × (t ≡ OpcodeTarget.target l))))
unfolding validate_header parse_target
target_cases h size c t c' valid e = elim (Result-cases (get_label_to h.opcode c)) [
  | inl ((l, c₁), e₁) ↦ ground arith
  | inr (x, e₁) ↦ ground arith
]

-- The header that an item of that target is dumped with.
abbrev dumped : Header → InstructionItem → Header
dumped h i = record h { param_count = length i.params % 2 ^ 32; size = get_size i % 2 ^ 32 }

pub record TargetDecodes (c : Context) (h : Header) (t : OpcodeTarget) (c' : Context) : Type 0 where
  pub grows : Grows c c'
  pub few : h.param_count < 16
  pub dumps :
      (later : Context) (i : InstructionItem)
      → Grows c' later
      → dump_header later i t ≡ ok (dumped h i)

dump_header-target :
    (c : Context) (i : InstructionItem) (l : Bytes) (h : Header)
    → deref_pos c l ≡ ok h.opcode
    → h.opcode < 2 ^ 32
    → h.is_call ≡ 1
    → dump_header c i (OpcodeTarget.target l) ≡ ok (dumped h i)
unfolding dump_header
dump_header-target c i l h e b k = ground (arith, e)

dump_header-opcode :
    (c : Context) (i : InstructionItem) (h : Header)
    → h.is_call ≡ 0
    → dump_header c i (OpcodeTarget.opcode h.opcode) ≡ ok (dumped h i)
unfolding dump_header
dump_header-opcode c i h k = ground arith

pub parse_target-TargetDecodes :
    (h : Header) (size : ℕ) (c : Context) (t : OpcodeTarget) (c' : Context)
    → UniqueNames c.labels
    → h.opcode < 2 ^ 32
    → validate_header h size ≡ ok tt
    → parse_target h c ≡ ok (t, c')
    → TargetDecodes c h t c'
parse_target-TargetDecodes h size c t c' u b valid e =
    let (few, which) = target_cases h size c t c' valid e in
    elim which [
      | inl (k, et, ec) ↦
          rw (et, ec)
            (record {
              grows = Grows-refl c u;
              few = few;
              dumps = λ later i g. dump_header-opcode later i h k;
            })
      | inr (k, (l, el, et)) ↦
          let d = get_label_to-Labelled h.opcode c l c' (omega arith) u el in
          rw et (record {
            grows = d.grows;
            few = few;
            dumps = λ later i g.
                dump_header-target later i l h (deref_pos-Grows l h.opcode d.points g) b k;
          })
    ]
