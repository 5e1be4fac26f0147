-- ===== src/Stcm/Instruction/RoundTrip.antt =====
-- `InstructionItem` of src/format/stcm/instruction.cpp: what `Parse_` read is dumped as it was read.
use neptools.Prelude.{ℕ, ◌%◌, ◌^◌, ◌<◌, ◌≡◌, refl, arith, List, [], ◌∷◌, ◌++◌, length, sym}
use mathlib.Core.Path.{subst}
use neptools.Prelude.Bytes.{Bytes}
use neptools.Prelude.Result.{ok, bind-eq-ok, ok-injective}
use neptools.Source.{Source}
use neptools.Source.Struct.{read_gen, AreFields}
use neptools.Source.Consumed.{
  IsReadable, Consumed, Consumed-append, Consumed-IsReadable, read_gen-Consumed,
}
use neptools.Context.{Context, Item, sum_sizes}
use neptools.Context.Labels.{UniqueNames, Grows, Grows-trans}
use neptools.Stcm.Param.{Param}
use neptools.Stcm.Instruction.{
  Header, header_sizes, header_bytes, to_header, validate_header, OpcodeTarget, InstructionItem,
  get_size, parse_target, parse_params, parse, dump_item,
}
use neptools.Stcm.Instruction.Params.{ParamsDecode, parse_params-ParamsDecode}
use neptools.Stcm.Instruction.Target.{TargetDecodes, parse_target-TargetDecodes}

to_header_lem :
    (xs : List ℕ) (h : Header)
    → to_header xs ≡ ok h
    → xs ≡ h.is_call ∷ h.opcode ∷ h.param_count ∷ h.size ∷ []
unfolding to_header
to_header_lem [] h e = cc
to_header_lem (a ∷ []) h e = cc
to_header_lem (a ∷ b ∷ []) h e = cc
to_header_lem (a ∷ b ∷ c ∷ []) h e = cc
to_header_lem (a ∷ b ∷ c ∷ d ∷ []) h e = cc
to_header_lem (a ∷ b ∷ c ∷ d ∷ f ∷ xs) h e = cc

-- From `s`, the bytes of a header and of parameters were read. With any children, the item is dumped,
-- in `c'` and every context that this may grow to, as those bytes, but for the size, which is the one
-- that the item has now.
pub record ItemDecodes (c : Context) (s : Source) (i : InstructionItem) (c' : Context) (s' : Source)
    : Type 0 where
  pub header : Header
  pub rest : Bytes
  pub consumed : Consumed s (header_bytes header ++ rest) s'
  pub grows : Grows c c'
  pub count : header.param_count ≡ length i.params
  pub dumps :
      (later : Context) (items : List Item)
      → Grows c' later
      → let j : InstructionItem = record i { children = items } in
        dump_item later j ≡ ok (header_bytes (record header { size = get_size j % 2 ^ 32 }) ++ rest)

header-Consumed :
    (s t : Source) (xs : List ℕ) (h : Header)
    → IsReadable s
    → read_gen header_sizes s ≡ ok (xs, t)
    → to_header xs ≡ ok h
    → Consumed s (header_bytes h) t × (h.opcode < 2 ^ 32)
header-Consumed s t xs h r e k =
    let (c, f) = read_gen-Consumed header_sizes s t xs r (omega arith) e in
    let fields = to_header_lem xs h k in
    let f' : AreFields header_sizes (h.is_call ∷ h.opcode ∷ h.param_count ∷ h.size ∷ []) =
      rw fields at f in
    (rw fields at c, f'.1.0)

ItemDecodes_lem :
    {c c₁ c' : Context} {s s₁ s' : Source} {h : Header} {t : OpcodeTarget} {vs : List Param}
    → Consumed s (header_bytes h) s₁
    → TargetDecodes c h t c₁
    → ParamsDecode c₁ s₁ h.param_count vs c' s'
    → ItemDecodes c s (record { opcode_target = t; params = vs; children = [] }) c' s'
unfolding dump_item
ItemDecodes_lem {s = s} {s₁ = s₁} {s' = s'} {h = h} {vs = vs} taken d rest =
    let small : length vs % 2 ^ 32 ≡ h.param_count = omega (arith, rest.count, d.few) in
    record {
      header = h;
      rest = rest.bytes;
      consumed = Consumed-append s s₁ s' (header_bytes h) rest.bytes taken rest.consumed;
      grows = Grows-trans d.grows rest.grows;
      count = sym rest.count;
      dumps = λ later items g.
          rw (d.dumps later _ (Grows-trans rest.grows g), rest.dumps later g, small) refl;
    }

-- If `Parse_` accepts what stands at the position of a window of bytes, then it read a header and as
-- many parameters as this counts, and the item is dumped as the same bytes, in the context that it
-- leaves and in every one that this may grow to, but for the header's size, which becomes the size of
-- the item with the children that it was given. The context only grew.
pub parse-ItemDecodes :
    (c : Context) (s : Source) (i : InstructionItem) (c' : Context) (s' : Source)
    → IsReadable s
    → UniqueNames c.labels
    → parse c s ≡ ok (i, (c', s'))
    → ItemDecodes c s i c' s'
unfolding parse
parse-ItemDecodes c s i c' s' r u e =
    let ((xs, s₁), e₁, h₁) = bind-eq-ok (read_gen header_sizes s) _ e in
    let (h, e₂, h₂) = bind-eq-ok (to_header xs) _ h₁ in
    let (o, e₃, h₃) = bind-eq-ok (validate_header h (sum_sizes c.children)) _ h₂ in
    let ((t, c₁), e₄, h₄) = bind-eq-ok (parse_target h c) _ h₃ in
    let ((vs, (c₂, s₂)), e₅, h₅) = bind-eq-ok (parse_params h.param_count c₁ s₁) _ h₄ in
    let (taken, bound) = header-Consumed s s₁ xs h r e₁ e₂ in
    let d = parse_target-TargetDecodes h (sum_sizes c.children) c t c₁ u bound e₃ e₄ in
    let r₁ = Consumed-IsReadable s s₁ (header_bytes h) r taken in
    let rest = parse_params-ParamsDecode h.param_count c₁ s₁ vs c₂ s₂ r₁ d.grows.unique e₅ in
    subst (λ x. ItemDecodes c s x.0 x.1.0 x.1.1) (ok-injective h₅) (ItemDecodes_lem taken d rest)
