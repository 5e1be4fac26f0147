-- ===== src/Stsc/Instruction/RoundTrip.antt =====
-- The instructions of src/format/stsc/instruction.cpp, of any opcode but a switch's, are dumped as they
-- were read.
use neptools.Prelude.{ℕ, ◌≡◌, refl, arith, false, Option, ◌++◌}
use mathlib.Core.Path.{subst}
use neptools.Prelude.Bytes.{to_le}
use neptools.Prelude.Result.{ok, bind-eq-ok, ok-injective}
use neptools.Source.{Source, check_size, read_little}
use neptools.Source.Consumed.{
  IsReadable, Consumed-append, Consumed-IsReadable, read_little-Consumed,
}
use neptools.Context.{Context}
use neptools.Context.Labels.{UniqueNames}
use neptools.Stsc.Kind.{
  Flavor, Kind, simple, rnd_jump, jump_if, jump_switch_noire, jump_switch_potbb, unimplemented,
}
use neptools.Stsc.Opcodes.{instruction_map}
use neptools.Stsc.Simple.{parse_simple}
use neptools.Stsc.Simple.RoundTrip.{parse_simple-IsReproduced}
use neptools.Stsc.RndJump.{parse_rnd_jump}
use neptools.Stsc.RndJump.RoundTrip.{parse_rnd_jump-IsReproduced}
use neptools.Stsc.JumpIf.{parse_jump_if}
use neptools.Stsc.JumpIf.RoundTrip.{parse_jump_if-IsReproduced}
use neptools.Stsc.JumpSwitch.{parse_switch, parse_switch_potbb}
use neptools.Stsc.Instruction.{
  Body, Instruction, parse_body, create, dump_body, dump_instruction, is_switch,
}
use neptools.Stsc.Reproduced.{IsReproduced}

abbrev BodyReproduced : Context → Source → Body × (Context × Source) → Type 0
BodyReproduced c s r =
    is_switch r.0 ≡ false → IsReproduced (λ later. dump_body later r.0) c s r.1.0 r.1.1

parse_body-IsReproduced :
    (raws : ℕ → Option Source) (k : Kind) (c : Context) (s : Source) (r : Body × (Context × Source))
    → IsReadable s
    → UniqueNames c.labels
    → parse_body raws k c s ≡ ok r
    → BodyReproduced c s r
unfolding parse_body dump_body
parse_body-IsReproduced raws (simple no_return types) c s r w u h =
    let ((args, (c₁, s₁)), e, q) = bind-eq-ok (parse_simple raws types c s) _ h in
    subst (BodyReproduced c s) (ok-injective q)
      (λ plain. parse_simple-IsReproduced raws types c s args c₁ s₁ w u e)
parse_body-IsReproduced raws rnd_jump c s r w u h =
    let ((tgts, (c₁, s₁)), e, q) = bind-eq-ok (parse_rnd_jump c s) _ h in
    subst (BodyReproduced c s) (ok-injective q)
      (λ plain. parse_rnd_jump-IsReproduced c s tgts c₁ s₁ w u e)
parse_body-IsReproduced raws jump_if c s r w u h =
    let ((i, (c₁, s₁)), e, q) = bind-eq-ok (parse_jump_if c s) _ h in
    subst (BodyReproduced c s) (ok-injective q)
      (λ plain. parse_jump_if-IsReproduced c s i c₁ s₁ w u e)
parse_body-IsReproduced raws jump_switch_noire c s r w u h =
    let (x, e, q) = bind-eq-ok (parse_switch c s) _ h in
    subst (BodyReproduced c s) (ok-injective q) (λ plain. cc)
parse_body-IsReproduced raws jump_switch_potbb c s r w u h =
    let (x, e, q) = bind-eq-ok (parse_switch_potbb c s) _ h in
    subst (BodyReproduced c s) (ok-injective q) (λ plain. cc)
parse_body-IsReproduced raws unimplemented c s r w u h = cc

-- If an instruction is read, of either flavor and of any opcode but one of a switch, then it is dumped
-- as the bytes that were read, opcode and arguments, in the context that the parse leaves and in every
-- one that this may grow to. The labels that were there stay where they are.
pub create-IsReproduced :
    (raws : ℕ → Option Source) (f : Flavor) (c : Context) (s : Source) (i : Instruction)
    (c' : Context) (s' : Source)
    → IsReadable s
    → UniqueNames c.labels
    → is_switch i.body ≡ false
    → create raws f c s ≡ ok (i, (c', s'))
    → IsReproduced (λ later. dump_instruction later i) c s c' s'
unfolding create dump_instruction
create-IsReproduced raws f c s i c' s' w u plain h =
    let (o, e₀, h₀) = bind-eq-ok (check_size 1 s) _ h in
    let ((op, s₁), e₁, h₁) = bind-eq-ok (read_little 1 s) _ h₀ in
    let ((b, (c₂, s₂)), e₂, h₂) = bind-eq-ok (parse_body raws (instruction_map f op) c s₁) _ h₁ in
    let (taken, bound) = read_little-Consumed 1 s s₁ op w (omega arith) e₁ in
    let w₁ = Consumed-IsReadable s s₁ (to_le 1 op) w taken in
    let d = parse_body-IsReproduced raws (instruction_map f op) c s₁ (b, (c₂, s₂)) w₁ u e₂ in
    subst
      (λ x.
        is_switch x.0.body ≡ false
        → IsReproduced (λ later. dump_instruction later x.0) c s x.1.0 x.1.1)
      (ok-injective h₂)
      (λ p.
        let q = d p in
        record {
          bytes = to_le 1 op ++ q.bytes;
          consumed = Consumed-append s s₁ s₂ (to_le 1 op) q.bytes taken q.consumed;
          grows = q.grows;
          dumps = λ later g. rw (q.dumps later g) refl;
        })
      plain
