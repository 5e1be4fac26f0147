-- ===== src/Stsc/JumpSwitch/RoundTrip.antt =====
-- `InstructionJumpSwitchItemNoire` and `InstructionJumpSwitchItemPotbb` of src/format/stsc/instruction.cpp: how
-- what they read is dumped.
use neptools.Prelude.{
  if◌then◌else◌, refl, ℕ, ◌+◌, ◌%◌, ◌^◌, ◌<◌, ◌≡◌, arith, List, [], ◌∷◌, ◌++◌, ltb, length,
}
use mathlib.Core.Path.{subst}
use neptools.Prelude.Bits.{bit_and_low, bit_or_disjoint}
use neptools.Prelude.Bytes.{Bytes, to_le}
use neptools.Prelude.Result.{ok, bind-eq-ok, ok-injective}
use neptools.Source.{Source, check_remaining_size, get_remaining_size, read_little}
use neptools.Source.Struct.{read_gen, pack, AreFields}
use neptools.Source.Consumed.{
  IsReadable, Consumed, Consumed-append, Consumed-IsReadable, read_gen-Consumed,
  read_little-Consumed,
}
use neptools.Context.{Context}
use neptools.Context.Labels.{UniqueNames, Grows}
use neptools.Stsc.JumpSwitch.{
  SwitchParams, JumpSwitch, switch_sizes, to_switch, validate_switch, has_default, switch_count,
  parse_expressions, parse_switch, parse_switch_potbb, dumped_size, dump_switch, dump_switch_potbb,
}
use neptools.Stsc.Reproduced.{IsReproduced}
use neptools.Stsc.JumpSwitch.Expressions.{parse_expressions-AreExpressions}

to_switch_lem :
    (xs : List ℕ) (fp : SwitchParams) → to_switch xs ≡ ok fp → xs ≡ fp.expected ∷ fp.raw_size ∷ []
unfolding to_switch
to_switch_lem [] fp e = cc
to_switch_lem (a ∷ []) fp e = cc
to_switch_lem (a ∷ b ∷ []) fp e = cc
to_switch_lem (a ∷ b ∷ c ∷ xs) fp e = cc

switch-Consumed :
    (s t : Source) (xs : List ℕ) (fp : SwitchParams)
    → IsReadable s
    → read_gen switch_sizes s ≡ ok (xs, t)
    → to_switch xs ≡ ok fp
    → Consumed s (pack switch_sizes (fp.expected ∷ fp.raw_size ∷ [])) t × (fp.raw_size < 2 ^ 16)
switch-Consumed s t xs fp w h e =
    let (c, f) = read_gen-Consumed switch_sizes s t xs w (omega arith) h in
    let fields = to_switch_lem xs fp e in
    let f' : AreFields switch_sizes (fp.expected ∷ fp.raw_size ∷ []) = rw fields at f in
    (rw fields at c, omega (arith, f'.1.0))

-- The size with which a size that was read is dumped: with a default, its bits 11 to 14 are lost.
abbrev pub kept_size : ℕ → ℕ
kept_size raw = if ltb raw (2 ^ 15) then raw else 2 ^ 15 + raw % 2 ^ 11

dumped_size_lem :
    (raw : ℕ) → raw < 2 ^ 16 → dumped_size (has_default raw) (switch_count raw) ≡ kept_size raw
unfolding dumped_size
dumped_size_lem raw b =
    ground
      (arith, bit_and_low 11 raw, bit_or_disjoint 15 0 raw, bit_or_disjoint 15 1 (raw % 2 ^ 11))

-- The bytes of a switch from `s` on, up to `s'`, and their dump.
pub record SwitchDecodes (c : Context) (s : Source) (i : JumpSwitch) (c' : Context) (s' : Source)
    : Type 0 where
  pub raw : ℕ
  pub rest : Bytes
  pub bound : raw < 2 ^ 16
  pub count : length i.expressions ≡ switch_count raw
  pub consumed : Consumed s (pack switch_sizes (i.expected_val ∷ raw ∷ []) ++ rest) s'
  pub grows : Grows c c'
  pub dumps :
      (later : Context)
      → Grows c' later
      → dump_switch later i ≡ ok (pack switch_sizes (i.expected_val ∷ kept_size raw ∷ []) ++ rest)

-- If `InstructionJumpSwitchItemNoire::Parse_` accepts what stands behind an opcode, then `Dump_` writes
-- the same bytes behind the opcode, in the context that it leaves and in every one that this may grow
-- to, but for the size: where it has the flag of a default, only its low eleven bits are kept.
pub parse_switch-SwitchDecodes :
    (c : Context) (s : Source) (i : JumpSwitch) (c' : Context) (s' : Source)
    → IsReadable s
    → UniqueNames c.labels
    → parse_switch c s ≡ ok (i, (c', s'))
    → SwitchDecodes c s i c' s'
unfolding parse_switch dump_switch
parse_switch-SwitchDecodes c s i c' s' w u h =
    let (o, e₀, h₀) = bind-eq-ok (check_remaining_size 6 s) _ h in
    let ((xs, s₁), e₁, h₁) = bind-eq-ok (read_gen switch_sizes s) _ h₀ in
    let (fp, e₂, h₂) = bind-eq-ok (to_switch xs) _ h₁ in
    let (p, e₃, h₃) = bind-eq-ok (validate_switch fp (get_remaining_size s₁)) _ h₂ in
    let ((es, (c₂, s₂)), e₄, h₄) =
      bind-eq-ok (parse_expressions (switch_count fp.raw_size) c s₁) _ h₃ in
    let (taken, bound) = switch-Consumed s s₁ xs fp w e₁ e₂ in
    let head = pack switch_sizes (fp.expected ∷ fp.raw_size ∷ []) in
    let w₁ = Consumed-IsReadable s s₁ head w taken in
    let all =
      parse_expressions-AreExpressions (switch_count fp.raw_size) c s₁ (es, (c₂, s₂)) w₁ u e₄ in
    let q = all.reproduced in
    subst (λ x. SwitchDecodes c s x.0 x.1.0 x.1.1) (ok-injective h₄)
      (record {
        raw = fp.raw_size;
        rest = q.bytes;
        bound = bound;
        count = all.count;
        consumed = Consumed-append s s₁ s₂ head q.bytes taken q.consumed;
        grows = q.grows;
        dumps = λ later g. rw (q.dumps later g, all.count, dumped_size_lem fp.raw_size bound) refl;
      })

-- A switch whose size has no flag, or fits eleven bits, is dumped as the same bytes.
pub SwitchDecodes-IsReproduced :
    {c c' : Context} {s s' : Source} {i : JumpSwitch} (d : SwitchDecodes c s i c' s')
    → kept_size d.raw ≡ d.raw
    → IsReproduced (λ later. dump_switch later i) c s c' s'
SwitchDecodes-IsReproduced {i = i} d same = record {
  bytes = pack switch_sizes (i.expected_val ∷ d.raw ∷ []) ++ d.rest;
  consumed = d.consumed;
  grows = d.grows;
  dumps = λ later g. rw (d.dumps later g, same) refl;
}

-- The same of `InstructionJumpSwitchItemPotbb`, whose trailing byte is kept.
pub record PotbbDecodes (c : Context) (s : Source) (i : JumpSwitch × ℕ) (c' : Context) (s' : Source)
    : Type 0 where
  pub middle : Source
  pub switch : SwitchDecodes c s i.0 c' middle
  pub trailing : Consumed middle (to_le 1 i.1) s'
  pub dumps :
      (later : Context)
      → Grows c' later
      → dump_switch_potbb later i
        ≡ ok (
            (pack switch_sizes (i.0.expected_val ∷ kept_size switch.raw ∷ []) ++ switch.rest)
            ++ to_le 1 i.1)

-- If `InstructionJumpSwitchItemPotbb::Parse_` accepts what stands behind an opcode, then it read a
-- switch and a byte, and `Dump_` writes the switch as `InstructionJumpSwitchItemNoire` does, and the byte.
pub parse_switch_potbb-PotbbDecodes :
    (c : Context) (s : Source) (i : JumpSwitch × ℕ) (c' : Context) (s' : Source)
    → IsReadable s
    → UniqueNames c.labels
    → parse_switch_potbb c s ≡ ok (i, (c', s'))
    → PotbbDecodes c s i c' s'
unfolding parse_switch_potbb dump_switch_potbb
parse_switch_potbb-PotbbDecodes c s i c' s' w u h =
    let ((sw, (c₁, s₁)), e₁, h₁) = bind-eq-ok (parse_switch c s) _ h in
    let (o, e₂, h₂) = bind-eq-ok (check_remaining_size 1 s₁) _ h₁ in
    let ((b, s₂), e₃, h₃) = bind-eq-ok (read_little 1 s₁) _ h₂ in
    let d = parse_switch-SwitchDecodes c s sw c₁ s₁ w u e₁ in
    let w₁ = Consumed-IsReadable s s₁ _ w d.consumed in
    let (taken, bound) = read_little-Consumed 1 s₁ s₂ b w₁ (omega arith) e₃ in
    subst (λ x. PotbbDecodes c s x.0 x.1.0 x.1.1) (ok-injective h₃)
      (record {
        middle = s₁;
        switch = d;
        trailing = taken;
        dumps = λ later g. rw (d.dumps later g) refl;
      })
