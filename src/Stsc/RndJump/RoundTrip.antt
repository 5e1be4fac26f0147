-- ===== src/Stsc/RndJump/RoundTrip.antt =====
-- `InstructionRndJumpItem` of src/format/stsc/instruction.cpp is dumped as it was read.
use neptools.Prelude.{
  refl, some, ℕ, zero, suc, ◌*◌, ◌%◌, ◌^◌, ◌<◌, ◌≡◌, ap, arith, List, ◌∷◌, ◌++◌, ltb, length,
}
use mathlib.Core.Path.{subst}
use neptools.Prelude.Bytes.{Bytes, to_le}
use neptools.Prelude.Result.{ok, guard, decode_error, bind-eq-ok, ok-injective}
use neptools.Source.{Source, read_little, check_remaining_size}
use neptools.Source.Consumed.{
  IsReadable, Consumed, Consumed-append, Consumed-IsReadable, read_little-Consumed,
}
use neptools.Context.{Context, get_label_to, sum_sizes}
use neptools.Context.Labels.{
  UniqueNames, Grows-trans, Labelled, get_label_to-Labelled, deref_pos-Grows,
}
use neptools.Stsc.RndJump.{parse_targets, parse_rnd_jump, dump_targets, dump_rnd_jump}
use neptools.Stsc.Reproduced.{IsReproduced, IsReproduced-empty}

-- The targets that the loop read.
record AreTargets (c : Context) (s : Source) (n : ℕ) (r : List Bytes × (Context × Source))
    : Type 0 where
  pub reproduced : IsReproduced (λ later. dump_targets later r.0) c s r.1.0 r.1.1
  pub count : length r.0 ≡ n

AreTargets-cons :
    {c c₁ : Context} {s s₁ : Source} {n t : ℕ} {l : Bytes} {r : List Bytes × (Context × Source)}
    → Consumed s (to_le 4 t) s₁
    → t < 2 ^ 32
    → Labelled c (some t) l c₁
    → AreTargets c₁ s₁ n r
    → AreTargets c s (suc n) (l ∷ r.0, r.1)
unfolding dump_targets
AreTargets-cons {s = s} {s₁ = s₁} {t = t} {l = l} {r = r} taken b d rest =
    let p = rest.reproduced in
    let word : t % 2 ^ 32 ≡ t = omega arith in
    record {
      reproduced = record {
        bytes = to_le 4 t ++ p.bytes;
        consumed = Consumed-append s s₁ r.1.1 (to_le 4 t) p.bytes taken p.consumed;
        grows = Grows-trans d.grows p.grows;
        dumps = λ later g.
            rw (deref_pos-Grows l t d.points (Grows-trans p.grows g), p.dumps later g, word) refl;
      };
      count = ap suc rest.count;
    }

parse_targets-AreTargets :
    (n : ℕ) (c : Context) (s : Source) (r : List Bytes × (Context × Source))
    → IsReadable s
    → UniqueNames c.labels
    → parse_targets n c s ≡ ok r
    → AreTargets c s n r
unfolding parse_targets dump_targets
parse_targets-AreTargets zero c s r w u h =
    subst (AreTargets c s 0) (ok-injective h)
      (record { reproduced = IsReproduced-empty c s w u; count = refl })
parse_targets-AreTargets (suc n) c s r w u h =
    let ((t, s₁), e₁, h₁) = bind-eq-ok (read_little 4 s) _ h in
    let (o, e₂, h₂) = bind-eq-ok (guard (ltb t (sum_sizes c.children)) decode_error) _ h₁ in
    let ((l, c₁), e₃, h₃) = bind-eq-ok (get_label_to t c) _ h₂ in
    let ((ls, rest), e₄, h₄) = bind-eq-ok (parse_targets n c₁ s₁) _ h₃ in
    let (taken, b) = read_little-Consumed 4 s s₁ t w (omega arith) e₁ in
    let d = get_label_to-Labelled t c l c₁ (omega arith) u e₃ in
    let w₁ = Consumed-IsReadable s s₁ (to_le 4 t) w taken in
    subst (AreTargets c s (suc n)) (ok-injective h₄) (
      AreTargets-cons taken (omega arith) d
        (parse_targets-AreTargets n c₁ s₁ (ls, rest) w₁ d.grows.unique e₄))

-- If `InstructionRndJumpItem::Parse_` accepts what stands behind an opcode, then `Dump_` writes the same
-- bytes behind the opcode, in the context that it leaves and in every one that this may grow to.
pub parse_rnd_jump-IsReproduced :
    (c : Context) (s : Source) (tgts : List Bytes) (c' : Context) (s' : Source)
    → IsReadable s
    → UniqueNames c.labels
    → parse_rnd_jump c s ≡ ok (tgts, (c', s'))
    → IsReproduced (λ later. dump_rnd_jump later tgts) c s c' s'
unfolding parse_rnd_jump dump_rnd_jump
parse_rnd_jump-IsReproduced c s tgts c' s' w u h =
    let (o, e₀, h₀) = bind-eq-ok (check_remaining_size 1 s) _ h in
    let ((n, s₁), e₁, h₁) = bind-eq-ok (read_little 1 s) _ h₀ in
    let (o', e₂, h₂) = bind-eq-ok (check_remaining_size (4 * n) s₁) _ h₁ in
    let (taken, b) = read_little-Consumed 1 s s₁ n w (omega arith) e₁ in
    let w₁ = Consumed-IsReadable s s₁ (to_le 1 n) w taken in
    let ts = parse_targets-AreTargets n c s₁ (tgts, (c', s')) w₁ u h₂ in
    let p = ts.reproduced in
    let word : length tgts % 2 ^ 8 ≡ n = omega (arith, ts.count, b) in
    record {
      bytes = to_le 1 n ++ p.bytes;
      consumed = Consumed-append s s₁ s' (to_le 1 n) p.bytes taken p.consumed;
      grows = p.grows;
      dumps = λ later g. rw (p.dumps later g, word) refl;
    }
