-- ===== src/Stsc/JumpSwitch/Expressions.antt =====
-- The loop over the expressions of a switch, src/format/stsc/instruction.cpp.
use neptools.Prelude.{
  refl, some, ℕ, zero, suc, ◌%◌, ◌^◌, ◌<◌, ◌≡◌, ap, arith, List, [], ◌∷◌, ◌++◌, ltb, length,
}
use mathlib.Core.Path.{subst}
use neptools.Prelude.Bytes.{Bytes}
use neptools.Prelude.Result.{ok, guard, decode_error, bind-eq-ok, ok-injective}
use neptools.Source.{Source}
use neptools.Source.Struct.{read_gen, pack, AreFields}
use neptools.Source.Consumed.{
  IsReadable, Consumed, Consumed-append, Consumed-IsReadable, read_gen-Consumed,
}
use neptools.Context.{Context, get_label_to, sum_sizes}
use neptools.Context.Labels.{
  UniqueNames, Grows-trans, Labelled, get_label_to-Labelled, deref_pos-Grows,
}
use neptools.Stsc.JumpSwitch.{
  Expression, expression_sizes, to_pair, parse_expressions, dump_expressions,
}
use neptools.Stsc.Reproduced.{IsReproduced, IsReproduced-empty}

to_pair_lem : (xs : List ℕ) (p : ℕ × ℕ) → to_pair xs ≡ ok p → xs ≡ p.0 ∷ p.1 ∷ []
unfolding to_pair
to_pair_lem [] p e = cc
to_pair_lem (a ∷ []) p e = cc
to_pair_lem (a ∷ b ∷ []) p e = cc
to_pair_lem (a ∷ b ∷ c ∷ xs) p e = cc

pair-Consumed :
    (s t : Source) (xs : List ℕ) (p : ℕ × ℕ)
    → IsReadable s
    → read_gen expression_sizes s ≡ ok (xs, t)
    → to_pair xs ≡ ok p
    → Consumed s (pack expression_sizes (p.0 ∷ p.1 ∷ [])) t × (p.1 < 2 ^ 32)
pair-Consumed s t xs p w h e =
    let (c, f) = read_gen-Consumed expression_sizes s t xs w (omega arith) h in
    let fields = to_pair_lem xs p e in
    let f' : AreFields expression_sizes (p.0 ∷ p.1 ∷ []) = rw fields at f in
    (rw fields at c, omega (arith, f'.1.0))

-- The expressions that the loop read.
pub record AreExpressions (c : Context) (s : Source) (n : ℕ)
    (r : List Expression × (Context × Source)) : Type 0 where
  pub reproduced : IsReproduced (λ later. dump_expressions later r.0) c s r.1.0 r.1.1
  pub count : length r.0 ≡ n

AreExpressions-cons :
    {c c₁ : Context} {s s₁ : Source} {n e t : ℕ} {l : Bytes}
    {r : List Expression × (Context × Source)}
    → Consumed s (pack expression_sizes (e ∷ t ∷ [])) s₁
    → t < 2 ^ 32
    → Labelled c (some t) l c₁
    → AreExpressions c₁ s₁ n r
    → AreExpressions c s (suc n) (record { expression = e; target = l } ∷ r.0, r.1)
unfolding dump_expressions
AreExpressions-cons {s = s} {s₁ = s₁} {e = e} {t = t} {l = l} {r = r} taken b d rest =
    let p = rest.reproduced in
    let word : t % 2 ^ 32 ≡ t = omega arith in
    let head = pack expression_sizes (e ∷ t ∷ []) in
    record {
      reproduced = record {
        bytes = head ++ p.bytes;
        consumed = Consumed-append s s₁ r.1.1 head p.bytes taken p.consumed;
        grows = Grows-trans d.grows p.grows;
        dumps = λ later g.
            rw (deref_pos-Grows l t d.points (Grows-trans p.grows g), p.dumps later g, word) refl;
      };
      count = ap suc rest.count;
    }

pub parse_expressions-AreExpressions :
    (n : ℕ) (c : Context) (s : Source) (r : List Expression × (Context × Source))
    → IsReadable s
    → UniqueNames c.labels
    → parse_expressions n c s ≡ ok r
    → AreExpressions c s n r
unfolding parse_expressions dump_expressions
parse_expressions-AreExpressions zero c s r w u h =
    subst (AreExpressions c s 0) (ok-injective h)
      (record { reproduced = IsReproduced-empty c s w u; count = refl })
parse_expressions-AreExpressions (suc n) c s r w u h =
    let ((xs, s₁), e₁, h₁) = bind-eq-ok (read_gen expression_sizes s) _ h in
    let ((x, t), e₂, h₂) = bind-eq-ok (to_pair xs) _ h₁ in
    let (o, e₃, h₃) = bind-eq-ok (guard (ltb t (sum_sizes c.children)) decode_error) _ h₂ in
    let ((l, c₁), e₄, h₄) = bind-eq-ok (get_label_to t c) _ h₃ in
    let ((es, rest), e₅, h₅) = bind-eq-ok (parse_expressions n c₁ s₁) _ h₄ in
    let (taken, b) = pair-Consumed s s₁ xs (x, t) w e₁ e₂ in
    let d = get_label_to-Labelled t c l c₁ (omega arith) u e₄ in
    let w₁ = Consumed-IsReadable s s₁ (pack expression_sizes (x ∷ t ∷ [])) w taken in
    subst (AreExpressions c s (suc n)) (ok-injective h₅) (
      AreExpressions-cons taken b d
        (parse_expressions-AreExpressions n c₁ s₁ (es, rest) w₁ d.grows.unique e₅))
