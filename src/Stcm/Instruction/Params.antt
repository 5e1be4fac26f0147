-- ===== src/Stcm/Instruction/Params.antt =====
-- The parameters of an instruction, src/format/stcm/instruction.cpp: the loop that reads them.
use neptools.Prelude.{ℕ, zero, suc, ◌≡◌, refl, ap, arith, List, [], ◌∷◌, ◌++◌, length}
use mathlib.Core.Path.{subst}
use neptools.Prelude.Bytes.{Bytes}
use neptools.Prelude.Result.{ok, bind-eq-ok, ok-injective}
use neptools.Source.{Source}
use neptools.Source.Struct.{read_gen, AreFields}
use neptools.Source.Consumed.{
  IsReadable, Consumed, Consumed-refl, Consumed-append, Consumed-IsReadable, read_gen-Consumed,
}
use neptools.Context.{Context}
use neptools.Context.Labels.{UniqueNames, Grows, Grows-refl, Grows-trans}
use neptools.Stcm.Param.{Param, Parameter, get_variant}
use neptools.Stcm.Param.RoundTrip.{IsParameter, Decodes, get_variant-Decodes}
use neptools.Stcm.Instruction.{
  parameter_sizes, parameter_bytes, to_parameter, parse_params, dump_params,
}

to_parameter_lem :
    (xs : List ℕ) (p : Parameter)
    → to_parameter xs ≡ ok p
    → xs ≡ p.param_0 ∷ p.param_4 ∷ p.param_8 ∷ []
unfolding to_parameter
to_parameter_lem [] p e = cc
to_parameter_lem (a ∷ []) p e = cc
to_parameter_lem (a ∷ b ∷ []) p e = cc
to_parameter_lem (a ∷ b ∷ c ∷ []) p e = cc
to_parameter_lem (a ∷ b ∷ c ∷ d ∷ xs) p e = cc

parameter-Consumed :
    (s t : Source) (xs : List ℕ) (p : Parameter)
    → IsReadable s
    → read_gen parameter_sizes s ≡ ok (xs, t)
    → to_parameter xs ≡ ok p
    → Consumed s (parameter_bytes p) t × IsParameter p
parameter-Consumed s t xs p r h e =
    let (c, f) = read_gen-Consumed parameter_sizes s t xs r (omega arith) h in
    let fields = to_parameter_lem xs p e in
    let f' : AreFields parameter_sizes (p.param_0 ∷ p.param_4 ∷ p.param_8 ∷ []) = rw fields at f in
    (rw fields at c, record { word_0 = f'.0; word_4 = f'.1.0; word_8 = f'.1.1.0 })

-- The parameters that the loop read, from `c` and `s` to `c'` and `s'`.
pub record ParamsDecode (c : Context) (s : Source) (n : ℕ) (vs : List Param) (c' : Context)
    (s' : Source) : Type 0 where
  pub bytes : Bytes
  pub consumed : Consumed s bytes s'
  pub grows : Grows c c'
  pub count : length vs ≡ n
  pub dumps : (later : Context) → Grows c' later → dump_params later vs ≡ ok bytes

ParamsDecode-nil :
    (c : Context) (s : Source) → IsReadable s → UniqueNames c.labels → ParamsDecode c s 0 [] c s
unfolding dump_params
ParamsDecode-nil c s r u = record {
  bytes = [];
  consumed = Consumed-refl s r;
  grows = Grows-refl c u;
  count = refl;
  dumps = λ later g. refl;
}

ParamsDecode-cons :
    {c c₁ c' : Context} {s s₁ s' : Source} {n : ℕ} {p : Parameter} {v : Param} {vs : List Param}
    → Consumed s (parameter_bytes p) s₁
    → Decodes c p v c₁
    → ParamsDecode c₁ s₁ n vs c' s'
    → ParamsDecode c s (suc n) (v ∷ vs) c' s'
unfolding dump_params
ParamsDecode-cons {s = s} {s₁ = s₁} {s' = s'} {p = p} taken d rest = record {
  bytes = parameter_bytes p ++ rest.bytes;
  consumed = Consumed-append s s₁ s' (parameter_bytes p) rest.bytes taken rest.consumed;
  grows = Grows-trans d.grows rest.grows;
  count = ap suc rest.count;
  dumps = λ later g. rw (d.dumps later (Grows-trans rest.grows g), rest.dumps later g) refl;
}

pub parse_params-ParamsDecode :
    (n : ℕ) (c : Context) (s : Source) (vs : List Param) (c' : Context) (s' : Source)
    → IsReadable s
    → UniqueNames c.labels
    → parse_params n c s ≡ ok (vs, (c', s'))
    → ParamsDecode c s n vs c' s'
unfolding parse_params
parse_params-ParamsDecode zero c s vs c' s' r u h =
    subst (λ x. ParamsDecode c s 0 x.0 x.1.0 x.1.1) (ok-injective h) (ParamsDecode-nil c s r u)
parse_params-ParamsDecode (suc n) c s vs c' s' r u h =
    let ((xs, s₁), e₁, h₁) = bind-eq-ok (read_gen parameter_sizes s) _ h in
    let (p, e₂, h₂) = bind-eq-ok (to_parameter xs) _ h₁ in
    let ((v, c₁), e₃, h₃) = bind-eq-ok (get_variant p c) _ h₂ in
    let ((ws, (c₂, s₂)), e₄, h₄) = bind-eq-ok (parse_params n c₁ s₁) _ h₃ in
    let (taken, words) = parameter-Consumed s s₁ xs p r e₁ e₂ in
    let d = get_variant-Decodes p c v c₁ words u e₃ in
    let r₁ = Consumed-IsReadable s s₁ (parameter_bytes p) r taken in
    let rest = parse_params-ParamsDecode n c₁ s₁ ws c₂ s₂ r₁ d.grows.unique e₄ in
    subst (λ x. ParamsDecode c s (suc n) x.0 x.1.0 x.1.1) (ok-injective h₄)
      (ParamsDecode-cons taken d rest)
