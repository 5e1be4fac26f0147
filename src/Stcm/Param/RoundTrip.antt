-- ===== src/Stcm/Param/RoundTrip.antt =====
-- `Param` of src/format/stcm/instruction.cpp: what `GetVariant` makes of three words is dumped as
-- those words.
use neptools.Prelude.{ℕ, ◌^◌, ◌<◌, ◌≡◌, refl, arith, true, false, ◌||◌, Bool-cases, inl, inr, ◌⊎◌}
use neptools.Prelude.Bytes.{Bytes}
use neptools.Prelude.Result.{ok, bind-eq-ok}
use neptools.Context.{Context, get_label_to, sum_sizes}
use neptools.Context.Labels.{
  UniqueNames, Grows, Grows-refl, Grows-trans, get_label_to-Labelled, deref_pos-Grows,
}
use neptools.Stcm.Param.{
  Param, Parameter, get_variant48, labelled, validate, validate_special, get_variant, variant_of,
  get_special, get_mem_offset, get_indirect, dump, dump_ptr, unused,
}
use neptools.Stcm.Param.Words48.{get_variant48-Decodes48, labelled_lem}
use neptools.Stcm.Word.{IsU32, type_tag, value, value_lem, tag-value, is_read_stack, is_read_4ac}
use neptools.Stcm.Word.Special

pub record IsParameter (p : Parameter) : Type 0 where
  pub word_0 : IsU32 p.param_0
  pub word_4 : IsU32 p.param_4
  pub word_8 : IsU32 p.param_8

-- The context only grew, and in every context that it may grow to `v` is dumped as `p`.
pub record Decodes (c : Context) (p : Parameter) (v : Param) (c' : Context) : Type 0 where
  pub grows : Grows c c'
  pub dumps : (later : Context) → Grows c' later → dump later v ≡ ok p

module _ (p : Parameter) (c : Context) (words : IsParameter p) (u : UniqueNames c.labels) where
  mem_offset-Decodes :
      (v : Param) (c' : Context)
      → type_tag p.param_0 ≡ 0
      → get_mem_offset p c ≡ ok (v, c')
      → Decodes c p v c'
  unfolding get_mem_offset dump
  mem_offset-Decodes v c' t h =
      let ((l, c₁), e₁, r₁) = bind-eq-ok (get_label_to (value p.param_0) c) _ h in
      let ((v4, c₂), e₂, r₂) = bind-eq-ok (get_variant48 p.param_4 c₁) _ r₁ in
      let ((v8, c₃), e₃, r₃) = bind-eq-ok (get_variant48 p.param_8 c₂) _ r₂ in
      let a =
        get_label_to-Labelled (value p.param_0) c l c₁ (omega (arith, value_lem p.param_0)) u e₁ in
      let b = get_variant48-Decodes48 c₁ p.param_4 v4 c₂ words.word_4 a.grows.unique e₂ in
      let d = get_variant48-Decodes48 c₂ p.param_8 v8 c₃ words.word_8 b.grows.unique e₃ in
      let same : c₃ ≡ c' = cc in
      record {
        grows = rw (← same) (Grows-trans a.grows (Grows-trans b.grows d.grows));
        dumps = λ later g₀.
            let g₃ : Grows c₃ later = rw same g₀ in
            let g₂ = Grows-trans d.grows g₃ in
            ground (
              arith,
              r₃,
              deref_pos-Grows l (value p.param_0) a.points (Grows-trans b.grows g₂),
              b.dumps later g₂,
              d.dumps later g₃,
              tag-value p.param_0 0 words.word_0 t,
            );
      }

  indirect-Decodes :
      (v : Param) (c' : Context)
      → type_tag p.param_0 ≡ 2
      → p.param_4 ≡ unused
      → get_indirect p c ≡ ok (v, c')
      → Decodes c p v c'
  unfolding get_indirect dump
  indirect-Decodes v c' t e h =
      let ((v8, c₁), e₁, r₁) = bind-eq-ok (get_variant48 p.param_8 c) _ h in
      let d = get_variant48-Decodes48 c p.param_8 v8 c₁ words.word_8 u e₁ in
      let same : c₁ ≡ c' = cc in
      record {
        grows = rw (← same) d.grows;
        dumps = λ later g.
            ground (arith, r₁, d.dumps later (rw same g), tag-value p.param_0 2 words.word_0 t);
      }

  -- The four kinds whose second word is a file position.
  pointer-Decodes :
      (make : Bytes → Param) (kind last : ℕ) (v : Param) (c' : Context)
      → ((later : Context) (l : Bytes) → dump later (make l) ≡ dump_ptr later l kind last)
      → p.param_0 ≡ kind
      → p.param_8 ≡ last
      → labelled make p.param_4 c ≡ ok (v, c')
      → Decodes c p v c'
  pointer-Decodes make kind last v c' writes e₀ e₈ h =
      let bound : p.param_4 < 2 ^ 64 = omega (arith, words.word_4) in
      let (l, e, here, g) = labelled_lem make p.param_4 c v c' bound u h in
      record {
        grows = g;
        dumps = λ later gl.
            rw (e, writes later l)
              (ground (arith, deref_pos-Grows l p.param_4 here gl, words.word_4));
      }

  stays : (v : Param) → ((later : Context) → dump later v ≡ ok p) → Decodes c p v c
  stays v h = record { grows = Grows-refl c u; dumps = λ later g. h later }

  -- The kinds with no label leave the context alone, and write constants.
  read-Decodes :
      (size : ℕ) (v : Param) (c' : Context)
      → (is_read_stack p.param_0 || is_read_4ac p.param_0) ≡ true
      → validate_special p size ≡ ok tt
      → get_special p c ≡ ok (v, c')
      → Decodes c p v c'
  unfolding validate_special get_special dump
  read-Decodes size v c' t valid h = rw (same) (stays v (λ later. ground (arith, words.word_0)))
    where
      same : c' ≡ c
      same = ground arith

  abbrev Points : (Bytes → Param) → ℕ → ℕ → Param → Context → Type 0
  Points make kind last v c' =
      (p.param_0 ≡ kind) × (p.param_8 ≡ last) × (labelled make p.param_4 c ≡ ok (v, c'))

  -- Which of the four it is, and what `Validate` made sure of.
  special_cases :
      (size : ℕ) (v : Param) (c' : Context)
      → (is_read_stack p.param_0 || is_read_4ac p.param_0) ≡ false
      → validate_special p size ≡ ok tt
      → get_special p c ≡ ok (v, c')
      → Points Param.instr_ptr0 Special.instr_ptr0 unused v c'
        ⊎ (Points Param.instr_ptr1 Special.instr_ptr1 unused v c'
            ⊎ (Points Param.coll_link Special.coll_link 0 v c'
                ⊎ Points Param.expansion Special.expansion 0 v c'))
  unfolding validate_special get_special
  special_cases size v c' f valid h = ground arith

  special-Decodes :
      (size : ℕ) (v : Param) (c' : Context)
      → validate_special p size ≡ ok tt
      → get_special p c ≡ ok (v, c')
      → Decodes c p v c'
  unfolding dump
  special-Decodes size v c' valid h =
      elim (Bool-cases (is_read_stack p.param_0 || is_read_4ac p.param_0)) [
        | inl t ↦ read-Decodes size v c' t valid h
        | inr f ↦ elim (special_cases size v c' f valid h) [
          | inl (e₀, e₈, r) ↦
              pointer-Decodes Param.instr_ptr0 Special.instr_ptr0 unused v c' (λ later l. refl) e₀
                e₈ r
          | inr (inl (e₀, e₈, r)) ↦
              pointer-Decodes Param.instr_ptr1 Special.instr_ptr1 unused v c' (λ later l. refl) e₀
                e₈ r
          | inr (inr (inl (e₀, e₈, r))) ↦
              pointer-Decodes Param.coll_link Special.coll_link 0 v c' (λ later l. refl) e₀ e₈ r
          | inr (inr (inr (e₀, e₈, r))) ↦
              pointer-Decodes Param.expansion Special.expansion 0 v c' (λ later l. refl) e₀ e₈ r
        ]
      ]

variant_cases :
    (p : Parameter) (c : Context) (size : ℕ) (v : Param) (c' : Context)
    → validate p size ≡ ok tt
    → variant_of p c ≡ ok (v, c')
    → (type_tag p.param_0 ≡ 0) × (get_mem_offset p c ≡ ok (v, c'))
      ⊎ ((type_tag p.param_0 ≡ 2) × (p.param_4 ≡ unused) × (get_indirect p c ≡ ok (v, c'))
          ⊎ (validate_special p size ≡ ok tt) × (get_special p c ≡ ok (v, c')))
unfolding validate variant_of
variant_cases p c size v c' valid h = ground arith

-- If `Param`'s constructor accepts three words, then `Param::Dump` writes those words for the result,
-- in the context that it leaves and in every one that this may grow to. The context only grew.
pub get_variant-Decodes :
    (p : Parameter) (c : Context) (v : Param) (c' : Context)
    → IsParameter p
    → UniqueNames c.labels
    → get_variant p c ≡ ok (v, c')
    → Decodes c p v c'
unfolding get_variant
get_variant-Decodes p c v c' words u h =
    let (o, valid, r) = bind-eq-ok (validate p (sum_sizes c.children)) _ h in
    let size = sum_sizes c.children in
    let valid' : validate p size ≡ ok tt = valid in
    elim (variant_cases p c size v c' valid' r) [
      | inl (t, r') ↦ mem_offset-Decodes p c words u v c' t r'
      | inr (inl (t, e, r')) ↦ indirect-Decodes p c words u v c' t e r'
      | inr (inr (s, r')) ↦ special-Decodes p c words u size v c' s r'
    ]
