-- ===== src/Stcm/Param/Words48.antt =====
-- `Param48`: what `GetVariant` makes of a word is dumped as that word.
use neptools.Prelude.{
  ℕ, ◌^◌, ◌<◌, ◌≡◌, arith, true, false, Bool-cases, inl, inr, ◌==◌, some, sym, ◌∙◌,
}
use neptools.Prelude.Bytes.{Bytes}
use neptools.Prelude.Result.{ok, bind-eq-ok}
use neptools.Context.{Context, get_label_to, label_pos}
use neptools.Context.Labels.{UniqueNames, Grows, Grows-refl, get_label_to-Labelled, deref_pos-Grows}
use neptools.Stcm.Param.{Param48, get_variant48, dump48, labelled}
use neptools.Stcm.Word.{IsU32, type_tag, value, value_lem, tag-value}

-- The context only grew, and in every context that it may grow to `v` is dumped as `x`.
pub record Decodes48 (c : Context) (x : ℕ) (v : Param48) (c' : Context) : Type 0 where
  pub grows : Grows c c'
  pub dumps : (later : Context) → Grows c' later → dump48 later v ≡ ok x

plain :
    (c : Context) (x : ℕ) (v : Param48)
    → UniqueNames c.labels
    → ((later : Context) → dump48 later v ≡ ok x)
    → Decodes48 c x v c
plain c x v u h = record { grows = Grows-refl c u; dumps = λ later g. h later }

-- What a label to a position comes to.
pub labelled_lem {ℓ} :
    {A : Type ℓ} (make : Bytes → A) (pos : ℕ) (c : Context) (v : A) (c' : Context)
    → pos < 2 ^ 64
    → UniqueNames c.labels
    → labelled make pos c ≡ ok (v, c')
    → (l : Bytes) × (v ≡ make l) × (label_pos c' l ≡ some pos) × Grows c c'
labelled_lem make pos c v c' b u h =
    let ((l, c₁), found, e) = bind-eq-ok (get_label_to pos c) _ h in
    let w = get_label_to-Labelled pos c l c₁ b u found in
    let e' : c₁ ≡ c' = cc in (l, cc, rw e' at w.points, rw e' at w.grows)

mem_offset48 :
    (c : Context) (x : ℕ) (v : Param48) (c' : Context)
    → IsU32 x
    → UniqueNames c.labels
    → type_tag x ≡ 0
    → labelled Param48.mem_offset (value x) c ≡ ok (v, c')
    → Decodes48 c x v c'
unfolding dump48
mem_offset48 c x v c' hx u t h =
    let (l, e, p, g) =
      labelled_lem Param48.mem_offset (value x) c v c' (omega (arith, value_lem x)) u h in
    record {
      grows = g;
      dumps = λ later gl. ground (arith, e, deref_pos-Grows l (value x) p gl, tag-value x 0 hx t);
    }

get_variant48_mem :
    (x : ℕ) (c : Context)
    → (type_tag x == 0) ≡ true
    → get_variant48 x c ≡ labelled Param48.mem_offset (value x) c
unfolding get_variant48
get_variant48_mem x c t = rw t

get_variant48_same :
    (x : ℕ) (c : Context) (v : Param48) (c' : Context)
    → (type_tag x == 0) ≡ false
    → get_variant48 x c ≡ ok (v, c')
    → c' ≡ c
unfolding get_variant48
get_variant48_same x c v c' f h = ground arith

get_variant48_dump :
    (x : ℕ) (c : Context) (v : Param48) (c' later : Context)
    → IsU32 x
    → (type_tag x == 0) ≡ false
    → get_variant48 x c ≡ ok (v, c')
    → dump48 later v ≡ ok x
unfolding get_variant48 dump48
get_variant48_dump x c v c' later hx f h = ground (arith, tag-value x 1 hx, tag-value x 2 hx)

-- A word that `Param48::GetVariant` accepts is what `Param48::Dump` writes for the result, then and
-- after labels were added.
pub get_variant48-Decodes48 :
    (c : Context) (x : ℕ) (v : Param48) (c' : Context)
    → IsU32 x
    → UniqueNames c.labels
    → get_variant48 x c ≡ ok (v, c')
    → Decodes48 c x v c'
get_variant48-Decodes48 c x v c' hx u h = elim (Bool-cases (type_tag x == 0)) [
  | inl t ↦ mem_offset48 c x v c' hx u (ground arith) (sym (get_variant48_mem x c t) ∙ h)
  | inr f ↦
      rw (get_variant48_same x c v c' f h)
        (plain c x v u (λ later. get_variant48_dump x c v c' later hx f h))
]
