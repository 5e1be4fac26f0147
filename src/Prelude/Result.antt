-- ===== src/Prelude/Result.antt =====
-- Fallible code: the exceptions that the source throws, and its failed assertions.
use neptools.Prelude.{◌≡◌, refl, Bool, true, false, ◌⊎◌, inl, inr}

-- `decode_error` is `Libshit::DecodeError` (of `LIBSHIT_VALIDATE_FIELD` and `CheckSize`), `overflow`
-- is `SourceOverflow` and `SinkOverflow`, `assertion` is a failed `LIBSHIT_ASSERT` or an
-- unreachable place, and `out_of_fuel` is the model's own: a loop on too little fuel.
pub data Error : Type 0 where
  decode_error overflow out_of_range invalid_state runtime_error assertion out_of_fuel : Error

-- What fallible code returns, or the exception that it ends with.
pub data Result {ℓ} (A : Type ℓ) : Type ℓ where
  err : Error → Result A
  ok : A → Result A

infixl 4 ◌>>=◌ ◌>>◌
abbrev pub ◌>>=◌ {ℓ κ} : {V : Type ℓ} {W : Type κ} → Result V → (V → Result W) → Result W
r >>= next = elim r [ ok v ↦ next v | err thrown ↦ err thrown ]

abbrev pub ◌>>◌ {ℓ} : {W : Type ℓ} → Result (Unit {0}) → Result W → Result W
check >> rest = check >>= λ checked. rest

-- `LIBSHIT_VALIDATE_FIELD` and the other checks: go on, or throw.
abbrev pub guard : Bool → Error → Result (Unit {0})
guard holds thrown = elim holds [ false ↦ err thrown | true ↦ ok tt ]

-- What the first part of a sequence that succeeded returned.
pub bind-eq-ok {ℓ κ} :
    {V : Type ℓ} {W : Type κ} (r : Result V) (next : V → Result W) {w : W}
    → (r >>= next) ≡ ok w
    → (v : V) × (r ≡ ok v) × (next v ≡ ok w)
bind-eq-ok (err thrown) next done = cc
bind-eq-ok (ok v) next done = (v, refl, done)

pub Result-cases {ℓ} :
    {V : Type ℓ} (r : Result V) → ((v : V) × (r ≡ ok v)) ⊎ ((thrown : Error) × (r ≡ err thrown))
Result-cases (err thrown) = inr (thrown, refl)
Result-cases (ok v) = inl (v, refl)

pub ok-injective {ℓ} : {A : Type ℓ} {a b : A} → ok a ≡ ok b → a ≡ b
ok-injective h = cc

-- A check that was passed.
pub guard-true : (b : Bool) (thrown : Error) (o : Unit {0}) → guard b thrown ≡ ok o → b ≡ true
guard-true true thrown o e = refl
guard-true false thrown o e = cc

-- An exception is not a result.
pub err-ok {ℓ} : {V : Type ℓ} (thrown : Error) (v : V) → ◌≡◌ {A = Result V} (err thrown) (ok v) → ⊥
err-ok thrown v e = cc
