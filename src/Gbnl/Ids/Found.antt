-- ===== src/Gbnl/Ids/Found.antt =====
-- What `FindDst` of src/format/gbnl.cpp finds: the ids that `WriteTxt_` writes.
use neptools.Prelude.{
  ℕ, zero, suc, ◌+◌, ◌-◌, ◌%◌, ◌^◌, ◌≤◌, ◌<◌, ◌≡◌, ◌⊎◌, inl, inr, refl, sym, ap, ◌∙◌, false, Option,
  none, some, Option-cases, List, [], ◌∷◌, leb, ◌==◌, length, get_elem?, arith, Bool-cases,
  if◌then◌else◌,
}
use native.Mathlib.Nat.{mod-add-mod, add-mod_right, mod-eq_of_lt, mod-lt}
use mathlib.Core.Path.{subst}
use neptools.Gbnl.{Gbnl, Message, Value}
use neptools.Gbnl.Ids.{no_position, get_id, find_value, find_message, find_dst}

-- The message at `j` of a table of `size`, when the search starts at `index`.
rotated : (index size j : ℕ) → j < size → (t : ℕ) × ((t < size) × ((index + t) % size ≡ j))
rotated index size j h =
    let below : index % size < size = mod-lt index (omega arith) in
    around (index % size) below (λ t. sym (mod-add-mod index size t))
  where
    around :
        (a : ℕ)
        → a < size
        → ((t : ℕ) → (index + t) % size ≡ (a + t) % size)
        → (t : ℕ) × ((t < size) × ((index + t) % size ≡ j))
    around a below same = elim (Bool-cases (leb a j)) [
      | inl y ↦
          let le : a ≤ j = ground arith in
          let e : a + (j - a) ≡ j = omega arith in
          (j - a, (omega arith, same (j - a) ∙ ap (λ k. k % size) e ∙ mod-eq_of_lt h))
      | inr n ↦
          let lt : j < a = ground arith in
          let e : a + (j + size - a) ≡ j + size = omega arith in
          (
            j + size - a,
            (
              omega arith,
              same (j + size - a) ∙ ap (λ k. k % size) e ∙ add-mod_right j size ∙ mod-eq_of_lt h,
            ),
          )
    ]

none-some {ℓ} : {A : Type ℓ} (x : A) → ◌≡◌ {A = Option A} none (some x) → ⊥
none-some x e = cc

some-injective {ℓ} : {A : Type ℓ} (x y : A) → some x ≡ some y → x ≡ y
some-injective x y e = cc

get_elem?-lt {ℓ} :
    {A : Type ℓ} (xs : List A) (i : ℕ) {x : A} → get_elem? xs i ≡ some x → i < length xs
get_elem?-lt [] i {x} h = absurd (none-some x h)
get_elem?-lt (x ∷ xs) zero h = omega arith
get_elem?-lt (x ∷ xs) (suc i) h = omega (arith, get_elem?-lt xs i h)

module _ (g : Gbnl) (id : ℕ) where
  -- `GetId` numbers the value at `p` with `id`, among the values `vs` of `m` that start at `i`.
  abbrev pub Numbers : Message → ℕ → List Value → ℕ → ℕ → ℕ → Type 0
  Numbers m j [] i k p = ⊥
  Numbers m j (v ∷ vs) i k p =
      (((get_id g false m v i j k).0 ≡ some id) × (p ≡ i))
      ⊎ Numbers m j vs (suc i) (get_id g false m v i j k).1 p

  -- The message at `j` has at `p` a string that `WriteTxt_` writes under `id`.
  abbrev pub HasId : ℕ → ℕ → Type 0
  HasId j p = (m : Message) × ((get_elem? g.messages j ≡ some m) × Numbers m j m 0 0 p)

  abbrev ValueFound : Message → ℕ → List Value → ℕ → ℕ → Option ℕ → Type 0
  ValueFound m j vs i k r =
      ((p : ℕ) × ((r ≡ some p) × Numbers m j vs i k p))
      ⊎ ((r ≡ none) × ((p : ℕ) → Numbers m j vs i k p → ⊥))

  find_value-next :
      (m : Message) (j : ℕ) (v : Value) (vs : List Value) (i k : ℕ)
      → (get_id g false m v i j k).0 ≡ none
      → find_value g id m j (v ∷ vs) i k
        ≡ find_value g id m j vs (suc i) (get_id g false m v i j k).1
  unfolding find_value
  find_value-next m j v vs i k e = rw (find_value, e) refl

  find_value-some :
      (m : Message) (j : ℕ) (v : Value) (vs : List Value) (i k tid : ℕ)
      → (get_id g false m v i j k).0 ≡ some tid
      → find_value g id m j (v ∷ vs) i k ≡ (
          if tid == id then some i else find_value g id m j vs (suc i) (get_id g false m v i j k).1)
  unfolding find_value
  find_value-some m j v vs i k tid e = rw (find_value, e) refl

  -- The value at `i` is not it.
  passed :
      (m : Message) (j : ℕ) (v : Value) (vs : List Value) (i k : ℕ)
      → ((get_id g false m v i j k).0 ≡ some id → ⊥)
      → find_value g id m j (v ∷ vs) i k
        ≡ find_value g id m j vs (suc i) (get_id g false m v i j k).1
      → ValueFound m j vs
          (suc i)
          (get_id g false m v i j k).1
          (find_value g id m j vs (suc i) (get_id g false m v i j k).1)
      → ValueFound m j (v ∷ vs) i k (find_value g id m j (v ∷ vs) i k)
  passed m j v vs i k other step (inl (p, (e, h))) = inl (p, (step ∙ e, inr h))
  passed m j v vs i k other step (inr (e, h)) =
      inr (step ∙ e, λ p x. elim x [ inl (same, q) ↦ other same | inr y ↦ h p y ])

  find_value-ValueFound :
      (m : Message) (j : ℕ) (vs : List Value) (i k : ℕ)
      → ValueFound m j vs i k (find_value g id m j vs i k)
  unfolding find_value
  find_value-ValueFound m j [] i k = inr (refl, λ p h. h)
  find_value-ValueFound m j (v ∷ vs) i k =
      let rest = find_value-ValueFound m j vs (suc i) (get_id g false m v i j k).1 in
      elim (Option-cases (get_id g false m v i j k).0) [
        | inl e ↦
            passed m j v vs i k (λ same. none-some id (sym e ∙ same))
              (find_value-next m j v vs i k e) rest
        | inr (tid, e) ↦ elim (Bool-cases (tid == id)) [
          | inl y ↦
              let found : tid ≡ id = ground arith in
              inl (
                i,
                (
                  find_value-some m j v vs i k tid e ∙ ground arith,
                  inl (e ∙ ap (λ n. some n) found, refl),
                ),
              )
          | inr n ↦
              passed m j v vs i k
                (λ same.
                  let eq : tid ≡ id = some-injective tid id (sym e ∙ same) in absurd (ground arith))
                (find_value-some m j v vs i k tid e ∙ ground arith) rest
        ]
      ]

  abbrev MessageFound : ℕ → ℕ → ℕ → ℕ × ℕ → Type 0
  MessageFound index n j r =
      ((p : ℕ) × ((j' : ℕ) × ((r ≡ (p, j')) × HasId j' p)))
      ⊎ ((r ≡ (no_position, index))
          × ((t p : ℕ) → t < n → HasId ((index + (j + t)) % length g.messages) p → ⊥))

  -- The place of a message in the search, which does not wrap.
  at_message :
      (index j : ℕ)
      → index + j < 2 ^ 64
      → (index + j) % length g.messages ≡ (index + j) % 2 ^ 64 % length g.messages
  at_message index j b =
      let wraps : index + j ≡ (index + j) % 2 ^ 64 = omega arith in
      ap (λ k. k % length g.messages) wraps

  next_at :
      (index n j : ℕ)
      → ((m : Message)
          → get_elem? g.messages ((index + j) % 2 ^ 64 % length g.messages) ≡ some m
          → find_value g id m ((index + j) % 2 ^ 64 % length g.messages) m 0 0 ≡ none)
      → find_message g id index (suc n) j ≡ find_message g id index n (suc j)
  unfolding find_message
  next_at index n j none_here =
      elim (Option-cases (get_elem? g.messages ((index + j) % 2 ^ 64 % length g.messages))) [
        | inl e ↦ rw (find_message, e) refl
        | inr (m, e) ↦ let e' = none_here m e in rw (find_message, e, e') refl
      ]

  find_message-next :
      (index n j : ℕ)
      → index + j < 2 ^ 64
      → ((m : Message)
          → get_elem? g.messages ((index + j) % length g.messages) ≡ some m
          → find_value g id m ((index + j) % length g.messages) m 0 0 ≡ none)
      → find_message g id index (suc n) j ≡ find_message g id index n (suc j)
  find_message-next index n j b none_here = next_at index n j (
      subst
        (λ k. (m : Message) → get_elem? g.messages k ≡ some m → find_value g id m k m 0 0 ≡ none)
        (at_message index j b) none_here)

  here_at :
      (index n j p : ℕ) (m : Message)
      → get_elem? g.messages ((index + j) % 2 ^ 64 % length g.messages) ≡ some m
      → find_value g id m ((index + j) % 2 ^ 64 % length g.messages) m 0 0 ≡ some p
      → find_message g id index (suc n) j ≡ (p, (index + j) % 2 ^ 64 % length g.messages)
  unfolding find_message
  here_at index n j p m e e' = rw (find_message, e, e') refl

  find_message-here :
      (index n j p : ℕ) (m : Message)
      → index + j < 2 ^ 64
      → get_elem? g.messages ((index + j) % length g.messages) ≡ some m
      → find_value g id m ((index + j) % length g.messages) m 0 0 ≡ some p
      → find_message g id index (suc n) j ≡ (p, (index + j) % length g.messages)
  find_message-here index n j p m b e e' =
      let same = at_message index j b in
      here_at index n j p m (subst (λ k. get_elem? g.messages k ≡ some m) same e)
        (subst (λ k. find_value g id m k m 0 0 ≡ some p) same e')
      ∙ ap (λ k. (p, k)) (sym same)

  -- The message at the start of the search is not it.
  passed_message :
      (index n j : ℕ) {r r' : ℕ × ℕ}
      → ((p : ℕ) → HasId ((index + j) % length g.messages) p → ⊥)
      → r' ≡ r
      → MessageFound index n (suc j) r
      → MessageFound index (suc n) j r'
  passed_message index n j other step (inl (p, (j', (e, h)))) = inl (p, (j', (step ∙ e, h)))
  passed_message index n j {r} {r'} other step (inr (e, h)) = inr (step ∙ e, later)
    where
      later : (t p : ℕ) → t < suc n → HasId ((index + (j + t)) % length g.messages) p → ⊥
      later zero p lt x =
          let same : j + 0 ≡ j = omega arith in
          other p (subst (λ k. HasId ((index + k) % length g.messages) p) same x)
      later (suc t) p lt x =
          let same : j + suc t ≡ suc j + t = omega arith in
          h t p (omega arith) (subst (λ k. HasId ((index + k) % length g.messages) p) same x)

  find_message-MessageFound :
      (index n j : ℕ)
      → index + (j + n) ≤ 2 ^ 64
      → MessageFound index n j (find_message g id index n j)
  unfolding find_message
  find_message-MessageFound index zero j b = inr (refl, λ t p lt x. absurd (omega arith))
  find_message-MessageFound index (suc n) j b =
      let at_j = (index + j) % length g.messages in
      let rest = find_message-MessageFound index n (suc j) (omega arith) in
      let near : index + j < 2 ^ 64 = omega arith in
      elim (Option-cases (get_elem? g.messages at_j)) [
        | inl e ↦
            passed_message index n j (λ p x. none-some x.0 (sym e ∙ x.1.0))
              (find_message-next index n j near (λ m e'. absurd (none-some m (sym e ∙ e')))) rest
        | inr (m, e) ↦
            let same : (m' : Message) → get_elem? g.messages at_j ≡ some m' → m ≡ m' =
              λ m' e'. some-injective m m' (sym e ∙ e') in
            elim (find_value-ValueFound m at_j m 0 0) [
              | inl (p, (e', h)) ↦
                  inl (p, (at_j, (find_message-here index n j p m near e e', (m, (e, h)))))
              | inr (e', h) ↦
                  passed_message index n j
                    (λ p x.
                      h p (subst (λ m'. Numbers m' at_j m' 0 0 p) (sym (same x.0 x.1.0)) x.1.1))
                    (find_message-next index n j near
                      (λ m' e''. subst (λ v. find_value g id v at_j v 0 0 ≡ none) (same m' e'') e'))
                    rest
            ]
      ]

  -- `FindDst` of an id that is not a simple one, from any index whose sum with the number of messages
  -- does not wrap: it ends at a string that `WriteTxt_` writes under this id, or answers that it is
  -- not found, and then no string of the table has the id.
  pub find_dst-HasId :
      (index : ℕ)
      → index + length g.messages ≤ 2 ^ 64
      → ((p : ℕ) × ((j : ℕ) × ((find_dst g false id index ≡ (p, j)) × HasId j p)))
        ⊎ ((find_dst g false id index ≡ (no_position, index)) × ((j p : ℕ) → HasId j p → ⊥))
  unfolding find_dst
  find_dst-HasId index b =
      elim (find_message-MessageFound index (length g.messages) 0 (omega arith)) [
        | inl found ↦ inl found
        | inr (e, h) ↦ inr (
          e,
          λ j p x.
              let (t, (lt, same)) =
                rotated index (length g.messages) j (get_elem?-lt g.messages j x.1.0) in
              let zero_t : 0 + t ≡ t = omega arith in
              h t p lt (
                subst (λ k. HasId k p)
                  (sym (ap (λ k. (index + k) % length g.messages) zero_t ∙ same)) x),
        )
      ]
