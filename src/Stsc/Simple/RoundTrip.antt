-- ===== src/Stsc/Simple/RoundTrip.antt =====
-- `SimpleInstruction` of src/format/stsc/instruction.cpp: what `Parse_` read is dumped as it was read.
use neptools.Prelude.{
  ℕ, ◌+◌, ◌^◌, ◌<◌, ◌≡◌, refl, ap, arith, Option, none, some, List, [], ◌∷◌, Bool-cases, inl, inr,
  ◌==◌, length, length-map, ◌∙◌,
}
use mathlib.Core.Path.{subst}
use native.Mathlib.Nat.{mod-eq_of_lt}
use neptools.Prelude.Bytes.{Bytes}
use neptools.Prelude.Result.{Result, ok, ◌>>=◌, bind-eq-ok, ok-injective}
use neptools.Source.{Source, check_size, pread_cstring}
use neptools.Source.Struct.{read_gen, pack, struct_size, AreFields}
use neptools.Source.Consumed.{IsReadable, read_gen-Consumed, length-read_gen, check_size_le}
use neptools.Stsc.Reproduced.{IsReproduced}
use neptools.Context.{Context, get_label_to, get_label_to_named, get_pointer, sum_sizes}
use neptools.Context.Labels.{
  UniqueNames, Grows, Grows-refl, Grows-trans, Labelled, get_label_to-Labelled,
  get_label_to_named-Labelled, deref_pos-Grows,
}
use neptools.Stsc.Kind.{ArgType, uint8, uint16, uint32, float, pointer, str, code, arg_size}
use neptools.Stsc.Simple.{
  Arg, int, label, arg_sizes, validate_args, some_label, parse_pointer, parse_named, parse_at,
  parse_arg, parse_args, parse_simple, dump_arg, dump_args, dump_simple, get_source, label_name,
}

record ArgDecodes (c : Context) (ty : ArgType) (x : ℕ) (a : Arg) (c' : Context) : Type 0 where
  pub grows : Grows c c'
  pub dumps : (later : Context) → Grows c' later → dump_arg later ty a ≡ ok x

module _ (c : Context) (u : UniqueNames c.labels) where
  int-ArgDecodes :
      (ty : ArgType) (x : ℕ) (r : Arg × Context)
      → x < 256 ^ arg_size ty
      → ok (int x, c) ≡ ok r
      → ArgDecodes c ty x r.0 r.1
  unfolding dump_arg
  int-ArgDecodes ty x r b h =
      subst (λ r. ArgDecodes c ty x r.0 r.1) (ok-injective h)
        (record { grows = Grows-refl c u; dumps = λ later g. ap ok (mod-eq_of_lt b) })

  null-ArgDecodes :
      (ty : ArgType) (r : Arg × Context) → ok (label none, c) ≡ ok r → ArgDecodes c ty 0 r.0 r.1
  unfolding dump_arg
  null-ArgDecodes ty r h =
      subst (λ r. ArgDecodes c ty 0 r.0 r.1) (ok-injective h)
        (record { grows = Grows-refl c u; dumps = λ later g. refl })

  -- A label to the position that was read.
  label-ArgDecodes :
      (ty : ArgType) (x : ℕ) (found : Result (Bytes × Context)) (r : Arg × Context)
      → x < 2 ^ 32
      → ((l : Bytes) (c' : Context) → found ≡ ok (l, c') → Labelled c (some x) l c')
      → (found >>= some_label) ≡ ok r
      → ArgDecodes c ty x r.0 r.1
  unfolding dump_arg some_label
  label-ArgDecodes ty x found r b points h =
      let ((l, c'), e, rest) = bind-eq-ok found _ h in
      let d = points l c' e in
      subst (λ r. ArgDecodes c ty x r.0 r.1) (ok-injective rest)
        (record {
          grows = d.grows;
          dumps = λ later g. ground (arith, deref_pos-Grows l x d.points g);
        })

  parse_pointer-ArgDecodes :
      (ty : ArgType) (x : ℕ) (r : Arg × Context)
      → x < 2 ^ 32
      → parse_pointer x c ≡ ok r
      → ArgDecodes c ty x r.0 r.1
  unfolding parse_pointer
  parse_pointer-ArgDecodes ty x r b h = elim (Bool-cases (x == 0)) [
    | inl z ↦
        let zero_x : 0 ≡ x = ground arith in rw (← zero_x) (null-ArgDecodes ty r (ground arith))
    | inr n ↦
        label-ArgDecodes ty x (get_label_to x c) r b
          (λ l c' e. get_label_to-Labelled x c l c' (omega arith) u e) (ground arith)
  ]

  parse_at-ArgDecodes :
      (raw : Option Source) (offset x : ℕ) (r : Arg × Context)
      → x < 2 ^ 32
      → parse_at raw offset x c ≡ ok r
      → ArgDecodes c str x r.0 r.1
  unfolding parse_at
  parse_at-ArgDecodes none offset x r b h =
      label-ArgDecodes str x (get_label_to x c) r b
        (λ l c' e. get_label_to-Labelled x c l c' (omega arith) u e) h
  parse_at-ArgDecodes (some src) offset x r b h =
      let (window, e₁, h₁) = bind-eq-ok (get_source src offset) _ h in
      let (string, e₂, h₂) = bind-eq-ok (pread_cstring 0 window) _ h₁ in
      let name = label_name string in
      label-ArgDecodes str x (get_label_to_named x name c) r b
        (λ l c' e. get_label_to_named-Labelled x name c l c' (omega arith) u e) h₂

  module _ (raws : ℕ → Option Source) where
    parse_named-ArgDecodes :
        (x : ℕ) (r : Arg × Context)
        → x < 2 ^ 32
        → parse_named raws x c ≡ ok r
        → ArgDecodes c str x r.0 r.1
    unfolding parse_named
    parse_named-ArgDecodes x r b h =
        let (ptr, found, rest) = bind-eq-ok (get_pointer x c) _ h in
        parse_at-ArgDecodes (raws ptr.item) ptr.offset x r b rest

    parse_str-ArgDecodes :
        (x : ℕ) (r : Arg × Context)
        → x < 2 ^ 32
        → parse_arg raws str x c ≡ ok r
        → ArgDecodes c str x r.0 r.1
    unfolding parse_arg
    parse_str-ArgDecodes x r b h = elim (Bool-cases (x == 0)) [
      | inl z ↦
          let zero_x : 0 ≡ x = ground arith in rw (← zero_x) (null-ArgDecodes str r (ground arith))
      | inr n ↦ parse_named-ArgDecodes x r b (ground arith)
    ]

    parse_arg-ArgDecodes :
        (ty : ArgType) (x : ℕ) (r : Arg × Context)
        → x < 256 ^ arg_size ty
        → parse_arg raws ty x c ≡ ok r
        → ArgDecodes c ty x r.0 r.1
    unfolding parse_arg
    parse_arg-ArgDecodes uint8 x r b h = int-ArgDecodes uint8 x r b h
    parse_arg-ArgDecodes uint16 x r b h = int-ArgDecodes uint16 x r b h
    parse_arg-ArgDecodes uint32 x r b h = int-ArgDecodes uint32 x r b h
    parse_arg-ArgDecodes float x r b h = int-ArgDecodes float x r b h
    parse_arg-ArgDecodes pointer x r b h = parse_pointer-ArgDecodes pointer x r b h
    parse_arg-ArgDecodes str x r b h = parse_str-ArgDecodes x r b h
    parse_arg-ArgDecodes code x r b h = parse_pointer-ArgDecodes code x r b h

-- What became of the arguments of a tuple.
record ArgsDecode (c : Context) (types : List ArgType) (xs : List ℕ) (r : List Arg × Context)
    : Type 0 where
  pub grows : Grows c r.1
  pub dumps : (later : Context) → Grows r.1 later → dump_args later types r.0 ≡ ok xs

parse_args-ArgsDecode :
    (raws : ℕ → Option Source) (types : List ArgType) (xs : List ℕ) (c : Context)
    (r : List Arg × Context)
    → UniqueNames c.labels
    → length xs ≡ length types
    → AreFields (arg_sizes types) xs
    → parse_args raws types xs c ≡ ok r
    → ArgsDecode c types xs r
unfolding parse_args dump_args
parse_args-ArgsDecode raws [] [] c r u len f h =
    subst (ArgsDecode c [] []) (ok-injective h)
      (record { grows = Grows-refl c u; dumps = λ later g. refl })
parse_args-ArgsDecode raws [] (x ∷ xs) c r u len f h = absurd (omega arith)
parse_args-ArgsDecode raws (ty ∷ types) [] c r u len f h = cc
parse_args-ArgsDecode raws (ty ∷ types) (x ∷ xs) c r u len f h =
    let ((a, c₁), e₁, h₁) = bind-eq-ok (parse_arg raws ty x c) _ h in
    let ((others, c₂), e₂, h₂) = bind-eq-ok (parse_args raws types xs c₁) _ h₁ in
    let d = parse_arg-ArgDecodes c u raws ty x (a, c₁) f.0 e₁ in
    let ds =
      parse_args-ArgsDecode raws types xs c₁ (others, c₂) d.grows.unique (omega arith) f.1 e₂ in
    subst (ArgsDecode c (ty ∷ types) (x ∷ xs)) (ok-injective h₂) (record {
      grows = Grows-trans d.grows ds.grows;
      dumps = λ later g. rw (d.dumps later (Grows-trans ds.grows g), ds.dumps later g) refl;
    })

-- If `SimpleInstruction::Parse_` accepts the arguments behind an opcode, then `Dump_` writes the same
-- bytes behind the opcode, in the context that it leaves and in every one that this may grow to.
pub parse_simple-IsReproduced :
    (raws : ℕ → Option Source) (types : List ArgType) (c : Context) (s : Source) (args : List Arg)
    (c' : Context) (s' : Source)
    → IsReadable s
    → UniqueNames c.labels
    → parse_simple raws types c s ≡ ok (args, (c', s'))
    → IsReproduced (λ later. dump_simple later types args) c s c' s'
unfolding parse_simple dump_simple
parse_simple-IsReproduced raws types c s args c' s' r u h =
    let sizes = arg_sizes types in
    let (o, e₀, h₀) = bind-eq-ok (check_size (struct_size sizes + 1) s) _ h in
    let ((xs, s₁), e₁, h₁) = bind-eq-ok (read_gen sizes s) _ h₀ in
    let (o', e₂, h₂) = bind-eq-ok (validate_args types xs (sum_sizes c.children)) _ h₁ in
    let ((args', c₁), e₃, h₃) = bind-eq-ok (parse_args raws types xs c) _ h₂ in
    let bound : struct_size sizes < 2 ^ 63 =
      omega (arith, check_size_le (struct_size sizes + 1) s o e₀, r.small) in
    let (taken, fields) = read_gen-Consumed sizes s s₁ xs r bound e₁ in
    let len = length-read_gen sizes s s₁ xs e₁ ∙ length-map types arg_size in
    let d = parse_args-ArgsDecode raws types xs c (args', c₁) u len fields e₃ in
    subst (λ x. IsReproduced (λ later. dump_simple later types x.0) c s x.1.0 x.1.1)
      (ok-injective h₃)
      (record {
        bytes = pack sizes xs;
        consumed = taken;
        grows = d.grows;
        dumps = λ later g. rw (d.dumps later g) refl;
      })
