-- ===== src/Stsc/Text/Outcome.antt =====
-- `File::ReadTxt_` of src/format/stsc/file.cpp: which texts it takes, and what it leaves alone.
use neptools.Prelude.{
  ℕ, ◌+◌, ◌-◌, ◌≡◌, ◌≢◌, ◌⊎◌, refl, sym, ap, ◌∙◌, true, false, List, [], ◌∷◌, ◌++◌, length, take,
  arith, none, append_assoc, append-nil, Bool-cases, inl, inr,
}
use mathlib.Core.Path.{subst}
use neptools.Prelude.Bytes.{Bytes}
use neptools.Prelude.Text.{str_eq}
use neptools.Prelude.Result.{Result, ok, err, decode_error}
use neptools.Stsc.Text.{
  Child, cstring_item, other_item, escape, sep_dash, getlines, strip_cr, skip_others, read_lines,
  read_txt,
}
use neptools.Stsc.Text.Shape.{
  separators, separators-line, separators-sep, IsMessage, ends_well, IsMessage-ends_well,
  string_count, shape, AtString, shape-append, skip_others-Skipped, string_count-append,
}

module _ {ℓ} {A : Type ℓ} where
  -- How `read_lines` ends.
  abbrev pub Outcome : ℕ → List (Child A) → Result (List (Child A)) → Type ℓ
  Outcome found children r =
      ((result : List (Child A)) × ((r ≡ ok result)
          × ((found ≡ string_count children) × (shape result ≡ shape children))))
      ⊎ ((r ≡ err decode_error) × (found ≢ string_count children))

  Outcome-moved :
      (found found' : ℕ) (xs ys : List (Child A)) (r r' : Result (List (Child A)))
      → found ≡ found'
      → string_count xs ≡ string_count ys
      → shape xs ≡ shape ys
      → r' ≡ r
      → Outcome found xs r
      → Outcome found' ys r'
  Outcome-moved found found' xs ys r r' f c e m (inl (result, (o, (same, like)))) =
      inl (result, (m ∙ o, (omega arith, like ∙ e)))
  Outcome-moved found found' xs ys r r' f c e m (inr (o, other)) =
      inr (m ∙ o, λ same. other (f ∙ same ∙ sym c))

  pub read_lines-line :
      (line : Bytes) (is : List Bytes) (msg : Bytes) (done it : List (Child A))
      → str_eq line sep_dash ≡ false
      → read_lines (line ∷ is) msg done it
        ≡ read_lines is (msg ++ (strip_cr line ++ escape)) done it
  unfolding read_lines
  read_lines-line line is msg done it n = rw (read_lines, n) refl

  read_lines-many :
      (line : Bytes) (is : List Bytes) (msg : Bytes) (done : List (Child A))
      → str_eq line sep_dash ≡ true
      → read_lines (line ∷ is) msg done [] ≡ err decode_error
  unfolding read_lines
  read_lines-many line is msg done y = rw (read_lines, y) refl

  pub read_lines-sep :
      (line : Bytes) (is : List Bytes) (msg : Bytes) (done cs : List (Child A)) (c : Child A)
      → str_eq line sep_dash ≡ true
      → ends_well msg ≡ true
      → read_lines (line ∷ is) msg done (c ∷ cs)
        ≡ read_lines is []
            (done ++ (cstring_item (take (length msg - 2) msg) ∷ (skip_others cs).0))
            (skip_others cs).1
  unfolding read_lines
  read_lines-sep line is msg done cs c y e = rw (read_lines, y, e) refl

  -- A line of dashes, with the loop behind it.
  at_separator :
      (line : Bytes) (is : List Bytes) (msg : Bytes) (done it : List (Child A))
      → IsMessage msg
      → AtString it
      → str_eq line sep_dash ≡ true
      → ((done' it' : List (Child A))
          → AtString it'
          → Outcome
              (string_count done' + separators is)
              (done' ++ it')
              (read_lines is [] done' it'))
      → Outcome
          (string_count done + separators (line ∷ is))
          (done ++ it)
          (read_lines (line ∷ is) msg done it)
  unfolding string_count shape
  at_separator line is msg done [] m a y rest =
      let e = separators-sep line is y in
      let n = string_count-append done [] in
      inr (read_lines-many line is msg done y, λ same. absurd (omega arith))
  at_separator line is msg done (other_item x ∷ cs) m a y rest = elim a [ ]
  at_separator line is msg done (cstring_item s ∷ cs) m a y rest =
      let w = skip_others-Skipped cs in
      let others = (skip_others cs).0 in
      let next = (skip_others cs).1 in
      let new : Child A = cstring_item (take (length msg - 2) msg) in
      let done' = done ++ (new ∷ others) in
      let e = separators-sep line is y in
      let n = string_count-append done (cstring_item s ∷ cs) in
      let n' = string_count-append done' next in
      let n'' = string_count-append done (new ∷ others) in
      let k : string_count cs ≡ string_count others + string_count next =
        ap string_count w.parts ∙ string_count-append others next in
      Outcome-moved (string_count done' + separators is)
        (string_count done + separators (line ∷ is)) (done' ++ next) (done ++ (cstring_item s ∷ cs))
        (read_lines is [] done' next) (read_lines (line ∷ is) msg done (cstring_item s ∷ cs))
        (omega (arith, w.count)) (omega (arith, w.count))
        (ap shape (append_assoc done (new ∷ others) next)
          ∙ shape-append done (new ∷ (others ++ next))
          ∙ ap (λ xs. shape done ++ (none ∷ shape xs)) (sym w.parts)
          ∙ sym (shape-append done (cstring_item s ∷ cs)))
        (read_lines-sep line is msg done cs (cstring_item s) y (IsMessage-ends_well msg m))
        (rest done' next w.at_string)

  read_lines-Outcome :
      (is : List Bytes) (msg : Bytes) (done it : List (Child A))
      → IsMessage msg
      → AtString it
      → Outcome (string_count done + separators is) (done ++ it) (read_lines is msg done it)
  unfolding read_lines separators string_count
  read_lines-Outcome [] msg done [] m a =
      inl (
        done,
        (refl, (omega (arith, string_count-append done []), ap shape (sym (append-nil done)))),
      )
  read_lines-Outcome [] msg done (other_item x ∷ it) m a = elim a [ ]
  read_lines-Outcome [] msg done (cstring_item s ∷ it) m a =
      let e = string_count-append done (cstring_item s ∷ it) in
      inr (refl, λ same. absurd (omega arith))
  read_lines-Outcome (line ∷ is) msg done it m a = elim (Bool-cases (str_eq line sep_dash)) [
    | inr n ↦
        let e = separators-line line is n in
        Outcome-moved (string_count done + separators is)
          (string_count done + separators (line ∷ is)) (done ++ it) (done ++ it)
          (read_lines is (msg ++ (strip_cr line ++ escape)) done it)
          (read_lines (line ∷ is) msg done it) (omega arith) refl refl
          (read_lines-line line is msg done it n)
          (read_lines-Outcome is (msg ++ (strip_cr line ++ escape)) done it
            (inr (msg ++ strip_cr line, sym (append_assoc msg (strip_cr line) escape))) a)
    | inl y ↦
        at_separator line is msg done it m a y
          (λ done' it'. read_lines-Outcome is [] done' it' (inl refl))
  ]

  others_only : (it : List (Child A)) → string_count (skip_others it).0 ≡ 0
  others_only it =
      let w = skip_others-Skipped it in
      let e : string_count it ≡ string_count (skip_others it).0 + string_count (skip_others it).1 =
        ap string_count w.parts ∙ string_count-append (skip_others it).0 (skip_others it).1 in
      omega (arith, w.count)

  -- `ReadTxt` takes a text if and only if it has as many lines of dashes as there are strings among the
  -- children, and then changes nothing but the characters of the strings; with any other number it throws a `DecodeError`.
  -- Its assertion, that a message ends in the escape of its last line, never fails.
  pub read_txt-Outcome :
      (is : Bytes) (children : List (Child A))
      → ((result : List (Child A)) × ((read_txt is children ≡ ok result)
            × ((separators (getlines [] is) ≡ string_count children)
                × (shape result ≡ shape children))))
        ⊎ ((read_txt is children ≡ err decode_error)
            × (separators (getlines [] is) ≢ string_count children))
  unfolding read_txt
  read_txt-Outcome is children =
      let w = skip_others-Skipped children in
      let o = others_only children in
      subst (λ xs. Outcome (separators (getlines [] is)) xs (read_txt is children)) (sym w.parts)
        (Outcome-moved (string_count (skip_others children).0 + separators (getlines [] is))
          (separators (getlines [] is)) ((skip_others children).0 ++ (skip_others children).1)
          ((skip_others children).0 ++ (skip_others children).1)
          (read_lines (getlines [] is) [] (skip_others children).0 (skip_others children).1)
          (read_txt is children) (omega arith) refl refl refl
          (read_lines-Outcome (getlines [] is) [] (skip_others children).0 (skip_others children).1
            (inl refl) w.at_string))
