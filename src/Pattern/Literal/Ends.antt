-- ===== src/Pattern/Literal/Ends.antt =====
-- That `PatternParse` of src/pattern_parse.hpp ends: each step takes a character.
use neptools.Prelude.{
  ℕ, zero, suc, ◌≤◌, ◌≡◌, refl, sym, Bool, true, false, ◌&&◌, ◌||◌, not, Option, none, some, [],
  ◌∷◌, ◌++◌, length, drop, arith, length-drop, length-append, Option-cases, inl, inr,
}
use mathlib.Core.Path.{subst}
use neptools.Prelude.Bytes.{Bytes}
use neptools.Pattern.{Pattern}
use neptools.Pattern.Literal.{
  fits_two, fits_one, fits_masked, fits_space, append_two, append_one, append_masked, step,
  pattern_parse, do_pattern_parse,
}
use neptools.Pattern.Literal.Matches.{chosen, none-some}

chosen-takes :
    (two one masked space : Bool) (a b c d : Option Pattern) (q : Pattern)
    → (chosen two one masked space a b c d).0 ≡ some q
    → 1 ≤ (chosen two one masked space a b c d).1
chosen-takes true one masked space a b c d q e = omega arith
chosen-takes false true masked space a b c d q e = omega arith
chosen-takes false false true space a b c d q e = omega arith
chosen-takes false false false true a b c d q e = omega arith
chosen-takes false false false false a b c d q e = absurd (none-some q e)

-- A step takes a character.
step-takes : (p q : Pattern) (args : Bytes) → (step p args).0 ≡ some q → 1 ≤ (step p args).1
unfolding step
step-takes p q args e =
    let two = fits_two args in
    let one = fits_one args in
    let masked = fits_masked args in
    let space = fits_space args in
    chosen-takes (two && not (one || space)) (one && not (two || (masked || space)))
      (masked && not (one || space)) (space && not (two || (one || masked))) (append_two p args)
      (append_one p args) (append_masked p args) (some p) q e

-- What `PatternParse` makes of characters, with no bound on the steps that it takes: a run of so many.
pub data Parses : Pattern → Bytes → Option Pattern → ℕ → Type 0 where
  at_end : (p : Pattern) → Parses p [] (some p) 0
  no_fit :
      (p : Pattern) (a : ℕ) (args : Bytes)
      → (step p (a ∷ args)).0 ≡ none
      → Parses p (a ∷ args) none 1
  fit :
      (p q : Pattern) (a : ℕ) (args : Bytes) (r : Option Pattern) (n : ℕ)
      → (step p (a ∷ args)).0 ≡ some q
      → Parses q (drop (step p (a ∷ args)).1 (a ∷ args)) r n
      → Parses p (a ∷ args) r (suc n)

-- A run ends after as many steps as there are characters, or fewer.
abbrev Ends : Pattern → Bytes → Option Pattern → Type 0
Ends p args r = (n : ℕ) × Parses p args r n × (n ≤ length args)

pattern_parse-fit :
    (fuel : ℕ) (p q : Pattern) (a : ℕ) (args : Bytes)
    → (step p (a ∷ args)).0 ≡ some q
    → pattern_parse (suc fuel) p (a ∷ args)
      ≡ pattern_parse fuel q (drop (step p (a ∷ args)).1 (a ∷ args))
unfolding pattern_parse
pattern_parse-fit fuel p q a args e = rw (pattern_parse, e) refl

pattern_parse-no_fit :
    (fuel : ℕ) (p : Pattern) (a : ℕ) (args : Bytes)
    → (step p (a ∷ args)).0 ≡ none
    → pattern_parse (suc fuel) p (a ∷ args) ≡ none
unfolding pattern_parse
pattern_parse-no_fit fuel p a args e = rw (pattern_parse, e) refl

pattern_parse-Ends :
    (fuel : ℕ) (p : Pattern) (args : Bytes)
    → length args ≤ fuel
    → Ends p args (pattern_parse fuel p args)
unfolding pattern_parse
pattern_parse-Ends fuel p [] h = (0, at_end p, omega arith)
pattern_parse-Ends zero p (a ∷ args) h = absurd (omega arith)
pattern_parse-Ends (suc fuel) p (a ∷ args) h = elim (Option-cases (step p (a ∷ args)).0) [
  | inl e ↦
      subst (Ends p (a ∷ args)) (sym (pattern_parse-no_fit fuel p a args e))
        (1, no_fit p a args e, omega arith)
  | inr (q, e) ↦
      let rest = drop (step p (a ∷ args)).1 (a ∷ args) in
      let left = length-drop (step p (a ∷ args)).1 (a ∷ args) in
      let taken = step-takes p q (a ∷ args) e in
      let (n, run, within) = pattern_parse-Ends fuel q rest (omega arith) in
      subst (Ends p (a ∷ args)) (sym (pattern_parse-fit fuel p q a args e))
        (suc n, fit p q a args _ n e run, omega arith)
]

-- What `DoPatternParse` answers is the end of a run of `PatternParse` over the characters of the literal and
-- the space behind them, which takes at most as many steps as these are: one more than the literal has characters.
pub do_pattern_parse-Parses :
    (chars : Bytes)
    → (n : ℕ) × Parses
        (record { pattern = []; mask = [] })
        (chars ++ (b' ' ∷ []))
        (do_pattern_parse chars)
        n
      × (n ≤ suc (length chars))
unfolding do_pattern_parse
do_pattern_parse-Parses chars =
    let args = chars ++ (b' ' ∷ []) in
    let len = length-append chars (b' ' ∷ []) in
    let (n, run, within) =
      pattern_parse-Ends (suc (length chars)) (record { pattern = []; mask = [] }) args
        (omega arith) in
    (n, run, omega arith)
