-- ===== src/Stsc/Text/Tests.antt =====
-- The text form of src/format/stsc/file.cpp on a script of two strings.
use neptools.Prelude.{
  ℕ, ◌≡◌, ◌≢◌, ◌⊎◌, refl, sym, ap, ◌∙◌, true, false, ◌&&◌, List, [], ◌∷◌, ◌++◌, ◌==◌, length, arith,
  Bool-cases, inl, inr,
}
use mathlib.Core.Path.{subst}
use neptools.Prelude.Bytes.{Bytes}
use neptools.Prelude.Text.{codes}
use neptools.Prelude.Result.{ok, err, decode_error}
use neptools.Stsc.Text.{
  Child, cstring_item, other_item, escape, line_end, getlines, read_txt, write_txt,
}
use neptools.Stsc.Text.Shape.{shape, separators, string_count}
use neptools.Stsc.Text.Outcome.{read_txt-Outcome}
use neptools.Stsc.Text.Replaced.{Replaced, nothing_left, copied, replaced, segments}
use neptools.Stsc.Text.RoundTrip.{AreTexts, read_txt-write_txt}

-- A function that does what is assumed of `boost::replace_all_copy`.
unfoldable replace_escapes : Bytes → Bytes
replace_escapes [] = []
replace_escapes (c ∷ []) = c ∷ []
replace_escapes (c ∷ d ∷ xs) = elim (c == b'\\' && d == b'n') [
  | true ↦ line_end ++ replace_escapes xs
  | false ↦ c ∷ replace_escapes (d ∷ xs)
]

no_match :
    (c d : ℕ) (xs : Bytes)
    → (c == b'\\' && d == b'n') ≡ false
    → (rest : Bytes) → c ∷ d ∷ xs ≢ escape ++ rest
no_match c d xs n rest e =
    let first : c ≡ b'\\' = cc in let second : d ≡ b'n' = cc in absurd (ground arith)

replace_escapes-Replaced : (s : Bytes) → Replaced escape line_end s (replace_escapes s)
unfolding replace_escapes
replace_escapes-Replaced [] = nothing_left
replace_escapes-Replaced (c ∷ []) =
    copied c [] [] (λ rest e. absurd (omega (arith, ap length e))) nothing_left
replace_escapes-Replaced (c ∷ d ∷ xs) = elim (Bool-cases (c == b'\\' && d == b'n')) [
  | inl y ↦
      let first : c ≡ b'\\' = ground arith in
      let second : d ≡ b'n' = ground arith in
      let input : escape ++ xs ≡ c ∷ d ∷ xs =
        ap (λ e. e ∷ (b'n' ∷ xs)) (sym first) ∙ ap (λ e. c ∷ (e ∷ xs)) (sym second) in
      rw (replace_escapes, y)
        (subst (λ e. Replaced escape line_end e (line_end ++ replace_escapes xs)) input
          (replaced xs (replace_escapes xs) (replace_escapes-Replaced xs)))
  | inr n ↦
      rw (replace_escapes, n)
        (copied c (d ∷ xs) (replace_escapes (d ∷ xs)) (no_match c d xs n)
          (replace_escapes-Replaced (d ∷ xs)))
]

abbrev script : List (Child ℕ)
script = other_item 1 ∷ cstring_item (codes "a\\nb\\n") ∷ other_item 2 ∷ cstring_item [] ∷ []

abbrev translated : List (Child ℕ)
translated = other_item 1 ∷ cstring_item (codes "x") ∷ other_item 2 ∷ cstring_item (codes "y") ∷ []

script-AreTexts : AreTexts script
unfolding segments
script-AreTexts = ground arith

read_txt-write_txt_example :
    read_txt (write_txt (λ s search format. replace_escapes s) script) translated ≡ ok script
unfolding shape
read_txt-write_txt_example =
    read_txt-write_txt (λ s search format. replace_escapes s) replace_escapes-Replaced script
      translated script-AreTexts refl

read_txt-Outcome_example :
    ((result : List (Child ℕ)) × ((read_txt (codes "x\r\n") script ≡ ok result)
        × ((separators (getlines [] (codes "x\r\n")) ≡ string_count script)
            × (shape result ≡ shape script))))
    ⊎ ((read_txt (codes "x\r\n") script ≡ err decode_error)
        × (separators (getlines [] (codes "x\r\n")) ≢ string_count script))
read_txt-Outcome_example = read_txt-Outcome (codes "x\r\n") script
