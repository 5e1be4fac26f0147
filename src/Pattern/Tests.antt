-- ===== src/Pattern/Tests.antt =====
-- src/pattern.cpp with a search that tries each offset, on small data.
use neptools.Prelude.{
  ℕ, zero, suc, ◌+◌, ◌-◌, ◌≤◌, ◌<◌, ◌≡◌, ◌≢◌, refl, sym, ap, ◌∙◌, Bool, true, ◌&&◌, none, some, [],
  ◌∷◌, ◌==◌, ltb, length, take, drop, arith, Bool-cases, inl, inr, if◌then◌else◌,
}
use neptools.Prelude.Bytes.{Bytes, are_bytes-IsBytes}
use neptools.Prelude.Text.{codes, str_eq, str_eq_iff}
use neptools.Prelude.{◌++◌}
use neptools.Pattern.Literal.{do_pattern_parse}
use neptools.Pattern.Literal.Ends.{Parses, do_pattern_parse-Parses}
use neptools.Pattern.Literal.Matches.{IsPattern, do_pattern_parse-IsPattern}
use neptools.Prelude.Result.{ok, err, runtime_error}
use neptools.Pattern.{Pattern, BoyerMoore, maybe_find, find}
use neptools.Pattern.Runs.{has_whole}
use neptools.Pattern.Search.{FindsFirst, matches, only}
use neptools.Pattern.Found.{maybe_find-matches}
use neptools.Pattern.Unique.{MatchesOnlyAt, find-MatchesOnlyAt}

stands_at : Bytes → Bytes → ℕ → ℕ → Bool
unfolding str_eq
stands_at needle bytes to k =
    ltb (k + length needle) (suc to) && str_eq (take (length needle) (drop k bytes)) needle

search_from : Bytes → Bytes → ℕ → ℕ → ℕ → ℕ
unfolding stands_at
search_from needle bytes to zero k = k
search_from needle bytes to (suc n) k =
    let rest = search_from needle bytes to n (k + 1) in
    if stands_at needle bytes to k then k else rest

abbrev each_offset : BoyerMoore
unfolding search_from
each_offset needle bytes from to = search_from needle bytes to (to - from) from

record IsFirst (needle bytes : Bytes) (to k r : ℕ) : Type 0 where
  reached : k ≤ r × r ≤ to
  found : r < to → (take (length needle) (drop r bytes) ≡ needle) × r + length needle ≤ to
  first :
      (j : ℕ)
      → k ≤ j
      → j < r
      → j + length needle ≤ to
      → take (length needle) (drop j bytes) ≢ needle

search_from-IsFirst :
    (needle bytes : Bytes) (to n k : ℕ)
    → k + n ≡ to
    → IsFirst needle bytes to k (search_from needle bytes to n k)
unfolding search_from stands_at
search_from-IsFirst needle bytes to zero k e = record {
  reached = (omega arith, omega arith);
  found = λ l. absurd (omega arith);
  first = λ j ge lt f. absurd (omega arith);
}
search_from-IsFirst needle bytes to (suc n) k e = elim (Bool-cases (stands_at needle bytes to k)) [
  | inl y ↦
      let same : str_eq (take (length needle) (drop k bytes)) needle ≡ true = ground (arith, y) in
      let fits : k + length needle ≤ to = ground (arith, y) in
      rw (search_from, y)
        (record {
          reached = (omega arith, omega arith);
          found = λ l. ((str_eq_iff _ _).0 same, fits);
          first = λ j ge lt f. absurd (omega arith);
        })
  | inr miss ↦
      let ih = search_from-IsFirst needle bytes to n (k + 1) (omega arith) in
      rw (search_from, miss)
        (record {
          reached = (omega (arith, ih.reached.0), ih.reached.1);
          found = ih.found;
          first = λ j ge lt f same. elim (Bool-cases (k == j)) [
            | inl here ↦
                let e : j ≡ k = ground arith in
                let same' : str_eq (take (length needle) (drop k bytes)) needle ≡ true =
                  (str_eq_iff _ _).1
                    (sym (ap (λ at_j. take (length needle) (drop at_j bytes)) e) ∙ same) in
                let fits : ltb (k + length needle) (suc to) ≡ true = ground arith in
                cc (miss, fits, same')
            | inr later ↦ let ne : k ≢ j = ground arith in ih.first j (omega arith) lt f same
          ];
        })
]

each_offset-FindsFirst : FindsFirst each_offset
unfolding each_offset search_from
each_offset-FindsFirst = record {
  reached = λ needle bytes from to le inside.
      (search_from-IsFirst needle bytes to (to - from) from (omega arith)).reached;
  found = λ needle bytes from to le inside.
      (search_from-IsFirst needle bytes to (to - from) from (omega arith)).found;
  first = λ needle bytes from to k le inside.
      (search_from-IsFirst needle bytes to (to - from) from (omega arith)).first k;
}

-- Two bytes, one of any value between them, and one of which the high half counts.
abbrev pattern : Pattern
pattern = record { pattern = 0x12 ∷ 0x34 ∷ 0 ∷ 0x50 ∷ []; mask = 0xff ∷ 0xff ∷ 0 ∷ 0xf0 ∷ [] }

abbrev once : Bytes
once = 0x12 ∷ 0x34 ∷ 0x12 ∷ 0x34 ∷ 0x77 ∷ 0x5a ∷ 0x12 ∷ 0x34 ∷ []

abbrev twice : Bytes
twice = 0x12 ∷ 0x34 ∷ 0 ∷ 0x51 ∷ 0x12 ∷ 0x34 ∷ 1 ∷ 0x52 ∷ []

found_once : maybe_find each_offset pattern once ≡ ok (some 2)
unfolding maybe_find each_offset
found_once = refl

found_twice : maybe_find each_offset pattern twice ≡ ok none
unfolding maybe_find each_offset
found_twice = refl

not_found : find each_offset pattern (1 ∷ 2 ∷ 3 ∷ 4 ∷ 5 ∷ []) ≡ err runtime_error
unfolding find each_offset
not_found = refl

-- A mask without a whole byte: the last offset is not looked at.
last_missed :
    maybe_find each_offset (record { pattern = 0x50 ∷ []; mask = 0xf0 ∷ [] }) (0 ∷ 0x5a ∷ [])
    ≡ ok none
unfolding maybe_find each_offset
last_missed = refl

maybe_find-matches_example :
    maybe_find each_offset pattern once ≡ ok (only (matches pattern once 5 0))
unfolding has_whole
maybe_find-matches_example =
    maybe_find-matches each_offset pattern once each_offset-FindsFirst (are_bytes-IsBytes once refl)
      refl (omega arith) refl

find-MatchesOnlyAt_example : MatchesOnlyAt pattern once 2
unfolding has_whole find each_offset
find-MatchesOnlyAt_example =
    find-MatchesOnlyAt each_offset pattern once 2 each_offset-FindsFirst
      (are_bytes-IsBytes once refl) refl (omega arith) refl refl

-- The pattern of the tests, as it is written in a program.
abbrev literal : Bytes
literal = codes "12 34 ? 50/f0"

literal_parsed : do_pattern_parse literal ≡ some pattern
unfolding do_pattern_parse
literal_parsed = refl

-- A single digit before two spaces fits two specializations.
ambiguous : do_pattern_parse (codes "1  2") ≡ none
unfolding do_pattern_parse
ambiguous = refl

do_pattern_parse-IsPattern_example : IsPattern pattern
do_pattern_parse-IsPattern_example = do_pattern_parse-IsPattern literal pattern literal_parsed

do_pattern_parse-Parses_example :
    (n : ℕ) × Parses
      (record { pattern = []; mask = [] })
      (literal ++ (b' ' ∷ []))
      (do_pattern_parse literal)
      n
    × (n ≤ suc (length literal))
do_pattern_parse-Parses_example = do_pattern_parse-Parses literal
