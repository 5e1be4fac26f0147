-- ===== src/Pattern/Found.antt =====
-- What the loop of `Pattern::MaybeFind` of src/pattern.cpp returns: the place where the pattern matches, when there is one.
use neptools.Prelude.{
  ℕ, zero, suc, ◌+◌, ◌-◌, ◌≤◌, ◌<◌, ◌≡◌, refl, sym, ap, ◌∙◌, true, false, Option, none, some, List,
  [], ◌∷◌, ◌==◌, length, take, drop, arith, Bool-cases, inl, inr, length-take, length-drop,
}
use mathlib.Core.Path.{subst}
use neptools.Prelude.Bytes.{Bytes, IsBytes}
use neptools.Prelude.Slices.{drop-drop}
use neptools.Prelude.Result.{ok}
use neptools.Source.Struct.{IsBytes-drop}
use neptools.Pattern.{Pattern, BoyerMoore, check_pattern, longest_run, find_loop, maybe_find}
use neptools.Pattern.Runs.{
  IsRun, longest_run-IsRun, longest_run-positive, has_whole, check_pattern-drop, check_pattern-take,
}
use neptools.Pattern.Search.{
  FindsFirst, matches_at, matches, only, or_only, matches-hit, matches-miss, matches-skip,
  matches-none, find_loop-end, find_loop-miss, find_loop-hit, find_loop-again,
}

or_only-nil : (res : Option ℕ) → or_only res [] ≡ res
unfolding or_only only
or_only-nil none = refl
or_only-nil (some k) = refl

or_only-none : (ks : List ℕ) → or_only none ks ≡ only ks
unfolding or_only
or_only-none ks = refl

-- The first match decides what the loop goes on with.
or_only-again : (before k : ℕ) (ks : List ℕ) → or_only (some before) (k ∷ ks) ≡ none
unfolding or_only
or_only-again before k ks = refl

or_only-hit : (k : ℕ) (ks : List ℕ) → or_only none (k ∷ ks) ≡ or_only (some k) ks
unfolding or_only only
or_only-hit k [] = refl
or_only-hit k (k' ∷ ks) = refl

-- A place where the pattern matches has the needle at the run.
matches_at-needle :
    (p : Pattern) (bytes : Bytes) (len at_i k : ℕ)
    → IsBytes bytes
    → IsRun p.mask len at_i
    → length p.mask ≡ length p.pattern
    → matches_at p bytes k ≡ true
    → take len (drop (k + at_i) bytes) ≡ take len (drop at_i p.pattern)
unfolding matches_at
matches_at-needle p bytes len at_i k b run same h =
    let there = IsBytes-drop (k + at_i) bytes b in
    let at_run = check_pattern-drop at_i (drop k bytes) p.pattern p.mask h in
    let moved =
      subst (λ bs. check_pattern bs (drop at_i p.pattern) (drop at_i p.mask) ≡ true)
        (drop-drop at_i k bytes) at_run in
    check_pattern-take len (drop (k + at_i) bytes) (drop at_i p.pattern) (drop at_i p.mask) there
      (omega (arith, length-drop at_i p.pattern, run.inside, same)) run.whole moved

module _ (bm : BoyerMoore) (finds : FindsFirst bm) (p : Pattern) (bytes : Bytes) (len at_i to : ℕ)
    (b : IsBytes bytes) (run : IsRun p.mask len at_i) (same : length p.mask ≡ length p.pattern)
    (positive : 0 < len) (fits : length p.pattern ≤ length bytes)
    (end : to ≡ length bytes - (length p.pattern - len - at_i)) where
  needle_length : length (take len (drop at_i p.pattern)) ≡ len
  needle_length =
      omega (arith, length-take len (drop at_i p.pattern), length-drop at_i p.pattern, run.inside)

  -- `boyer_moore` passes over no match.
  passed_over :
      (from k : ℕ)
      → from ≤ to
      → from ≤ k + at_i
      → k + at_i < bm (take len (drop at_i p.pattern)) bytes from to
      → k + length p.pattern ≤ length bytes
      → matches_at p bytes k ≡ false
  passed_over from k le ge lt inside = elim (Bool-cases (matches_at p bytes k)) [
    | inr n ↦ n
    | inl y ↦
        let same_bytes = matches_at-needle p bytes len at_i k b run same y in
        let e : take (length (take len (drop at_i p.pattern))) (drop (k + at_i) bytes)
            ≡ take len (drop at_i p.pattern) =
          rw needle_length same_bytes in
        absurd (
          finds.first (take len (drop at_i p.pattern)) bytes from to (k + at_i) le (omega arith) ge
            lt (omega (arith, needle_length, run.inside)) e)
  ]

  find_loop-matches :
      (fuel n k : ℕ) (res : Option ℕ)
      → k + n + length p.pattern ≡ length bytes + 1
      → n < fuel
      → find_loop bm p bytes len at_i to fuel (k + at_i) res
        ≡ ok (or_only res (matches p bytes n k))
  find_loop-matches zero n k res e lt = absurd (omega arith)
  find_loop-matches (suc fuel) n k res e lt =
      let from_to : k + at_i ≤ to = omega (arith, run.inside) in
      let to_end : to ≤ length bytes = omega arith in
      let needle = take len (drop at_i p.pattern) in
      let match = bm needle bytes (k + at_i) to in
      let range = finds.reached needle bytes (k + at_i) to from_to to_end in
      elim (Bool-cases (match == to)) [
        | inl y ↦
            let at_end : match ≡ to = ground arith in
            let none_left = matches-none p bytes n k (λ at_k ge l.
              passed_over (k + at_i) at_k from_to (omega arith)
                (omega (arith, at_end, l, e, end, run.inside)) (omega arith)) in
            find_loop-end bm p bytes len at_i to fuel (k + at_i) res y
            ∙ ap ok (sym (ap (or_only res) none_left ∙ or_only-nil res))
        | inr more ↦
            let before_end : match < to = ground (arith, range.1) in
            let hit = finds.found needle bytes (k + at_i) to from_to to_end before_end in
            let d = match - at_i in
            let left = k + n - d - 1 in
            let at_d : d + at_i ≡ match = omega (arith, range.0) in
            let inside : d + length p.pattern ≤ length bytes =
              omega (arith, needle_length, hit.1, at_d, end, run.inside, fits) in
            let next : match + 1 ≡ d + 1 + at_i = omega (arith, at_d) in
            let skipped : matches p bytes n k ≡ matches p bytes (suc left) d =
              ap (λ m. matches p bytes m k) (omega (arith, range.0, at_d, inside))
              ∙ matches-skip p bytes (d - k) (suc left) k (λ at_k ge l.
                passed_over (k + at_i) at_k from_to (omega arith) (omega (arith, l, at_d, range.0))
                  (omega (arith, l, at_d, range.0, inside)))
              ∙ ap (matches p bytes (suc left)) (omega (arith, range.0, at_d)) in
            let rest : (res' : Option ℕ)
                → find_loop bm p bytes len at_i to fuel (match + 1) res'
                  ≡ ok (or_only res' (matches p bytes left (d + 1))) =
              λ res'.
                ap (λ at_next. find_loop bm p bytes len at_i to fuel at_next res') next
                ∙ find_loop-matches fuel left (d + 1) res' (omega (arith, inside, e, range.0, at_d))
                    (omega (arith, inside, range.0, at_d)) in
            elim (Bool-cases (matches_at p bytes d)) [
              | inr miss ↦
                  find_loop-miss bm p bytes len at_i to fuel (k + at_i) res more miss
                  ∙ rest res
                  ∙ ap (λ ks. ok (or_only res ks))
                      (sym (skipped ∙ matches-miss p bytes left d miss))
              | inl matched ↦
                  let here = skipped ∙ matches-hit p bytes left d matched in
                  elim res
                    as (λ r.
                      find_loop bm p bytes len at_i to (suc fuel) (k + at_i) r
                      ≡ ok (or_only r (matches p bytes n k))) [
                        | none ↦
                            find_loop-hit bm p bytes len at_i to fuel (k + at_i) more matched
                            ∙ rest (some d)
                            ∙ ap ok (
                                sym (
                                  ap (or_only none) here
                                  ∙ or_only-hit d (matches p bytes left (d + 1))))
                        | some before ↦
                            find_loop-again bm p bytes len at_i to fuel (k + at_i) before more
                              matched
                            ∙ ap ok (
                                sym (
                                  ap (or_only (some before)) here
                                  ∙ or_only-again before d (matches p bytes left (d + 1))))
                      ]
            ]
      ]

-- `MaybeFind` returns the offset at which the pattern matches when there is exactly one such offset in the data,
-- and nothing when there is none or more than one, and it always returns: for a mask that has a whole byte
-- (0xff), of the length of the pattern, and data that is not shorter than the pattern.
pub maybe_find-matches :
    (bm : BoyerMoore) (p : Pattern) (bytes : Bytes)
    → FindsFirst bm
    → IsBytes bytes
    → length p.mask ≡ length p.pattern
    → length p.pattern ≤ length bytes
    → has_whole p.mask ≡ true
    → maybe_find bm p bytes ≡ ok (only (matches p bytes (length bytes - length p.pattern + 1) 0))
unfolding maybe_find
maybe_find-matches bm p bytes finds b same fits whole =
    let len = (longest_run p.mask 0 0 0 0).0 in
    let at_i = (longest_run p.mask 0 0 0 0).1 in
    let to = length bytes - (length p.pattern - len - at_i) in
    let run = longest_run-IsRun p.mask in
    let positive = longest_run-positive p.mask whole in
    let n = length bytes - length p.pattern + 1 in
    let e : at_i ≡ 0 + at_i = omega arith in
    ap (λ from. find_loop bm p bytes len at_i to (suc (length bytes)) from none) e
    ∙ find_loop-matches bm finds p bytes len at_i to b run same positive fits refl
        (suc (length bytes)) n 0 none (omega arith)
        (omega (arith, run.inside, positive, same, fits))
    ∙ ap ok (or_only-none (matches p bytes n 0))
