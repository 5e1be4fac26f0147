-- ===== src/Pattern/Unique.antt =====
-- That the place `Pattern::Find` of src/pattern.hpp returns is the only one where the pattern matches.
use neptools.Prelude.{
  ℕ, zero, suc, ◌+◌, ◌-◌, ◌≤◌, ◌<◌, ◌≡◌, ◌≢◌, sym, ap, ◌∙◌, true, false, Option, none, some, List,
  [], ◌∷◌, ◌==◌, length, arith, Bool-cases, inl, inr,
}
use neptools.Prelude.Bytes.{Bytes, IsBytes}
use neptools.Prelude.Result.{ok}
use neptools.Pattern.{Pattern, BoyerMoore, maybe_find, find}
use neptools.Pattern.Runs.{has_whole}
use neptools.Pattern.Search.{FindsFirst, matches_at, matches, only, matches-hit, matches-miss}
use neptools.Pattern.Found.{maybe_find-matches}

-- The pattern matches at an offset inside the data, and at no other.
pub record MatchesOnlyAt (p : Pattern) (bytes : Bytes) (d : ℕ) : Type 0 where
  pub matched : matches_at p bytes d ≡ true
  pub inside : d + length p.pattern ≤ length bytes
  pub alone : (k : ℕ) → k + length p.pattern ≤ length bytes → matches_at p bytes k ≡ true → k ≡ d

matches-nil :
    (p : Pattern) (bytes : Bytes) (n k at_k : ℕ)
    → matches p bytes n k ≡ []
    → k ≤ at_k
    → at_k < k + n
    → matches_at p bytes at_k ≡ false
matches-nil p bytes zero k at_k h ge lt = absurd (omega arith)
matches-nil p bytes (suc n) k at_k h ge lt = elim (Bool-cases (matches_at p bytes k)) [
  | inl matched ↦ absurd (cc (h, matches-hit p bytes n k matched))
  | inr miss ↦ elim (Bool-cases (k == at_k)) [
    | inl here ↦ let e : k ≡ at_k = ground arith in sym (ap (matches_at p bytes) e) ∙ miss
    | inr before ↦
        let ne : k ≢ at_k = ground arith in
        matches-nil p bytes n (k + 1) at_k (sym (matches-miss p bytes n k miss) ∙ h) (omega arith)
          (omega arith)
  ]
]

matches-single :
    (p : Pattern) (bytes : Bytes) (n k d : ℕ)
    → matches p bytes n k ≡ d ∷ []
    → (matches_at p bytes d ≡ true)
      × d < k + n
      × ((at_k : ℕ) → k ≤ at_k → at_k < k + n → matches_at p bytes at_k ≡ true → at_k ≡ d)
unfolding matches
matches-single p bytes zero k d h = cc
matches-single p bytes (suc n) k d h = elim (Bool-cases (matches_at p bytes k)) [
  | inr miss ↦
      let ih = matches-single p bytes n (k + 1) d (sym (matches-miss p bytes n k miss) ∙ h) in
      (
        ih.0,
        omega (arith, ih.1),
        λ at_k ge lt m. elim (Bool-cases (k == at_k)) [
          | inl here ↦ let e : k ≡ at_k = ground arith in absurd (cc (m, e, miss))
          | inr before ↦ let ne : k ≢ at_k = ground arith in ih.2 at_k (omega arith) (omega arith) m
        ],
      )
  | inl matched ↦
      let e = sym (matches-hit p bytes n k matched) ∙ h in
      let here : k ≡ d = ground (arith, e) in
      let no_more : matches p bytes n (k + 1) ≡ [] = ground (arith, e) in
      (
        sym (ap (matches_at p bytes) here) ∙ matched,
        omega arith,
        λ at_k ge lt m. elim (Bool-cases (k == at_k)) [
          | inl is_k ↦ ground arith
          | inr after ↦
              let ne : k ≢ at_k = ground arith in
              let miss = matches-nil p bytes n (k + 1) at_k no_more (omega arith) (omega arith) in
              absurd (cc (m, miss))
        ],
      )
]

only-single : (ks : List ℕ) (d : ℕ) → only ks ≡ some d → ks ≡ d ∷ []
unfolding only
only-single [] d h = cc
only-single (k ∷ []) d h = ground (arith, h)
only-single (k ∷ k' ∷ ks) d h = cc

find-maybe_find :
    (bm : BoyerMoore) (p : Pattern) (bytes : Bytes) (d : ℕ) (r : Option ℕ)
    → maybe_find bm p bytes ≡ ok r
    → find bm p bytes ≡ ok d
    → r ≡ some d
unfolding find
find-maybe_find bm p bytes d none e h = cc (rw (find, e) at h)
find-maybe_find bm p bytes d (some k) e h = let h' = rw (find, e) at h in ground (arith, h')

-- An offset that `Find` returns is inside the data, the pattern matches there, and it matches at no other offset
-- inside the data: for a mask with a whole byte (0xff), of the length of the pattern, and data that is not shorter.
pub find-MatchesOnlyAt :
    (bm : BoyerMoore) (p : Pattern) (bytes : Bytes) (d : ℕ)
    → FindsFirst bm
    → IsBytes bytes
    → length p.mask ≡ length p.pattern
    → length p.pattern ≤ length bytes
    → has_whole p.mask ≡ true
    → find bm p bytes ≡ ok d
    → MatchesOnlyAt p bytes d
find-MatchesOnlyAt bm p bytes d finds b same fits whole h =
    let found = maybe_find-matches bm p bytes finds b same fits whole in
    let n = length bytes - length p.pattern + 1 in
    let single =
      matches-single p bytes n 0 d
        (only-single (matches p bytes n 0) d (find-maybe_find bm p bytes d _ found h)) in
    record {
      matched = single.0;
      inside = omega (arith, single.1);
      alone = λ k inside m. single.2 k (omega arith) (omega arith) m;
    }
