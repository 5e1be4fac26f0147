-- ===== src/Pattern/Search.antt =====
-- The search of `Pattern::MaybeFind` of src/pattern.cpp against the list of all the places where the pattern matches.
use neptools.Prelude.{
  ℕ, zero, suc, ◌+◌, ◌-◌, ◌≤◌, ◌<◌, ◌≡◌, ◌≢◌, refl, ap, ◌∙◌, Bool, true, false, Option, none, some,
  List, [], ◌∷◌, ◌==◌, if◌then◌else◌, length, take, drop, arith,
}
use neptools.Prelude.Bytes.{Bytes}
use neptools.Prelude.Result.{ok}
use neptools.Pattern.{Pattern, BoyerMoore, check_pattern, find_loop}

-- What `boyer_moore` promises: the first place of the needle in the range, or the end of the range.
pub record FindsFirst (bm : BoyerMoore) : Type 0 where
  pub reached :
      (needle bytes : Bytes) (from to : ℕ)
      → from ≤ to
      → to ≤ length bytes
      → from ≤ bm needle bytes from to × bm needle bytes from to ≤ to
  pub found :
      (needle bytes : Bytes) (from to : ℕ)
      → from ≤ to
      → to ≤ length bytes
      → bm needle bytes from to < to
      → (take (length needle) (drop (bm needle bytes from to) bytes) ≡ needle)
        × bm needle bytes from to + length needle ≤ to
  pub first :
      (needle bytes : Bytes) (from to k : ℕ)
      → from ≤ to
      → to ≤ length bytes
      → from ≤ k
      → k < bm needle bytes from to
      → k + length needle ≤ to
      → take (length needle) (drop k bytes) ≢ needle

-- The pattern matches at an offset.
unfoldable pub matches_at : Pattern → Bytes → ℕ → Bool
unfolding check_pattern
matches_at p bytes k = check_pattern (drop k bytes) p.pattern p.mask

-- The offsets from `k` on, `n` of them, at which the pattern matches.
unfoldable pub matches : Pattern → Bytes → ℕ → ℕ → List ℕ
unfolding matches_at
matches p bytes zero k = []
matches p bytes (suc n) k =
    let rest = matches p bytes n (k + 1) in if matches_at p bytes k then k ∷ rest else rest

-- The one member of a list that has one.
unfoldable pub only : List ℕ → Option ℕ
only [] = none
only (k ∷ []) = some k
only (k ∷ k' ∷ ks) = none

unfoldable pub or_only : Option ℕ → List ℕ → Option ℕ
unfolding only
or_only none ks = only ks
or_only (some k) [] = some k
or_only (some k) (k' ∷ ks) = none

pub matches-hit :
    (p : Pattern) (bytes : Bytes) (n k : ℕ)
    → matches_at p bytes k ≡ true
    → matches p bytes (suc n) k ≡ k ∷ matches p bytes n (k + 1)
unfolding matches
matches-hit p bytes n k h = rw h refl

pub matches-miss :
    (p : Pattern) (bytes : Bytes) (n k : ℕ)
    → matches_at p bytes k ≡ false
    → matches p bytes (suc n) k ≡ matches p bytes n (k + 1)
unfolding matches
matches-miss p bytes n k h = rw h refl

-- Offsets that do not match are passed over.
pub matches-skip :
    (p : Pattern) (bytes : Bytes) (j n k : ℕ)
    → ((at_k : ℕ) → k ≤ at_k → at_k < k + j → matches_at p bytes at_k ≡ false)
    → matches p bytes (j + n) k ≡ matches p bytes n (k + j)
matches-skip p bytes zero n k h =
    let left : 0 + n ≡ n = omega arith in
    let right : k + 0 ≡ k = omega arith in rw (left, right) refl
matches-skip p bytes (suc j) n k h =
    let e : k + 1 + j ≡ k + suc j = omega arith in
    let s : suc j + n ≡ suc (j + n) = omega arith in
    ap (λ len. matches p bytes len k) s
    ∙ matches-miss p bytes (j + n) k (h k (omega arith) (omega arith))
    ∙ matches-skip p bytes j n (k + 1) (λ at_k le lt. h at_k (omega arith) (omega arith))
    ∙ ap (matches p bytes n) e

pub matches-none :
    (p : Pattern) (bytes : Bytes) (n k : ℕ)
    → ((at_k : ℕ) → k ≤ at_k → at_k < k + n → matches_at p bytes at_k ≡ false)
    → matches p bytes n k ≡ []
unfolding matches
matches-none p bytes n k h =
    let e : n ≡ n + 0 = omega arith in
    ap (λ m. matches p bytes m k) e ∙ matches-skip p bytes n 0 k h

pub find_loop-end :
    (bm : BoyerMoore) (p : Pattern) (bytes : Bytes) (len at_i to fuel ptr : ℕ) (res : Option ℕ)
    → bm (take len (drop at_i p.pattern)) bytes ptr to == to ≡ true
    → find_loop bm p bytes len at_i to (suc fuel) ptr res ≡ ok res
unfolding find_loop
find_loop-end bm p bytes len at_i to fuel ptr res h = rw (find_loop, h) refl

pub find_loop-miss :
    (bm : BoyerMoore) (p : Pattern) (bytes : Bytes) (len at_i to fuel ptr : ℕ) (res : Option ℕ)
    → let match = bm (take len (drop at_i p.pattern)) bytes ptr to in
      match == to ≡ false
      → matches_at p bytes (match - at_i) ≡ false
      → find_loop bm p bytes len at_i to (suc fuel) ptr res
        ≡ find_loop bm p bytes len at_i to fuel (match + 1) res
unfolding find_loop matches_at
find_loop-miss bm p bytes len at_i to fuel ptr res h m = rw (find_loop, h, m) refl

pub find_loop-hit :
    (bm : BoyerMoore) (p : Pattern) (bytes : Bytes) (len at_i to fuel ptr : ℕ)
    → let match = bm (take len (drop at_i p.pattern)) bytes ptr to in
      match == to ≡ false
      → matches_at p bytes (match - at_i) ≡ true
      → find_loop bm p bytes len at_i to (suc fuel) ptr none
        ≡ find_loop bm p bytes len at_i to fuel (match + 1) (some (match - at_i))
unfolding find_loop matches_at
find_loop-hit bm p bytes len at_i to fuel ptr h m = rw (find_loop, h, m) refl

pub find_loop-again :
    (bm : BoyerMoore) (p : Pattern) (bytes : Bytes) (len at_i to fuel ptr before : ℕ)
    → let match = bm (take len (drop at_i p.pattern)) bytes ptr to in
      match == to ≡ false
      → matches_at p bytes (match - at_i) ≡ true
      → find_loop bm p bytes len at_i to (suc fuel) ptr (some before) ≡ ok none
unfolding find_loop matches_at
find_loop-again bm p bytes len at_i to fuel ptr before h m = rw (find_loop, h, m) refl
