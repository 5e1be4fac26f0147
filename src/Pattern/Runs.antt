-- ===== src/Pattern/Runs.antt =====
-- The run of whole bytes in the mask that `Pattern::MaybeFind` of src/pattern.cpp searches for.
use neptools.Prelude.{
  ℕ, zero, suc, ◌+◌, ◌-◌, ◌^◌, ◌≤◌, ◌<◌, ◌≡◌, refl, sym, ap, ◌∙◌, Bool, true, false, ◌&&◌, ◌||◌, [],
  ◌∷◌, ◌++◌, ltb, ◌==◌, if◌then◌else◌, length, take, drop, replicate, arith, Bool-cases, inl, inr,
  length-drop,
}
use mathlib.Core.Path.{subst}
use Prim.Native.Nat.{bit_and}
use neptools.Prelude.Bits.{bit_and_low}
use neptools.Prelude.Bytes.{Bytes, IsBytes}
use neptools.Prelude.Slices.{blocks_join}
use neptools.Pattern.{check_pattern, longest_run}

-- A block of the mask whose bytes are whole.
pub record IsRun (mask : Bytes) (len i : ℕ) : Type 0 where
  pub whole : take len (drop i mask) ≡ replicate len 0xff
  pub inside : i + len ≤ length mask

replicate-snoc : (n x : ℕ) → replicate n x ++ (x ∷ []) ≡ replicate (n + 1) x
replicate-snoc zero x = refl
replicate-snoc (suc n) x =
    let e : suc n + 1 ≡ suc (n + 1) = omega arith in rw e (ap (◌∷◌ x) (replicate-snoc n x))

drop_next : (i m : ℕ) (mask rest : Bytes) → drop i mask ≡ m ∷ rest → drop (i + 1) mask ≡ rest
drop_next zero m [] rest h = cc
drop_next zero m (x ∷ mask) rest h = ground arith
drop_next (suc i) m [] rest h = cc
drop_next (suc i) m (x ∷ mask) rest h =
    let e : suc i + 1 ≡ suc (i + 1) = omega arith in rw e (drop_next i m mask rest h)

IsRun-next :
    (mask rest : Bytes) (i start : ℕ)
    → start ≤ i
    → IsRun mask (i - start) start
    → drop i mask ≡ 0xff ∷ rest
    → IsRun mask (i - start + 1) start
IsRun-next mask rest i start le r h =
    let there : start + (i - start) ≡ i = omega arith in
    let one : take 1 (drop (start + (i - start)) mask) ≡ 0xff ∷ [] = rw (there, h) refl in
    let len : length (drop i mask) ≡ suc (length rest) = ap length h in
    record {
      whole =
          sym (blocks_join (i - start) 1 start mask)
          ∙ ap (λ x. x ++ take 1 (drop (start + (i - start)) mask)) r.whole
          ∙ ap (◌++◌ (replicate (i - start) 0xff)) one
          ∙ replicate-snoc (i - start) 0xff;
      inside = omega (arith, length-drop i mask);
    }

IsRun-empty : (mask : Bytes) (i : ℕ) → i ≤ length mask → IsRun mask 0 i
IsRun-empty mask i h = record { whole = refl; inside = omega arith }

-- The loop keeps a run of the mask, and the run that ends at `i`.
longest_run-loop :
    (whole mask : Bytes) (i start len at_i : ℕ)
    → drop i whole ≡ mask
    → start ≤ i
    → i ≤ length whole
    → IsRun whole (i - start) start
    → IsRun whole len at_i
    → IsRun whole (longest_run mask i start len at_i).0 (longest_run mask i start len at_i).1
unfolding longest_run
longest_run-loop whole [] i start len at_i d le b r q = q
longest_run-loop whole (m ∷ mask) i start len at_i d le b r q =
    let next = drop_next i m whole mask d in
    let more : i + 1 ≤ length whole = omega (arith, length-drop i whole, ap length d) in
    elim (Bool-cases (m == 0xff)) [
      | inr n ↦
          rw (longest_run, n)
            (longest_run-loop whole mask (i + 1) (i + 1) len at_i next (omega arith) more
              (let e : i + 1 - (i + 1) ≡ 0 = omega arith in rw e (IsRun-empty whole (i + 1) more))
              q)
      | inl y ↦
          let byte : m ≡ 0xff = ground arith in
          let d' : drop i whole ≡ 0xff ∷ mask = d ∙ ap (λ x. x ∷ mask) byte in
          let grown = IsRun-next whole mask i start le r d' in
          let e : i + 1 - start ≡ i - start + 1 = omega arith in
          let r' : IsRun whole (i + 1 - start) start = rw e grown in
          elim (Bool-cases (ltb len (i - start + 1))) [
            | inl l ↦
                rw (longest_run, y, l)
                  (longest_run-loop whole mask (i + 1) start (i - start + 1) start next
                    (omega arith) more r' grown)
            | inr l ↦
                rw (longest_run, y, l)
                  (longest_run-loop whole mask (i + 1) start len at_i next (omega arith) more r' q)
          ]
    ]

-- The run is one of whole bytes, inside the mask, as the assertion says.
pub longest_run-IsRun :
    (mask : Bytes) → IsRun mask (longest_run mask 0 0 0 0).0 (longest_run mask 0 0 0 0).1
longest_run-IsRun mask =
    longest_run-loop mask mask 0 0 0 0 refl (omega arith) (omega arith)
      (IsRun-empty mask 0 (omega arith)) (IsRun-empty mask 0 (omega arith))

longer_positive : (b : Bool) (len k : ℕ) → 0 < len → 0 < (if b then k + 1 else len)
longer_positive true len k h = omega arith
longer_positive false len k h = h

longest_run-grows :
    (mask : Bytes) (i start len at_i : ℕ) → 0 < len → 0 < (longest_run mask i start len at_i).0
unfolding longest_run
longest_run-grows [] i start len at_i h = h
longest_run-grows (m ∷ mask) i start len at_i h =
    longest_run-grows mask (i + 1) _ _ _
      (longer_positive (m == 0xff && ltb len (i - start + 1)) len (i - start) h)

-- The mask has a whole byte.
unfoldable pub has_whole : Bytes → Bool
has_whole [] = false
has_whole (m ∷ mask) = m == 0xff || has_whole mask

longest_run-finds :
    (mask : Bytes) (i start at_i : ℕ)
    → has_whole mask ≡ true
    → 0 < (longest_run mask i start 0 at_i).0
unfolding longest_run has_whole
longest_run-finds [] i start at_i h = cc
longest_run-finds (m ∷ mask) i start at_i h = elim (Bool-cases (m == 0xff)) [
  | inl y ↦
      let l : ltb 0 (i - start + 1) ≡ true = ground arith in
      rw (longest_run, y, l)
        (longest_run-grows mask (i + 1) start (i - start + 1) start (omega arith))
  | inr n ↦ rw (longest_run, n) (longest_run-finds mask (i + 1) (i + 1) at_i (ground arith))
]

-- A mask with a whole byte has a run.
pub longest_run-positive : (mask : Bytes) → has_whole mask ≡ true → 0 < (longest_run mask 0 0 0 0).0
longest_run-positive mask h = longest_run-finds mask 0 0 0 h

check_pattern-nil : (bytes pattern : Bytes) → check_pattern bytes pattern [] ≡ true
unfolding check_pattern
check_pattern-nil bytes [] = refl
check_pattern-nil bytes (p ∷ pattern) = refl

pub check_pattern-drop :
    (k : ℕ) (bytes pattern mask : Bytes)
    → check_pattern bytes pattern mask ≡ true
    → check_pattern (drop k bytes) (drop k pattern) (drop k mask) ≡ true
unfolding check_pattern
check_pattern-drop zero bytes pattern mask h = h
check_pattern-drop (suc k) bytes [] mask h = refl
check_pattern-drop (suc k) (b ∷ bytes) (p ∷ pattern) [] h =
    check_pattern-nil (drop k bytes) (drop k pattern)
check_pattern-drop (suc k) [] (p ∷ pattern) [] h = check_pattern-nil [] (drop k pattern)
check_pattern-drop (suc k) [] (p ∷ pattern) (m ∷ mask) h = cc
check_pattern-drop (suc k) (b ∷ bytes) (p ∷ pattern) (m ∷ mask) h =
    check_pattern-drop k bytes pattern mask (ground arith)

-- Under whole bytes of the mask, the bytes are those of the pattern.
pub check_pattern-take :
    (len : ℕ) (bytes pattern mask : Bytes)
    → IsBytes bytes
    → len ≤ length pattern
    → take len mask ≡ replicate len 0xff
    → check_pattern bytes pattern mask ≡ true
    → take len bytes ≡ take len pattern
unfolding check_pattern
check_pattern-take zero bytes pattern mask b le t h = refl
check_pattern-take (suc len) bytes [] mask b le t h = absurd (omega arith)
check_pattern-take (suc len) bytes (p ∷ pattern) [] b le t h = cc
check_pattern-take (suc len) [] (p ∷ pattern) (m ∷ mask) b le t h = cc
check_pattern-take (suc len) (x ∷ bytes) (p ∷ pattern) (m ∷ mask) b le t h =
    let byte : m ≡ 0xff = ground arith in
    let rest : take len mask ≡ replicate len 0xff = ground arith in
    let low : bit_and x (2 ^ 8 - 1) ≡ x = bit_and_low 8 x ∙ omega (arith, b.0) in
    let h' : bit_and x 0xff == p && check_pattern bytes pattern mask ≡ true =
      subst (λ k. bit_and x k == p && check_pattern bytes pattern mask ≡ true) byte h in
    let same : bit_and x 0xff ≡ p = ground arith in
    let ih = check_pattern-take len bytes pattern mask b.1 (omega arith) rest (ground arith) in
    ap (λ k. k ∷ take len bytes) (sym low ∙ same) ∙ ap (◌∷◌ p) ih
