-- ===== src/Context/Naming.antt =====
-- `CreateLabelFallback` of src/format/context.cpp finds a name that no label has.
use neptools.Prelude.{
  ℕ, zero, suc, ◌+◌, ◌≤◌, ◌<◌, ◌≡◌, ◌≢◌, refl, sym, ap, ◌∙◌, true, false, none, List, [], ◌∷◌, ◌++◌,
  arith, length, length-append, Bool-cases, inl, inr,
}
use neptools.Prelude.Bytes.{Bytes}
use neptools.Prelude.Text.{str_eq_iff, decimal, decimal-injective}
use neptools.Context.{Label, find_label, candidate, taken, free_name, fallback_name, remove_label}

append-cancel : (xs : Bytes) {ys zs : Bytes} → xs ++ ys ≡ xs ++ zs → ys ≡ zs
append-cancel [] e = e
append-cancel (x ∷ xs) e = append-cancel xs (cc)

-- No two of the names that are tried are equal.
pub candidate-injective : (name : Bytes) (i j : ℕ) → candidate name i ≡ candidate name j → i ≡ j
unfolding candidate
candidate-injective name zero zero e = refl
candidate-injective name zero (suc j) e =
    absurd (omega (arith, ap length e, length-append name (b'_' ∷ decimal (suc j))))
candidate-injective name (suc i) zero e =
    absurd (omega (arith, ap length e, length-append name (b'_' ∷ decimal (suc i))))
candidate-injective name (suc i) (suc j) e =
    decimal-injective (suc i) (suc j) (cc (append-cancel name e))

taken-remove_ne : (n m : Bytes) (ls : List Label) → n ≢ m → taken n (remove_label m ls) ≡ taken n ls
unfolding taken remove_label
taken-remove_ne n m [] h = refl
taken-remove_ne n m (l ∷ ls) h =
    ground (arith, taken-remove_ne n m ls, str_eq_iff l.name m, str_eq_iff l.name n, h)

length-remove_le : (m : Bytes) (ls : List Label) → length (remove_label m ls) ≤ length ls
unfolding remove_label
length-remove_le m [] = omega arith
length-remove_le m (l ∷ ls) = ground (arith, length-remove_le m ls)

length-remove_lt :
    (m : Bytes) (ls : List Label) → taken m ls ≡ true → length (remove_label m ls) < length ls
unfolding taken remove_label
length-remove_lt m [] h = cc
length-remove_lt m (l ∷ ls) h = ground (arith, length-remove_le m ls, length-remove_lt m ls)

-- Every name that the loop answers is a later candidate.
free_name-candidate :
    (fuel : ℕ) (name : Bytes) (i : ℕ) (ls : List Label)
    → (j : ℕ) × (free_name fuel name i ls ≡ candidate name j) × (i ≤ j)
unfolding free_name
free_name-candidate zero name i ls = (i, refl, omega arith)
free_name-candidate (suc fuel) name i ls = elim (Bool-cases (taken (candidate name i) ls)) [
  | inl t ↦ let (j, e, h) = free_name-candidate fuel name (i + 1) ls in (j, rw t e, omega arith)
  | inr f ↦ (i, rw f, omega arith)
]

-- A label that has an earlier candidate's name does not matter.
free_name-remove :
    (fuel : ℕ) (name : Bytes) (i k : ℕ) (ls : List Label)
    → k < i
    → free_name fuel name i (remove_label (candidate name k) ls) ≡ free_name fuel name i ls
unfolding free_name
free_name-remove zero name i k ls h = refl
free_name-remove (suc fuel) name i k ls h = ground (
  arith,
  free_name-remove fuel name (i + 1) k ls,
  taken-remove_ne (candidate name i) (candidate name k) ls
      (λ e. absurd (omega (arith, candidate-injective name i k e))),
)

free_name_here :
    (fuel : ℕ) (name : Bytes) (i : ℕ) (ls : List Label)
    → taken (candidate name i) ls ≡ false
    → free_name (suc fuel) name i ls ≡ candidate name i
unfolding free_name
free_name_here fuel name i ls f = rw f

free_name_next :
    (fuel : ℕ) (name : Bytes) (i : ℕ) (ls : List Label)
    → taken (candidate name i) ls ≡ true
    → free_name (suc fuel) name i ls ≡ free_name fuel name (i + 1) ls
unfolding free_name
free_name_next fuel name i ls t = rw t

later_ne :
    (fuel : ℕ) (name : Bytes) (i : ℕ) (ls : List Label)
    → free_name fuel name (i + 1) ls ≢ candidate name i
later_ne fuel name i ls e =
    let (j, e', le) = free_name-candidate fuel name (i + 1) ls in
    absurd (omega (arith, candidate-injective name j i (sym e' ∙ e)))

free_name-free :
    (fuel : ℕ) (name : Bytes) (i : ℕ) (ls : List Label)
    → length ls ≤ fuel
    → taken (free_name fuel name i ls) ls ≡ false
free_name-free zero name i [] h = unfold taken in refl
free_name-free zero name i (l ∷ ls) h = absurd (omega arith)
free_name-free (suc fuel) name i ls h = elim (Bool-cases (taken (candidate name i) ls)) [
  | inr f ↦ rw (free_name_here fuel name i ls f) f
  | inl t ↦
      let fewer = remove_label (candidate name i) ls in
      let shorter = length-remove_lt (candidate name i) ls t in
      let ih = free_name-free fuel name (i + 1) fewer (omega arith) in
      rw (free_name_next fuel name i ls t) (
        sym (taken-remove_ne _ _ ls (later_ne fuel name i ls))
        ∙ (rw (free_name-remove fuel name (i + 1) i ls (omega arith)) at ih))
]

taken-find : (n : Bytes) (ls : List Label) → taken n ls ≡ false → find_label n ls ≡ none
unfolding taken
taken-find n ls h = ground arith

-- The name that the loop of `CreateLabelFallback` ends with is the name of no label.
pub fallback_name-free :
    (name : Bytes) (ls : List Label) → find_label (fallback_name name ls) ls ≡ none
unfolding fallback_name
fallback_name-free name ls = taken-find _ ls (free_name-free (length ls) name 0 ls (omega arith))
