-- ===== src/Stsc/Text/Replaced.antt =====
-- The lines of a string in the text form of src/format/stsc/file.cpp.
use neptools.Prelude.{
  ℕ, ◌≡◌, ◌≢◌, refl, sym, ap, ◌∙◌, Bool, true, false, ◌&&◌, List, [], ◌∷◌, ◌++◌, ◌==◌, arith,
  Bool-cases, inl, inr,
}
use neptools.Prelude.Bytes.{Bytes}
use neptools.Stsc.Text.{escape, line_end}

-- What `boost::replace_all_copy` is documented to return: each occurrence of `search` that does not overlap one before
-- is replaced, and all else is copied.
pub data Replaced (search format : Bytes) : Bytes → Bytes → Type 0 where
  nothing_left : Replaced search format [] []
  copied :
      (c : ℕ) (xs ys : Bytes)
      → ((rest : Bytes) → c ∷ xs ≢ search ++ rest)
      → Replaced search format xs ys
      → Replaced search format (c ∷ xs) (c ∷ ys)
  replaced :
      (xs ys : Bytes)
      → Replaced search format xs ys
      → Replaced search format (search ++ xs) (format ++ ys)

abbrev is_escape : ℕ → ℕ → Bool
is_escape c d = c == b'\\' && d == b'n'

-- The lines of a string, between its escapes: the first, and the others.
unfoldable pub segments : Bytes → Bytes × List Bytes
segments [] = ([], [])
segments (c ∷ []) = (c ∷ [], [])
segments (c ∷ d ∷ xs) = elim (is_escape c d) [
  | true ↦ ([], (segments xs).0 ∷ (segments xs).1)
  | false ↦ (c ∷ (segments (d ∷ xs)).0, (segments (d ∷ xs)).1)
]

-- Lines, and behind each of them its end.
abbrev pub terminated : Bytes → List Bytes → Bytes
terminated end [] = []
terminated end (line ∷ is) = line ++ (end ++ terminated end is)

abbrev pub lines_of : Bytes → List Bytes
lines_of s = (segments s).0 ∷ (segments s).1

lines_of-escape :
    (c d : ℕ) (xs : Bytes) → is_escape c d ≡ true → lines_of (c ∷ d ∷ xs) ≡ [] ∷ lines_of xs
unfolding segments
lines_of-escape c d xs y = rw (segments, y) refl

lines_of-other :
    (c d : ℕ) (xs : Bytes)
    → is_escape c d ≡ false
    → lines_of (c ∷ d ∷ xs) ≡ (c ∷ (segments (d ∷ xs)).0) ∷ (segments (d ∷ xs)).1
unfolding segments
lines_of-other c d xs n = rw (segments, n) refl

-- The lines with their escapes are the string and one escape more.
pub lines_of-terminated : (s : Bytes) → terminated escape (lines_of s) ≡ s ++ escape
unfolding segments
lines_of-terminated [] = refl
lines_of-terminated (c ∷ []) = refl
lines_of-terminated (c ∷ d ∷ xs) = elim (Bool-cases (is_escape c d)) [
  | inl y ↦
      let first : c ≡ b'\\' = ground arith in
      let second : d ≡ b'n' = ground arith in
      ap (terminated escape) (lines_of-escape c d xs y)
      ∙ ap (λ zs. b'\\' ∷ (b'n' ∷ zs)) (lines_of-terminated xs)
      ∙ ap (λ e. e ∷ (b'n' ∷ (xs ++ escape))) (sym first)
      ∙ ap (λ e. c ∷ (e ∷ (xs ++ escape))) (sym second)
  | inr n ↦
      ap (terminated escape) (lines_of-other c d xs n)
      ∙ ap (λ zs. c ∷ zs) (lines_of-terminated (d ∷ xs))
]

-- The replaced string and one line end more are the lines with their line ends.
pub Replaced-terminated :
    (s out : Bytes)
    → Replaced escape line_end s out
    → out ++ line_end ≡ terminated line_end (lines_of s)
unfolding segments
Replaced-terminated s out nothing_left = refl
Replaced-terminated s out (copied c [] ys none r) = ap (λ zs. c ∷ zs) (Replaced-terminated [] ys r)
Replaced-terminated s out (copied c (d ∷ xs) ys none r) = elim (Bool-cases (is_escape c d)) [
  | inl y ↦
      let first : c ≡ b'\\' = ground arith in
      let second : d ≡ b'n' = ground arith in
      absurd (none xs (ap (λ e. e ∷ (d ∷ xs)) first ∙ ap (λ e. b'\\' ∷ (e ∷ xs)) second))
  | inr n ↦
      ap (λ zs. c ∷ zs) (Replaced-terminated (d ∷ xs) ys r)
      ∙ sym (ap (terminated line_end) (lines_of-other c d xs n))
]
Replaced-terminated s out (replaced xs ys r) =
    ap (λ zs. b'\r' ∷ (b'\n' ∷ zs)) (Replaced-terminated xs ys r)
