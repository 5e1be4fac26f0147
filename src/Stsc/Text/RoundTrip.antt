-- ===== src/Stsc/Text/RoundTrip.antt =====
-- The text form of src/format/stsc/file.cpp is read as it was written.
use neptools.Prelude.{
  ℕ, zero, suc, ◌-◌, ◌≡◌, ◌≢◌, refl, sym, ap, ◌∙◌, true, false, List, [], ◌∷◌, ◌++◌, ◌==◌, length,
  take, replicate, map, arith, append_assoc, append-nil, length-append, Bool-cases, inl, inr,
}
use neptools.Prelude.Bytes.{Bytes}
use neptools.Prelude.Slices.{take-append}
use neptools.Prelude.Text.{str_eq, str_eq_iff}
use neptools.Prelude.Result.{ok}
use neptools.Stsc.Text.{
  Child, cstring_item, other_item, escape, line_end, dashes, sep_dash, getlines, strip_cr,
  skip_others, read_lines, read_txt, write_txt,
}
use neptools.Stsc.Text.Shape.{shape, IsMessage-ends_well}
use neptools.Stsc.Text.Outcome.{read_lines-line, read_lines-sep}
use neptools.Stsc.Text.Replaced.{
  Replaced, lines_of, terminated, lines_of-terminated, Replaced-terminated,
}

-- No character of it is a `'\n'`.
abbrev pub NoNewline : Bytes → Type 0
NoNewline [] = Unit
NoNewline (c ∷ cs) = (c ≢ b'\n') × NoNewline cs

-- Lines that can be told from the separator, and from one another.
abbrev pub AreLines : List Bytes → Type 0
AreLines [] = Unit
AreLines (line ∷ is) = (NoNewline line × (line ≢ dashes)) × AreLines is

-- How a line is read, with its `'\r'`.
abbrev with_crs : List Bytes → List Bytes
with_crs lines = map (λ line. line ++ (b'\r' ∷ [])) lines

strip_cr-with : (line : Bytes) → strip_cr (line ++ (b'\r' ∷ [])) ≡ line
unfolding strip_cr
strip_cr-with [] = refl
strip_cr-with (c ∷ []) = refl
strip_cr-with (c ∷ d ∷ line) = ap (λ xs. c ∷ xs) (strip_cr-with (d ∷ line))

not_separator : (line : Bytes) → line ≢ dashes → str_eq (line ++ (b'\r' ∷ [])) sep_dash ≡ false
not_separator line n = elim (Bool-cases (str_eq (line ++ (b'\r' ∷ [])) sep_dash)) [
  | inr f ↦ f
  | inl y ↦
      let same = (str_eq_iff (line ++ (b'\r' ∷ [])) sep_dash).0 y in
      absurd (n (sym (strip_cr-with line) ∙ ap strip_cr same ∙ strip_cr-with dashes))
]

-- A line up to its end, behind what was taken of it.
getlines-line :
    (front line rest : Bytes)
    → NoNewline line
    → getlines front (line ++ (b'\n' ∷ rest)) ≡ (front ++ line) ∷ getlines [] rest
unfolding getlines
getlines-line front [] rest n = ap (λ xs. xs ∷ getlines [] rest) (sym (append-nil front))
getlines-line front (c ∷ line) rest n =
    let other : (c == b'\n') ≡ false = ground (arith, n.0) in
    rw (getlines, other)
      (getlines-line (front ++ (c ∷ [])) line rest n.1
        ∙ ap (λ xs. xs ∷ getlines [] rest) (append_assoc front (c ∷ []) line))

with_cr-NoNewline : (line : Bytes) → NoNewline line → NoNewline (line ++ (b'\r' ∷ []))
with_cr-NoNewline [] n = ((λ e. absurd (omega arith)), tt)
with_cr-NoNewline (c ∷ line) n = (n.0, with_cr-NoNewline line n.1)

dashes-NoNewline : (n : ℕ) → NoNewline (replicate n b'-')
dashes-NoNewline zero = tt
dashes-NoNewline (suc n) = ((λ e. absurd (omega arith)), dashes-NoNewline n)

same_string : str_eq sep_dash sep_dash ≡ true
same_string = (str_eq_iff sep_dash sep_dash).1 refl

getlines-terminated :
    (lines : List Bytes) (rest : Bytes)
    → AreLines lines
    → getlines [] (terminated line_end lines ++ rest) ≡ with_crs lines ++ getlines [] rest
getlines-terminated [] rest w = refl
getlines-terminated (line ∷ is) rest w =
    ap (getlines []) (
      append_assoc line (line_end ++ terminated line_end is) rest
      ∙ sym (append_assoc line (b'\r' ∷ []) (b'\n' ∷ (terminated line_end is ++ rest))))
    ∙ getlines-line [] (line ++ (b'\r' ∷ [])) (terminated line_end is ++ rest)
        (with_cr-NoNewline line w.0.0)
    ∙ ap (λ xs. (line ++ (b'\r' ∷ [])) ∷ xs) (getlines-terminated is rest w.1)

module _ {ℓ} {A : Type ℓ} where
  -- The lines of a string are put together again.
  read_lines-terminated :
      (lines is : List Bytes) (msg : Bytes) (done it : List (Child A))
      → AreLines lines
      → read_lines (with_crs lines ++ is) msg done it
        ≡ read_lines is (msg ++ terminated escape lines) done it
  read_lines-terminated [] is msg done it w =
      ap (λ xs. read_lines is xs done it) (sym (append-nil msg))
  read_lines-terminated (line ∷ lines) is msg done it w =
      read_lines-line (line ++ (b'\r' ∷ [])) (with_crs lines ++ is) msg done it
        (not_separator line w.0.1)
      ∙ ap (λ xs. read_lines (with_crs lines ++ is) (msg ++ (xs ++ escape)) done it)
          (strip_cr-with line)
      ∙ read_lines-terminated lines is (msg ++ (line ++ escape)) done it w.1
      ∙ ap (λ xs. read_lines is xs done it)
          (append_assoc msg (line ++ escape) (terminated escape lines)
            ∙ ap (λ xs. msg ++ xs) (append_assoc line escape (terminated escape lines)))

  -- Every string has such lines.
  abbrev pub AreTexts : List (Child A) → Type 0
  AreTexts [] = Unit
  AreTexts (cstring_item s ∷ it) = AreLines (lines_of s) × AreTexts it
  AreTexts (other_item a ∷ it) = AreTexts it

  -- The text of one string, read into the string that is next.
  read_lines-text :
      (s s' out text : Bytes) (done cs : List (Child A))
      → Replaced escape line_end s out
      → AreLines (lines_of s)
      → read_lines
          (getlines [] (out ++ (line_end ++ (sep_dash ++ (b'\n' ∷ text)))))
          []
          done
          (cstring_item s' ∷ cs)
        ≡ read_lines
            (getlines [] text)
            []
            (done ++ (cstring_item s ∷ (skip_others cs).0))
            (skip_others cs).1
  read_lines-text s s' out text done cs r w =
      let behind = sep_dash ++ (b'\n' ∷ text) in
      let lines = lines_of s in
      let sep_NoNewline : NoNewline sep_dash = with_cr-NoNewline dashes (dashes-NoNewline 40) in
      let msg : [] ++ terminated escape lines ≡ s ++ escape = lines_of-terminated s in
      let len : length (s ++ escape) - 2 ≡ length s = omega (arith, length-append s escape) in
      let kept : take (length (s ++ escape) - 2) (s ++ escape) ≡ s =
        ap (λ k. take k (s ++ escape)) len ∙ take-append s escape in
      ap (λ xs. read_lines (getlines [] xs) [] done (cstring_item s' ∷ cs))
        (sym (append_assoc out line_end behind)
          ∙ ap (λ xs. xs ++ behind) (Replaced-terminated s out r))
      ∙ ap (λ xs. read_lines xs [] done (cstring_item s' ∷ cs))
          (getlines-terminated lines behind w
            ∙ ap (λ xs. with_crs lines ++ xs) (getlines-line [] sep_dash text sep_NoNewline))
      ∙ read_lines-terminated lines (sep_dash ∷ getlines [] text) [] done (cstring_item s' ∷ cs) w
      ∙ ap (λ xs. read_lines (sep_dash ∷ getlines [] text) xs done (cstring_item s' ∷ cs)) msg
      ∙ read_lines-sep sep_dash (getlines [] text) (s ++ escape) done cs (cstring_item s')
          same_string (IsMessage-ends_well (s ++ escape) (inr (s, refl)))
      ∙ ap
          (λ xs.
            read_lines (getlines [] text) [] (done ++ (cstring_item xs ∷ (skip_others cs).0))
              (skip_others cs).1)
          kept

  module _ (replace_all_copy : Bytes → Bytes → Bytes → Bytes)
      (replaces : (s : Bytes)
        → Replaced escape line_end s (replace_all_copy s escape line_end)) where
    read_lines-write_txt :
        (children others done : List (Child A))
        → AreTexts children
        → shape children ≡ shape others
        → read_lines
            (getlines [] (write_txt replace_all_copy children))
            []
            (done ++ (skip_others others).0)
            (skip_others others).1
          ≡ ok (done ++ children)
    unfolding write_txt getlines read_lines shape skip_others
    read_lines-write_txt [] [] done w e = ap (λ xs. ok xs) refl
    read_lines-write_txt [] (cstring_item s ∷ others) done w e = cc
    read_lines-write_txt [] (other_item b ∷ others) done w e = cc
    read_lines-write_txt (cstring_item s ∷ children) [] done w e = cc
    read_lines-write_txt (cstring_item s ∷ children) (other_item b ∷ others) done w e = cc
    read_lines-write_txt (other_item a ∷ children) [] done w e = cc
    read_lines-write_txt (other_item a ∷ children) (cstring_item s ∷ others) done w e = cc
    read_lines-write_txt (cstring_item s ∷ children) (cstring_item s' ∷ others) done w e =
        let same : shape children ≡ shape others = cc in
        read_lines-text s s' (replace_all_copy s escape line_end)
          (write_txt replace_all_copy children) (done ++ []) others (replaces s) w.0
        ∙ ap
            (λ xs.
              read_lines (getlines [] (write_txt replace_all_copy children)) [] xs
                (skip_others others).1)
            (ap (λ xs. xs ++ (cstring_item s ∷ (skip_others others).0)) (append-nil done)
              ∙ sym (append_assoc done (cstring_item s ∷ []) (skip_others others).0))
        ∙ read_lines-write_txt children others (done ++ (cstring_item s ∷ [])) w.1 same
        ∙ ap (λ xs. ok xs) (append_assoc done (cstring_item s ∷ []) children)
    read_lines-write_txt (other_item a ∷ children) (other_item b ∷ others) done w e =
        let same : shape children ≡ shape others = cc in
        let item : b ≡ a = cc in
        ap
          (λ xs.
            read_lines (getlines [] (write_txt replace_all_copy children)) [] xs
              (skip_others others).1)
          (ap (λ x. done ++ (other_item x ∷ (skip_others others).0)) item
            ∙ sym (append_assoc done (other_item a ∷ []) (skip_others others).0))
        ∙ read_lines-write_txt children others (done ++ (other_item a ∷ [])) w same
        ∙ ap (λ xs. ok xs) (append_assoc done (other_item a ∷ []) children)

    -- If no line of a string, that is no piece between its escapes, has a newline or is just the forty dashes, then the
    -- text that `WriteTxt` writes is read by `ReadTxt` back into the file, or into one that has other strings between
    -- the same items, and gives it all the strings that were written. `replace_all_copy` is assumed to replace the
    -- escapes by line ends.
    pub read_txt-write_txt :
        (children others : List (Child A))
        → AreTexts children
        → shape children ≡ shape others
        → read_txt (write_txt replace_all_copy children) others ≡ ok children
    unfolding read_txt
    read_txt-write_txt children others w e = read_lines-write_txt children others [] w e
