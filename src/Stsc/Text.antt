-- ===== src/Stsc/Text.antt =====
-- The text form of `File` of src/format/stsc/file.cpp: the strings of a script, behind each a line of dashes.
pub mod Shape
pub mod Outcome
pub mod Replaced
pub mod RoundTrip
mod Tests
use neptools.Prelude.{
  ℕ, zero, suc, ◌-◌, Bool, true, false, ◌&&◌, ◌||◌, List, [], ◌∷◌, ◌++◌, ◌==◌, length, take, drop,
  replicate, if◌then◌else◌,
}
use neptools.Prelude.Bytes.{Bytes}
use neptools.Prelude.Text.{codes, str_eq}
use neptools.Prelude.Result.{Result, ok, err, ◌>>=◌, ◌>>◌, guard, decode_error, assertion}

-- A child of the context: `CStringItem`, or another item.
pub data Child {ℓ} (A : Type ℓ) : Type ℓ where
  cstring_item : Bytes → Child A
  other_item : A → Child A

-- `"\\n"`, `"\r\n"` and `SEP_DASH`
abbrev pub escape : Bytes
escape = b'\\' ∷ b'n' ∷ []

abbrev pub line_end : Bytes
line_end = b'\r' ∷ b'\n' ∷ []

abbrev pub dashes : Bytes
dashes = replicate 40 b'-'

abbrev pub sep_dash : Bytes
sep_dash = dashes ++ (b'\r' ∷ [])

-- `std::getline` until it fails: behind the last `'\n'` it takes what there is.
unfoldable pub getlines : Bytes → Bytes → List Bytes
getlines line [] = if length line == 0 then [] else line ∷ []
getlines line (c ∷ is) =
    let more = getlines (line ++ (c ∷ [])) is in
    let next = getlines [] is in if c == b'\n' then line ∷ next else more

-- `line.pop_back()` if there is a `'\r'` to take away.
unfoldable pub strip_cr : Bytes → Bytes
strip_cr [] = []
strip_cr (c ∷ []) = if c == b'\r' then [] else c ∷ []
strip_cr (c ∷ d ∷ line) = c ∷ strip_cr (d ∷ line)

module _ {ℓ} {A : Type ℓ} where
  -- `while (it != end && !dynamic_cast<CStringItem*>(&*it)) ++it`: what is passed, and what `it` stands before.
  unfoldable pub skip_others : List (Child A) → List (Child A) × List (Child A)
  skip_others [] = ([], [])
  skip_others (cstring_item s ∷ it) = ([], cstring_item s ∷ it)
  skip_others (other_item a ∷ it) = (other_item a ∷ (skip_others it).0, (skip_others it).1)

  -- The loop of `ReadTxt_`; `done` are the children in front of `it`.
  unfoldable pub read_lines :
      List Bytes → Bytes → List (Child A) → List (Child A) → Result (List (Child A))
  unfolding strip_cr skip_others
  read_lines [] msg done [] = ok done
  read_lines [] msg done (c ∷ it) = err decode_error
  read_lines (line ∷ is) msg done it = elim (str_eq line sep_dash) [
    | true ↦ elim it [
      | [] ↦ err decode_error
      | c ∷ cs ↦ do
        guard (length msg == 0 || str_eq (drop (length msg - 2) msg) escape) assertion
        let (others, next) = skip_others cs
        read_lines is [] (done ++ (cstring_item (take (length msg - 2) msg) ∷ others)) next
    ]
    | false ↦ read_lines is (msg ++ (strip_cr line ++ escape)) done it
  ]

  -- `File::ReadTxt_`
  unfoldable pub read_txt : Bytes → List (Child A) → Result (List (Child A))
  unfolding read_lines getlines skip_others
  read_txt is children =
      let (others, it) = skip_others children in read_lines (getlines [] is) [] others it

  -- `File::WriteTxt_`; `replace_all_copy` is Boost's.
  unfoldable pub write_txt : (Bytes → Bytes → Bytes → Bytes) → List (Child A) → Bytes
  write_txt replace_all_copy [] = []
  write_txt replace_all_copy (cstring_item s ∷ it) =
      replace_all_copy s escape line_end
      ++ (line_end ++ (sep_dash ++ (b'\n' ∷ write_txt replace_all_copy it)))
  write_txt replace_all_copy (other_item a ∷ it) = write_txt replace_all_copy it
