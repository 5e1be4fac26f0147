-- ===== src/Cl3/Tests.antt =====
-- src/format/cl3.cpp on an archive of two files, the second of which links to the first.
use neptools.Prelude.Bytes.{from_le}
use neptools.Source.{slice}
use neptools.Prelude.Bytes.{to_le}
use neptools.Prelude.{
  ℕ, zero, suc, ◌+◌, ◌-◌, ◌<◌, ◌≡◌, refl, true, Option, none, some, List, [], ◌∷◌, ◌++◌, ◌==◌, ltb,
  if◌then◌else◌, length, replicate, arith, Bool-cases, inl, inr, length-append, length-replicate,
}
use neptools.Prelude.Bytes.{Bytes}
use neptools.Prelude.Text.{codes, str_eq}
use neptools.Prelude.Result.{Result, ok, err, runtime_error, out_of_range}
use neptools.Endian.{Endian}
use neptools.Cl3.{Dumpable, Entry, Cl3, fixup, get_size}
use neptools.Cl3.Dump.{Libshit, dump_cl3, dump_links}
use neptools.Cl3.Placed.{IdAt, Behaves}
use neptools.Prelude.{Bool, false, ◌||◌, ◌⊎◌}
use neptools.Prelude.Bytes.{are_bytes-IsBytes}
use neptools.Source.{from_memory}
use neptools.Source.Consumed.{IsReadable}
use neptools.Cl3.Parse.{parse_cl3}
use neptools.Cl3.Parsed.{parse_cl3-dump_cl3}
use neptools.Cl3.Archive.{IsArchive, dump_cl3-IsArchive}

zero_filled : ℕ → Bytes → Result Bytes
zero_filled n s =
    if ltb (length s) n then ok (s ++ replicate (n - length s) 0) else err out_of_range

map_suc : Option ℕ → Option ℕ
map_suc none = none
map_suc (some i) = some (suc i)

place : ℕ → List Entry → Option ℕ
unfolding map_suc
place id [] = none
place id (e ∷ entries) = if e.id == id then some 0 else map_suc (place id entries)

has_end : Bytes → Bool
has_end [] = false
has_end (b ∷ bs) = b == 0 || has_end bs

up_to_end : Bytes → Bytes
up_to_end [] = []
up_to_end (b ∷ bs) = let rest = up_to_end bs in if b == 0 then [] else b ∷ rest

has_name : Bytes → List Entry → Bool
unfolding str_eq
has_name name [] = false
has_name name (e ∷ entries) = str_eq e.name name || has_name name entries

add_new : Entry → List Entry → List Entry
unfolding has_name
add_new e entries = if has_name e.name entries then entries else entries ++ (e ∷ [])

abbrev lib : Libshit
lib = record {
  assign = zero_filled;
  is_valid = has_end;
  c_str = up_to_end;
  position = place;
  emplace_back = add_new;
}

zero_filled-assigned :
    (n : ℕ) (s : Bytes) → length s < n → (bs : Bytes) × (zero_filled n s ≡ ok bs) × (length bs ≡ n)
unfolding zero_filled
zero_filled-assigned n s h =
    let l : ltb (length s) n ≡ true = ground arith in
    (
      s ++ replicate (n - length s) 0,
      rw (zero_filled, l) refl,
      omega (
        arith,
        length-append s (replicate (n - length s) 0),
        length-replicate {A = ℕ} (n - length s) 0,
      ),
    )

place-IdAt :
    (i id : ℕ) (entries : List Entry)
    → IdAt i id entries
    → (j : ℕ) × (place id entries ≡ some j) × IdAt j id entries
unfolding place map_suc
place-IdAt i id [] h = absurd h
place-IdAt zero id (e ∷ entries) h =
    let y : e.id == id ≡ true = ground arith in (0, rw (place, y) refl, h)
place-IdAt (suc i) id (e ∷ entries) h = elim (Bool-cases (e.id == id)) [
  | inl y ↦ let same : e.id ≡ id = ground arith in (0, rw (place, y) refl, same)
  | inr later ↦ let ih = place-IdAt i id entries h in (suc ih.0, rw (place, later, ih.1) refl, ih.2)
]

up_to_end-terminated : (bs : Bytes) → has_end bs ≡ true → length (up_to_end bs) < length bs
unfolding up_to_end has_end
up_to_end-terminated [] h = cc
up_to_end-terminated (b ∷ bs) h = elim (Bool-cases (b == 0)) [
  | inl y ↦ rw (up_to_end, y) (omega arith)
  | inr n ↦
      let ih : length (up_to_end bs) < length bs = up_to_end-terminated bs (ground arith) in
      rw (up_to_end, n) (omega (arith, ih))
]

add_new-appended :
    (e : Entry) (entries : List Entry)
    → (add_new e entries ≡ entries) ⊎ (add_new e entries ≡ entries ++ (e ∷ []))
unfolding add_new
add_new-appended e entries = elim (Bool-cases (has_name e.name entries)) [
  | inl y ↦ inl (rw (add_new, y) refl)
  | inr n ↦ inr (rw (add_new, n) refl)
]

lib-Behaves : Behaves lib
lib-Behaves = record {
  assigned = zero_filled-assigned;
  terminated = up_to_end-terminated;
  appended = add_new-appended;
  member = place-IdAt;
}

abbrev first : Entry
first = record {
  id = 7;
  name = codes "a";
  field_200 = 5;
  links = [];
  src = some (record { size = 3; contents = 1 ∷ 2 ∷ 3 ∷ [] });
}

abbrev second : Entry
second = record { id = 9; name = codes "main.DAT"; field_200 = 0; links = 7 ∷ []; src = none }

abbrev archive : Cl3
archive = record {
  endian = Endian.little;
  field_14 = 0;
  entries = first ∷ second ∷ [];
  data_size = 0;
  link_count = 0;
}

abbrev same : Dumpable → Dumpable
same d = d

get_size_once : get_size (fixup same archive) ≡ 0x100 + 0x480 + 0x40 + 0x20
unfolding get_size fixup
get_size_once = refl

gone : dump_links lib Endian.little archive.entries (8 ∷ []) 0 ≡ err runtime_error
unfolding dump_links place
gone = refl

dump_cl3-IsArchive_example : IsArchive lib (fixup same archive) (dump_cl3 lib (fixup same archive))
unfolding fixup
dump_cl3-IsArchive_example =
    dump_cl3-IsArchive lib same archive lib-Behaves (refl, (tt, tt))
      (omega arith, tt, (omega arith, ((0, refl), tt), tt)) (omega arith)

-- The bytes of the archive.
abbrev written : Result Bytes → Bytes
written (ok bytes) = bytes
written (err thrown) = []

abbrev file : Bytes
file = written (dump_cl3 lib (fixup same archive))

abbrev reparsed : Cl3
reparsed = record {
  endian = Endian.little;
  field_14 = 0;
  entries =
      (record first { id = 0 })
      ∷ (record second { id = 1; links = 0 ∷ []; src = some (record { size = 0; contents = [] }) })
      ∷ [];
  data_size = 0;
  link_count = 0;
}

parsed_again : parse_cl3 lib (from_memory file) ≡ ok reparsed
unfolding parse_cl3 dump_cl3 zero_filled fixup place to_le str_eq from_le has_end up_to_end slice
    add_new
parsed_again = refl

file-IsReadable : IsReadable (from_memory file)
unfolding dump_cl3 zero_filled fixup place to_le
file-IsReadable = record {
  window = record { fits = omega arith; addressable = omega arith };
  bytes = are_bytes-IsBytes file refl;
  in_window = omega arith;
  small = omega arith;
}

parse_cl3-dump_cl3_example :
    IsArchive lib (fixup same reparsed) (dump_cl3 lib (fixup same reparsed))
unfolding fixup
parse_cl3-dump_cl3_example =
    parse_cl3-dump_cl3 lib same (from_memory file) reparsed lib-Behaves file-IsReadable (λ d h. h)
      parsed_again (omega arith)
