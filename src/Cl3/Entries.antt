-- ===== src/Cl3/Entries.antt =====
-- The entries that `Cl3::Parse_` of src/format/cl3.cpp makes.
use neptools.Prelude.{
  ℕ, zero, suc, ◌+◌, ◌%◌, ◌^◌, ◌<◌, ◌≡◌, refl, sym, ◌∙◌, true, List, [], ◌∷◌, ◌++◌, leb, length,
  arith, get_or, take, drop, length-take, length-drop, Bool-cases, inl, inr,
}
use mathlib.Core.Path.{subst}
use neptools.Prelude.Bytes.{Bytes, IsBytes}
use neptools.Prelude.Result.{ok, bind-eq-ok, ok-injective}
use neptools.Source.{Source, read, sub_source, slice}
use neptools.Source.Reads.{window, sub_source-window}
use neptools.Source.Struct.{IsBytes-drop}
use neptools.Source.Consumed.{IsReadable, Consumed-IsReadable, read-Consumed}
use neptools.Endian.{Endian, from_endian, from_endian-lt, unpack_endian}
use neptools.Cl3.{Entry, file_entry_size}
use neptools.Cl3.Dump.{Libshit, words}
use neptools.Cl3.Sizes.{IsSized, AreSized}
use neptools.Cl3.Placed.{Behaves, AreWritable}
use neptools.Cl3.Parse.{Found, validate_file_entry, read_entries, set_local}

-- A field of 32 bits.
word-lt : (e : Endian) (bs : Bytes) → IsBytes bs → from_endian e (take 4 bs) < 2 ^ 32
word-lt e [] b = omega (arith, from_endian-lt e [] b)
word-lt e (x ∷ []) b = omega (arith, from_endian-lt e (x ∷ []) b)
word-lt e (x ∷ y ∷ []) b = omega (arith, from_endian-lt e (x ∷ y ∷ []) b)
word-lt e (x ∷ y ∷ z ∷ []) b = omega (arith, from_endian-lt e (x ∷ y ∷ z ∷ []) b)
word-lt e (x ∷ y ∷ z ∷ w ∷ bs) b =
    omega (arith, from_endian-lt e (x ∷ y ∷ z ∷ w ∷ []) (b.0, (b.1.0, (b.1.1.0, (b.1.1.1.0, tt)))))

-- A block that was cut out of a window holds as many bytes as its size says.
sub_source-IsSized :
    (s t : Source) (offset size : ℕ)
    → IsReadable s
    → offset + size < 2 ^ 64
    → sub_source s offset size ≡ ok t
    → length (window t) ≡ t.size
unfolding sub_source slice
sub_source-IsSized s t offset size r small h = elim (Bool-cases (leb (offset + size) s.size)) [
  | inr outside ↦ ground arith
  | inl inside ↦
      let (t', e, w, block, start, size_t) =
        sub_source-window s offset size r.window (ground arith) in
      let same : t' ≡ t = ok-injective (sym e ∙ h) in
      let len : length (window t') ≡ t'.size = omega (
        arith,
        length-take t'.size (drop t'.offset t'.contents),
        length-drop t'.offset t'.contents,
        w.fits,
      ) in
      subst (λ u. length (window u) ≡ u.size) same len
]

-- The entries that the first loop has made.
abbrev pub AreNew : List Entry → Type 0
AreNew [] = Unit {0}
AreNew (x ∷ xs) = (IsSized x.src × (length x.name < 0x200) × (x.links ≡ [])) × AreNew xs

AreNew-append :
    (xs : List Entry) (y : Entry)
    → AreNew xs
    → IsSized y.src × (length y.name < 0x200) × (y.links ≡ [])
    → AreNew (xs ++ (y ∷ []))
AreNew-append [] y h k = (k, tt)
AreNew-append (x ∷ xs) y h k = (h.0, AreNew-append xs y h.1 k)

pub AreNew-AreSized : (xs : List Entry) → AreNew xs → AreSized xs
AreNew-AreSized [] h = tt
AreNew-AreSized (x ∷ xs) h = (h.0.0, AreNew-AreSized xs h.1)

pub AreNew-AreWritable : (all xs : List Entry) → AreNew xs → AreWritable all xs
AreNew-AreWritable all [] h = tt
AreNew-AreWritable all (x ∷ xs) h = (h.0.1, rw h.0.2 tt, AreNew-AreWritable all xs h.1)

emplace_back-AreNew :
    (lib : Libshit)
    → Behaves lib
    → (y : Entry) (entries : List Entry) → AreNew entries
    → IsSized y.src × (length y.name < 0x200) × (y.links ≡ [])
    → AreNew (lib.emplace_back y entries)
emplace_back-AreNew lib b y entries n h = elim (b.appended y entries) [
  | inl kept ↦ subst AreNew (sym kept) n
  | inr added ↦ subst AreNew (sym added) (AreNew-append entries y n h)
]

validate_file_entry-name :
    (lib : Libshit) (name : Bytes) (fields : List ℕ) (size : ℕ) (v : Unit {0})
    → validate_file_entry lib name fields size ≡ ok v
    → lib.is_valid name ≡ true
unfolding validate_file_entry
validate_file_entry-name lib name fields size v h = ground arith

pub read_entries-AreNew :
    (lib : Libshit) (e : Endian) (f : Found) (count i : ℕ) (s : Source) (entries out : List Entry)
    → Behaves lib
    → IsReadable s
    → AreNew entries
    → read_entries lib e f count i s entries ≡ ok out
    → AreNew out
unfolding read_entries unpack_endian
read_entries-AreNew lib e f zero i s entries out b r n h = subst AreNew (ok-injective h) n
read_entries-AreNew lib e f (suc count) i s entries out b r n h =
    let ((bytes, t), is_read, h1) = bind-eq-ok (read file_entry_size s) _ h in
    let fields = unpack_endian e (words 12) (drop 0x200 bytes) in
    let (file_size, is_set, h2) = bind-eq-ok (set_local f.file_size) _ h1 in
    let (valid, is_valid, h3) =
      bind-eq-ok (validate_file_entry lib (take 0x200 bytes) fields file_size) _ h2 in
    let (src, is_inside, h4) =
      bind-eq-ok (sub_source s ((f.file_offset + get_or fields 1 0) % 2 ^ 32) (get_or fields 2 0)) _
        h3 in
    let (taken, is_bytes, len) = read-Consumed file_entry_size s t bytes r (omega arith) is_read in
    let size_lt : get_or fields 2 0 < 2 ^ 32 =
      word-lt e (drop 4 (drop 4 (drop 0x200 bytes)))
        (IsBytes-drop 4 _ (IsBytes-drop 4 _ (IsBytes-drop 0x200 bytes is_bytes))) in
    let sized =
      sub_source-IsSized s src _ (get_or fields 2 0) r (omega (arith, size_lt)) is_inside in
    let terminated =
      b.terminated (take 0x200 bytes)
        (validate_file_entry-name lib _ fields file_size valid is_valid) in
    let short : length (lib.c_str (take 0x200 bytes)) < 0x200 =
      omega (arith, terminated, length-take 0x200 bytes) in
    read_entries-AreNew lib e f count (i + 1) t _ out b (Consumed-IsReadable s t bytes r taken)
      (emplace_back-AreNew lib b _ entries n (sized, short, refl)) h4
