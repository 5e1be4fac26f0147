-- ===== src/Cl3/Placed.antt =====
-- Where `Cl3::Dump_` of src/format/cl3.cpp writes the entries, the files and the links of an archive.
use neptools.Prelude.{
  ℕ, zero, suc, ◌+◌, ◌*◌, ◌<◌, ◌≡◌, sym, ap, ◌∙◌, ◌⊎◌, true, Option, none, some, List, [], ◌∷◌,
  ◌++◌, length, take, drop, replicate,
}
use mathlib.Core.List.{append_assoc}
use neptools.Prelude.Bytes.{Bytes}
use neptools.Prelude.Slices.{take-append, drop-append, drop-drop}
use neptools.Prelude.Result.{ok}
use neptools.Endian.{Endian, pack_endian}
use neptools.Cl3.{Dumpable, Entry, file_entry_size, link_entry_size, src_size}
use neptools.Cl3.Dump.{Libshit, words, dump_src, dump_data, index_of}
use neptools.Cl3.Sizes.{padded, IsSized, AreSized, length-dump_src}

-- The `i`-th entry is `id`.
abbrev pub IdAt : ℕ → ℕ → List Entry → Type 0
IdAt i id [] = ⊥
IdAt zero id (e ∷ entries) = e.id ≡ id
IdAt (suc i) id (e ∷ entries) = IdAt i id entries

-- What libshit promises: a string that is shorter than a `FixedString` can be assigned to it, the string in a valid one
-- is shorter than it, an entry of the map is found in its place, and `emplace_back` puts an entry at the end, or leaves
-- the map as it is.
pub record Behaves (lib : Libshit) : Type 0 where
  pub assigned :
      (n : ℕ) (s : Bytes) → length s < n → (bs : Bytes) × (lib.assign n s ≡ ok bs) × (length bs ≡ n)
  pub terminated : (bs : Bytes) → lib.is_valid bs ≡ true → length (lib.c_str bs) < length bs
  pub appended :
      (e : Entry) (entries : List Entry)
      → (lib.emplace_back e entries ≡ entries) ⊎ (lib.emplace_back e entries ≡ entries ++ (e ∷ []))
  pub member :
      (i id : ℕ) (entries : List Entry)
      → IdAt i id entries
      → (j : ℕ) × (lib.position id entries ≡ some j) × IdAt j id entries

-- All links lead to entries of the archive.
abbrev pub AreLinked : List Entry → List ℕ → Type 0
AreLinked all [] = Unit {0}
AreLinked all (link ∷ links) = ((i : ℕ) × IdAt i link all) × AreLinked all links

-- The names fit, and the links lead to entries of the archive.
abbrev pub AreWritable : List Entry → List Entry → Type 0
AreWritable all [] = Unit {0}
AreWritable all (e ∷ entries) =
    (length e.name < 0x200) × AreLinked all e.links × AreWritable all entries

-- The headers of the entries stand at `at`: a name, and behind it the fields, with the offsets of the files from
-- `offset` on and the numbers of the links from `link_i` on.
abbrev pub FilesStand : Libshit → Endian → Bytes → ℕ → List Entry → ℕ → ℕ → Type 0
FilesStand lib e file at_k [] offset link_i = Unit {0}
FilesStand lib e file at_k (x ∷ xs) offset link_i =
    ((name : Bytes) × (lib.assign 0x200 x.name ≡ ok name)
      × (take file_entry_size (drop at_k file)
          ≡ name
            ++ pack_endian e (words 12)
                (x.field_200 ∷ offset ∷ src_size x.src ∷ link_i ∷ length x.links ∷ replicate 7 0)))
    × FilesStand lib e file (at_k + file_entry_size) xs (offset + padded (src_size x.src))
        (link_i + length x.links)

abbrev pub SrcStands : Bytes → ℕ → Option Dumpable → Type 0
SrcStands file at_k none = Unit {0}
SrcStands file at_k (some d) = take d.size (drop at_k file) ≡ d.contents

-- The files stand at `at`, each padded.
abbrev pub DataStands : Bytes → ℕ → List Entry → Type 0
DataStands file at_k [] = Unit {0}
DataStands file at_k (x ∷ xs) =
    SrcStands file at_k x.src × DataStands file (at_k + padded (src_size x.src)) xs

-- The links of an entry stand at `at`, numbered from `i` on, and lead to the places of the entries.
abbrev pub LinksStand : Libshit → Endian → List Entry → Bytes → ℕ → List ℕ → ℕ → Type 0
LinksStand lib e all file at_k [] i = Unit {0}
LinksStand lib e all file at_k (link ∷ links) i =
    ((take link_entry_size (drop at_k file)
        ≡ pack_endian e (words 8) (0 ∷ index_of lib all link ∷ i ∷ replicate 5 0))
      × IdAt (index_of lib all link) link all)
    × LinksStand lib e all file (at_k + link_entry_size) links (i + 1)

abbrev pub AllLinksStand : Libshit → Endian → List Entry → Bytes → ℕ → List Entry → Type 0
AllLinksStand lib e all file at_k [] = Unit {0}
AllLinksStand lib e all file at_k (x ∷ xs) =
    LinksStand lib e all file at_k x.links 0
    × AllLinksStand lib e all file (at_k + link_entry_size * length x.links) xs

-- The byte of the header that tells the order.
abbrev pub order_char : Endian → ℕ
order_char Endian.little = b'L'
order_char Endian.big = b'B'

-- The block at the front of what is left, and what is left behind it.
pub block_next :
    (file : Bytes) (at_k len : ℕ) (x rest : Bytes)
    → len ≡ length x
    → drop at_k file ≡ x ++ rest
    → (take len (drop at_k file) ≡ x) × (drop (at_k + len) file ≡ rest)
block_next file at_k len x rest l h = (
  ap (take len) h ∙ ap (λ n. take n (x ++ rest)) l ∙ take-append x rest,
  sym (drop-drop len at_k file)
      ∙ ap (drop len) h
      ∙ ap (λ n. drop n (x ++ rest)) l
      ∙ drop-append x rest,
)

SrcStands-dump_src :
    (src : Option Dumpable) (file rest : Bytes) (at_k : ℕ)
    → IsSized src
    → drop at_k file ≡ dump_src src ++ rest
    → SrcStands file at_k src
unfolding dump_src
SrcStands-dump_src none file rest at_k s h = tt
SrcStands-dump_src (some d) file rest at_k s h =
    (block_next file at_k d.size d.contents _ (sym s) (h ∙ append_assoc d.contents _ rest)).0

pub DataStands-dump_data :
    (entries : List Entry) (file rest : Bytes) (at_k : ℕ)
    → AreSized entries
    → drop at_k file ≡ dump_data entries ++ rest
    → DataStands file at_k entries
unfolding dump_data
DataStands-dump_data [] file rest at_k s h = tt
DataStands-dump_data (x ∷ xs) file rest at_k s h =
    let h' = h ∙ append_assoc (dump_src x.src) (dump_data xs) rest in
    let next =
      block_next file at_k (padded (src_size x.src)) (dump_src x.src) _
        (sym (length-dump_src x.src s.0)) h' in
    (SrcStands-dump_src x.src file _ at_k s.0 h', DataStands-dump_data xs file rest _ s.1 next.1)
