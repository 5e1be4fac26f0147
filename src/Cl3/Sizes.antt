-- ===== src/Cl3/Sizes.antt =====
-- The sizes that `Cl3::Fixup` of src/format/cl3.cpp adds up, and those of the parts of an archive.
use neptools.Prelude.{
  ℕ, ◌+◌, ◌-◌, ◌*◌, ◌/◌, ◌%◌, ◌^◌, ◌<◌, ◌≡◌, refl, ◌∙◌, Option, none, some, List, [], ◌∷◌, length,
  replicate, arith, length-append, length-replicate,
}
use neptools.Prelude.Bytes.{Bytes}
use neptools.Endian.{Endian, length-pack_endian}
use neptools.Cl3.{
  Dumpable, Entry, Cl3, round_up, header_size, section_size, file_entry_size, link_entry_size,
  src_size, fixup_src, fixup_entries,
}
use neptools.Cl3.Dump.{
  dump_src, dump_data, pad_after, sections_offset, dump_header, dump_section, dump_file_entry,
  dump_link, words,
}

-- A size that is padded.
abbrev pub padded : ℕ → ℕ
padded s = (s + 63) / 64 * 64

abbrev pub data_total : List Entry → ℕ
data_total [] = 0
data_total (e ∷ entries) = padded (src_size e.src) + data_total entries

abbrev pub link_total : List Entry → ℕ
link_total [] = 0
link_total (e ∷ entries) = length e.links + link_total entries

-- The size of an archive, as a sum that does not wrap.
abbrev pub plain_size : List Entry → ℕ
plain_size entries =
    0x100
    + padded (file_entry_size * length entries)
    + data_total entries
    + link_entry_size * link_total entries

-- A source writes as many bytes as its `GetSize` says.
abbrev pub IsSized : Option Dumpable → Type 0
IsSized none = Unit {0}
IsSized (some d) = length d.contents ≡ d.size

abbrev pub AreSized : List Entry → Type 0
AreSized [] = Unit {0}
AreSized (e ∷ entries) = IsSized e.src × AreSized entries

pub round_up-padded :
    (d s : ℕ) → d % 64 ≡ 0 → d + s + 63 < 2 ^ 32 → round_up ((d + s) % 2 ^ 64) ≡ d + padded s
unfolding round_up
round_up-padded d s h k = omega arith

-- The loop of `Fixup` adds up the padded sizes, and the links.
pub fixup_entries-totals :
    (f : Dumpable → Dumpable) (entries : List Entry) (d l : ℕ)
    → let r = fixup_entries f entries d l in
      d % 64 ≡ 0
      → d + data_total r.0 < 2 ^ 32 - 64
      → l + link_total r.0 < 2 ^ 32
      → (r.1 ≡ d + data_total r.0) × (r.2 ≡ l + link_total r.0)
unfolding fixup_entries
fixup_entries-totals f [] d l h k m = (omega arith, omega arith)
fixup_entries-totals f (e ∷ entries) d l h k m =
    let s = src_size (fixup_src f e.src) in
    let r = fixup_entries f entries (round_up ((d + s) % 2 ^ 64)) ((l + length e.links) % 2 ^ 32) in
    let up : round_up ((d + s) % 2 ^ 64) ≡ d + padded s =
      round_up-padded d s h (omega (arith, k)) in
    let ih =
      fixup_entries-totals f entries (round_up ((d + s) % 2 ^ 64)) ((l + length e.links) % 2 ^ 32)
        (omega (arith, up, h)) (omega (arith, up, k)) (omega (arith, m)) in
    (omega (arith, ih.0, up), omega (arith, ih.1, m))

pub length-pad_after : (s : ℕ) → s + length (pad_after s) ≡ padded s
unfolding pad_after
length-pad_after s = omega (arith, length-replicate {A = ℕ} ((64 - s % 64) % 64) 0)

pub length-dump_src :
    (src : Option Dumpable) → IsSized src → length (dump_src src) ≡ padded (src_size src)
unfolding dump_src
length-dump_src none h = omega arith
length-dump_src (some d) h =
    omega (arith, h, length-append d.contents (pad_after d.size), length-pad_after d.size)

pub length-dump_data :
    (entries : List Entry) → AreSized entries → length (dump_data entries) ≡ data_total entries
unfolding dump_data
length-dump_data [] h = refl
length-dump_data (e ∷ entries) h = omega (
  arith,
  length-append (dump_src e.src) (dump_data entries),
  length-dump_src e.src h.0,
  length-dump_data entries h.1,
)

pub length-dump_file_entry :
    (e : Endian) (name : Bytes) (entry : Entry) (offset link_i : ℕ)
    → length name ≡ 0x200
    → length (dump_file_entry e name entry offset link_i) ≡ file_entry_size
unfolding dump_file_entry
length-dump_file_entry e name entry offset link_i h =
    length-append name _
    ∙ omega (
      arith,
      h,
      length-pack_endian e (words 12)
          (entry.field_200
            ∷ offset
            ∷ src_size entry.src
            ∷ link_i
            ∷ length entry.links
            ∷ replicate 7 0)
          refl,
    )

pub length-dump_section :
    (e : Endian) (name : Bytes) (count size offset : ℕ)
    → length name ≡ 0x20
    → length (dump_section e name count size offset) ≡ section_size
unfolding dump_section
length-dump_section e name count size offset h =
    length-append name _
    ∙ omega (arith, h, length-pack_endian e (words 12) (count ∷ size ∷ offset ∷ replicate 9 0) refl)

pub length-dump_header : (c : Cl3) → length (dump_header c) ≡ header_size
unfolding dump_header
length-dump_header c = omega (
  arith,
  length-pack_endian c.endian (words 5) (0 ∷ 3 ∷ 2 ∷ sections_offset ∷ c.field_14 ∷ []) refl,
)

pub length-dump_link : (e : Endian) (file i : ℕ) → length (dump_link e file i) ≡ link_entry_size
unfolding dump_link
length-dump_link e file i = length-pack_endian e (words 8) (0 ∷ file ∷ i ∷ replicate 5 0) refl
