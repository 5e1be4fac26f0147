-- ===== src/Cl3/Dump.antt =====
-- `Cl3::Dump_` and `Cl3::IndexOf` of src/format/cl3.cpp. What is written is a list of bytes.
use neptools.Prelude.{
  ℕ, zero, suc, ◌+◌, ◌-◌, ◌*◌, ◌%◌, ◌^◌, Bool, true, false, Option, none, some, List, [], ◌∷◌, ◌++◌,
  ◌==◌, if◌then◌else◌, length, replicate,
}
use neptools.Prelude.Bytes.{Bytes}
use neptools.Prelude.Text.{codes}
use neptools.Prelude.Result.{Result, ok, ◌>>=◌, guard, runtime_error}
use neptools.Endian.{Endian, pack_endian}
use neptools.Cl3.{
  Dumpable, Entry, Cl3, round_up, header_size, section_size, file_entry_size, link_entry_size,
  src_size,
}

-- What the archive calls of libshit: the bytes of a `FixedString` of `n` bytes that a string was assigned to, and
-- from its bytes `is_valid` and `c_str`; the place of an entry in an `OrderedMap`, by its number, and `emplace_back`.
pub record Libshit : Type 0 where
  pub assign : ℕ → Bytes → Result Bytes
  pub is_valid : Bytes → Bool
  pub c_str : Bytes → Bytes
  pub position : ℕ → List Entry → Option ℕ
  pub emplace_back : Entry → List Entry → List Entry

-- The fields behind `magic`, `endian` and the names.
abbrev pub words : ℕ → List ℕ
words zero = []
words (suc n) = 4 ∷ words n

-- `sink.Pad((PAD_BYTES - (size & PAD)) & PAD)`
unfoldable pub pad_after : ℕ → Bytes
pad_after size = replicate ((64 - size % 64) % 64) 0

-- The offsets that `Dump_` starts with.
unfoldable pub sections_offset : ℕ
unfolding round_up
sections_offset = round_up header_size

unfoldable pub files_offset : ℕ
unfolding sections_offset round_up
files_offset = round_up (sections_offset + section_size * 2)

unfoldable pub data_offset : Cl3 → ℕ
unfolding round_up files_offset
data_offset c = round_up ((files_offset + file_entry_size * length c.entries) % 2 ^ 64)

unfoldable pub link_offset : Cl3 → ℕ
unfolding data_offset
link_offset c = (data_offset c + c.data_size) % 2 ^ 64

abbrev endian_char : Endian → ℕ
endian_char Endian.little = b'L'
endian_char Endian.big = b'B'

unfoldable pub dump_header : Cl3 → Bytes
unfolding pack_endian sections_offset
dump_header c =
    codes "CL3"
    ++ (endian_char c.endian
        ∷ pack_endian c.endian (words 5) (0 ∷ 3 ∷ 2 ∷ sections_offset ∷ c.field_14 ∷ []))

-- A `Section` whose other fields are 0.
unfoldable pub dump_section : Endian → Bytes → ℕ → ℕ → ℕ → Bytes
unfolding pack_endian
dump_section e name count data_size data_offset =
    name ++ pack_endian e (words 12) (count ∷ data_size ∷ data_offset ∷ replicate 9 0)

-- A `FileEntry` whose other fields are 0.
unfoldable pub dump_file_entry : Endian → Bytes → Entry → ℕ → ℕ → Bytes
unfolding pack_endian
dump_file_entry e name entry offset link_i =
    name
    ++ pack_endian e (words 12) (
        entry.field_200 ∷ offset ∷ src_size entry.src ∷ link_i ∷ length entry.links ∷ replicate 7 0)

-- The loop over the entries for their headers, with `offset` and `link_i`, which have 32 bits.
unfoldable pub dump_file_entries : Libshit → Endian → List Entry → ℕ → ℕ → Result Bytes
unfolding dump_file_entry round_up
dump_file_entries lib e [] offset link_i = ok []
dump_file_entries lib e (entry ∷ entries) offset link_i = do
  name ← lib.assign 0x200 entry.name
  rest ←
      dump_file_entries lib e entries (round_up ((offset + src_size entry.src) % 2 ^ 64))
        ((link_i + length entry.links) % 2 ^ 32)
  ok (dump_file_entry e name entry offset link_i ++ rest)

-- A file, if the entry has one.
unfoldable pub dump_src : Option Dumpable → Bytes
unfolding pad_after
dump_src none = []
dump_src (some d) = d.contents ++ pad_after d.size

-- The loop that writes the files.
unfoldable pub dump_data : List Entry → Bytes
unfolding dump_src
dump_data [] = []
dump_data (entry ∷ entries) = dump_src entry.src ++ dump_data entries

-- `IndexOf`: -1 when the entry is gone.
unfoldable pub index_of : Libshit → List Entry → ℕ → ℕ
index_of lib entries link = elim (lib.position link entries) [
  | none ↦ 2 ^ 32 - 1
  | some i ↦ i % 2 ^ 32
]

-- A `LinkEntry` whose other fields are 0.
unfoldable pub dump_link : Endian → ℕ → ℕ → Bytes
unfolding pack_endian
dump_link e linked_file_id link_id =
    pack_endian e (words 8) (0 ∷ linked_file_id ∷ link_id ∷ replicate 5 0)

-- The loop over the links of an entry, from the `i`-th on.
unfoldable pub dump_links : Libshit → Endian → List Entry → List ℕ → ℕ → Result Bytes
unfolding dump_link index_of
dump_links lib e entries [] i = ok []
dump_links lib e entries (link ∷ links) i = do
  let linked_file_id = index_of lib entries link
  there ← guard (if linked_file_id == 2 ^ 32 - 1 then false else true) runtime_error
  rest ← dump_links lib e entries links ((i + 1) % 2 ^ 32)
  ok (dump_link e linked_file_id i ++ rest)

unfoldable pub dump_all_links : Libshit → Endian → List Entry → List Entry → Result Bytes
unfolding dump_links
dump_all_links lib e entries [] = ok []
dump_all_links lib e entries (entry ∷ rest) = do
  links ← dump_links lib e entries entry.links 0
  more ← dump_all_links lib e entries rest
  ok (links ++ more)

-- `Dump_`: the second section is written in the machine's own order, whatever `endian` is.
unfoldable pub dump_cl3 : Libshit → Cl3 → Result Bytes
unfolding dump_header dump_section dump_file_entries dump_data dump_all_links pad_after link_offset
    files_offset sections_offset
dump_cl3 lib c = do
  collection ← lib.assign 0x20 (codes "FILE_COLLECTION")
  link ← lib.assign 0x20 (codes "FILE_LINK")
  files ←
      dump_file_entries lib c.endian c.entries ((data_offset c + 2 ^ 64 - files_offset) % 2 ^ 32) 0
  links ← dump_all_links lib c.endian c.entries c.entries
  ok (
      dump_header c
      ++ (replicate (sections_offset - header_size) 0
          ++ (dump_section c.endian collection (length c.entries)
                (link_offset c + 2 ^ 64 - files_offset) files_offset
              ++ (dump_section Endian.little link c.link_count (c.link_count * link_entry_size)
                    (link_offset c)
                  ++ (pad_after (2 * section_size)
                      ++ (files
                          ++ (pad_after (length c.entries * file_entry_size)
                              ++ (dump_data c.entries ++ links))))))))
