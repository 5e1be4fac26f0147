-- ===== src/Cl3/Parse.antt =====
-- `Cl3::Parse_` of src/format/cl3.cpp. A local that may be read before it is set is an `Option`, and reading it then is
-- undefined, as is an index beyond the entries: here they end as a failed assertion does.
use neptools.Prelude.{
  ℕ, zero, suc, ◌+◌, ◌-◌, ◌*◌, ◌%◌, ◌^◌, Bool, true, ◌&&◌, ◌||◌, Option, none, some, List, [], ◌∷◌,
  ◌++◌, ◌==◌, leb, ltb, if◌then◌else◌, take, drop, get_or, get_elem?, set,
}
use neptools.Prelude.Bytes.{Bytes}
use neptools.Prelude.Text.{codes, str_eq}
use neptools.Prelude.Result.{Result, ok, err, ◌>>=◌, ◌>>◌, guard, decode_error, assertion}
use neptools.Source.{Source, check_size, pread, read, seek, sub_source}
use neptools.Source.Reads.{window}
use neptools.Endian.{Endian, unpack_endian}
use neptools.Cl3.{Dumpable, Entry, Cl3, header_size, section_size, file_entry_size, link_entry_size}
use neptools.Cl3.Dump.{Libshit, words}

unfoldable pub all_zero : List ℕ → Bool
all_zero [] = true
all_zero (x ∷ xs) = x == 0 && all_zero xs

-- `Header::Validate`: the fields are those behind `endian`.
unfoldable pub validate_header : Bytes → List ℕ → ℕ → Result (Unit {0})
validate_header head fields file_size =
    guard (str_eq (take 3 head) (codes "CL3")) decode_error
    >> guard (get_or head 3 0 == b'L' || get_or head 3 0 == b'B') decode_error
    >> guard (get_or fields 0 0 == 0) decode_error
    >> guard (get_or fields 1 0 == 3) decode_error
    >> guard (leb ((get_or fields 3 0 + get_or fields 2 0 * section_size) % 2 ^ 64) file_size)
        decode_error

-- A block lies in another: the sum has 32 bits.
unfoldable pub is_inside : ℕ → ℕ → ℕ → Bool
is_inside offset size whole = leb offset whole && leb ((offset + size) % 2 ^ 32) whole

-- `Section::Validate`, of the fields behind the name.
unfoldable pub validate_section : Libshit → Bytes → List ℕ → ℕ → Result (Unit {0})
unfolding is_inside all_zero
validate_section lib name fields file_size =
    guard (lib.is_valid name) decode_error
    >> guard (is_inside (get_or fields 2 0) (get_or fields 1 0) file_size) decode_error
    >> guard (all_zero (drop 3 fields)) decode_error

-- `FileEntry::Validate`
unfoldable pub validate_file_entry : Libshit → Bytes → List ℕ → ℕ → Result (Unit {0})
unfolding is_inside all_zero
validate_file_entry lib name fields block_size =
    guard (lib.is_valid name) decode_error
    >> guard (is_inside (get_or fields 1 0) (get_or fields 2 0) block_size) decode_error
    >> guard (all_zero (drop 5 fields)) decode_error

-- `LinkEntry::Validate`
unfoldable pub validate_link : List ℕ → ℕ → ℕ → Result (Unit {0})
unfolding all_zero
validate_link fields i file_count =
    guard (get_or fields 0 0 == 0) decode_error
    >> guard (ltb (get_or fields 1 0) file_count) decode_error
    >> guard (get_or fields 2 0 == i) decode_error
    >> guard (all_zero (drop 3 fields)) decode_error

-- What the loop over the sections finds.
pub record Found : Type 0 where
  pub file_offset : ℕ
  pub file_count : ℕ
  pub file_size : Option ℕ
  pub link_offset : Option ℕ

-- What a section sets.
unfoldable pub find_section : Libshit → Bytes → List ℕ → Found → Result Found
find_section lib name fields f =
    if str_eq (lib.c_str name) (codes "FILE_COLLECTION")
    then ok (record f {
      file_offset = get_or fields 2 0;
      file_count = get_or fields 0 0;
      file_size = some (get_or fields 1 0);
    })
    else if str_eq (lib.c_str name) (codes "FILE_LINK")
    then guard (get_or fields 1 0 == get_or fields 0 0 * link_entry_size) decode_error
      >> ok (record f { link_offset = some (get_or fields 2 0) })
    else ok f

-- The loop over the sections.
unfoldable pub read_sections : Libshit → Endian → ℕ → Source → Found → Result Found
unfolding read validate_section find_section unpack_endian
read_sections lib e zero s f = ok f
read_sections lib e (suc secs) s f = do
  (bytes, t) ← read section_size s
  let name = take 0x20 bytes
  let fields = unpack_endian e (words 12) (drop 0x20 bytes)
  valid ← validate_section lib name fields s.size
  g ← find_section lib name fields f
  read_sections lib e secs t g

-- A local that must have been set.
abbrev pub set_local : Option ℕ → Result ℕ
set_local none = err assertion
set_local (some x) = ok x

-- `MakeSmart<DumpableSource>`: it dumps what it can read.
abbrev pub dumpable_source : Source → Dumpable
dumpable_source s = record { size = s.size; contents = window s }

-- The first loop over the entries, from the `i`-th on: the new objects are numbered.
unfoldable pub read_entries :
    Libshit → Endian → Found → ℕ → ℕ → Source → List Entry → Result (List Entry)
unfolding read validate_file_entry unpack_endian sub_source
read_entries lib e f zero i s entries = ok entries
read_entries lib e f (suc count) i s entries = do
  (bytes, t) ← read file_entry_size s
  let name = take 0x200 bytes
  let fields = unpack_endian e (words 12) (drop 0x200 bytes)
  file_size ← set_local f.file_size
  valid ← validate_file_entry lib name fields file_size
  src ← sub_source s ((f.file_offset + get_or fields 1 0) % 2 ^ 32) (get_or fields 2 0)
  let entry : Entry = record {
    id = i;
    name = lib.c_str name;
    field_200 = get_or fields 0 0;
    links = [];
    src = some (dumpable_source src);
  }
  read_entries lib e f count (i + 1) t (lib.emplace_back entry entries)

-- `&entries[i]`
abbrev pub entry_at : List Entry → ℕ → Result Entry
entry_at entries i = elim (get_elem? entries i) [ none ↦ err assertion | some e ↦ ok e ]

-- The loop over `count` links of an entry, of which the `j`-th comes next. They are read in the machine's own
-- order, whatever `endian` is.
unfoldable pub read_links : Found → List Entry → ℕ → ℕ → ℕ → Source → Result (List ℕ)
unfolding pread validate_link unpack_endian
read_links f entries link_start zero j s = ok []
read_links f entries link_start (suc count) j s = do
  link_offset ← set_local f.link_offset
  bytes ← pread (link_offset + (link_start + j) * link_entry_size) link_entry_size s
  let fields = unpack_endian Endian.little (words 8) bytes
  valid ← validate_link fields j f.file_count
  target ← entry_at entries (get_or fields 1 0)
  links ← read_links f entries link_start count (j + 1) s
  ok (target.id ∷ links)

-- `i < lbase+lcount`, a sum of 32 bits: the number of rounds from `lbase` on.
abbrev pub rounds : ℕ → ℕ → ℕ
rounds link_start link_count = (link_start + link_count) % 2 ^ 32 - link_start

-- The second loop over the entries, from the `i`-th on.
unfoldable pub read_all_links : Endian → Found → ℕ → ℕ → Source → List Entry → Result (List Entry)
unfolding read unpack_endian read_links
read_all_links e f zero i s entries = ok entries
read_all_links e f (suc count) i s entries = do
  (bytes, t) ← read file_entry_size s
  let fields = unpack_endian e (words 12) (drop 0x200 bytes)
  entry ← entry_at entries i
  links ←
      read_links f entries (get_or fields 3 0) (rounds (get_or fields 3 0) (get_or fields 4 0)) 0 s
  read_all_links e f count (i + 1) t (set entries i (record entry { links = entry.links ++ links }))

-- Both loops over the entries.
unfoldable pub parse_entries : Libshit → Endian → Found → Source → Result (List Entry)
unfolding seek read_entries read_all_links
parse_entries lib e f s = do
  t ← seek f.file_offset s
  entries ← read_entries lib e f f.file_count 0 t []
  u ← seek f.file_offset s
  read_all_links e f f.file_count 0 u entries

-- The sections, at the offset in the header.
unfoldable pub parse_sections : Libshit → Endian → List ℕ → Source → Result Found
unfolding seek read_sections
parse_sections lib e fields s = do
  t ← seek (get_or fields 3 0) s
  read_sections lib e (get_or fields 2 0) t
      (record { file_offset = 0; file_count = 0; file_size = none; link_offset = none })

abbrev pub header_endian : Bytes → Endian
header_endian head = if get_or head 3 0 == b'L' then Endian.little else Endian.big

abbrev pub parsed : Endian → List ℕ → List Entry → Cl3
parsed e fields entries = record {
  endian = e;
  field_14 = get_or fields 4 0;
  entries = entries;
  data_size = 0;
  link_count = 0;
}

-- `Parse_`; it does not set `data_size` and `link_count`, `Fixup` does.
unfoldable pub parse_cl3 : Libshit → Source → Result Cl3
unfolding check_size pread validate_header parse_sections parse_entries unpack_endian
parse_cl3 lib s = do
  enough ← check_size header_size s
  head ← pread 0 header_size s
  let fields = unpack_endian (header_endian head) (words 5) (drop 4 head)
  valid ← validate_header head fields s.size
  f ← parse_sections lib (header_endian head) fields s
  linked ← parse_entries lib (header_endian head) f s
  ok (parsed (header_endian head) fields linked)
