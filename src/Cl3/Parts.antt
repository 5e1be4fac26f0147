-- ===== src/Cl3/Parts.antt =====
-- The parts of the archive that `Cl3::Dump_` of src/format/cl3.cpp writes, one behind the other.
use neptools.Prelude.{
  ◌+◌, ◌-◌, ◌*◌, ◌%◌, ◌^◌, ◌≡◌, refl, sym, ◌∙◌, ℕ, [], ◌∷◌, ◌++◌, length, take, drop, replicate,
  arith, length-append,
}
use mathlib.Core.Path.{subst}
use mathlib.Core.List.{append-nil}
use neptools.Prelude.Bytes.{Bytes}
use neptools.Prelude.Text.{codes}
use neptools.Prelude.Result.{ok}
use neptools.Endian.{Endian, pack_endian}
use neptools.Cl3.{Cl3, header_size, section_size, file_entry_size, link_entry_size, round_up}
use neptools.Cl3.Dump.{
  Libshit, words, dump_cl3, dump_header, dump_section, dump_data, pad_after, files_offset,
  sections_offset, data_offset, link_offset, dump_file_entries, dump_all_links,
}
use neptools.Cl3.Sizes.{
  padded, data_total, AreSized, length-pad_after, length-dump_data, length-dump_section,
  length-dump_header,
}
use neptools.Cl3.Placed.{order_char, block_next}

-- The parts of an archive, one behind the other.
abbrev pub archive_bytes : Cl3 → Bytes → Bytes → Bytes → Bytes → Bytes
archive_bytes c collection link files links =
    dump_header c
    ++ (replicate (sections_offset - header_size) 0
        ++ (dump_section c.endian collection (length c.entries)
              (link_offset c + 2 ^ 64 - files_offset) files_offset
            ++ (dump_section Endian.little link c.link_count (c.link_count * link_entry_size)
                  (link_offset c)
                ++ (pad_after (2 * section_size)
                    ++ (files
                        ++ (pad_after (length c.entries * file_entry_size)
                            ++ (dump_data c.entries ++ links)))))))

pub dump_cl3-ok :
    (lib : Libshit) (c : Cl3) (collection link files links : Bytes)
    → lib.assign 0x20 (codes "FILE_COLLECTION") ≡ ok collection
    → lib.assign 0x20 (codes "FILE_LINK") ≡ ok link
    → dump_file_entries lib c.endian c.entries ((data_offset c + 2 ^ 64 - files_offset) % 2 ^ 32) 0
      ≡ ok files
    → dump_all_links lib c.endian c.entries c.entries ≡ ok links
    → dump_cl3 lib c ≡ ok (archive_bytes c collection link files links)
unfolding dump_cl3
dump_cl3-ok lib c collection link files links a b w v = rw (dump_cl3, a, b, w, v) refl

-- The fields of a `Section`, of which the others are 0, in the order `e`.
abbrev pub section_bytes : Endian → Bytes → ℕ → ℕ → ℕ → Bytes
section_bytes e name count data_size data_offset =
    name ++ pack_endian e (words 12) (count ∷ data_size ∷ data_offset ∷ replicate 9 0)

-- The header of the archive `c` that leads to sections at `at_k`.
abbrev pub header_bytes : Cl3 → ℕ → Bytes
header_bytes c at_k =
    codes "CL3"
    ++ (order_char c.endian ∷ pack_endian c.endian (words 5) (0 ∷ 3 ∷ 2 ∷ at_k ∷ c.field_14 ∷ []))

-- What stands where in the bytes of an archive.
pub record PartsStand (c : Cl3) (collection link files links bytes : Bytes) : Type 0 where
  pub header : take header_size bytes ≡ header_bytes c sections_offset
  pub section :
      take section_size (drop sections_offset bytes)
      ≡ section_bytes c.endian collection
          (length c.entries)
          (link_offset c + 2 ^ 64 - files_offset)
          files_offset
  pub link_section :
      take section_size (drop (sections_offset + section_size) bytes)
      ≡ section_bytes Endian.little link c.link_count
          (c.link_count * link_entry_size)
          (link_offset c)
  pub files_behind : (rest : Bytes) × (drop files_offset bytes ≡ files ++ rest)
  pub data_behind :
      drop (0x100 + padded (file_entry_size * length c.entries)) bytes
      ≡ dump_data c.entries ++ links
  pub links_behind :
      drop (0x100 + padded (file_entry_size * length c.entries) + data_total c.entries) bytes
      ≡ links ++ []
  pub size :
      length bytes
      ≡ 0x100 + padded (file_entry_size * length c.entries) + data_total c.entries + length links

length-archive_bytes :
    (c : Cl3) (collection link files links : Bytes)
    → length collection ≡ 0x20
    → length link ≡ 0x20
    → length files ≡ file_entry_size * length c.entries
    → AreSized c.entries
    → length (archive_bytes c collection link files links)
      ≡ 0x100 + padded (file_entry_size * length c.entries) + data_total c.entries + length links
unfolding sections_offset round_up
length-archive_bytes c collection link files links k l m s =
    let contents = dump_data c.entries ++ links in
    let pads = pad_after (length c.entries * file_entry_size) ++ contents in
    let entries = files ++ pads in
    let gap = pad_after (2 * section_size) ++ entries in
    let second =
      dump_section Endian.little link c.link_count (c.link_count * link_entry_size)
        (link_offset c) in
    let first =
      dump_section c.endian collection (length c.entries) (link_offset c + 2 ^ 64 - files_offset)
        files_offset in
    omega (
      arith,
      m,
      length-append (dump_data c.entries) links,
      length-dump_data c.entries s,
      length-append (pad_after (length c.entries * file_entry_size)) contents,
      length-pad_after (length c.entries * file_entry_size),
      length-append files pads,
      length-append (pad_after (2 * section_size)) entries,
      length-pad_after (2 * section_size),
      length-append second gap,
      length-dump_section Endian.little link c.link_count (c.link_count * link_entry_size)
          (link_offset c) l,
      length-append first (second ++ gap),
      length-dump_section c.endian collection (length c.entries)
          (link_offset c + 2 ^ 64 - files_offset) files_offset k,
      length-append (replicate 0x28 0) (first ++ (second ++ gap)),
      length-append (dump_header c) (replicate 0x28 0 ++ (first ++ (second ++ gap))),
      length-dump_header c,
    )

pub archive_bytes-PartsStand :
    (c : Cl3) (collection link files links : Bytes)
    → length collection ≡ 0x20
    → length link ≡ 0x20
    → length files ≡ file_entry_size * length c.entries
    → AreSized c.entries
    → PartsStand c collection link files links (archive_bytes c collection link files links)
unfolding sections_offset files_offset round_up dump_header dump_section
archive_bytes-PartsStand c collection link files links k l m s =
    let bytes = archive_bytes c collection link files links in
    let gap = block_next bytes 0 0x18 (dump_header c) _ (sym (length-dump_header c)) refl in
    let first = block_next bytes 0x18 0x28 (replicate 0x28 0) _ refl gap.1 in
    let second =
      block_next bytes 0x40 0x50
        (dump_section c.endian collection (length c.entries) (link_offset c + 2 ^ 64 - files_offset)
          files_offset)
        _
        (sym (
          length-dump_section c.endian collection (length c.entries)
            (link_offset c + 2 ^ 64 - files_offset) files_offset k))
        first.1 in
    let padding =
      block_next bytes 0x90 0x50
        (dump_section Endian.little link c.link_count (c.link_count * link_entry_size)
          (link_offset c))
        _
        (sym (
          length-dump_section Endian.little link c.link_count (c.link_count * link_entry_size)
            (link_offset c) l))
        second.1 in
    let entries =
      block_next bytes 0xe0 0x20 (pad_after (2 * section_size)) _
        (omega (arith, length-pad_after (2 * section_size))) padding.1 in
    let behind =
      block_next bytes 0x100 (file_entry_size * length c.entries) files _ (sym m) entries.1 in
    let pads =
      block_next bytes (0x100 + file_entry_size * length c.entries) _
        (pad_after (length c.entries * file_entry_size)) _ refl behind.1 in
    let e : 0x100
          + file_entry_size * length c.entries
          + length (pad_after (length c.entries * file_entry_size))
        ≡ 0x100 + padded (file_entry_size * length c.entries) =
      omega (arith, length-pad_after (length c.entries * file_entry_size)) in
    let at_data = subst (λ at_k. drop at_k bytes ≡ dump_data c.entries ++ links) e pads.1 in
    let tail =
      block_next bytes _ (data_total c.entries) (dump_data c.entries) links
        (sym (length-dump_data c.entries s)) at_data in
    record {
      header = gap.0;
      section = second.0;
      link_section = padding.0;
      files_behind = (_, entries.1);
      data_behind = at_data;
      links_behind = tail.1 ∙ sym (append-nil links);
      size = length-archive_bytes c collection link files links k l m s;
    }
