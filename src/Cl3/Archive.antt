-- ===== src/Cl3/Archive.antt =====
-- The archive that `Cl3::Dump_` of src/format/cl3.cpp writes after `Cl3::Fixup`.
use neptools.Prelude.{
  ◌+◌, ◌-◌, ◌*◌, ◌%◌, ◌^◌, ◌<◌, ◌≡◌, refl, sym, ap, ◌∙◌, [], length, take, drop, arith,
}
use mathlib.Core.Path.{subst}
use neptools.Prelude.Bytes.{Bytes}
use neptools.Prelude.Text.{codes}
use neptools.Prelude.Result.{Result, ok}
use neptools.Endian.{Endian}
use neptools.Cl3.{
  Dumpable, Cl3, header_size, section_size, file_entry_size, link_entry_size, fixup, get_size,
  round_up,
}
use neptools.Cl3.Dump.{
  Libshit, dump_cl3, files_offset, sections_offset, data_offset, link_offset, dump_file_entries,
}
use neptools.Cl3.Sizes.{
  padded, data_total, link_total, plain_size, AreSized, round_up-padded, fixup_entries-totals,
}
use neptools.Cl3.Placed.{
  Behaves, AreWritable, FilesStand, DataStands, AllLinksStand, DataStands-dump_data,
}
use neptools.Cl3.Parts.{
  archive_bytes, section_bytes, header_bytes, archive_bytes-PartsStand, dump_cl3-ok,
}
use neptools.Cl3.Written.{dump_file_entries-IsWritten, dump_all_links-IsWritten}

-- An archive has the size that `GetSize` says. Its header leads to two sections, of which the second is in
-- little-endian order whatever that of the archive is. The first leads to the headers of the entries, these to the
-- files and, by numbers, to the links, which stand at the offset in the second section.
pub record IsArchive (lib : Libshit) (c : Cl3) (r : Result Bytes) : Type 0 where
  pub bytes : Bytes
  pub written : r ≡ ok bytes
  pub size : length bytes ≡ get_size c
  pub header : take header_size bytes ≡ header_bytes c sections_offset
  pub section :
      (name : Bytes) × (lib.assign 0x20 (codes "FILE_COLLECTION") ≡ ok name)
      × (take section_size (drop sections_offset bytes)
          ≡ section_bytes c.endian name
              (length c.entries)
              (link_offset c + 2 ^ 64 - files_offset)
              files_offset)
  pub link_section :
      (name : Bytes) × (lib.assign 0x20 (codes "FILE_LINK") ≡ ok name)
      × (take section_size (drop (sections_offset + section_size) bytes)
          ≡ section_bytes Endian.little name c.link_count
              (c.link_count * link_entry_size)
              (link_offset c))
  pub files : FilesStand lib c.endian bytes files_offset c.entries (data_offset c - files_offset) 0
  pub contents : DataStands bytes (data_offset c) c.entries
  pub links : AllLinksStand lib c.endian c.entries bytes (link_offset c) c.entries

-- The sizes and offsets are sums that do not wrap.
record IsLaidOut (c : Cl3) : Type 0 where
  files_at : files_offset ≡ 0x100
  data_at : data_offset c ≡ 0x100 + padded (file_entry_size * length c.entries)
  links_at : link_offset c ≡ data_offset c + data_total c.entries
  whole : get_size c ≡ plain_size c.entries

IsLaidOut-sizes :
    (c : Cl3)
    → c.data_size ≡ data_total c.entries
    → c.link_count ≡ link_total c.entries
    → plain_size c.entries < 2 ^ 32 - 64
    → IsLaidOut c
unfolding data_offset link_offset get_size files_offset sections_offset round_up
IsLaidOut-sizes c d l h =
    let at_data : data_offset c ≡ 0x100 + padded (file_entry_size * length c.entries) =
      round_up-padded 0x100 (file_entry_size * length c.entries) refl (omega (arith, h)) in
    record {
      files_at = refl;
      data_at = at_data;
      links_at = omega (arith, at_data, d, h);
      whole = omega (arith, at_data, d, l, h);
    }

fixup-IsLaidOut :
    (f : Dumpable → Dumpable) (c : Cl3)
    → plain_size (fixup f c).entries < 2 ^ 32 - 64
    → IsLaidOut (fixup f c)
unfolding fixup
fixup-IsLaidOut f c h =
    let totals = fixup_entries-totals f c.entries 0 0 refl (omega (arith, h)) (omega (arith, h)) in
    IsLaidOut-sizes (fixup f c) (totals.0 ∙ omega arith) (totals.1 ∙ omega arith) h

IsLaidOut-IsArchive :
    (lib : Libshit) (c : Cl3)
    → Behaves lib
    → AreSized c.entries
    → AreWritable c.entries c.entries
    → plain_size c.entries < 2 ^ 32 - 64
    → IsLaidOut c
    → IsArchive lib c (dump_cl3 lib c)
IsLaidOut-IsArchive lib c b s w h o =
    let (collection, has_collection, collection_size) =
      b.assigned 0x20 (codes "FILE_COLLECTION") (omega arith) in
    let (link, has_link, link_size) = b.assigned 0x20 (codes "FILE_LINK") (omega arith) in
    let offset : data_offset c - files_offset ≡ (data_offset c + 2 ^ 64 - files_offset) % 2 ^ 32 =
      omega (arith, o.files_at, o.data_at, h) in
    let files =
      dump_file_entries-IsWritten lib c.endian c.entries c.entries (data_offset c - files_offset) 0
        b w (omega (arith, o.files_at, o.data_at)) (omega (arith, o.files_at, o.data_at, h))
        (omega (arith, h)) in
    let links =
      dump_all_links-IsWritten lib c.endian c.entries c.entries b (omega (arith, h)) w
        (omega (arith, h)) in
    let bytes = archive_bytes c collection link files.bytes links.bytes in
    let parts =
      archive_bytes-PartsStand c collection link files.bytes links.bytes collection_size link_size
        files.sized s in
    let files_written =
      subst (λ at_k. dump_file_entries lib c.endian c.entries at_k 0 ≡ ok files.bytes) offset
        files.written in
    record {
      bytes = bytes;
      written =
          dump_cl3-ok lib c collection link files.bytes links.bytes has_collection has_link
            files_written links.written;
      size = parts.size ∙ omega (arith, links.sized) ∙ sym o.whole;
      header = parts.header;
      section = (collection, has_collection, parts.section);
      link_section = (link, has_link, parts.link_section);
      files = files.stands bytes _ files_offset parts.files_behind.1;
      contents =
          DataStands-dump_data c.entries bytes links.bytes (data_offset c) s
            (ap (λ at_k. drop at_k bytes) o.data_at ∙ parts.data_behind);
      links = links.stands bytes [] (link_offset c) (
          ap (λ at_k. drop at_k bytes)
            (o.links_at ∙ ap (λ at_k. at_k + data_total c.entries) o.data_at)
          ∙ parts.links_behind);
    }

-- `Dump_` after `Fixup` writes an archive that is as long as `GetSize` says, with the header, two sections, the headers
-- of the entries, the files and the links. Each stands at the offset that the part leading to it gives, read in the
-- order of the archive, but the links at the offset that the second section gives in little-endian order, also in a
-- big-endian archive. This holds if every file writes as many bytes as its `GetSize` says, the names are shorter than 512
-- bytes, the links lead to entries of the archive, and the archive is smaller than 4 GiB.
pub dump_cl3-IsArchive :
    (lib : Libshit) (f : Dumpable → Dumpable) (c : Cl3)
    → Behaves lib
    → AreSized (fixup f c).entries
    → AreWritable (fixup f c).entries (fixup f c).entries
    → plain_size (fixup f c).entries < 2 ^ 32 - 64
    → IsArchive lib (fixup f c) (dump_cl3 lib (fixup f c))
dump_cl3-IsArchive lib f c b s w h =
    IsLaidOut-IsArchive lib (fixup f c) b s w h (fixup-IsLaidOut f c h)
