-- ===== src/Cl3/Parsed.antt =====
-- What `Cl3::Parse_` of src/format/cl3.cpp reads can be written again.
use neptools.Prelude.{
  ℕ, zero, suc, ◌+◌, ◌-◌, ◌*◌, ◌^◌, ◌<◌, ◌≡◌, refl, sym, ap, ◌∙◌, some, List, [], ◌∷◌, ◌++◌, leb,
  length, arith, get_elem?, get_or, set, drop, Bool-cases, inl, inr,
}
use mathlib.Core.Path.{subst}
use neptools.Prelude.Result.{ok, bind-eq-ok, ok-injective}
use neptools.Source.{Source, read, pread, check_size, seek}
use neptools.Source.Consumed.{IsReadable}
use neptools.Endian.{Endian, unpack_endian}
use neptools.Cl3.{Dumpable, Entry, Cl3, fixup, header_size, file_entry_size, link_entry_size}
use neptools.Cl3.Dump.{Libshit, words, dump_cl3}
use neptools.Cl3.Sizes.{AreSized, plain_size}
use neptools.Cl3.Placed.{Behaves, AreLinked, AreWritable}
use neptools.Cl3.Linked.{
  AreWritable-map, AreLinked-append, IdAt-get, IdAt-set, AreWritable-set, AreSized-set,
  AreWritable-get, AreSized-get, AreWritable-fixup, AreSized-fixup,
}
use neptools.Cl3.Archive.{IsArchive, dump_cl3-IsArchive}
use neptools.Cl3.Parse.{
  Found, validate_header, read_entries, read_links, read_all_links, set_local, entry_at, rounds,
  validate_link, parse_entries, parse_sections, header_endian, parse_cl3,
}
use neptools.Cl3.Entries.{AreNew-AreSized, AreNew-AreWritable, read_entries-AreNew}

entry_at-get :
    (entries : List Entry) (i : ℕ) (x : Entry)
    → entry_at entries i ≡ ok x
    → get_elem? entries i ≡ some x
entry_at-get [] i x h = cc
entry_at-get (e ∷ entries) zero x h = ap some (ok-injective h)
entry_at-get (e ∷ entries) (suc i) x h = entry_at-get entries i x h

-- Every link that is read leads to an entry.
read_links-AreLinked :
    (f : Found) (entries : List Entry) (link_start count j : ℕ) (s : Source) (links : List ℕ)
    → read_links f entries link_start count j s ≡ ok links
    → AreLinked entries links
unfolding read_links unpack_endian
read_links-AreLinked f entries link_start zero j s links h =
    subst (AreLinked entries) (ok-injective h) tt
read_links-AreLinked f entries link_start (suc count) j s links h =
    let (link_offset, is_set, h1) = bind-eq-ok (set_local f.link_offset) _ h in
    let (bytes, is_read, h2) =
      bind-eq-ok (pread (link_offset + (link_start + j) * link_entry_size) link_entry_size s) _
        h1 in
    let fields = unpack_endian Endian.little (words 8) bytes in
    let (valid, is_valid, h3) = bind-eq-ok (validate_link fields j f.file_count) _ h2 in
    let (target, is_there, h4) = bind-eq-ok (entry_at entries (get_or fields 1 0)) _ h3 in
    let (rest, are_read, h5) = bind-eq-ok (read_links f entries link_start count (j + 1) s) _ h4 in
    let there =
      IdAt-get (get_or fields 1 0) entries target (entry_at-get entries _ target is_there) in
    subst (AreLinked entries) (ok-injective h5) (
      (get_or fields 1 0, there),
      read_links-AreLinked f entries link_start count (j + 1) s rest are_read,
    )

read_all_links-AreWritable :
    (e : Endian) (f : Found) (count i : ℕ) (s : Source) (entries out : List Entry)
    → AreSized entries
    → AreWritable entries entries
    → read_all_links e f count i s entries ≡ ok out
    → AreSized out × AreWritable out out
unfolding read_all_links unpack_endian
read_all_links-AreWritable e f zero i s entries out z w h =
    subst (λ es. AreSized es × AreWritable es es) (ok-injective h) (z, w)
read_all_links-AreWritable e f (suc count) i s entries out z w h =
    let ((bytes, t), is_read, h1) = bind-eq-ok (read file_entry_size s) _ h in
    let fields = unpack_endian e (words 12) (drop 0x200 bytes) in
    let (entry, is_there, h2) = bind-eq-ok (entry_at entries i) _ h1 in
    let (links, are_read, h3) =
      bind-eq-ok
        (read_links f entries (get_or fields 3 0) (rounds (get_or fields 3 0) (get_or fields 4 0)) 0
          s)
        _ h2 in
    let got = entry_at-get entries i entry is_there in
    let (short, linked) = AreWritable-get entries i entries entry got w in
    let all_linked =
      AreLinked-append entries entry.links links linked
        (read_links-AreLinked f entries _ _ 0 s links are_read) in
    let y : Entry = record entry { links = entry.links ++ links } in
    read_all_links-AreWritable e f count (i + 1) t (set entries i y) out
      (AreSized-set i entries y (AreSized-get i entries entry got z) z)
      (AreWritable-map entries (set entries i y) (set entries i y)
        (λ j id there. IdAt-set i j id entries entry y got refl there)
        (AreWritable-set entries i entries y short all_linked w))
      h3

seek-IsReadable : (pos : ℕ) (s t : Source) → IsReadable s → seek pos s ≡ ok t → IsReadable t
unfolding seek
seek-IsReadable pos s t r h = elim (Bool-cases (leb pos s.size)) [
  | inr beyond ↦ absurd (ground arith)
  | inl inside ↦
      let e : seek pos s ≡ ok (record s { get = pos }) = rw (seek, inside) refl in
      subst IsReadable (ok-injective (sym e ∙ h)) (record {
        window = record { fits = r.window.fits; addressable = r.window.addressable };
        bytes = r.bytes;
        in_window = ground arith;
        small = r.small;
      })
]

parse_entries-AreWritable :
    (lib : Libshit) (e : Endian) (f : Found) (s : Source) (out : List Entry)
    → Behaves lib
    → IsReadable s
    → parse_entries lib e f s ≡ ok out
    → AreSized out × AreWritable out out
unfolding parse_entries
parse_entries-AreWritable lib e f s out b r h =
    let (t, at_files, h1) = bind-eq-ok (seek f.file_offset s) _ h in
    let (entries, are_read, h2) = bind-eq-ok (read_entries lib e f f.file_count 0 t []) _ h1 in
    let (u, at_files_again, h3) = bind-eq-ok (seek f.file_offset s) _ h2 in
    let new =
      read_entries-AreNew lib e f f.file_count 0 t [] entries b
        (seek-IsReadable f.file_offset s t r at_files) tt are_read in
    read_all_links-AreWritable e f f.file_count 0 u entries out (AreNew-AreSized entries new)
      (AreNew-AreWritable entries entries new) h3

parse_cl3-AreWritable :
    (lib : Libshit) (s : Source) (c : Cl3)
    → Behaves lib
    → IsReadable s
    → parse_cl3 lib s ≡ ok c
    → AreSized c.entries × AreWritable c.entries c.entries
unfolding parse_cl3
parse_cl3-AreWritable lib s c b r h =
    let (enough, is_enough, h1) = bind-eq-ok (check_size header_size s) _ h in
    let (head, is_read, h2) = bind-eq-ok (pread 0 header_size s) _ h1 in
    let fields = unpack_endian (header_endian head) (words 5) (drop 4 head) in
    let (valid, is_valid, h3) = bind-eq-ok (validate_header head fields s.size) _ h2 in
    let (f, are_found, h4) = bind-eq-ok (parse_sections lib (header_endian head) fields s) _ h3 in
    let (linked, are_linked, h5) = bind-eq-ok (parse_entries lib (header_endian head) f s) _ h4 in
    subst (λ c'. AreSized c'.entries × AreWritable c'.entries c'.entries) (ok-injective h5)
      (parse_entries-AreWritable lib (header_endian head) f s linked b r are_linked)

-- What `Parse_` accepts, in a window of a file smaller than 2^63 bytes, can be written again: after `Fixup`, whose parts
-- write as many bytes as their `GetSize` says if they did so before, `Dump_` succeeds and writes an archive as long as
-- `GetSize` says, unless it reaches 4 GiB. Each part of it stands at the offset that the part leading to it gives, read
-- in the order of the archive, but the links at the offset that the second section gives in little-endian order.
pub parse_cl3-dump_cl3 :
    (lib : Libshit) (f : Dumpable → Dumpable) (s : Source) (c : Cl3)
    → Behaves lib
    → IsReadable s
    → ((d : Dumpable) → length d.contents ≡ d.size → length (f d).contents ≡ (f d).size)
    → parse_cl3 lib s ≡ ok c
    → plain_size (fixup f c).entries < 2 ^ 32 - 64
    → IsArchive lib (fixup f c) (dump_cl3 lib (fixup f c))
parse_cl3-dump_cl3 lib f s c b r keep h small =
    let (sized, writable) = parse_cl3-AreWritable lib s c b r h in
    dump_cl3-IsArchive lib f c b (AreSized-fixup f c keep sized) (AreWritable-fixup f c writable)
      small
