-- ===== src/Cl3/Written.antt =====
-- That `Cl3::Dump_` of src/format/cl3.cpp writes the headers of the entries and their links.
use neptools.Prelude.{
  ℕ, zero, suc, ◌+◌, ◌-◌, ◌*◌, ◌%◌, ◌^◌, ◌<◌, ◌≡◌, refl, sym, ◌∙◌, false, List, [], ◌∷◌, ◌++◌, ◌==◌,
  length, drop, arith, length-append,
}
use mathlib.Core.List.{append_assoc}
use neptools.Prelude.Bytes.{Bytes}
use neptools.Prelude.Result.{Result, ok}
use neptools.Endian.{Endian}
use neptools.Cl3.{Entry, round_up, file_entry_size, link_entry_size, src_size}
use neptools.Cl3.Dump.{
  Libshit, dump_file_entry, dump_file_entries, index_of, dump_link, dump_links, dump_all_links,
}
use neptools.Cl3.Sizes.{
  padded, data_total, link_total, round_up-padded, length-dump_file_entry, length-dump_link,
}
use neptools.Cl3.Placed.{
  IdAt, Behaves, AreLinked, AreWritable, FilesStand, LinksStand, AllLinksStand, block_next,
}

-- A part of the archive is written, as so many bytes, which are the ones that the archive wants wherever they stand.
pub record IsWritten (r : Result Bytes) (size : ℕ) (Stands : Bytes → ℕ → Type 0) : Type 0 where
  pub bytes : Bytes
  pub written : r ≡ ok bytes
  pub sized : length bytes ≡ size
  pub stands : (file rest : Bytes) (at_k : ℕ) → drop at_k file ≡ bytes ++ rest → Stands file at_k

dump_file_entries-ok :
    (lib : Libshit) (e : Endian) (x : Entry) (xs : List Entry) (offset link_i offset' link_i' : ℕ)
    (name bytes : Bytes)
    → lib.assign 0x200 x.name ≡ ok name
    → round_up ((offset + src_size x.src) % 2 ^ 64) ≡ offset'
    → (link_i + length x.links) % 2 ^ 32 ≡ link_i'
    → dump_file_entries lib e xs offset' link_i' ≡ ok bytes
    → dump_file_entries lib e (x ∷ xs) offset link_i
      ≡ ok (dump_file_entry e name x offset link_i ++ bytes)
unfolding dump_file_entries
dump_file_entries-ok lib e x xs offset link_i offset' link_i' name bytes a up on w =
    rw (dump_file_entries, a, up, on, w) refl

dump_links-ok :
    (lib : Libshit) (e : Endian) (all : List Entry) (link : ℕ) (links : List ℕ) (i next : ℕ)
    (bytes : Bytes)
    → index_of lib all link == 2 ^ 32 - 1 ≡ false
    → (i + 1) % 2 ^ 32 ≡ next
    → dump_links lib e all links next ≡ ok bytes
    → dump_links lib e all (link ∷ links) i ≡ ok (dump_link e (index_of lib all link) i ++ bytes)
unfolding dump_links
dump_links-ok lib e all link links i next bytes found on w = rw (dump_links, found, on, w) refl

pub dump_file_entries-IsWritten :
    (lib : Libshit) (e : Endian) (all entries : List Entry) (offset link_i : ℕ)
    → Behaves lib
    → AreWritable all entries
    → offset % 64 ≡ 0
    → offset + data_total entries < 2 ^ 32 - 64
    → link_i + link_total entries < 2 ^ 32
    → IsWritten
        (dump_file_entries lib e entries offset link_i)
        (file_entry_size * length entries)
        (λ file at_k. FilesStand lib e file at_k entries offset link_i)
unfolding dump_file_entries dump_file_entry
dump_file_entries-IsWritten lib e all [] offset link_i b w a d l = record {
  bytes = [];
  written = refl;
  sized = omega arith;
  stands = λ file rest at_k h. tt;
}
dump_file_entries-IsWritten lib e all (x ∷ xs) offset link_i b w a d l =
    let size = src_size x.src in
    let up : round_up ((offset + size) % 2 ^ 64) ≡ offset + padded size =
      round_up-padded offset size a (omega (arith, d)) in
    let on : (link_i + length x.links) % 2 ^ 32 ≡ link_i + length x.links = omega (arith, l) in
    let ih =
      dump_file_entries-IsWritten lib e all xs (offset + padded size) (link_i + length x.links) b
        w.2 (omega (arith, a)) (omega (arith, d)) (omega (arith, l)) in
    let (name, assigned, name_size) = b.assigned 0x200 x.name w.0 in
    let block = dump_file_entry e name x offset link_i in
    let block_size = length-dump_file_entry e name x offset link_i name_size in
    record {
      bytes = block ++ ih.bytes;
      written =
          dump_file_entries-ok lib e x xs offset link_i _ _ name ih.bytes assigned up on ih.written;
      sized = omega (arith, length-append block ih.bytes, block_size, ih.sized);
      stands = λ file rest at_k h.
          let next =
            block_next file at_k file_entry_size block (ih.bytes ++ rest) (sym block_size)
              (h ∙ append_assoc block ih.bytes rest) in
          ((name, assigned, next.0), ih.stands file rest (at_k + file_entry_size) next.1);
    }

IdAt-lt : (i id : ℕ) (entries : List Entry) → IdAt i id entries → i < length entries
IdAt-lt i id [] h = absurd h
IdAt-lt zero id (e ∷ entries) h = omega arith
IdAt-lt (suc i) id (e ∷ entries) h = omega (arith, IdAt-lt i id entries h)

-- A link to an entry of the archive gets the place of the entry.
index_of-IdAt :
    (lib : Libshit) (all : List Entry) (i link : ℕ)
    → Behaves lib
    → length all < 2 ^ 32 - 1
    → IdAt i link all
    → IdAt (index_of lib all link) link all
unfolding index_of
index_of-IdAt lib all i link b n h =
    let (j, found, there) = b.member i link all h in
    let e : j % 2 ^ 32 ≡ j = omega (arith, IdAt-lt j link all there, n) in
    rw (index_of, found, e) there

dump_links-IsWritten :
    (lib : Libshit) (e : Endian) (all : List Entry) (links : List ℕ) (i : ℕ)
    → Behaves lib
    → length all < 2 ^ 32 - 1
    → AreLinked all links
    → i + length links < 2 ^ 32
    → IsWritten
        (dump_links lib e all links i)
        (link_entry_size * length links)
        (λ file at_k. LinksStand lib e all file at_k links i)
unfolding dump_links dump_link
dump_links-IsWritten lib e all [] i b n w l = record {
  bytes = [];
  written = refl;
  sized = omega arith;
  stands = λ file rest at_k h. tt;
}
dump_links-IsWritten lib e all (link ∷ links) i b n w l =
    let there = index_of-IdAt lib all w.0.0 link b n w.0.1 in
    let found : index_of lib all link == 2 ^ 32 - 1 ≡ false =
      ground (arith, IdAt-lt (index_of lib all link) link all there, n) in
    let on : (i + 1) % 2 ^ 32 ≡ i + 1 = omega (arith, l) in
    let ih = dump_links-IsWritten lib e all links (i + 1) b n w.1 (omega (arith, l)) in
    let block = dump_link e (index_of lib all link) i in
    let block_size = length-dump_link e (index_of lib all link) i in
    record {
      bytes = block ++ ih.bytes;
      written = dump_links-ok lib e all link links i (i + 1) ih.bytes found on ih.written;
      sized = omega (arith, length-append block ih.bytes, block_size, ih.sized);
      stands = λ file rest at_k h.
          let next =
            block_next file at_k link_entry_size block (ih.bytes ++ rest) (sym block_size)
              (h ∙ append_assoc block ih.bytes rest) in
          ((next.0, there), ih.stands file rest (at_k + link_entry_size) next.1);
    }

pub dump_all_links-IsWritten :
    (lib : Libshit) (e : Endian) (all entries : List Entry)
    → Behaves lib
    → length all < 2 ^ 32 - 1
    → AreWritable all entries
    → link_total entries < 2 ^ 32
    → IsWritten
        (dump_all_links lib e all entries)
        (link_entry_size * link_total entries)
        (λ file at_k. AllLinksStand lib e all file at_k entries)
unfolding dump_all_links
dump_all_links-IsWritten lib e all [] b n w l = record {
  bytes = [];
  written = refl;
  sized = omega arith;
  stands = λ file rest at_k h. tt;
}
dump_all_links-IsWritten lib e all (x ∷ xs) b n w l =
    let here = dump_links-IsWritten lib e all x.links 0 b n w.1 (omega (arith, l)) in
    let ih = dump_all_links-IsWritten lib e all xs b n w.2 (omega (arith, l)) in
    record {
      bytes = here.bytes ++ ih.bytes;
      written = rw (dump_all_links, here.written, ih.written) refl;
      sized = omega (arith, length-append here.bytes ih.bytes, here.sized, ih.sized);
      stands = λ file rest at_k h.
          let h' = h ∙ append_assoc here.bytes ih.bytes rest in
          let next =
            block_next file at_k (link_entry_size * length x.links) here.bytes (ih.bytes ++ rest)
              (sym here.sized) h' in
          (here.stands file (ih.bytes ++ rest) at_k h', ih.stands file rest _ next.1);
    }
