-- ===== src/Cl3.antt =====
-- src/format/cl3.hpp and src/format/cl3.cpp: archives of files that may link to each other. An entry is known by a
-- number, to which the weak pointers in `links` lead.
pub mod Dump
pub mod Sizes
pub mod Placed
pub mod Written
pub mod Parts
pub mod Archive
pub mod Parse
pub mod Linked
pub mod Entries
pub mod Parsed
mod Tests
use neptools.Prelude.{
  ℕ, zero, suc, ◌+◌, ◌*◌, ◌/◌, ◌%◌, ◌^◌, Bool, Option, none, some, List, [], ◌∷◌, length,
}
use neptools.Prelude.Bytes.{Bytes}
use neptools.Prelude.Result.{Result}
use neptools.Endian.{Endian}

-- An object behind `Dumpable` of src/dumpable.hpp: what `GetSize` returns, and what `Dump` writes.
pub record Dumpable : Type 0 where
  pub size : ℕ
  pub contents : Bytes

-- `Cl3::Entry`
pub record Entry : Type 0 where
  pub id : ℕ
  pub name : Bytes
  pub field_200 : ℕ
  pub links : List ℕ
  pub src : Option Dumpable

pub record Cl3 : Type 0 where
  pub endian : Endian
  pub field_14 : ℕ
  pub entries : List Entry
  pub data_size : ℕ
  pub link_count : ℕ

-- `(x + PAD) & ~PAD`: `~PAD` has 32 bits.
unfoldable pub round_up : ℕ → ℕ
round_up x = (x + 63) % 2 ^ 32 / 64 * 64

abbrev pub header_size : ℕ
header_size = 0x18

abbrev pub section_size : ℕ
section_size = 0x50

abbrev pub file_entry_size : ℕ
file_entry_size = 0x230

abbrev pub link_entry_size : ℕ
link_entry_size = 0x20

-- `e.src ? e.src->GetSize() : 0`
abbrev pub src_size : Option Dumpable → ℕ
src_size none = 0
src_size (some d) = d.size

abbrev pub fixup_src : (Dumpable → Dumpable) → Option Dumpable → Option Dumpable
fixup_src fixup none = none
fixup_src fixup (some d) = some (fixup d)

-- The loop of `Fixup`, where `fixup` is `Fixup` of a source: `data_size` and `link_count` go on.
unfoldable pub fixup_entries : (Dumpable → Dumpable) → List Entry → ℕ → ℕ → List Entry × ℕ × ℕ
unfolding round_up
fixup_entries fixup [] data_size link_count = ([], data_size, link_count)
fixup_entries fixup (e ∷ entries) data_size link_count =
    let src = fixup_src fixup e.src in
    let rest =
      fixup_entries fixup entries (round_up ((data_size + src_size src) % 2 ^ 64))
        ((link_count + length e.links) % 2 ^ 32) in
    (
      (record { id = e.id; name = e.name; field_200 = e.field_200; links = e.links; src = src })
          ∷ rest.0,
      rest.1,
      rest.2,
    )

-- `Fixup`
unfoldable pub fixup : (Dumpable → Dumpable) → Cl3 → Cl3
unfolding fixup_entries
fixup fixup_one c =
    let (entries, data_size, link_count) = fixup_entries fixup_one c.entries 0 0 in
    record {
      endian = c.endian;
      field_14 = c.field_14;
      entries = entries;
      data_size = data_size;
      link_count = link_count;
    }

-- `GetSize`
unfoldable pub get_size : Cl3 → ℕ
unfolding round_up
get_size c =
    let sections = round_up header_size in
    let files = round_up ((sections + section_size * 2) % 2 ^ 64) in
    let data_at = round_up ((files + file_entry_size * length c.entries) % 2 ^ 64) in
    (data_at + (c.data_size + link_entry_size * c.link_count)) % 2 ^ 64
