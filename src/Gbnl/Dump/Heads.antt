-- ===== src/Gbnl/Dump/Heads.antt =====
-- The header that `Gbnl::DumpHeader` of src/format/gbnl.cpp writes, as `Parse_` reads it.
use neptools.Prelude.{
  ℕ, ◌^◌, ◌<◌, ◌≡◌, refl, ap, ◌∙◌, Bool, true, false, ◌∷◌, ◌++◌, ◌==◌, if◌then◌else◌, length, arith,
}
use neptools.Prelude.Bytes.{Bytes}
use neptools.Prelude.Text.{codes}
use neptools.Endian.{pack_endian, unpack_endian, get_or-unpack_endian}
use neptools.Gbnl.{Gbnl}
use neptools.Gbnl.Dump.{
  dump_header, header_sizes, header_fields, endian_char, descr_offset, types_offset, strings_offset,
}
use neptools.Gbnl.Parse.{Header, header_of, header_fields_of}

-- What the header says of its table.
pub record Heads (g : Gbnl) (h : Header) : Type 0 where
  pub magic : h.magic ≡ (if g.is_gstl then codes "GST" else codes "GBN")
  pub order : h.endian ≡ endian_char g.endian
  pub descr : h.msg_descr_size ≡ g.msg_descr_size
  pub count : h.count_msgs ≡ length g.messages
  pub type_count : h.count_types ≡ g.real_item_count
  pub at_messages : h.descr_offset ≡ descr_offset g
  pub at_types : h.offset_types ≡ types_offset g
  pub at_strings : h.offset_msgs ≡ (if g.msgs_size == 0 then 0 else strings_offset g)

-- The fields of 32 bits hold what they are given.
pub record Fits (g : Gbnl) : Type 0 where
  pub descr : g.msg_descr_size < 2 ^ 32
  pub count : length g.messages < 2 ^ 32
  pub type_count : g.real_item_count < 2 ^ 32
  pub at_messages : descr_offset g < 2 ^ 32
  pub at_types : types_offset g < 2 ^ 32
  pub at_strings : (if g.msgs_size == 0 then 0 else strings_offset g) < 2 ^ 32

abbrev magic_of : Bool → Bytes
magic_of b = if b then codes "GST" else codes "GBN"

header_of-parts :
    (b : Bool) (g : Gbnl) (c : ℕ) (rest : Bytes)
    → header_of g.endian (magic_of b ++ (c ∷ rest))
      ≡ header_fields_of (magic_of b) c (unpack_endian g.endian header_sizes rest)
unfolding header_of
header_of-parts true g c rest = refl
header_of-parts false g c rest = refl

pub dump_header-Heads : (g : Gbnl) → Fits g → Heads g (header_of g.endian (dump_header g))
unfolding dump_header
dump_header-Heads g f =
    let e = g.endian in
    let xs = header_fields g in
    let whole = header_of-parts g.is_gstl g (endian_char e) (pack_endian e header_sizes xs) in
    record {
      magic = ap (λ h. h.magic) whole;
      order = ap (λ h. h.endian) whole;
      descr =
          ap (λ h. h.msg_descr_size) whole
          ∙ get_or-unpack_endian e header_sizes xs 7 refl (omega arith) (omega (arith, f.descr));
      count =
          ap (λ h. h.count_msgs) whole
          ∙ get_or-unpack_endian e header_sizes xs 6 refl (omega arith) (omega (arith, f.count));
      type_count =
          ap (λ h. h.count_types) whole
          ∙ get_or-unpack_endian e header_sizes xs 8 refl (omega arith)
              (omega (arith, f.type_count));
      at_messages =
          ap (λ h. h.descr_offset) whole
          ∙ get_or-unpack_endian e header_sizes xs 5 refl (omega arith)
              (omega (arith, f.at_messages));
      at_types =
          ap (λ h. h.offset_types) whole
          ∙ get_or-unpack_endian e header_sizes xs 9 refl (omega arith) (omega (arith, f.at_types));
      at_strings =
          ap (λ h. h.offset_msgs) whole
          ∙ get_or-unpack_endian e header_sizes xs 11 refl (omega arith)
              (omega (arith, f.at_strings));
    }
