-- ===== src/Gbnl/Dump/Headed.antt =====
-- A file that `Gbnl::Dump_` of src/format/gbnl.cpp writes, read by the header in it.
use neptools.Prelude.{
  ℕ, ◌*◌, ◌^◌, ◌≤◌, ◌<◌, ◌≡◌, refl, Bool, true, false, [], ◌∷◌, ◌==◌, if◌then◌else◌, length, take,
  drop, arith,
}
use neptools.Prelude.Bytes.{Bytes}
use neptools.Gbnl.{Gbnl}
use neptools.Gbnl.Types.{dump_types}
use neptools.Gbnl.Strings.{dump_strings}
use neptools.Gbnl.Dump.{get_size, strings_offset}
use neptools.Gbnl.Dump.Sizes.{written_messages}
use neptools.Gbnl.Dump.Layout.{flat, align-IsAligned}
use neptools.Gbnl.Dump.Heads.{Heads, Fits, dump_header-Heads}
use neptools.Gbnl.Dump.Offsets.{
  IsRecalculated, messages_end, types_end, types_end-small, types_offset_lem, strings_offset_lem,
}
use neptools.Gbnl.Dump.Dumped.{header_at, blocks, get_size_lem, dump_gbnl-PartsPlaced}
use neptools.Gbnl.Parse.{Header, header_of}

-- The 64 bytes of the header, read the way `Parse_` does.
abbrev pub header_in : Gbnl → Bytes → Header
header_in g bytes = header_of g.endian (take 64 (drop (header_at g.is_gstl (length bytes)) bytes))

-- The parts stand where a header says, and are as long as it says.
pub record PartsStand (g : Gbnl) (h : Header) (bytes : Bytes) : Type 0 where
  pub messages :
      take (h.msg_descr_size * h.count_msgs) (drop h.descr_offset bytes)
      ≡ written_messages g.endian g.type g.messages
  pub types : take (4 * h.count_types) (drop h.offset_types bytes) ≡ dump_types g.endian 0 g.type
  pub strings : take g.msgs_size (drop h.offset_msgs bytes) ≡ (dump_strings g.messages 0).0

-- The bytes of a table: as many as `GetSize` says, with a header that says where the parts stand.
pub record IsDumped (g : Gbnl) (bytes : Bytes) : Type 0 where
  pub size : length bytes ≡ get_size g
  pub heads : Heads g (header_in g bytes)
  pub parts : PartsStand g (header_in g bytes) bytes

either_lt : (b : Bool) (x y : ℕ) → y < 2 ^ 32 → (if b then 0 else y) < 2 ^ 32
either_lt true x y h = omega arith
either_lt false x y h = h

descr_offset_le : (b : Bool) → (if b then 64 else 0) ≤ 64
descr_offset_le true = omega arith
descr_offset_le false = omega arith

module _ (g : Gbnl) (r : IsRecalculated g) (whole : get_size g < 2 ^ 32)
    (descr_small : g.msg_descr_size < 2 ^ 32) (count_small : length g.messages < 2 ^ 32) where
  dump_gbnl-Fits : Fits g
  dump_gbnl-Fits =
      let b = g.is_gstl in
      let low = descr_offset_le b in
      let size = get_size_lem g r in
      let at_types = types_offset_lem g r in
      let at_strings = strings_offset_lem g r in
      let al₁ = align-IsAligned b (messages_end g) (omega (arith, r.messages_small)) in
      let al₂ = align-IsAligned b (types_end g) (omega (arith, types_end-small g r)) in
      record {
        descr = descr_small;
        count = count_small;
        type_count =
            omega (arith, whole, size, al₁.near, al₂.above, r.messages_small, r.types_small);
        at_messages = omega (arith, low);
        at_types = omega (
          arith, whole, low, size, at_types, al₁.near, al₂.above, r.messages_small, r.types_small,
        );
        at_strings =
            either_lt (g.msgs_size == 0) 0 (strings_offset g)
              (omega (arith, whole, low, size, at_strings));
      }

  take-strings :
      (bytes strings : Bytes) (n at : ℕ)
      → length strings ≡ n
      → take n (drop at bytes) ≡ strings
      → take n (drop (if n == 0 then 0 else at) bytes) ≡ strings
  take-strings bytes [] n at h k = rw (← h) refl
  take-strings bytes (x ∷ xs) n at h k =
      let some_bytes : (n == 0) ≡ false = ground arith in rw some_bytes k

  pub dump_gbnl-IsDumped : IsDumped g (flat (blocks g))
  dump_gbnl-IsDumped =
      let bytes = flat (blocks g) in
      let p = dump_gbnl-PartsPlaced g r in
      let heads : Heads g (header_in g bytes) = rw p.header (dump_header-Heads g dump_gbnl-Fits) in
      record {
        size = p.size;
        heads = heads;
        parts = record {
          messages = rw (heads.descr, heads.count, heads.at_messages) p.messages;
          types = rw (heads.type_count, heads.at_types) p.types;
          strings = rw heads.at_strings (
              take-strings bytes (dump_strings g.messages 0).0 g.msgs_size (strings_offset g) r.text
                p.strings);
        };
      }
