-- ===== src/Gbnl/Dump/Offsets.antt =====
-- Where the parts of a table end, and the offsets that `Gbnl::Dump_` and `DumpHeader` of
-- src/format/gbnl.cpp compute from that.
use neptools.Prelude.{
  ℕ, ◌+◌, ◌-◌, ◌*◌, ◌%◌, ◌^◌, ◌≤◌, ◌<◌, ◌≡◌, refl, ap, ◌∙◌, Bool, true, false, [], if◌then◌else◌,
  length, arith,
}
use neptools.Prelude.Bytes.{Bytes}
use neptools.Gbnl.{Gbnl, count_real}
use neptools.Gbnl.Types.Entries.{total_size}
use neptools.Gbnl.Strings.{dump_strings}
use neptools.Gbnl.Dump.{align, dump_header, descr_offset, types_offset, strings_offset}
use neptools.Gbnl.Dump.Sizes.{HaveType, length-dump_header}
use neptools.Gbnl.Dump.Layout.{align-IsAligned}

-- The counters of a table are those of its type and its messages, and a file can hold it.
pub record IsRecalculated (g : Gbnl) : Type 0 where
  pub descr : g.msg_descr_size ≡ total_size g.type
  pub real : g.real_item_count ≡ count_real g.type
  pub counted : (dump_strings g.messages 0).1 ≡ g.msgs_size
  pub text : length (dump_strings g.messages 0).0 ≡ g.msgs_size
  pub have_type : HaveType g.type g.messages
  pub messages_small : g.msg_descr_size * length g.messages < 2 ^ 60
  pub types_small : g.real_item_count < 2 ^ 58
  pub strings_small : g.msgs_size < 2 ^ 60

-- The header stands in front or at the end.
pub record HeaderPlaced (b : Bool) (header : Bytes) : Type 0 where
  pub front : length (if b then header else []) ≡ (if b then 64 else 0)
  pub back : length (if b then [] else header) ≡ 64 - (if b then 64 else 0)
  pub low : (if b then 64 else 0) ≤ 64

header_cases : (b : Bool) (header : Bytes) → length header ≡ 64 → HeaderPlaced b header
header_cases true header h = record { front = h; back = refl; low = omega arith }
header_cases false header h = record { front = refl; back = h; low = omega arith }

pub header-HeaderPlaced : (g : Gbnl) → HeaderPlaced g.is_gstl (dump_header g)
header-HeaderPlaced g = header_cases g.is_gstl (dump_header g) (length-dump_header g)

-- Where the parts end, in a file that is small enough.
abbrev pub messages_end : Gbnl → ℕ
messages_end g = (g.msg_descr_size * length g.messages) % 2 ^ 64

abbrev pub types_end : Gbnl → ℕ
types_end g = (align g.is_gstl (messages_end g) + 4 * g.real_item_count) % 2 ^ 64

abbrev pub strings_end : Gbnl → ℕ
strings_end g = (dump_strings g.messages 0).1

pub types_end-small : (g : Gbnl) → IsRecalculated g → types_end g < 2 ^ 62
types_end-small g r =
    let al = align-IsAligned g.is_gstl (messages_end g) (omega (arith, r.messages_small)) in
    omega (arith, r.messages_small, r.types_small, al.near)

pub types_offset_lem :
    (g : Gbnl)
    → IsRecalculated g
    → types_offset g ≡ descr_offset g + align g.is_gstl (messages_end g)
unfolding types_offset
types_offset_lem g r =
    let low = (header-HeaderPlaced g).low in
    let al = align-IsAligned g.is_gstl (messages_end g) (omega (arith, r.messages_small)) in
    let sum : (descr_offset g + g.msg_descr_size * length g.messages) % 2 ^ 64
        ≡ descr_offset g + messages_end g =
      omega (arith, low, r.messages_small) in
    ap (align g.is_gstl) sum ∙ al.shifted

pub strings_offset_lem :
    (g : Gbnl)
    → IsRecalculated g
    → strings_offset g ≡ descr_offset g + align g.is_gstl (types_end g)
unfolding strings_offset
strings_offset_lem g r =
    let low = (header-HeaderPlaced g).low in
    let al₁ = align-IsAligned g.is_gstl (messages_end g) (omega (arith, r.messages_small)) in
    let al₂ = align-IsAligned g.is_gstl (types_end g) (omega (arith, types_end-small g r)) in
    let sum : (types_offset g + 4 * g.real_item_count) % 2 ^ 64 ≡ descr_offset g + types_end g =
      omega (arith, low, r.messages_small, r.types_small, al₁.near, types_offset_lem g r) in
    ap (align g.is_gstl) sum ∙ al₂.shifted
