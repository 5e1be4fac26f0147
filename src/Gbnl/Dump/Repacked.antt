-- ===== src/Gbnl/Dump/Repacked.antt =====
-- `Gbnl::RecalcSize` and then `Gbnl::Dump_` of src/format/gbnl.cpp.
use neptools.Prelude.{
  ◌*◌, ◌^◌, ◌<◌, ◌≡◌, refl, sym, ap, ◌∙◌, List, [], ◌∷◌, length, map, arith, length-map,
}
use mathlib.Core.Path.{subst}
use neptools.Prelude.Bytes.{Bytes}
use neptools.Prelude.Result.{ok}
use neptools.Gbnl.{Item, Value, Message, Gbnl, count_real}
use neptools.Gbnl.Types.Entries.{total_size}
use neptools.Gbnl.Strings.{recalc_size, descr_size}
use neptools.Gbnl.Strings.Wrote.{without_offset}
use neptools.Gbnl.Strings.Placed.{recalc_size-StringsPlaced}
use neptools.Gbnl.Strings.Stands.{messages_bytes}
use neptools.Gbnl.Dump.{dump_gbnl, get_size}
use neptools.Gbnl.Dump.Sizes.{HaveType, HaveRoom, HasRoom, value_item, descr_size-total}
use neptools.Gbnl.Dump.Layout.{flat}
use neptools.Gbnl.Dump.Offsets.{IsRecalculated}
use neptools.Gbnl.Dump.Dumped.{dump_gbnl-blocks, blocks}
use neptools.Gbnl.Dump.Headed.{IsDumped, dump_gbnl-IsDumped}

-- A table that a file can hold: the header has 32 bits for a count and for an offset.
pub record IsWritable (g : Gbnl) : Type 0 where
  pub have_type : HaveType g.type g.messages
  pub type_small : total_size g.type < 2 ^ 32
  pub messages_small : total_size g.type * length g.messages < 2 ^ 60
  pub types_small : count_real g.type < 2 ^ 58
  pub strings_small : messages_bytes g.messages < 2 ^ 32
  pub count_small : length g.messages < 2 ^ 32
  pub whole : get_size (recalc_size g) < 2 ^ 32

-- The offset of a string has no part in its type.
value_item-without_offset : (v : Value) → value_item (without_offset v) ≡ value_item v
value_item-without_offset (Value.string str o) = refl
value_item-without_offset (Value.int8 x) = refl
value_item-without_offset (Value.int16 x) = refl
value_item-without_offset (Value.int32 x) = refl
value_item-without_offset (Value.int64 x) = refl
value_item-without_offset (Value.float x) = refl
value_item-without_offset (Value.fix_string bs) = refl
value_item-without_offset (Value.padding bs) = refl

HasRoom-without_offset : (v : Value) → HasRoom (without_offset v) ≡ HasRoom v
HasRoom-without_offset (Value.string str o) = refl
HasRoom-without_offset (Value.int8 x) = refl
HasRoom-without_offset (Value.int16 x) = refl
HasRoom-without_offset (Value.int32 x) = refl
HasRoom-without_offset (Value.int64 x) = refl
HasRoom-without_offset (Value.float x) = refl
HasRoom-without_offset (Value.fix_string bs) = refl
HasRoom-without_offset (Value.padding bs) = refl

map-value_item : (m : Message) → map value_item (map without_offset m) ≡ map value_item m
map-value_item [] = refl
map-value_item (v ∷ vs) = rw (value_item-without_offset v, map-value_item vs) refl

HaveRoom-without_offset : (m : Message) → HaveRoom (map without_offset m) ≡ HaveRoom m
HaveRoom-without_offset [] = refl
HaveRoom-without_offset (v ∷ vs) = rw (HasRoom-without_offset v, HaveRoom-without_offset vs) refl

HaveType-without_offset :
    (items : List Item) (ms : List Message)
    → HaveType items (map (map without_offset) ms) ≡ HaveType items ms
HaveType-without_offset items [] = refl
HaveType-without_offset items (m ∷ ms) =
    rw (map-value_item m, HaveRoom-without_offset m, HaveType-without_offset items ms) refl

HaveType-kept :
    (items : List Item) (ms ms' : List Message)
    → map (map without_offset) ms' ≡ map (map without_offset) ms
    → HaveType items ms
    → HaveType items ms'
HaveType-kept items ms ms' e h =
    let there =
      sym (HaveType-without_offset items ms)
      ∙ ap (HaveType items) (sym e)
      ∙ HaveType-without_offset items ms' in
    subst (λ T. T) there h

pub length-kept :
    (ms ms' : List Message)
    → map (map without_offset) ms' ≡ map (map without_offset) ms
    → length ms' ≡ length ms
length-kept ms ms' e =
    sym (length-map ms' (map without_offset)) ∙ ap length e ∙ length-map ms (map without_offset)

pub recalc_size_fields :
    (g : Gbnl)
    → ((recalc_size g).msg_descr_size ≡ descr_size g.type)
      × ((recalc_size g).real_item_count ≡ count_real g.type)
      × ((recalc_size g).type ≡ g.type)
unfolding recalc_size
recalc_size_fields g = (refl, refl, refl)

recalc_size-descr : (g : Gbnl) → IsWritable g → (recalc_size g).msg_descr_size ≡ total_size g.type
recalc_size-descr g w =
    (recalc_size_fields g).0 ∙ descr_size-total g.type (omega (arith, w.type_small))

recalc_size-count : (g : Gbnl) → IsWritable g → length (recalc_size g).messages ≡ length g.messages
recalc_size-count g w =
    length-kept g.messages (recalc_size g).messages
      (recalc_size-StringsPlaced g w.strings_small).kept

-- The strings take no more bytes than all strings of the table, repeated ones included.
recalc_size-IsRecalculated : (g : Gbnl) → IsWritable g → IsRecalculated (recalc_size g)
recalc_size-IsRecalculated g w =
    let p = recalc_size-StringsPlaced g w.strings_small in
    let (descr, real, same_type) = recalc_size_fields g in
    let size = recalc_size-descr g w in
    let count = recalc_size-count g w in
    record {
      descr = size ∙ ap total_size (sym same_type);
      real = real ∙ ap count_real (sym same_type);
      counted = p.counted;
      text = p.length_lem;
      have_type =
          subst (λ t. HaveType t (recalc_size g).messages) (sym same_type)
            (HaveType-kept g.type g.messages (recalc_size g).messages p.kept w.have_type);
      messages_small = rw (size, count) w.messages_small;
      types_small = omega (arith, real, w.types_small);
      strings_small = omega (arith, p.bound, w.strings_small);
    }

-- `RecalcSize` and then `Dump_` of a table return bytes, as many as `GetSize` says, if its messages have
-- its type and it is small enough for a file: fewer than 2^32 messages, a message below 2^32 bytes, all
-- of them below 2^60, fewer than 2^58 descriptors, strings below 2^32 bytes, repeated ones counted each
-- time, and a size below 4 GiB. The header in the bytes, read as `Parse_` reads it, has the magic, the
-- byte order, the counts and the size of a message. At the three offsets it gives stand the messages,
-- one behind the other; the descriptors of the type; and the strings.
pub recalc_size-dump_gbnl :
    (g : Gbnl)
    → IsWritable g
    → (bytes : Bytes) × (dump_gbnl (recalc_size g) ≡ ok bytes) × IsDumped (recalc_size g) bytes
recalc_size-dump_gbnl g w =
    let r = recalc_size-IsRecalculated g w in
    (
      flat (blocks (recalc_size g)),
      dump_gbnl-blocks (recalc_size g) (ground (arith, r.counted)),
      dump_gbnl-IsDumped (recalc_size g) r w.whole
          (omega (arith, recalc_size-descr g w, w.type_small))
          (omega (arith, recalc_size-count g w, w.count_small)),
    )
