-- ===== src/Gbnl/Dump/Sizes.antt =====
-- The bytes that `Gbnl::Dump_` of src/format/gbnl.cpp writes are as many as `GetSize` says, and its parts stand
-- where the header says.
use neptools.Prelude.{
  ℕ, zero, suc, ◌+◌, ◌-◌, ◌*◌, ◌%◌, ◌^◌, ◌≤◌, ◌<◌, ◌≡◌, refl, sym, ap, ◌∙◌, Bool, true, false, List,
  [], ◌∷◌, ◌++◌, ◌==◌, if◌then◌else◌, length, take, drop, map, arith, length-append, length-take,
  length-replicate, Bool-cases, inl, inr,
}
use mathlib.Core.Path.{subst}
use neptools.Prelude.Bytes.{Bytes}
use neptools.Prelude.Slices.{take-append}
use neptools.Prelude.Text.{codes}
use neptools.Endian.{Endian, length-to_endian, length-pack_endian}
use neptools.Gbnl.{Item, Value, Message, Gbnl, item_size, is_real, count_real}
use neptools.Gbnl.Types.{dump_types, descriptor}
use neptools.Gbnl.Types.Entries.{total_size}
use neptools.Gbnl.Strings.{descr_size}
use neptools.Gbnl.Dump.{
  strncpy, write_value, write_message, dump_messages, header_sizes, dump_header, header_fields,
}

-- The item of a value, and a value that can be written: a `FixStringTag` has room for its end.
abbrev pub value_item : Value → Item
value_item (Value.int8 x) = Item.int8
value_item (Value.int16 x) = Item.int16
value_item (Value.int32 x) = Item.int32
value_item (Value.int64 x) = Item.int64
value_item (Value.float x) = Item.float
value_item (Value.string str o) = Item.string
value_item (Value.fix_string bs) = Item.fix_string (length bs)
value_item (Value.padding bs) = Item.padding (length bs)

abbrev pub HasRoom : Value → Type 0
HasRoom (Value.int8 x) = Unit {0}
HasRoom (Value.int16 x) = Unit {0}
HasRoom (Value.int32 x) = Unit {0}
HasRoom (Value.int64 x) = Unit {0}
HasRoom (Value.float x) = Unit {0}
HasRoom (Value.string str o) = Unit {0}
HasRoom (Value.fix_string bs) = 1 ≤ length bs
HasRoom (Value.padding bs) = Unit {0}

abbrev pub HaveRoom : Message → Type 0
HaveRoom [] = Unit {0}
HaveRoom (v ∷ vs) = HasRoom v × HaveRoom vs

-- Every message is a structure of the type.
abbrev pub HaveType : List Item → List Message → Type 0
HaveType items [] = Unit {0}
HaveType items (m ∷ ms) = ((map value_item m ≡ items) × HaveRoom m) × HaveType items ms

abbrev pub written_messages : Endian → List Item → List Message → Bytes
written_messages e items [] = []
written_messages e items (m ∷ ms) = write_message e items m ++ written_messages e items ms

length-strncpy : (n : ℕ) (s : Bytes) → length (strncpy n s) ≡ n
unfolding strncpy
length-strncpy zero s = refl
length-strncpy (suc n) [] = length-replicate (suc n) 0
length-strncpy (suc n) (c ∷ cs) = elim (Bool-cases (c == 0)) [
  | inl y ↦ rw y (length-replicate (suc n) 0)
  | inr z ↦ rw z (ap suc (length-strncpy n cs))
]

length-write_value :
    (e : Endian) (v : Value)
    → HasRoom v
    → length (write_value e (item_size (value_item v)) v) ≡ item_size (value_item v)
unfolding write_value item_size
length-write_value e (Value.int8 x) h = length-to_endian e 1 x
length-write_value e (Value.int16 x) h = length-to_endian e 2 x
length-write_value e (Value.int32 x) h = length-to_endian e 4 x
length-write_value e (Value.int64 x) h = length-to_endian e 8 x
length-write_value e (Value.float x) h = length-to_endian e 4 x
length-write_value e (Value.string str o) h = length-to_endian e 4 o
length-write_value e (Value.fix_string bs) h =
    omega (
      arith,
      length-append (strncpy (length bs - 1) bs) (0 ∷ []),
      length-strncpy (length bs - 1) bs,
    )
length-write_value e (Value.padding bs) h = length-take (length bs) bs ∙ omega arith

length-write_message :
    (e : Endian) (m : Message)
    → HaveRoom m
    → length (write_message e (map value_item m) m) ≡ total_size (map value_item m)
unfolding write_message
length-write_message e [] h = refl
length-write_message e (v ∷ vs) h = omega (
  arith,
  length-append (write_value e (item_size (value_item v)) v)
      (write_message e (map value_item vs) vs),
  length-write_value e v h.0,
  length-write_message e vs h.1,
)

-- A message overwrites the whole buffer.
overwrite :
    (bs msgd : Bytes)
    → length bs ≡ length msgd
    → take (length msgd) (bs ++ drop (length bs) msgd) ≡ bs
overwrite bs msgd h =
    ap (λ n. take n (bs ++ drop (length bs) msgd)) (sym h) ∙ take-append bs (drop (length bs) msgd)

pub dump_messages-written :
    (e : Endian) (items : List Item) (msgd : Bytes) (ms : List Message)
    → length msgd ≡ total_size items
    → HaveType items ms
    → dump_messages e items msgd ms ≡ written_messages e items ms
unfolding dump_messages
dump_messages-written e items msgd [] h t = refl
dump_messages-written e items msgd (m ∷ ms) h t =
    let len : length (write_message e items m) ≡ total_size items =
      subst (λ x. length (write_message e x m) ≡ total_size x) t.0.0
        (length-write_message e m t.0.1) in
    let same = overwrite (write_message e items m) msgd (len ∙ sym h) in
    rw same (
      ap (◌++◌ (write_message e items m))
        (dump_messages-written e items (write_message e items m) ms len t.1))

pub length-written_messages :
    (e : Endian) (items : List Item) (ms : List Message)
    → HaveType items ms
    → length (written_messages e items ms) ≡ total_size items * length ms
length-written_messages e items [] t = grind arith
length-written_messages e items (m ∷ ms) t =
    let len : length (write_message e items m) ≡ total_size items =
      subst (λ x. length (write_message e x m) ≡ total_size x) t.0.0
        (length-write_message e m t.0.1) in
    grind (
      arith,
      length-append (write_message e items m) (written_messages e items ms),
      length-written_messages e items ms t.1,
    )

length-descriptor :
    (e : Endian) (i : Item) (offs : ℕ) → length (descriptor e i offs) ≡ (if is_real i then 4 else 0)
unfolding descriptor is_real
length-descriptor e Item.int8 offs = length-pack_endian e _ _ refl
length-descriptor e Item.int16 offs = length-pack_endian e _ _ refl
length-descriptor e Item.int32 offs = length-pack_endian e _ _ refl
length-descriptor e Item.int64 offs = length-pack_endian e _ _ refl
length-descriptor e Item.float offs = length-pack_endian e _ _ refl
length-descriptor e Item.string offs = length-pack_endian e _ _ refl
length-descriptor e (Item.fix_string n) offs = length-pack_endian e _ _ refl
length-descriptor e (Item.padding n) offs = refl

pub length-dump_types :
    (e : Endian) (offs : ℕ) (items : List Item)
    → length (dump_types e offs items) ≡ 4 * count_real items
unfolding dump_types
length-dump_types e offs [] = refl
length-dump_types e offs (i ∷ items) = ground (
  arith,
  length-append (descriptor e i offs) (dump_types e ((offs + item_size i) % 2 ^ 16) items),
  length-descriptor e i offs,
  length-dump_types e ((offs + item_size i) % 2 ^ 16) items,
)

pub descr_size-total :
    (items : List Item) → total_size items < 2 ^ 64 → descr_size items ≡ total_size items
unfolding descr_size
descr_size-total [] h = refl
descr_size-total (i ∷ items) h = omega (arith, descr_size-total items (omega arith))

length-magic :
    (b : Bool) (xs : Bytes)
    → length ((if b then codes "GST" else codes "GBN") ++ xs) ≡ length xs + 3
length-magic true xs = omega arith
length-magic false xs = omega arith

pub length-dump_header : (g : Gbnl) → length (dump_header g) ≡ 64
unfolding dump_header
length-dump_header g =
    let fields = length-pack_endian g.endian header_sizes (header_fields g) refl in
    length-magic g.is_gstl _ ∙ omega (arith, fields)
