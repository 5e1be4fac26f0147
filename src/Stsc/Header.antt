-- ===== src/Stsc/Header.antt =====
-- `HeaderItem` of src/format/stsc/header.hpp and src/format/stsc/header.cpp: the header of a script.
pub mod Reads
pub mod RoundTrip
mod Tests
use neptools.Prelude.{
  ℕ, zero, suc, ◌+◌, ◌-◌, ◌/◌, ◌%◌, ◌^◌, Bool, true, false, Option, none, some, List, [], ◌∷◌, ◌++◌,
  ltb, leb, ◌==◌, if◌then◌else◌, length,
}
use neptools.Prelude.Bytes.{Bytes, to_le}
use neptools.Prelude.Text.{codes, str_eq}
use neptools.Prelude.Result.{Result, ok, err, ◌>>=◌, ◌>>◌, guard, decode_error, assertion}
use neptools.Source.{Source, check_remaining_size, read, read_little}
use neptools.Source.Struct.{read_gen, pack}
use neptools.Context.{Context, get_pointer, create_label_fallback, deref_pos}

pub record Header : Type 0 where
  pub magic : Bytes
  pub entry_pos : ℕ
  pub flags : ℕ

pub record ExtraHeaders2 : Type 0 where
  pub field_0 : ℕ
  pub field_2 : ℕ
  pub field_4 : ℕ
  pub field_6 : ℕ
  pub field_8 : ℕ
  pub field_a : ℕ
  pub field_c : ℕ

-- `entry_point` is the name of its label.
pub record HeaderItem : Type 0 where
  pub entry_point : Bytes
  pub extra_headers_1 : Option Bytes
  pub extra_headers_2 : Option ExtraHeaders2
  pub extra_headers_4 : Option ℕ

-- The four characters of the magic, the entry point and the flags.
abbrev pub header_sizes : List ℕ
header_sizes = 1 ∷ 1 ∷ 1 ∷ 1 ∷ 4 ∷ 4 ∷ []

-- `ExtraHeader2Ser`
abbrev pub extra_sizes : List ℕ
extra_sizes = 2 ∷ 2 ∷ 2 ∷ 2 ∷ 2 ∷ 2 ∷ 2 ∷ []

unfoldable pub to_header : List ℕ → Result Header
to_header (a ∷ b ∷ c ∷ d ∷ pos ∷ flags ∷ []) =
    ok (record { magic = a ∷ b ∷ c ∷ d ∷ []; entry_pos = pos; flags = flags })
to_header _ = err assertion

unfoldable pub to_extra : List ℕ → Result ExtraHeaders2
to_extra (a ∷ b ∷ c ∷ d ∷ e ∷ f ∷ g ∷ []) = ok (record {
  field_0 = a;
  field_2 = b;
  field_4 = c;
  field_6 = d;
  field_8 = e;
  field_a = f;
  field_c = g;
})
to_extra _ = err assertion

-- `flags & 1`, `flags & 2`, `flags & 4`
abbrev pub has_1 : ℕ → Bool
has_1 flags = flags % 2 == 1

abbrev pub has_2 : ℕ → Bool
has_2 flags = flags / 2 % 2 == 1

abbrev pub has_4 : ℕ → Bool
has_4 flags = flags / 4 % 2 == 1

-- What `Validate` adds up in `hdr_len`.
abbrev pub hdr_len : ℕ → ℕ
hdr_len flags =
    12
    + (if has_1 flags then 32 else 0)
    + (if has_2 flags then 14 else 0)
    + (if has_4 flags then 2 else 0)

-- `Header::Validate`; `flags & ~0x07` is what is above the low three bits.
unfoldable pub validate_header : Header → ℕ → Result (Unit {0})
validate_header hdr size = do
  guard (str_eq hdr.magic (codes "STSC")) decode_error
  guard (ltb hdr.entry_pos ((size + 2 ^ 64 - 1) % 2 ^ 64)) decode_error
  guard (hdr.flags / 8 == 0) decode_error
  guard (leb (hdr_len hdr.flags) hdr.entry_pos) decode_error

-- An extra header is read if its flag is set.
unfoldable pub read_if {ℓ} :
    {V : Type ℓ} → Bool → (Source → Result (V × Source)) → Source → Result (Option V × Source)
read_if set reader s = elim set [
  | false ↦ ok (none, s)
  | true ↦ do (v, t) ← reader s; ok (some v, t)
]

unfoldable pub read_extra : Source → Result (ExtraHeaders2 × Source)
unfolding to_extra
read_extra s = do (xs, t) ← read_gen extra_sizes s; eh ← to_extra xs; ok (eh, t)

unfoldable pub read_header : Source → Result (Header × Source)
unfolding to_header
read_header s = do (xs, t) ← read_gen header_sizes s; hdr ← to_header xs; ok (hdr, t)

-- `HeaderItem::Parse_`
unfoldable pub parse_header : Context → Source → Result (HeaderItem × (Context × Source))
unfolding read_header validate_header read_if read_extra
parse_header c s = do
  check_remaining_size 12 s
  (hdr, s₁) ← read_header s
  validate_header hdr s₁.size
  ptr ← get_pointer hdr.entry_pos c
  let (l, c₁) = create_label_fallback (codes "entry_point") ptr c
  (h1, s₂) ← read_if (has_1 hdr.flags) (read 32) s₁
  (h2, s₃) ← read_if (has_2 hdr.flags) read_extra s₂
  (h4, s₄) ← read_if (has_4 hdr.flags) (read_little 2) s₃
  ok (
    record { entry_point = l; extra_headers_1 = h1; extra_headers_2 = h2; extra_headers_4 = h4 },
    (c₁, s₄),
  )

abbrev pub extra_fields : ExtraHeaders2 → List ℕ
extra_fields eh =
    eh.field_0 ∷ eh.field_2 ∷ eh.field_4 ∷ eh.field_6 ∷ eh.field_8 ∷ eh.field_a ∷ eh.field_c ∷ []

abbrev pub bit_if {ℓ} : {V : Type ℓ} → ℕ → Option V → ℕ
bit_if bit none = 0
bit_if bit (some v) = bit

abbrev pub dump_if {ℓ} : {V : Type ℓ} → (V → Bytes) → Option V → Bytes
dump_if dump none = []
dump_if dump (some v) = dump v

-- `HeaderItem::Dump_`
unfoldable pub dump_header : Context → HeaderItem → Result Bytes
dump_header c i = do
  pos ← deref_pos c i.entry_point
  let flags = bit_if 1 i.extra_headers_1 + bit_if 2 i.extra_headers_2 + bit_if 4 i.extra_headers_4
  ok (
      pack header_sizes (codes "STSC" ++ (pos % 2 ^ 32 ∷ flags ∷ []))
      ++ (dump_if (λ block. block) i.extra_headers_1
          ++ (dump_if (λ eh. pack extra_sizes (extra_fields eh)) i.extra_headers_2
              ++ dump_if (to_le 2) i.extra_headers_4)))

-- `HeaderItem::GetSize`
unfoldable pub get_size : HeaderItem → ℕ
get_size i =
    12 + bit_if 32 i.extra_headers_1 + bit_if 14 i.extra_headers_2 + bit_if 2 i.extra_headers_4
