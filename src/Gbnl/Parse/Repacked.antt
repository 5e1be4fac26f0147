-- ===== src/Gbnl/Parse/Repacked.antt =====
-- A file that `Gbnl::Parse_` of src/format/gbnl.cpp accepts can be written again by `Dump_`, in as many bytes.
use neptools.Prelude.{
  ℕ, ◌*◌, ◌^◌, ◌≤◌, ◌<◌, ◌≡◌, refl, sym, ap, ◌∙◌, Bool, false, List, [], ◌∷◌, ◌==◌, length, arith,
  if◌then◌else◌, get_or, leb, Bool-cases, inl, inr,
}
use mathlib.Core.Path.{subst}
use native.Mathlib.Nat.{mul-le-mul}
use neptools.Prelude.Bytes.{Bytes}
use neptools.Prelude.Result.{ok, guard, decode_error, assertion, bind-eq-ok, ok-injective}
use neptools.Source.{Source, seek}
use neptools.Source.Consumed.{IsReadable}
use neptools.Endian.{Endian}
use neptools.Gbnl.{Value, Message, Gbnl, count_real, no_string}
use neptools.Gbnl.Types.{parse_types}
use neptools.Gbnl.Types.Reproduced.{parse_types-TypesReproduced}
use neptools.Gbnl.Types.Entries.{total_size}
use neptools.Gbnl.Strings.{
  Table, no_strings, place_value, place_message, place_messages, dump_strings, recalc_size,
}
use neptools.Gbnl.Strings.Placed.{recalc_size-StringsPlaced}
use neptools.Gbnl.Strings.Stands.{messages_bytes, message_bytes, value_bytes, MessagesStand}
use neptools.Gbnl.Dump.{dump_gbnl, get_size}
use neptools.Gbnl.Dump.Sizes.{HaveType, length-dump_types}
use neptools.Gbnl.Dump.Headed.{IsDumped}
use neptools.Gbnl.Dump.Repacked.{IsWritable, recalc_size-dump_gbnl}
use neptools.Gbnl.Parse.{
  Header, header_of, read_header, validate, parse_messages, read_messages, parse_gbnl,
}
use neptools.Gbnl.Parse.Counted.{header_of-count, read_header-IsBytes}
use neptools.Gbnl.Parse.Typed.{parse_types-AreSized, read_messages-HaveType, seek-IsReadable}

-- The strings stay.
value_bytes-place_value : (v : Value) (t : Table) → value_bytes (place_value v t).0 ≡ value_bytes v
unfolding place_value
value_bytes-place_value (Value.string str o) t = elim (Bool-cases (o == no_string)) [
  | inl y ↦ rw y refl
  | inr n ↦ rw n refl
]
value_bytes-place_value (Value.int8 x) t = refl
value_bytes-place_value (Value.int16 x) t = refl
value_bytes-place_value (Value.int32 x) t = refl
value_bytes-place_value (Value.int64 x) t = refl
value_bytes-place_value (Value.float x) t = refl
value_bytes-place_value (Value.fix_string bs) t = refl
value_bytes-place_value (Value.padding bs) t = refl

message_bytes-place_message :
    (m : Message) (t : Table) → message_bytes (place_message m t).0 ≡ message_bytes m
unfolding place_message
message_bytes-place_message [] t = refl
message_bytes-place_message (v ∷ vs) t =
    omega (arith, value_bytes-place_value v t, message_bytes-place_message vs (place_value v t).1)

messages_bytes-place_messages :
    (ms : List Message) (t : Table) → messages_bytes (place_messages ms t).0 ≡ messages_bytes ms
unfolding place_messages
messages_bytes-place_messages [] t = refl
messages_bytes-place_messages (m ∷ ms) t =
    omega (
      arith,
      message_bytes-place_message m t,
      messages_bytes-place_messages ms (place_message m t).1,
    )

messages_bytes-recalc_size :
    (g : Gbnl) → messages_bytes (recalc_size g).messages ≡ messages_bytes g.messages
unfolding recalc_size
messages_bytes-recalc_size g = messages_bytes-place_messages g.messages no_strings

seek-size : (pos : ℕ) (s t : Source) → seek pos s ≡ ok t → t.size ≡ s.size
unfolding seek
seek-size pos s t h =
    let (_, _, h₁) = bind-eq-ok (guard (leb pos s.size) assertion) _ h in
    ap (λ x. x.size) (sym (ok-injective h₁))

guard_eq : (a b : ℕ) {o : Unit {0}} → guard (a == b) decode_error ≡ ok o → a ≡ b
guard_eq a b h = ground arith

-- What a parse gives: a table that is recalculated from one that has its type.
record IsParsed (s : Source) (g₀ : Gbnl) : Type 0 where
  pub have_type : HaveType g₀.type g₀.messages
  pub type_small : total_size g₀.type < 2 ^ 18
  pub messages : length g₀.messages < 2 ^ 32
  pub count : 4 * count_real g₀.type ≤ s.size

parse_messages-IsParsed :
    (is_gstl : Bool) (e : Endian) (h : Header) (s : Source) (g₀ : Gbnl)
    → IsReadable s
    → h.count_msgs < 2 ^ 32
    → parse_messages is_gstl e h s ≡ ok g₀
    → IsParsed s g₀
unfolding parse_messages
parse_messages-IsParsed is_gstl e h s g₀ r few done =
    let (t, e₁, h₁) = bind-eq-ok (seek h.offset_types s) _ done in
    let ((type, u), e₂, h₂) =
      bind-eq-ok (parse_types e h.msg_descr_size h.count_types 0 false t) _ h₁ in
    let (ms, e₃, h₃) =
      bind-eq-ok (read_messages e h.offset_msgs h.msg_descr_size type h.count_msgs h.descr_offset u)
        _ h₂ in
    let readable = seek-IsReadable h.offset_types s t r e₁ in
    let q = parse_types-TypesReproduced e h.msg_descr_size h.count_types t u type readable e₂ in
    let (sized, readable') =
      parse_types-AreSized e h.msg_descr_size h.count_types 0 false t u type readable e₂ in
    let (typed, counted) =
      read_messages-HaveType e h.offset_msgs h.msg_descr_size type h.count_msgs h.descr_offset u ms
        readable' sized e₃ in
    let window : t.size ≡ s.size = seek-size h.offset_types s t e₁ in
    subst (IsParsed s) (ok-injective h₃) (record {
      have_type = typed;
      type_small = q.bound;
      messages = omega (arith, counted, few);
      count = omega (arith, q.read_back.fits, length-dump_types e 0 type, window);
    })

parse_gbnl-recalc_size :
    (s : Source) (g : Gbnl)
    → IsReadable s
    → parse_gbnl s ≡ ok g
    → (g₀ : Gbnl) × IsParsed s g₀ × (recalc_size g₀ ≡ g) × (get_size (recalc_size g₀) ≡ s.size)
unfolding parse_gbnl
parse_gbnl-recalc_size s g r done =
    let ((is_gstl, foot), e₁, h₁) = bind-eq-ok (read_header s) _ done in
    let e = if get_or foot 3 0 == b'L' then Endian.little else Endian.big in
    let h = header_of e foot in
    let (_, _, h₂) = bind-eq-ok (validate h s.size) _ h₁ in
    let (g₀, e₃, h₃) = bind-eq-ok (parse_messages is_gstl e h s) _ h₂ in
    let (_, _, h₄) =
      bind-eq-ok (guard ((recalc_size g₀).msg_descr_size == h.msg_descr_size) decode_error) _ h₃ in
    let (_, exact, h₅) =
      bind-eq-ok (guard (get_size (recalc_size g₀) == s.size) decode_error) _ h₄ in
    let few = header_of-count e foot (read_header-IsBytes s is_gstl foot r e₁) in
    (g₀, parse_messages-IsParsed is_gstl e h s g₀ r few e₃, ok-injective h₅, guard_eq _ _ exact)

-- A table that was parsed can be written.
IsParsed-IsWritable :
    (s : Source) (g₀ : Gbnl)
    → IsParsed s g₀
    → s.size < 2 ^ 32
    → get_size (recalc_size g₀) ≡ s.size
    → messages_bytes g₀.messages < 2 ^ 32
    → IsWritable g₀
IsParsed-IsWritable s g₀ p small exact strings =
    let product : total_size g₀.type * length g₀.messages ≤ 2 ^ 18 * 2 ^ 32 =
      mul-le-mul {n₂ = 2 ^ 18} {m₂ = 2 ^ 32} (omega (arith, p.type_small))
        (omega (arith, p.messages)) in
    record {
      have_type = p.have_type;
      type_small = omega (arith, p.type_small);
      messages_small = omega (arith, product);
      types_small = omega (arith, p.count, small);
      strings_small = strings;
      count_small = p.messages;
      whole = omega (arith, exact, small);
    }

abbrev IsRewritten : Source → Gbnl → Type 0
IsRewritten s g =
    (bytes : Bytes) × (dump_gbnl g ≡ ok bytes)
    × (length bytes ≡ s.size)
    × IsDumped g bytes
    × MessagesStand (dump_strings g.messages 0).0 g.messages

-- If `Parse_` accepts a window of a file smaller than 4 GiB, and the strings of the table take less
-- than 2^32 bytes, repeated ones counted each time, then `Dump_` returns bytes, as many as the window
-- has. The header in them, read as `Parse_` reads it, has the magic, the byte order, the counts and
-- the size of a message, and at the three offsets it gives stand the messages, the descriptors of the
-- type and the strings. Each string of a message stands at its offset among the strings.
pub parse_gbnl-dump_gbnl :
    (s : Source) (g : Gbnl)
    → IsReadable s
    → length s.contents < 2 ^ 32
    → parse_gbnl s ≡ ok g
    → messages_bytes g.messages < 2 ^ 32
    → (bytes : Bytes) × (dump_gbnl g ≡ ok bytes)
      × (length bytes ≡ s.size)
      × IsDumped g bytes
      × MessagesStand (dump_strings g.messages 0).0 g.messages
parse_gbnl-dump_gbnl s g r small done strings =
    let (g₀, p, same, exact) = parse_gbnl-recalc_size s g r done in
    let strings₀ : messages_bytes g₀.messages < 2 ^ 32 =
      omega (arith, rw (← same) at strings, messages_bytes-recalc_size g₀) in
    let small₀ : s.size < 2 ^ 32 = omega (arith, r.window.fits, small) in
    let (bytes, dumped, parts) =
      recalc_size-dump_gbnl g₀ (IsParsed-IsWritable s g₀ p small₀ exact strings₀) in
    let placed = recalc_size-StringsPlaced g₀ strings₀ in
    subst (IsRewritten s) same (bytes, dumped, parts.size ∙ exact, parts, placed.stand)
