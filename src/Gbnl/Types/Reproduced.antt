-- ===== src/Gbnl/Types/Reproduced.antt =====
-- The descriptors that `Gbnl::Dump_` of src/format/gbnl.cpp writes for a type are those that `Parse_` made it of.
use neptools.Prelude.{
  ℕ, zero, suc, ◌+◌, ◌-◌, ◌%◌, ◌^◌, ◌≤◌, ◌<◌, ◌≡◌, refl, sym, ap, ◌∙◌, Bool, false, List, [], ◌∷◌,
  ◌++◌, leb, ◌==◌, arith, length, take, drop, append-nil, append_assoc, length-drop, Bool-cases,
  inl, inr,
}
use mathlib.Core.Path.{subst}
use neptools.Prelude.Bytes.{Bytes}
use neptools.Prelude.Result.{ok, guard, decode_error, bind-eq-ok, ok-injective}
use neptools.Source.{Source, read}
use neptools.Source.Struct.{IsBytes-drop}
use neptools.Source.Consumed.{
  IsReadable, Consumed, Consumed-IsReadable, Consumed-refl, Consumed-append, read-Consumed,
}
use neptools.Endian.{Endian, pack_endian, from_endian, from_endian-lt}
use neptools.Gbnl.{Item, count_real}
use neptools.Gbnl.Types.{get_type_size, pad, item_of, parse_types, dump_types, type_int8}
use neptools.Gbnl.Types.Entries.{
  IsEntry, total_size, waiting, one_if, dump_types-append, count_real-append, pad-IsPad, IsEntry,
  item_of-IsEntry, descriptor-bytes, get_type_size-le, total_size-append,
}

-- What `parse_types` took off the window, and what the items that it made are written as.
record AreParsed (e : Endian) (msg_descr_size n start : ℕ) (p : Bool) (s t : Source)
    (items : List Item) : Type 0 where
  pub bytes : Bytes
  pub taken : Consumed s bytes t
  pub dumped : dump_types e (start % 2 ^ 16) items ≡ waiting e p (start % 2 ^ 16) ++ bytes
  pub count : count_real items ≡ n + one_if p
  pub size : (start + total_size items) % 2 ^ 16 ≡ msg_descr_size % 2 ^ 16
  pub bound : start + total_size items < 2 ^ 18

-- The items for one descriptor, and then the rest.
dump_types-step :
    (e : Endian) (start offset type size : ℕ) (p : Bool) (before here rest : List Item)
    (after : Bytes)
    → start < 2 ^ 16
    → offset < 2 ^ 16
    → dump_types e start before ≡ waiting e p start
    → start + total_size before ≡ offset
    → IsEntry e type offset size here
    → dump_types e ((offset + total_size here) % 2 ^ 16) rest
      ≡ waiting e (type == type_int8) ((offset + total_size here) % 2 ^ 16) ++ after
    → dump_types e start (before ++ (here ++ rest))
      ≡ waiting e p start ++ (pack_endian e (2 ∷ 2 ∷ []) (type ∷ offset ∷ []) ++ after)
dump_types-step e start offset type size p before here rest after small below b sum entry ih =
    let first = dump_types-append e before (here ++ rest) start small in
    let second = dump_types-append e here rest offset below in
    let there : (start + total_size before) % 2 ^ 16 ≡ offset = omega arith in
    let waits : waiting e (type == type_int8) ((offset + total_size here) % 2 ^ 16)
        ≡ waiting e (type == type_int8) offset =
      elim (Bool-cases (type == type_int8)) [
        | inl y ↦
            let none_added : total_size here ≡ 0 = ap total_size (entry.only y) in
            ap (waiting e (type == type_int8)) (omega arith)
        | inr n ↦ rw n refl
      ] in
    first
    ∙ ap (λ k. dump_types e start before ++ dump_types e k (here ++ rest)) there
    ∙ ap (◌++◌ (dump_types e start before))
        (second ∙ ap (◌++◌ (dump_types e offset here)) (ih ∙ ap (λ w. w ++ after) waits))
    ∙ ap (λ x. x ++ (dump_types e offset here ++ (waiting e (type == type_int8) offset ++ after))) b
    ∙ ap (◌++◌ (waiting e p start))
        (sym (append_assoc _ _ after) ∙ ap (λ x. x ++ after) entry.bytes)

parse_types-AreParsed :
    (e : Endian) (m n calc start : ℕ) (p : Bool) (s t : Source) (items : List Item)
    → calc ≡ start + one_if p
    → calc < 2 ^ 17
    → IsReadable s
    → parse_types e m n calc p s ≡ ok (items, t)
    → AreParsed e m n start p s t items
unfolding parse_types
parse_types-AreParsed e m zero calc start p s t items at_calc small r h =
    let diff = (m + 2 ^ 64 - calc) % 2 ^ 16 in
    let q = pad-IsPad e (start % 2 ^ 16) diff p in
    subst (λ x. AreParsed e m zero start p s x.1 x.0) (ok-injective h)
      (record {
        bytes = [];
        taken = Consumed-refl s r;
        dumped = q.bytes ∙ sym (append-nil _);
        count = q.count ∙ omega arith;
        size = omega (arith, q.size);
        bound = omega (arith, q.size);
      })
parse_types-AreParsed e m (suc n) calc start p s t items at_calc small r h =
    let ((bs, u), e₁, h₁) = bind-eq-ok (read 4 s) _ h in
    let type = from_endian e (take 2 bs) in
    let offset = from_endian e (drop 2 bs) in
    let (_, ordered, h₂) = bind-eq-ok (guard (leb calc offset) decode_error) _ h₁ in
    let (size, sized, h₃) = bind-eq-ok (get_type_size type) _ h₂ in
    let (here, made, h₄) = bind-eq-ok (item_of type) _ h₃ in
    let ((rest, v), e₂, h₅) =
      bind-eq-ok (parse_types e m n (offset + size) (type == type_int8) u) _ h₄ in
    let (c, b, len) = read-Consumed 4 s u bs r (omega arith) e₁ in
    let above : calc ≤ offset = ground arith in
    let back : length (drop 2 bs) ≡ 2 = rw length-drop (omega arith) in
    let below : offset < 256 ^ 2 =
      rw back at (from_endian-lt e (drop 2 bs) (IsBytes-drop 2 bs b)) in
    let entry = item_of-IsEntry e type offset size here sized made in
    let q = pad-IsPad e start (offset - calc) p in
    let size_small : size ≤ 8 = get_type_size-le type size sized in
    let ih =
      parse_types-AreParsed e m n (offset + size) (offset + total_size here) (type == type_int8) u v
        rest (omega (arith, entry.total)) (omega arith) (Consumed-IsReadable s u bs r c) e₂ in
    let exact : start % 2 ^ 16 ≡ start = omega arith in
    let step =
      dump_types-step e start offset type size p (pad (offset - calc) p) here rest ih.bytes
        (omega arith) (omega arith) q.bytes (omega (arith, q.size)) entry ih.dumped in
    let same = descriptor-bytes e bs b len in
    subst (λ x. AreParsed e m (suc n) start p s x.1 x.0) (ok-injective h₅)
      (record {
        bytes = bs ++ ih.bytes;
        taken = Consumed-append s u v bs ih.bytes c ih.taken;
        dumped = rw exact (step ∙ ap (λ x. waiting e p start ++ (x ++ ih.bytes)) same);
        count = omega (
          arith,
          count_real-append (pad (offset - calc) p) (here ++ rest),
          count_real-append here rest,
          q.count,
          entry.count,
          ih.count,
        );
        size = omega (
          arith,
          total_size-append (pad (offset - calc) p) (here ++ rest),
          total_size-append here rest,
          q.size,
          ih.size,
        );
        bound = omega (
          arith,
          total_size-append (pad (offset - calc) p) (here ++ rest),
          total_size-append here rest,
          q.size,
          ih.bound,
        );
      })

-- The type that the descriptors of a window were parsed into.
pub record TypesReproduced (e : Endian) (msg_descr_size n : ℕ) (s t : Source) (items : List Item)
    : Type 0 where
  pub read_back : Consumed s (dump_types e 0 items) t
  pub count : count_real items ≡ n
  pub size : total_size items % 2 ^ 16 ≡ msg_descr_size % 2 ^ 16
  pub bound : total_size items < 2 ^ 18

-- If `Parse_` reads `n` descriptors of a window into a type, then the descriptors that `Dump_` writes for
-- that type are the bytes that were read, the type has `n` items that are not padding, and the sum
-- of its sizes is `msg_descr_size`, modulo 2^16, and smaller than 2^18.
pub parse_types-TypesReproduced :
    (e : Endian) (msg_descr_size n : ℕ) (s t : Source) (items : List Item)
    → IsReadable s
    → parse_types e msg_descr_size n 0 false s ≡ ok (items, t)
    → TypesReproduced e msg_descr_size n s t items
parse_types-TypesReproduced e m n s t items r h =
    let q = parse_types-AreParsed e m n 0 0 false s t items refl (omega arith) r h in
    record {
      read_back = rw q.dumped q.taken;
      count = omega (arith, q.count);
      size = omega (arith, q.size);
      bound = omega (arith, q.bound);
    }
