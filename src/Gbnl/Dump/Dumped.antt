-- ===== src/Gbnl/Dump/Dumped.antt =====
-- Where the parts of a file that `Gbnl::Dump_` of src/format/gbnl.cpp writes stand.
use neptools.Prelude.{
  ℕ, ◌+◌, ◌-◌, ◌*◌, ◌%◌, ◌^◌, ◌≡◌, refl, sym, ap, ◌∙◌, Bool, true, false, List, [], ◌∷◌, ◌++◌, ◌==◌,
  if◌then◌else◌, length, take, drop, replicate, arith, append-nil, length-replicate,
}
use neptools.Prelude.Bytes.{Bytes}
use neptools.Prelude.Result.{ok}
use neptools.Gbnl.{Gbnl}
use neptools.Gbnl.Types.{dump_types}
use neptools.Gbnl.Strings.{dump_strings}
use neptools.Gbnl.Dump.{
  dump_messages, align, get_size, dump_header, pad_to, dump_gbnl, descr_offset, types_offset,
  strings_offset,
}
use neptools.Gbnl.Dump.Sizes.{
  written_messages, length-dump_types, dump_messages-written, length-written_messages,
  length-dump_header,
}
use neptools.Gbnl.Dump.Offsets.{
  IsRecalculated, header-HeaderPlaced, messages_end, types_end, strings_end, types_end-small,
  types_offset_lem, strings_offset_lem,
}
use neptools.Gbnl.Dump.Layout.{
  flat, sum_lengths-append, length-flat, block-flat, align-IsAligned, align-align, length-pad_to,
}

-- The header stands in front of a GSTL, and behind all else in a GBNL.
abbrev pub header_at : Bool → ℕ → ℕ
header_at b size = if b then 0 else size - 64

-- Where the parts of a table that was recalculated stand, by the offsets `Dump_` computes.
pub record PartsPlaced (g : Gbnl) (bytes : Bytes) : Type 0 where
  pub size : length bytes ≡ get_size g
  pub header : take 64 (drop (header_at g.is_gstl (length bytes)) bytes) ≡ dump_header g
  pub messages :
      take (g.msg_descr_size * length g.messages) (drop (descr_offset g) bytes)
      ≡ written_messages g.endian g.type g.messages
  pub types :
      take (4 * g.real_item_count) (drop (types_offset g) bytes) ≡ dump_types g.endian 0 g.type
  pub strings : take g.msgs_size (drop (strings_offset g) bytes) ≡ (dump_strings g.messages 0).0

abbrev pub blocks : Gbnl → List Bytes
blocks g =
    (if g.is_gstl then dump_header g else [])
    ∷ dump_messages g.endian g.type (replicate g.msg_descr_size 0) g.messages
    ∷ pad_to (align g.is_gstl (messages_end g)) (messages_end g)
    ∷ dump_types g.endian 0 g.type
    ∷ pad_to (align g.is_gstl (types_end g)) (types_end g)
    ∷ (dump_strings g.messages 0).0
    ∷ pad_to (align g.is_gstl (strings_end g)) (strings_end g)
    ∷ (if g.is_gstl then [] else dump_header g)
    ∷ []

pub dump_gbnl-blocks :
    (g : Gbnl) → (strings_end g == g.msgs_size) ≡ true → dump_gbnl g ≡ ok (flat (blocks g))
unfolding dump_gbnl
dump_gbnl-blocks g h =
    let back = if g.is_gstl then [] else dump_header g in
    rw h (
      ap
        (λ x. ok (
          (if g.is_gstl then dump_header g else [])
          ++ (dump_messages g.endian g.type (replicate g.msg_descr_size 0) g.messages
              ++ (pad_to (align g.is_gstl (messages_end g)) (messages_end g)
                  ++ (dump_types g.endian 0 g.type
                      ++ (pad_to (align g.is_gstl (types_end g)) (types_end g)
                          ++ ((dump_strings g.messages 0).0
                              ++ (pad_to (align g.is_gstl (strings_end g)) (strings_end g)
                                  ++ x))))))))
        (sym (append-nil back)))

-- The header of a file in blocks.
header_block :
    (b : Bool) (header : Bytes) (xs : List Bytes)
    → length header ≡ 64
    → let bytes = flat ((if b then header else []) ∷ (xs ++ ((if b then [] else header) ∷ []))) in
      take 64 (drop (header_at b (length bytes)) bytes) ≡ header
header_block true header xs h = block-flat [] (xs ++ ([] ∷ [])) header 0 64 refl (sym h)
header_block false header xs h =
    block-flat ([] ∷ xs) [] header (length (flat ([] ∷ (xs ++ (header ∷ [])))) - 64) 64
      (omega (arith, length-flat (xs ++ (header ∷ [])), sum_lengths-append xs (header ∷ []), h))
      (sym h)

module _ (g : Gbnl) (r : IsRecalculated g) where
  dump_messages_lem :
      dump_messages g.endian g.type (replicate g.msg_descr_size 0) g.messages
      ≡ written_messages g.endian g.type g.messages
  dump_messages_lem =
      dump_messages-written g.endian g.type (replicate g.msg_descr_size 0) g.messages
        (length-replicate g.msg_descr_size 0 ∙ r.descr) r.have_type

  length-dump_messages :
      length (dump_messages g.endian g.type (replicate g.msg_descr_size 0) g.messages)
      ≡ g.msg_descr_size * length g.messages
  length-dump_messages =
      ap length dump_messages_lem
      ∙ length-written_messages g.endian g.type g.messages r.have_type
      ∙ ap (λ x. x * length g.messages) (sym r.descr)

  length-types : length (dump_types g.endian 0 g.type) ≡ 4 * g.real_item_count
  length-types = omega (arith, length-dump_types g.endian 0 g.type, r.real)

  pad_1 :
      length (pad_to (align g.is_gstl (messages_end g)) (messages_end g))
      ≡ align g.is_gstl (messages_end g) - messages_end g
  pad_1 = length-pad_to g.is_gstl (messages_end g) (omega (arith, r.messages_small))

  pad_2 :
      length (pad_to (align g.is_gstl (types_end g)) (types_end g))
      ≡ align g.is_gstl (types_end g) - types_end g
  pad_2 = length-pad_to g.is_gstl (types_end g) (omega (arith, types_end-small g r))

  pad_3 :
      length (pad_to (align g.is_gstl (strings_end g)) (strings_end g))
      ≡ align g.is_gstl (strings_end g) - strings_end g
  pad_3 = length-pad_to g.is_gstl (strings_end g) (omega (arith, r.counted, r.strings_small))

  pub get_size_lem :
      get_size g ≡ align g.is_gstl (types_end g) + align g.is_gstl (strings_end g) + 64
  unfolding get_size
  get_size_lem =
      let b = g.is_gstl in
      let al₂ = align-IsAligned b (types_end g) (omega (arith, types_end-small g r)) in
      let al₃ = align-IsAligned b (strings_end g) (omega (arith, r.counted, r.strings_small)) in
      let last : align b ((align b (types_end g) + g.msgs_size) % 2 ^ 64)
          ≡ align b (types_end g) + align b (strings_end g) =
        ap (λ x. align b ((align b (types_end g) + x) % 2 ^ 64)) (sym r.counted)
        ∙ align-align b (types_end g) (strings_end g) (types_end-small g r)
            (omega (arith, r.counted, r.strings_small)) in
      omega (arith, last, types_end-small g r, r.counted, r.strings_small, al₂.near, al₃.near)

  dump_gbnl-size : length (flat (blocks g)) ≡ get_size g
  dump_gbnl-size =
      let b = g.is_gstl in
      let place = header-HeaderPlaced g in
      let al₁ = align-IsAligned b (messages_end g) (omega (arith, r.messages_small)) in
      let al₂ = align-IsAligned b (types_end g) (omega (arith, types_end-small g r)) in
      let al₃ = align-IsAligned b (strings_end g) (omega (arith, r.counted, r.strings_small)) in
      length-flat (blocks g)
      ∙ omega (
        arith, place.front, place.back, place.low, length-dump_messages, length-types, r.text,
        r.counted, pad_1, pad_2, pad_3, al₁.above, al₂.above, al₃.above, al₁.near, get_size_lem,
        r.messages_small, r.types_small, r.strings_small,
      )

  pub dump_gbnl-PartsPlaced : PartsPlaced g (flat (blocks g))
  dump_gbnl-PartsPlaced = record {
    size = dump_gbnl-size;
    header =
        header_block g.is_gstl (dump_header g)
          (messages ∷ pad_one ∷ types ∷ pad_two ∷ strings ∷ pad_three ∷ []) (length-dump_header g);
    messages =
        block-flat (front ∷ []) (pad_one ∷ types ∷ pad_two ∷ strings ∷ pad_three ∷ back ∷ [])
          messages (descr_offset g) (g.msg_descr_size * length g.messages)
          (omega (arith, (header-HeaderPlaced g).front)) (sym length-dump_messages)
        ∙ dump_messages_lem;
    types =
        block-flat (front ∷ messages ∷ pad_one ∷ []) (pad_two ∷ strings ∷ pad_three ∷ back ∷ [])
          types (types_offset g) (4 * g.real_item_count)
          (omega (
            arith,
            types_offset_lem g r,
            (header-HeaderPlaced g).front,
            length-dump_messages,
            pad_1,
            (align-IsAligned g.is_gstl (messages_end g) (omega (arith, r.messages_small))).above,
            r.messages_small,
          ))
          (sym length-types);
    strings =
        block-flat (front ∷ messages ∷ pad_one ∷ types ∷ pad_two ∷ []) (pad_three ∷ back ∷ [])
          strings (strings_offset g) g.msgs_size
          (omega (
            arith,
            strings_offset_lem g r,
            (header-HeaderPlaced g).front,
            length-dump_messages,
            length-types,
            pad_1,
            pad_2,
            (align-IsAligned g.is_gstl (messages_end g) (omega (arith, r.messages_small))).above,
            (align-IsAligned g.is_gstl (messages_end g) (omega (arith, r.messages_small))).near,
            (align-IsAligned g.is_gstl (types_end g) (omega (arith, types_end-small g r))).above,
            r.messages_small,
            r.types_small,
          ))
          (sym r.text);
  }
    where
      front : Bytes
      front = if g.is_gstl then dump_header g else []

      messages : Bytes
      messages = dump_messages g.endian g.type (replicate g.msg_descr_size 0) g.messages

      pad_one : Bytes
      pad_one = pad_to (align g.is_gstl (messages_end g)) (messages_end g)

      types : Bytes
      types = dump_types g.endian 0 g.type

      pad_two : Bytes
      pad_two = pad_to (align g.is_gstl (types_end g)) (types_end g)

      strings : Bytes
      strings = (dump_strings g.messages 0).0

      pad_three : Bytes
      pad_three = pad_to (align g.is_gstl (strings_end g)) (strings_end g)

      back : Bytes
      back = if g.is_gstl then [] else dump_header g
