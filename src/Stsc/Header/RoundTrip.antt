-- ===== src/Stsc/Header/RoundTrip.antt =====
-- `HeaderItem` of src/format/stsc/header.cpp is dumped as it was read, and ends before the entry point.
use neptools.Prelude.{
  ℕ, ◌+◌, ◌%◌, ◌^◌, ◌≤◌, ◌<◌, ◌≡◌, refl, ap, ◌∙◌, Option, some, [], ◌∷◌, ◌++◌, if◌then◌else◌,
  length, length-append, arith,
}
use mathlib.Core.Path.{subst}
use neptools.Prelude.Bytes.{Bytes, to_le}
use neptools.Prelude.Text.{codes}
use neptools.Prelude.Result.{ok, bind-eq-ok, ok-injective}
use neptools.Source.{Source, check_remaining_size, read, read_little}
use neptools.Source.Struct.{pack}
use neptools.Source.Consumed.{IsReadable, Consumed, Consumed-append, Consumed-IsReadable}
use neptools.Context.{Context, ItemPointer, get_pointer, create_label_fallback, label_pos}
use neptools.Context.Labels.{
  UniqueNames, get_pointer-pointer_pos, fallback-Labelled, deref_pos-Grows,
}
use neptools.Stsc.Header.{
  Header, ExtraHeaders2, HeaderItem, header_sizes, extra_sizes, has_1, has_2, has_4,
  validate_header, read_if, read_extra, read_header, parse_header, extra_fields, bit_if, dump_if,
  dump_header, get_size,
}
use neptools.Stsc.Reproduced.{IsReproduced}
use neptools.Stsc.Header.Reads.{
  Extra, read_if-Extra, read_extra-Consumed, read-block, read_little-word, header_length, IsHeader,
  validate_header-IsHeader, ReadsHeader, read_header-ReadsHeader,
}

-- All that `Parse_` accepted.
record Parsed (c : Context) (s : Source) (i : HeaderItem) (c' : Context) (s' : Source)
    : Type 0 where
  pub pos : ℕ
  pub reproduced : IsReproduced (λ later. dump_header later i) c s c' s'
  pub entry : label_pos c' i.entry_point ≡ some pos
  pub ends : s'.get ≡ s.get + get_size i
  pub behind : get_size i ≤ pos
  pub inside : pos + 1 < s.size

-- The flags that are dumped.
flags_again :
    (flags a b d : ℕ)
    → flags < 8
    → a ≡ (if has_1 flags then 1 else 0)
    → b ≡ (if has_2 flags then 2 else 0)
    → d ≡ (if has_4 flags then 4 else 0)
    → a + b + d ≡ flags
flags_again flags a b d h x y z = ground arith

-- The parts of a header, one behind the other.
parts-Parsed :
    (c : Context) (s s₁ s₂ s₃ s₄ : Source) (hdr : Header) (ptr : ItemPointer) (x1 : Option Bytes)
    (x2 : Option ExtraHeaders2) (x4 : Option ℕ)
    → IsReadable s
    → UniqueNames c.labels
    → ReadsHeader s hdr s₁
    → IsHeader hdr s₁.size
    → get_pointer hdr.entry_pos c ≡ ok ptr
    → Extra (λ block. block) 32 (has_1 hdr.flags) s₁ x1 s₂
    → Extra (λ eh. pack extra_sizes (extra_fields eh)) 14 (has_2 hdr.flags) s₂ x2 s₃
    → Extra (to_le 2) 2 (has_4 hdr.flags) s₃ x4 s₄
    → Parsed c s
        (record {
          entry_point = (create_label_fallback (codes "entry_point") ptr c).0;
          extra_headers_1 = x1;
          extra_headers_2 = x2;
          extra_headers_4 = x4;
        })
        (create_label_fallback (codes "entry_point") ptr c).1
        s₄
unfolding dump_header get_size
parts-Parsed c s s₁ s₂ s₃ s₄ hdr ptr x1 x2 x4 w u r v found p q t =
    let l = (create_label_fallback (codes "entry_point") ptr c).0 in
    let b1 : Bytes = dump_if (λ block. block) x1 in
    let b2 = dump_if (λ eh. pack extra_sizes (extra_fields eh)) x2 in
    let b4 = dump_if (to_le 2) x4 in
    let head = pack header_sizes (codes "STSC" ++ (hdr.entry_pos ∷ hdr.flags ∷ [])) in
    let taken : Consumed s head s₁ =
      subst (λ m. Consumed s (pack header_sizes (m ++ (hdr.entry_pos ∷ hdr.flags ∷ []))) s₁) v.magic
        r.consumed in
    let head_len : length head ≡ 12 = header_length hdr.entry_pos hdr.flags in
    let extras =
      Consumed-append s₁ s₂ s₄ b1 (b2 ++ b4) p.consumed
        (Consumed-append s₂ s₃ s₄ b2 b4 q.consumed t.consumed) in
    let all = Consumed-append s s₁ s₄ head (b1 ++ (b2 ++ b4)) taken extras in
    let len = length-append head (b1 ++ (b2 ++ b4)) in
    let len' = length-append b1 (b2 ++ b4) in
    let len'' = length-append b2 b4 in
    let word : hdr.entry_pos % 2 ^ 32 ≡ hdr.entry_pos = omega (arith, r.near) in
    let flags =
      flags_again hdr.flags (bit_if 1 x1) (bit_if 2 x2) (bit_if 4 x4) v.flags (p.bits 1) (q.bits 2)
        (t.bits 4) in
    let d = fallback-Labelled ptr (codes "entry_point") c u in
    let points =
      d.points ∙ get_pointer-pointer_pos hdr.entry_pos c ptr (omega (arith, r.near)) found in
    let same_size : s₁.size ≡ s.size = ap (λ x. x.size) taken.moved in
    record {
      pos = hdr.entry_pos;
      reproduced = record {
        bytes = head ++ (b1 ++ (b2 ++ b4));
        consumed = all;
        grows = d.grows;
        dumps = λ later g. rw (deref_pos-Grows l hdr.entry_pos points g, flags, word) refl;
      };
      entry = points;
      ends = ap (λ x. x.get) all.moved ∙ omega (arith, p.size, q.size, t.size);
      behind = omega (arith, p.bits 32, q.bits 14, t.bits 2, v.behind);
      inside = omega (arith, v.inside, w.window.fits, w.small);
    }

read_parts-Parsed :
    (c : Context) (s s₁ s₂ s₃ s₄ : Source) (hdr : Header) (ptr : ItemPointer) (x1 : Option Bytes)
    (x2 : Option ExtraHeaders2) (x4 : Option ℕ)
    → IsReadable s
    → UniqueNames c.labels
    → ReadsHeader s hdr s₁
    → IsHeader hdr s₁.size
    → get_pointer hdr.entry_pos c ≡ ok ptr
    → read_if (has_1 hdr.flags) (read 32) s₁ ≡ ok (x1, s₂)
    → read_if (has_2 hdr.flags) read_extra s₂ ≡ ok (x2, s₃)
    → read_if (has_4 hdr.flags) (read_little 2) s₃ ≡ ok (x4, s₄)
    → Parsed c s
        (record {
          entry_point = (create_label_fallback (codes "entry_point") ptr c).0;
          extra_headers_1 = x1;
          extra_headers_2 = x2;
          extra_headers_4 = x4;
        })
        (create_label_fallback (codes "entry_point") ptr c).1
        s₄
read_parts-Parsed c s s₁ s₂ s₃ s₄ hdr ptr x1 x2 x4 w u r v found e e' e'' =
    let w₁ = Consumed-IsReadable s s₁ _ w r.consumed in
    let p =
      read_if-Extra (λ block. block) 32 (read 32) s₁ w₁ (read-block s₁ w₁) (has_1 hdr.flags) x1 s₂
        e in
    let w₂ = Consumed-IsReadable s₁ s₂ _ w₁ p.consumed in
    let q =
      read_if-Extra (λ eh. pack extra_sizes (extra_fields eh)) 14 read_extra s₂ w₂
        (read_extra-Consumed s₂ w₂) (has_2 hdr.flags) x2 s₃ e' in
    let w₃ = Consumed-IsReadable s₂ s₃ _ w₂ q.consumed in
    let t =
      read_if-Extra (to_le 2) 2 (read_little 2) s₃ w₃ (read_little-word s₃ w₃) (has_4 hdr.flags) x4
        s₄ e'' in
    parts-Parsed c s s₁ s₂ s₃ s₄ hdr ptr x1 x2 x4 w u r v found p q t

parse_header-Parsed :
    (c : Context) (s : Source) (i : HeaderItem) (c' : Context) (s' : Source)
    → IsReadable s
    → UniqueNames c.labels
    → parse_header c s ≡ ok (i, (c', s'))
    → Parsed c s i c' s'
unfolding parse_header
parse_header-Parsed c s i c' s' w u h =
    let (o, e₀, h₀) = bind-eq-ok (check_remaining_size 12 s) _ h in
    let ((hdr, s₁), e₁, h₁) = bind-eq-ok (read_header s) _ h₀ in
    let (p, e₂, h₂) = bind-eq-ok (validate_header hdr s₁.size) _ h₁ in
    let (ptr, e₃, h₃) = bind-eq-ok (get_pointer hdr.entry_pos c) _ h₂ in
    let l = create_label_fallback (codes "entry_point") ptr c in
    let ((x1, s₂), e₄, h₄) = bind-eq-ok (read_if (has_1 hdr.flags) (read 32) s₁) _ h₃ in
    let ((x2, s₃), e₅, h₅) = bind-eq-ok (read_if (has_2 hdr.flags) read_extra s₂) _ h₄ in
    let ((x4, s₄), e₆, h₆) = bind-eq-ok (read_if (has_4 hdr.flags) (read_little 2) s₃) _ h₅ in
    subst (λ x. Parsed c s x.0 x.1.0 x.1.1) (ok-injective h₆)
      (read_parts-Parsed c s s₁ s₂ s₃ s₄ hdr ptr x1 x2 x4 w u
        (read_header-ReadsHeader s hdr s₁ w e₁) (validate_header-IsHeader hdr s₁.size p e₂) e₃ e₄ e₅
        e₆)

-- If `HeaderItem::Parse_` accepts a header, then `Dump_` writes the same bytes, in the context that it leaves and
-- in every one that this may grow to.
pub parse_header-IsReproduced :
    (c : Context) (s : Source) (i : HeaderItem) (c' : Context) (s' : Source)
    → IsReadable s
    → UniqueNames c.labels
    → parse_header c s ≡ ok (i, (c', s'))
    → IsReproduced (λ later. dump_header later i) c s c' s'
parse_header-IsReproduced c s i c' s' w u h = (parse_header-Parsed c s i c' s' w u h).reproduced

-- If `HeaderItem::Parse_` accepts a header, then it has read the bytes that `GetSize` counts, and the label of the
-- entry point is at a position behind them in the file, before its last byte.
pub parse_header-get_size :
    (c : Context) (s : Source) (i : HeaderItem) (c' : Context) (s' : Source)
    → IsReadable s
    → UniqueNames c.labels
    → parse_header c s ≡ ok (i, (c', s'))
    → (s'.get ≡ s.get + get_size i)
      × ((pos : ℕ) × ((label_pos c' i.entry_point ≡ some pos)
            × ((get_size i ≤ pos) × (pos + 1 < s.size))))
parse_header-get_size c s i c' s' w u h =
    let p = parse_header-Parsed c s i c' s' w u h in
    (p.ends, (p.pos, (p.entry, (p.behind, p.inside))))
