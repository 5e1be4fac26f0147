-- ===== src/Stsc/Header/Reads.antt =====
-- What the reads of `HeaderItem` of src/format/stsc/header.cpp take off the source, and what `Validate` promises.
use neptools.Prelude.{
  ℕ, ◌+◌, ◌-◌, ◌/◌, ◌%◌, ◌^◌, ◌≤◌, ◌<◌, ◌≡◌, refl, sym, ap, Bool, true, false, Option, List, [],
  ◌∷◌, ◌++◌, ltb, leb, ◌==◌, if◌then◌else◌, length, arith,
}
use mathlib.Core.Path.{subst}
use neptools.Prelude.Bytes.{Bytes, to_le, length-to_le}
use neptools.Prelude.Text.{codes, str_eq, str_eq_iff}
use neptools.Prelude.Result.{
  Result, ok, guard, decode_error, assertion, bind-eq-ok, err-ok, guard-true, ok-injective,
}
use neptools.Source.{Source, read, read_little}
use neptools.Source.Struct.{read_gen, pack, AreFields}
use neptools.Source.Consumed.{
  IsReadable, Consumed, Consumed-refl, read-Consumed, read_gen-Consumed, read_little-Consumed,
}
use neptools.Stsc.Header.{
  Header, ExtraHeaders2, header_sizes, extra_sizes, to_header, to_extra, hdr_len, validate_header,
  read_if, read_extra, read_header, extra_fields, bit_if, dump_if,
}

pub to_header_lem :
    (xs : List ℕ) (hdr : Header)
    → to_header xs ≡ ok hdr
    → (xs ≡ hdr.magic ++ (hdr.entry_pos ∷ hdr.flags ∷ [])) × (length hdr.magic ≡ 4)
unfolding to_header
to_header_lem [] hdr e = absurd (err-ok assertion hdr e)
to_header_lem (a ∷ []) hdr e = absurd (err-ok assertion hdr e)
to_header_lem (a ∷ b ∷ []) hdr e = absurd (err-ok assertion hdr e)
to_header_lem (a ∷ b ∷ c ∷ []) hdr e = absurd (err-ok assertion hdr e)
to_header_lem (a ∷ b ∷ c ∷ d ∷ []) hdr e = absurd (err-ok assertion hdr e)
to_header_lem (a ∷ b ∷ c ∷ d ∷ p ∷ []) hdr e = absurd (err-ok assertion hdr e)
to_header_lem (a ∷ b ∷ c ∷ d ∷ p ∷ f ∷ []) hdr e =
    let same = ok-injective e in
    (ap (λ h. h.magic ++ (h.entry_pos ∷ h.flags ∷ [])) same, sym (ap (λ h. length h.magic) same))
to_header_lem (a ∷ b ∷ c ∷ d ∷ p ∷ f ∷ g ∷ xs) hdr e = absurd (err-ok assertion hdr e)

pub entry_near :
    (magic : Bytes) (pos flags : ℕ)
    → length magic ≡ 4
    → AreFields header_sizes (magic ++ (pos ∷ flags ∷ []))
    → pos < 2 ^ 32
entry_near (a ∷ b ∷ c ∷ d ∷ []) pos flags len f = omega (arith, f.1.1.1.1.0)
entry_near [] pos flags len f = absurd (omega arith)
entry_near (a ∷ []) pos flags len f = absurd (omega arith)
entry_near (a ∷ b ∷ []) pos flags len f = absurd (omega arith)
entry_near (a ∷ b ∷ c ∷ []) pos flags len f = absurd (omega arith)
entry_near (a ∷ b ∷ c ∷ d ∷ x ∷ xs) pos flags len f = absurd (omega arith)

pub to_extra_lem : (xs : List ℕ) (eh : ExtraHeaders2) → to_extra xs ≡ ok eh → xs ≡ extra_fields eh
unfolding to_extra
to_extra_lem [] eh e = cc
to_extra_lem (a ∷ []) eh e = cc
to_extra_lem (a ∷ b ∷ []) eh e = cc
to_extra_lem (a ∷ b ∷ c ∷ []) eh e = cc
to_extra_lem (a ∷ b ∷ c ∷ d ∷ []) eh e = cc
to_extra_lem (a ∷ b ∷ c ∷ d ∷ p ∷ []) eh e = cc
to_extra_lem (a ∷ b ∷ c ∷ d ∷ p ∷ q ∷ []) eh e = cc
to_extra_lem (a ∷ b ∷ c ∷ d ∷ p ∷ q ∷ r ∷ []) eh e = ap extra_fields (ok-injective e)
to_extra_lem (a ∷ b ∷ c ∷ d ∷ p ∷ q ∷ r ∷ s ∷ xs) eh e = cc

-- What an extra header took off the source.
pub record Extra {ℓ} {V : Type ℓ} (dump : V → Bytes) (n : ℕ) (set : Bool) (s : Source)
    (o : Option V) (t : Source) : Type 0 where
  pub consumed : Consumed s (dump_if dump o) t
  pub size : length (dump_if dump o) ≡ bit_if n o
  pub bits : (bit : ℕ) → bit_if bit o ≡ (if set then bit else 0)

pub read_if-Extra {ℓ} :
    {V : Type ℓ} (dump : V → Bytes) (n : ℕ) (reader : Source → Result (V × Source)) (s : Source)
    → IsReadable s
    → ((v : V) (t : Source) → reader s ≡ ok (v, t) → Consumed s (dump v) t × (length (dump v) ≡ n))
    → (set : Bool) (o : Option V) (t : Source) → read_if set reader s ≡ ok (o, t)
    → Extra dump n set s o t
unfolding read_if
read_if-Extra dump n reader s w reads false o t h =
    subst (λ x. Extra dump n false s x.0 x.1) (ok-injective h)
      (record { consumed = Consumed-refl s w; size = refl; bits = λ bit. refl })
read_if-Extra dump n reader s w reads true o t h =
    let ((v, u), e, h₁) = bind-eq-ok (reader s) _ h in
    let (c, len) = reads v u e in
    subst (λ x. Extra dump n true s x.0 x.1) (ok-injective h₁)
      (record { consumed = c; size = len; bits = λ bit. refl })

pub read_extra-Consumed :
    (s : Source)
    → IsReadable s
    → (eh : ExtraHeaders2) (t : Source) → read_extra s ≡ ok (eh, t)
    → Consumed s (pack extra_sizes (extra_fields eh)) t
      × (length (pack extra_sizes (extra_fields eh)) ≡ 14)
unfolding read_extra pack to_le
read_extra-Consumed s w eh t h =
    let ((xs, s₁), e₁, h₁) = bind-eq-ok (read_gen extra_sizes s) _ h in
    let (eh', e₂, h₂) = bind-eq-ok (to_extra xs) _ h₁ in
    let (c, f) = read_gen-Consumed extra_sizes s s₁ xs w (omega arith) e₁ in
    let fields = to_extra_lem xs eh' e₂ in
    subst
      (λ x.
        Consumed s (pack extra_sizes (extra_fields x.0)) x.1
        × (length (pack extra_sizes (extra_fields x.0)) ≡ 14))
      (ok-injective h₂) (rw fields at c, refl)

pub read-block :
    (s : Source)
    → IsReadable s
    → (bs : Bytes) (t : Source) → read 32 s ≡ ok (bs, t)
    → Consumed s bs t × (length bs ≡ 32)
read-block s w bs t h = let (c, b, len) = read-Consumed 32 s t bs w (omega arith) h in (c, len)

pub read_little-word :
    (s : Source)
    → IsReadable s
    → (x : ℕ) (t : Source) → read_little 2 s ≡ ok (x, t)
    → Consumed s (to_le 2 x) t × (length (to_le 2 x) ≡ 2)
read_little-word s w x t h =
    let (c, b) = read_little-Consumed 2 s t x w (omega arith) h in (c, length-to_le 2 x)

pub header_length :
    (pos flags : ℕ) → length (pack header_sizes (codes "STSC" ++ (pos ∷ flags ∷ []))) ≡ 12
unfolding pack to_le
header_length pos flags = refl

-- What `Validate` promises.
pub record IsHeader (hdr : Header) (size : ℕ) : Type 0 where
  pub magic : hdr.magic ≡ codes "STSC"
  pub inside : hdr.entry_pos < (size + 2 ^ 64 - 1) % 2 ^ 64
  pub flags : hdr.flags < 8
  pub behind : hdr_len hdr.flags ≤ hdr.entry_pos

pub validate_header-IsHeader :
    (hdr : Header) (size : ℕ) (o : Unit {0}) → validate_header hdr size ≡ ok o → IsHeader hdr size
unfolding validate_header
validate_header-IsHeader hdr size o h =
    let (o₁, e₁, h₁) = bind-eq-ok (guard (str_eq hdr.magic (codes "STSC")) decode_error) _ h in
    let (o₂, e₂, h₂) =
      bind-eq-ok (guard (ltb hdr.entry_pos ((size + 2 ^ 64 - 1) % 2 ^ 64)) decode_error) _ h₁ in
    let (o₃, e₃, h₃) = bind-eq-ok (guard (hdr.flags / 8 == 0) decode_error) _ h₂ in
    record {
      magic =
          (str_eq_iff hdr.magic (codes "STSC")).0
            (guard-true (str_eq hdr.magic (codes "STSC")) decode_error o₁ e₁);
      inside =
          let y =
            guard-true (ltb hdr.entry_pos ((size + 2 ^ 64 - 1) % 2 ^ 64)) decode_error o₂ e₂ in
          ground arith;
      flags = let y = guard-true (hdr.flags / 8 == 0) decode_error o₃ e₃ in ground arith;
      behind =
          let y = guard-true (leb (hdr_len hdr.flags) hdr.entry_pos) decode_error o h₃ in
          ground arith;
    }

pub record ReadsHeader (s : Source) (hdr : Header) (t : Source) : Type 0 where
  pub consumed : Consumed s (pack header_sizes (hdr.magic ++ (hdr.entry_pos ∷ hdr.flags ∷ []))) t
  pub near : hdr.entry_pos < 2 ^ 32

pub read_header-ReadsHeader :
    (s : Source) (hdr : Header) (t : Source)
    → IsReadable s
    → read_header s ≡ ok (hdr, t)
    → ReadsHeader s hdr t
unfolding read_header to_header
read_header-ReadsHeader s hdr t w h =
    let ((xs, s₁), e₁, h₁) = bind-eq-ok (read_gen header_sizes s) _ h in
    let (hdr', e₂, h₂) = bind-eq-ok (to_header xs) _ h₁ in
    let (c, f) = read_gen-Consumed header_sizes s s₁ xs w (omega arith) e₁ in
    let (fields, len) = to_header_lem xs hdr' e₂ in
    subst (λ x. ReadsHeader s x.0 x.1) (ok-injective h₂)
      (record {
        consumed = rw fields at c;
        near = entry_near hdr'.magic hdr'.entry_pos hdr'.flags len (rw fields at f);
      })
