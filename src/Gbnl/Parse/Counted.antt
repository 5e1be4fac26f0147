-- ===== src/Gbnl/Parse/Counted.antt =====
-- The number of messages in a header that `Gbnl::Parse_` of src/format/gbnl.cpp reads.
use neptools.Prelude.{
  ℕ, zero, suc, ◌+◌, ◌-◌, ◌%◌, ◌^◌, ◌≤◌, ◌<◌, ◌≡◌, ap, Bool, true, false, List, [], ◌∷◌, ◌&&◌, leb,
  length, take, drop, get_or, arith, length-take,
}
use mathlib.Core.Path.{subst}
use neptools.Prelude.Bytes.{Bytes, IsBytes}
use neptools.Prelude.Text.{codes, str_eq}
use neptools.Prelude.Result.{ok, guard, assertion, bind-eq-ok, ok-injective}
use neptools.Source.{Source, check_size, pread}
use neptools.Source.Consumed.{IsReadable}
use neptools.Source.Struct.{IsBytes-take, IsBytes-drop}
use neptools.Endian.{Endian, from_endian-lt, unpack_endian}
use neptools.Gbnl.Dump.{header_sizes}
use neptools.Gbnl.Parse.{header_of, read_header}

pow_le : (k : ℕ) → k ≤ 4 → 256 ^ k ≤ 2 ^ 32
pow_le zero h = omega arith
pow_le (suc zero) h = omega arith
pow_le (suc (suc zero)) h = omega arith
pow_le (suc (suc (suc zero))) h = omega arith
pow_le (suc (suc (suc (suc zero)))) h = omega arith
pow_le (suc (suc (suc (suc (suc k))))) h = absurd (omega arith)

-- A field of at most four bytes.
unpack_endian-lt :
    (e : Endian) (ns : List ℕ) (bs : Bytes) (i : ℕ)
    → IsBytes bs
    → get_or ns i 0 ≤ 4
    → get_or (unpack_endian e ns bs) i 0 < 2 ^ 32
unfolding unpack_endian
unpack_endian-lt e [] bs i b h = omega arith
unpack_endian-lt e (n ∷ ns) bs zero b h =
    let below = from_endian-lt e (take n bs) (IsBytes-take n bs b) in
    omega (arith, below, pow_le (length (take n bs)) (omega (arith, length-take n bs, h)))
unpack_endian-lt e (n ∷ ns) bs (suc i) b h =
    unpack_endian-lt e ns (drop n bs) i (IsBytes-drop n bs b) h

pub header_of-count : (e : Endian) (bs : Bytes) → IsBytes bs → (header_of e bs).count_msgs < 2 ^ 32
unfolding header_of
header_of-count e bs b =
    unpack_endian-lt e header_sizes (drop 4 bs) 6 (IsBytes-drop 4 bs b) (omega arith)

pread-IsBytes :
    (offs len : ℕ) (s : Source) (bs : Bytes) → IsReadable s → pread offs len s ≡ ok bs → IsBytes bs
unfolding pread
pread-IsBytes offs len s bs r h =
    let (_, _, h₁) =
      bind-eq-ok (guard (leb offs s.size && leb ((offs + len) % 2 ^ 64) s.size) assertion) _ h in
    subst IsBytes (ok-injective h₁) (IsBytes-take len _ (IsBytes-drop _ s.contents r.bytes))

foot-IsBytes :
    (b : Bool) (s : Source) (head foot : Bytes)
    → IsReadable s
    → IsBytes head
    → elim b [ true ↦ ok head | false ↦ pread ((s.size + 2 ^ 64 - 64) % 2 ^ 64) 64 s ] ≡ ok foot
    → IsBytes foot
foot-IsBytes true s head foot r k h = subst IsBytes (ok-injective h) k
foot-IsBytes false s head foot r k h = pread-IsBytes _ 64 s foot r h

pub read_header-IsBytes :
    (s : Source) (b : Bool) (foot : Bytes)
    → IsReadable s
    → read_header s ≡ ok (b, foot)
    → IsBytes foot
unfolding read_header
read_header-IsBytes s b foot r h =
    let (_, _, h₁) = bind-eq-ok (check_size 64 s) _ h in
    let (head, e₂, h₂) = bind-eq-ok (pread 0 64 s) _ h₁ in
    let (foot', e₃, h₃) =
      bind-eq-ok
        (elim (str_eq (take 3 head) (codes "GST")) [
          | true ↦ ok head
          | false ↦ pread ((s.size + 2 ^ 64 - 64) % 2 ^ 64) 64 s
        ])
        _ h₂ in
    subst IsBytes (ap (λ p. p.1) (ok-injective h₃))
      (foot-IsBytes _ s head foot' r (pread-IsBytes 0 64 s head r e₂) e₃)
