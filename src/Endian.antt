-- ===== src/Endian.antt =====
-- src/endian.hpp: integers of either byte order, on a machine that keeps the least significant byte first.
use neptools.Prelude.{
  ℕ, zero, suc, get_or, ◌^◌, ◌<◌, ◌≡◌, refl, sym, ap, ◌∙◌, List, [], ◌∷◌, ◌++◌, arith, length, take,
  drop, length-append, length-take, length-drop, take-append-drop,
}
use mathlib.Core.List.{reverse, reverse-reverse, reverse-append}
use neptools.Prelude.Bytes.{
  Bytes, IsBytes, to_le, from_le, to_le-from_le, from_le-to_le, length-to_le, from_le-lt,
}
use neptools.Prelude.Slices.{take-append, drop-append}
use neptools.Source.Struct.{struct_size, IsBytes-take, IsBytes-drop}

pub data Endian : Type 0 where
  big little : Endian

-- The bytes of an integer of `n` bytes after `FromNative`.
unfoldable pub to_endian : Endian → ℕ → ℕ → Bytes
to_endian Endian.big n x = reverse (to_le n x)
to_endian Endian.little n x = to_le n x

-- `ToNative` of an integer that was read.
unfoldable pub from_endian : Endian → Bytes → ℕ
from_endian Endian.big bs = from_le (reverse bs)
from_endian Endian.little bs = from_le bs

-- `FromNative` and `ToNative` of a packed structure of integers reverse each of its fields.
unfoldable pub pack_endian : Endian → List ℕ → List ℕ → Bytes
unfolding to_endian
pack_endian e [] xs = []
pack_endian e (n ∷ ns) [] = []
pack_endian e (n ∷ ns) (x ∷ xs) = to_endian e n x ++ pack_endian e ns xs

unfoldable pub unpack_endian : Endian → List ℕ → Bytes → List ℕ
unfolding from_endian
unpack_endian e [] bs = []
unpack_endian e (n ∷ ns) bs = from_endian e (take n bs) ∷ unpack_endian e ns (drop n bs)

length-reverse : (bs : Bytes) → length (reverse bs) ≡ length bs
length-reverse [] = refl
length-reverse (b ∷ bs) =
    ap length (reverse-append (b ∷ []) bs)
    ∙ length-append (reverse bs) (b ∷ [])
    ∙ omega (arith, length-reverse bs)

IsBytes-append : (xs ys : Bytes) → IsBytes xs → IsBytes ys → IsBytes (xs ++ ys)
IsBytes-append [] ys h k = k
IsBytes-append (x ∷ xs) ys h k = (h.0, IsBytes-append xs ys h.1 k)

IsBytes-reverse : (bs : Bytes) → IsBytes bs → IsBytes (reverse bs)
IsBytes-reverse [] h = tt
IsBytes-reverse (b ∷ bs) h =
    rw (reverse-append (b ∷ []) bs)
      (IsBytes-append (reverse bs) (b ∷ []) (IsBytes-reverse bs h.1) (h.0, tt))

pub length-to_endian : (e : Endian) (n x : ℕ) → length (to_endian e n x) ≡ n
unfolding to_endian
length-to_endian Endian.big n x = length-reverse (to_le n x) ∙ length-to_le n x
length-to_endian Endian.little n x = length-to_le n x

pub to_endian-from_endian :
    (e : Endian) (n : ℕ) (bs : Bytes)
    → IsBytes bs
    → length bs ≡ n
    → to_endian e n (from_endian e bs) ≡ bs
unfolding to_endian from_endian
to_endian-from_endian Endian.big n bs b h =
    let len = length-reverse bs ∙ h in
    ap (λ k. reverse (to_le k (from_le (reverse bs)))) (sym len)
    ∙ ap reverse (to_le-from_le (reverse bs) (IsBytes-reverse bs b))
    ∙ reverse-reverse bs
to_endian-from_endian Endian.little n bs b h =
    ap (λ k. to_le k (from_le bs)) (sym h) ∙ to_le-from_le bs b

pub from_endian-lt : (e : Endian) (bs : Bytes) → IsBytes bs → from_endian e bs < 256 ^ length bs
unfolding from_endian
from_endian-lt Endian.big bs b =
    let below = from_le-lt (reverse bs) (IsBytes-reverse bs b) in rw length-reverse at below
from_endian-lt Endian.little bs b = from_le-lt bs b

pub pack_endian-unpack_endian :
    (e : Endian) (ns : List ℕ) (bs : Bytes)
    → IsBytes bs
    → length bs ≡ struct_size ns
    → pack_endian e ns (unpack_endian e ns bs) ≡ bs
unfolding pack_endian unpack_endian
pack_endian-unpack_endian e [] [] b h = refl
pack_endian-unpack_endian e [] (x ∷ bs) b h = absurd (omega arith)
pack_endian-unpack_endian e (n ∷ ns) bs b h =
    let rest : length (drop n bs) ≡ struct_size ns = rw length-drop (omega arith) in
    let front : length (take n bs) ≡ n = rw length-take (omega arith) in
    rw
      (
        to_endian-from_endian e n (take n bs) (IsBytes-take n bs b) front,
        pack_endian-unpack_endian e ns (drop n bs) (IsBytes-drop n bs b) rest,
      )
      (take-append-drop n bs)

pub length-pack_endian :
    (e : Endian) (ns xs : List ℕ)
    → length xs ≡ length ns
    → length (pack_endian e ns xs) ≡ struct_size ns
unfolding pack_endian
length-pack_endian e [] xs h = refl
length-pack_endian e (n ∷ ns) [] h = absurd (omega arith)
length-pack_endian e (n ∷ ns) (x ∷ xs) h = omega (
  arith,
  length-append (to_endian e n x) (pack_endian e ns xs),
  length-to_endian e n x,
  length-pack_endian e ns xs (omega arith),
)

from_endian-to_endian : (e : Endian) (n x : ℕ) → x < 256 ^ n → from_endian e (to_endian e n x) ≡ x
unfolding from_endian to_endian
from_endian-to_endian Endian.big n x h =
    ap from_le (reverse-reverse (to_le n x)) ∙ from_le-to_le n x h
from_endian-to_endian Endian.little n x h = from_le-to_le n x h

-- A field that fits is read back, whatever the others are.
pub get_or-unpack_endian :
    (e : Endian) (ns xs : List ℕ) (i : ℕ)
    → length xs ≡ length ns
    → i < length ns
    → get_or xs i 0 < 256 ^ get_or ns i 0
    → get_or (unpack_endian e ns (pack_endian e ns xs)) i 0 ≡ get_or xs i 0
unfolding pack_endian unpack_endian
get_or-unpack_endian e [] xs i len inside fits = absurd (omega arith)
get_or-unpack_endian e (n ∷ ns) [] i len inside fits = absurd (omega arith)
get_or-unpack_endian e (n ∷ ns) (x ∷ xs) zero len inside fits =
    let front : take n (to_endian e n x ++ pack_endian e ns xs) ≡ to_endian e n x =
      ap (λ k. take k (to_endian e n x ++ pack_endian e ns xs)) (sym (length-to_endian e n x))
      ∙ take-append (to_endian e n x) (pack_endian e ns xs) in
    ap (from_endian e) front ∙ from_endian-to_endian e n x fits
get_or-unpack_endian e (n ∷ ns) (x ∷ xs) (suc i) len inside fits =
    let back : drop n (to_endian e n x ++ pack_endian e ns xs) ≡ pack_endian e ns xs =
      ap (λ k. drop k (to_endian e n x ++ pack_endian e ns xs)) (sym (length-to_endian e n x))
      ∙ drop-append (to_endian e n x) (pack_endian e ns xs) in
    ap (λ bs. get_or (unpack_endian e ns bs) i 0) back
    ∙ get_or-unpack_endian e ns xs i (omega arith) (omega arith) fits
