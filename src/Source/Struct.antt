-- ===== src/Source/Struct.antt =====
-- `ReadGen` and `WriteGen` of a packed structure of `boost::endian::little_uintN_t` fields, src/source.hpp
-- and src/sink.hpp. A structure is the list of its fields' sizes, its value the list of its fields.
use neptools.Prelude.{
  ℕ, zero, suc, ◌+◌, ◌^◌, ◌≤◌, ◌<◌, ◌≡◌, refl, ap, sym, ◌∙◌, List, [], ◌∷◌, ◌++◌, arith, length,
  take, drop, length-take, length-drop, take-append-drop,
}
use neptools.Prelude.Bytes.{Bytes, IsBytes, to_le, from_le, to_le-from_le, from_le-lt}
use neptools.Prelude.Result.{Result, ok, ◌>>=◌}
use neptools.Source.{Source, read}

-- `sizeof`
abbrev pub struct_size : List ℕ → ℕ
struct_size [] = 0
struct_size (n ∷ ns) = n + struct_size ns

unfoldable pub unpack : List ℕ → Bytes → List ℕ
unpack [] bs = []
unpack (n ∷ ns) bs = from_le (take n bs) ∷ unpack ns (drop n bs)

unfoldable pub pack : List ℕ → List ℕ → Bytes
pack [] xs = []
pack (n ∷ ns) [] = []
pack (n ∷ ns) (x ∷ xs) = to_le n x ++ pack ns xs

-- `Source::ReadGen<T>`
unfoldable pub read_gen : List ℕ → Source → Result (List ℕ × Source)
read_gen ns s = do (bytes, t) ← read (struct_size ns) s; ok (unpack ns bytes, t)

-- Each field fits its size.
abbrev pub AreFields : List ℕ → List ℕ → Type 0
AreFields [] xs = Unit {0}
AreFields (n ∷ ns) [] = Unit {0}
AreFields (n ∷ ns) (x ∷ xs) = (x < 256 ^ n) × AreFields ns xs

pub IsBytes-take : (n : ℕ) (bs : Bytes) → IsBytes bs → IsBytes (take n bs)
IsBytes-take zero bs h = tt
IsBytes-take (suc n) [] h = tt
IsBytes-take (suc n) (b ∷ bs) h = (h.0, IsBytes-take n bs h.1)

pub IsBytes-drop : (n : ℕ) (bs : Bytes) → IsBytes bs → IsBytes (drop n bs)
IsBytes-drop zero bs h = h
IsBytes-drop (suc n) [] h = tt
IsBytes-drop (suc n) (b ∷ bs) h = IsBytes-drop n bs h.1

to_le-take :
    (n : ℕ) (bs : Bytes) → IsBytes bs → n ≤ length bs → to_le n (from_le (take n bs)) ≡ take n bs
to_le-take n bs b h =
    let len : length (take n bs) ≡ n = rw length-take (omega arith) in
    ap (λ k. to_le k (from_le (take n bs))) (sym len)
    ∙ to_le-from_le (take n bs) (IsBytes-take n bs b)

pub pack-unpack :
    (ns : List ℕ) (bs : Bytes)
    → IsBytes bs
    → length bs ≡ struct_size ns
    → pack ns (unpack ns bs) ≡ bs
unfolding pack unpack
pack-unpack [] [] b h = refl
pack-unpack [] (x ∷ bs) b h = absurd (omega arith)
pack-unpack (n ∷ ns) bs b h =
    let rest : length (drop n bs) ≡ struct_size ns = rw length-drop (omega arith) in
    rw (to_le-take n bs b (omega arith), pack-unpack ns (drop n bs) (IsBytes-drop n bs b) rest)
      (take-append-drop n bs)

from_le-lt_length : (n : ℕ) (bs : Bytes) → length bs ≡ n → IsBytes bs → from_le bs < 256 ^ n
from_le-lt_length n bs e b = rw (← e) (from_le-lt bs b)

pub unpack-AreFields :
    (ns : List ℕ) (bs : Bytes)
    → IsBytes bs
    → length bs ≡ struct_size ns
    → AreFields ns (unpack ns bs)
unfolding unpack
unpack-AreFields [] bs b h = tt
unpack-AreFields (n ∷ ns) bs b h =
    let rest : length (drop n bs) ≡ struct_size ns = rw length-drop (omega arith) in
    let len : length (take n bs) ≡ n = rw length-take (omega arith) in
    (
      from_le-lt_length n (take n bs) len (IsBytes-take n bs b),
      unpack-AreFields ns (drop n bs) (IsBytes-drop n bs b) rest,
    )
