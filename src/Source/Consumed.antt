-- ===== src/Source/Consumed.antt =====
-- What reads from a window, src/source.hpp, took off it: the bytes, and the position after them.
use neptools.Prelude.{
  ℕ, suc, ap, ◌∷◌, ◌+◌, ◌^◌, ◌≤◌, ◌<◌, ◌≡◌, refl, sym, ◌∙◌, List, [], ◌++◌, arith, length, take,
  drop, length-take, length-drop, length-append,
}
use mathlib.Core.Path.{subst}
use neptools.Prelude.Bytes.{Bytes, IsBytes, to_le, from_le, to_le-from_le, from_le-lt}
use neptools.Prelude.Result.{ok, bind-eq-ok, ok-injective}
use neptools.Prelude.Slices.{blocks_join}
use neptools.Source.{Source, check_size, read, read_little}
use neptools.Source.Reads.{IsWindow, read_lem, read_fits}
use neptools.Source.Struct.{
  struct_size, pack, unpack, read_gen, AreFields, pack-unpack, unpack-AreFields, IsBytes-take,
  IsBytes-drop,
}

-- A window, read from a place in it.
pub record IsReadable (s : Source) : Type 0 where
  pub window : IsWindow s
  pub bytes : IsBytes s.contents
  pub in_window : s.get ≤ s.size
  pub small : length s.contents < 2 ^ 63

-- From `s` to `t`, `bs` was read.
pub record Consumed (s : Source) (bs : Bytes) (t : Source) : Type 0 where
  pub moved : t ≡ record s { get = s.get + length bs }
  pub block : take (length bs) (drop (s.offset + s.get) s.contents) ≡ bs
  pub fits : s.get + length bs ≤ s.size

pub Consumed-IsReadable :
    (s t : Source) (bs : Bytes) → IsReadable s → Consumed s bs t → IsReadable t
Consumed-IsReadable s t bs r c = rw c.moved (record {
  window = record { fits = r.window.fits; addressable = r.window.addressable };
  bytes = r.bytes;
  in_window = c.fits;
  small = r.small;
})

pub Consumed-refl : (s : Source) → IsReadable s → Consumed s [] s
Consumed-refl s r = record { moved = same s; block = refl; fits = omega (arith, r.in_window) }
  where
    same : (s : Source) → s ≡ record s { get = s.get + 0 }
    same s = let e : s.get + 0 ≡ s.get = omega arith in rw e

pub Consumed-append :
    (s t u : Source) (xs ys : Bytes) → Consumed s xs t → Consumed t ys u → Consumed s (xs ++ ys) u
Consumed-append s t u xs ys c d =
    let len = length-append xs ys in
    let get : s.get + length (xs ++ ys) ≡ s.get + length xs + length ys = omega (arith, len) in
    let offs : s.offset + (s.get + length xs) ≡ s.offset + s.get + length xs = omega arith in
    let next : take (length ys) (drop (s.offset + s.get + length xs) s.contents) ≡ ys =
      rw offs at (rw c.moved at d.block) in
    record {
      moved = rw get (rw c.moved at d.moved);
      block = rw len (
          sym (blocks_join (length xs) (length ys) (s.offset + s.get) s.contents)
          ∙ rw (c.block, next));
      fits = let f : s.get + length xs + length ys ≤ s.size = rw c.moved at d.fits in omega arith;
    }

pub read-Consumed :
    (n : ℕ) (s t : Source) (bs : Bytes)
    → IsReadable s
    → n < 2 ^ 63
    → read n s ≡ ok (bs, t)
    → Consumed s bs t × IsBytes bs × (length bs ≡ n)
read-Consumed n s t bs r b h =
    let w = r.window in
    let fits = read_fits s n bs t w (omega (arith, w.fits, r.small, r.in_window)) h in
    let e = sym (read_lem s n w fits) ∙ h in
    let block = take n (drop (s.offset + s.get) s.contents) in
    let same_bs : block ≡ bs = cc in
    let same_t : record s { get = s.get + n } ≡ t = cc in
    let len : length block ≡ n = rw length-take (rw length-drop (omega (arith, w.fits))) in
    let bytes = IsBytes-take n _ (IsBytes-drop (s.offset + s.get) s.contents r.bytes) in
    rw (← same_bs, ← same_t)
      (record { moved = rw len refl; block = rw len refl; fits = rw len fits }, bytes, len)

pub read_gen-Consumed :
    (ns : List ℕ) (s t : Source) (xs : List ℕ)
    → IsReadable s
    → struct_size ns < 2 ^ 63
    → read_gen ns s ≡ ok (xs, t)
    → Consumed s (pack ns xs) t × AreFields ns xs
unfolding read_gen
read_gen-Consumed ns s t xs r b h =
    let ((bytes, t'), e, q) = bind-eq-ok (read (struct_size ns) s) _ h in
    let (c, b, len) = read-Consumed (struct_size ns) s t' bytes r b e in
    let same_t : t' ≡ t = cc in
    let same_xs : unpack ns bytes ≡ xs = cc in
    rw (← same_t, ← same_xs, pack-unpack ns bytes b len) (c, unpack-AreFields ns bytes b len)

pub length-unpack : (ns : List ℕ) (bs : Bytes) → length (unpack ns bs) ≡ length ns
unfolding unpack
length-unpack [] bs = refl
length-unpack (n ∷ ns) bs = ap suc (length-unpack ns (drop n bs))

pub length-read_gen :
    (ns : List ℕ) (s t : Source) (xs : List ℕ) → read_gen ns s ≡ ok (xs, t) → length xs ≡ length ns
unfolding read_gen
length-read_gen ns s t xs h =
    let ((bytes, t'), e, q) = bind-eq-ok (read (struct_size ns) s) _ h in
    rw (← ap (λ x. x.0) (ok-injective q)) (length-unpack ns bytes)

pub check_size_le :
    (n : ℕ) (s : Source) (o : Unit {0}) → check_size n s ≡ ok o → n ≤ length s.contents
unfolding check_size
check_size_le n s o h = ground arith

word_lem :
    (n : ℕ) (bs : Bytes)
    → IsBytes bs
    → length bs ≡ n
    → (to_le n (from_le bs) ≡ bs) × (from_le bs < 256 ^ n)
word_lem n bs b e = rw (← e) (to_le-from_le bs b, from_le-lt bs b)

-- What `ReadLittleUintN` took off the window is its result.
pub read_little-Consumed :
    (n : ℕ) (s t : Source) (x : ℕ)
    → IsReadable s
    → n < 2 ^ 63
    → read_little n s ≡ ok (x, t)
    → Consumed s (to_le n x) t × (x < 256 ^ n)
unfolding read_little
read_little-Consumed n s t x r b h =
    let ((bytes, t'), e, q) = bind-eq-ok (read n s) _ h in
    let (c, bs, len) = read-Consumed n s t' bytes r b e in
    let (word, below) = word_lem n bytes bs len in
    subst (λ r. Consumed s (to_le n r.0) r.1 × (r.0 < 256 ^ n)) (ok-injective q) (rw word c, below)
