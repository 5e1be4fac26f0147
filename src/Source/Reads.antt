-- ===== src/Source/Reads.antt =====
-- Reading through a window, src/source.hpp: what `Slice`, `Pread` and `Read` do with the bytes of a
-- `Source`.
use neptools.Prelude.{
  ℕ, ◌+◌, ◌^◌, ◌≤◌, ◌<◌, ◌≡◌, refl, ap, sym, ◌∙◌, ◌++◌, arith, leb, length, take, drop,
  if◌then◌else◌,
}
use neptools.Prelude.Bytes.{Bytes}
use neptools.Prelude.Result.{ok, err, ◌>>=◌, assertion}
use neptools.Prelude.Slices.{drop-drop, take-drop-take, blocks_join}
use neptools.Source.{Source, slice, sub_source, pread, read}

-- The window lies in the data, and the data can be addressed.
pub record IsWindow (s : Source) : Type 0 where
  pub fits : s.offset + s.size ≤ length s.contents
  pub addressable : length s.contents < 2 ^ 64

-- The bytes of the window.
abbrev pub window : Source → Bytes
window s = take s.size (drop s.offset s.contents)

-- The block of a window is the block of the data, further on.
block-window :
    (s : Source) (offs len : ℕ)
    → offs + len ≤ s.size
    → take len (drop (s.offset + offs) s.contents) ≡ take len (drop offs (window s))
block-window s offs len h =
    ap (take len) (sym (drop-drop offs s.offset s.contents))
    ∙ sym (take-drop-take len offs s.size (drop s.offset s.contents) h)

-- On a window of addressable data, `Pread` of `len` bytes at `offs`, with a sum that does not wrap,
-- returns those bytes of the window, and fails exactly if they reach past its end.
pub pread-window :
    (s : Source) (offs len : ℕ)
    → IsWindow s
    → offs + len < 2 ^ 64
    → pread offs len s
      ≡ (if leb (offs + len) s.size then ok (take len (drop offs (window s))) else err assertion)
unfolding pread
pread-window s offs len w h = ground (arith, block-window s offs len, w.fits, w.addressable)

-- `Read` advances the position by what it reads.
pub read_lem :
    (s : Source) (n : ℕ)
    → IsWindow s
    → s.get + n ≤ s.size
    → read n s ≡ ok (take n (drop (s.offset + s.get) s.contents), record s { get = s.get + n })
unfolding read pread
read_lem s n w h = ground (arith, w.fits, w.addressable)

pub read_fits :
    (s : Source) (n : ℕ) (bs : Bytes) (t : Source)
    → IsWindow s
    → s.get + n < 2 ^ 64
    → read n s ≡ ok (bs, t)
    → s.get + n ≤ s.size
unfolding read pread
read_fits s n bs t w b h = ground (arith, w.fits, w.addressable)

-- Two reads in a row return the bytes, and leave the position, of one read of both lengths, if
-- the window has that many bytes from the position on.
pub read-read :
    (s : Source) (n m : ℕ)
    → IsWindow s
    → s.get + (n + m) ≤ s.size
    → (read n s >>= λ (a, t). read m t >>= λ (b, u). ok (a ++ b, u)) ≡ read (n + m) s
read-read s n m w h =
    let s' : Source = record s { get = s.get + n } in
    let first = read_lem s n w (omega arith) in
    let second =
      read_lem s' m (record { fits = w.fits; addressable = w.addressable }) (omega arith) in
    let both = read_lem s (n + m) w h in
    let assoc_get : s.get + n + m ≡ s.get + (n + m) = omega arith in
    let assoc_offs : s.offset + (s.get + n) ≡ s.offset + s.get + n = omega arith in
    rw (first, second, both, assoc_get, assoc_offs, blocks_join n m (s.offset + s.get) s.contents)

-- A slice that lies in a window of addressable data is a window of the same data, read from its
-- start, and its bytes are that block of the window's bytes.
pub sub_source-window :
    (s : Source) (offset size : ℕ)
    → IsWindow s
    → offset + size ≤ s.size
    → (t : Source) × (sub_source s offset size ≡ ok t)
      × IsWindow t
      × (window t ≡ take size (drop offset (window s)))
      × (t.get ≡ 0)
      × (t.size ≡ size)
unfolding sub_source slice
sub_source-window s offset size w h =
    let f = w.fits in
    let a = w.addressable in
    let t : Source = record {
      contents = s.contents;
      offset = s.offset + offset;
      size = size;
      get = 0;
    } in
    (
      t,
      ground arith,
      record { fits = omega arith; addressable = a },
      block-window s offset size h,
      refl,
      refl,
    )
