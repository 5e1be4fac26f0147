-- ===== src/Sink/Mapped/Pads.antt =====
-- `Sink::Pad` of src/sink.hpp over the buffer of `MmapSink`: it relies on a file that is zero where nothing was
-- written.
use neptools.Prelude.{
  ℕ, ◌+◌, ◌-◌, ◌*◌, ◌/◌, ◌%◌, ◌^◌, ◌≤◌, ◌<◌, ◌≡◌, refl, ap, ◌∙◌, ◌&&◌, true, false, ◌++◌, arith,
  leb, ltb, ◌==◌, if◌then◌else◌, length, replicate, min, length-append, length-replicate,
  Bool-cases, inl, inr,
}
use native.Mathlib.Nat.{div-add-mod, mod-lt, mul_comm}
use mathlib.Core.Path.{subst}
use neptools.Prelude.Bytes.{Bytes}
use neptools.Prelude.Result.{Result, ok}
use neptools.Sink.Mapped.{Mapped, tell, pad_over, at_end_of_map, map_next, mmap_pad_rest, mmap_pad}
use neptools.Sink.Mapped.Holds.{Holds, map_size}
use neptools.Sink.Mapped.Rest.{map_next-more, map_next-end}
use neptools.Sink.Mapped.Zeros.{zeros_join, zeros_moved, zeroed, zeroed-Holds}

-- What `Pad` leaves to `Pad_`.
abbrev pub left_over : ℕ → Mapped → ℕ
left_over len s = len - min len (s.buf_size - s.buf_put)

-- What `Tell` says too much after `Pad_` of `len` with `left` bytes of the file to go, whose chunks end where the file
-- does: `buf_put` is then that of the old map.
abbrev pub surplus : ℕ → ℕ → ℕ → ℕ
surplus chunk left len = if ltb 0 len && (len % chunk == 0 && left == len) then chunk else 0

-- `Pad` of `len` succeeded on a sink that held `held`, with `left` zeros behind it.
pub record Padded (chunk : ℕ) (held : Bytes) (left len more : ℕ) (r : Result Mapped) : Type 0 where
  pub after : Mapped
  pub result : r ≡ ok after
  pub file : after.file ≡ (held ++ replicate len 0) ++ replicate (left - len) 0
  pub told : tell after ≡ length held + len + more
  pub holds : more ≡ 0 → Holds chunk after (held ++ replicate len 0) (replicate (left - len) 0)

module _ (chunk : ℕ) (positive : 0 < chunk) where
  pad_over-all :
      (pad_ : ℕ → Mapped → Result Mapped) (len : ℕ) (s : Mapped)
      → s.offset + s.buf_put + len ≤ s.size
      → s.size < 2 ^ 63
      → left_over len s ≡ 0
      → pad_over pad_ len s ≡ ok (zeroed (min len (s.buf_size - s.buf_put)) s)
  unfolding pad_over
  pad_over-all pad_ len s fits b none = ground arith

  pad_over-more :
      (pad_ : ℕ → Mapped → Result Mapped) (len : ℕ) (s : Mapped)
      → s.offset + s.buf_put + len ≤ s.size
      → s.size < 2 ^ 63
      → 0 < left_over len s
      → pad_over pad_ len s ≡ pad_ (left_over len s) (zeroed (min len (s.buf_size - s.buf_put)) s)
  unfolding pad_over
  pad_over-more pad_ len s fits b some = ground arith

  full_map :
      (s : Mapped) (held : Bytes) (left len : ℕ)
      → Holds chunk s held (replicate left 0)
      → len ≤ left
      → 0 < left_over len s
      → at_end_of_map chunk (zeroed (min len (s.buf_size - s.buf_put)) s) ≡ true
  full_map s held left len h fits some =
      let z : length (replicate {A = ℕ} left 0) ≡ left = length-replicate left 0 in
      elim h.map [
        | inl (below, inl full) ↦ ground (arith, h.room, h.whole, h.place, below, full)
        | inl (below, inr end) ↦ absurd (omega (arith, h.room, h.whole, h.place, below, end))
        | inr end ↦ absurd (omega (arith, h.room, h.whole, h.place, end))
      ]

  pad_rest-next :
      (len offset : ℕ) (s : Mapped)
      → at_end_of_map chunk s ≡ true
      → (s.offset + s.buf_put + len / chunk * chunk) % 2 ^ 64 ≡ offset
      → offset ≤ s.size
      → mmap_pad_rest chunk len s ≡ map_next chunk (len % chunk) (record s { offset = offset })
  unfolding mmap_pad_rest
  pad_rest-next len offset s e at_k le =
      let fits : leb offset s.size ≡ true = ground arith in rw (mmap_pad_rest, e, at_k, fits) refl

  -- `Pad_` of `to_write` bytes of whole chunks, and of `rest`.
  pad_rest-cut :
      (s : Mapped) (held : Bytes) (left len to_write rest : ℕ) {r : Result Mapped}
      → Holds chunk s held (replicate left 0)
      → at_end_of_map chunk s ≡ true
      → 0 < len
      → len ≤ left
      → to_write + rest ≡ len
      → rest < chunk
      → length (replicate {A = ℕ} left 0) ≡ left
      → rest ≡ len % chunk
      → r ≡ map_next chunk rest (record s { offset = s.offset + s.buf_put + to_write })
      → Padded chunk held left len (surplus chunk left len) r
  pad_rest-cut s held left len to_write rest h e some le whole below z m next =
      let t : Mapped = record s { offset = s.offset + s.buf_put + to_write } in
      let y : length (replicate {A = ℕ} len 0) ≡ len = length-replicate len 0 in
      let x : length (replicate {A = ℕ} (left - len) 0) ≡ left - len =
        length-replicate (left - len) 0 in
      let moved = length-append held (replicate len 0) in
      let file : s.file ≡ (held ++ replicate len 0) ++ replicate (left - len) 0 =
        h.parts ∙ zeros_moved held len left le in
      elim (Bool-cases (ltb t.offset t.size)) [
        | inl y1 ↦
            let more : t.offset < t.size = ground arith in
            let size = min chunk (t.size - t.offset) in
            let none : surplus chunk left len ≡ 0 = ground (arith, h.whole, h.place) in
            let fits : rest ≤ size = omega (arith, h.whole, h.place) in
            record {
              after = record t { mapped = true; buf_put = rest; buf_size = size };
              result = next ∙ map_next-more chunk positive rest t more fits h.bounded;
              file = file;
              told = omega (arith, h.whole, h.place, h.bounded);
              holds = λ zero. record {
                parts = file;
                whole = omega (arith, h.whole);
                bounded = h.bounded;
                place = omega (arith, h.place);
                room = fits;
                map = inl (omega arith, map_size chunk t.offset t.size more);
              };
            }
        | inr n1 ↦
            let end : t.size ≤ t.offset = ground arith in
            let all : left ≡ len = omega (arith, h.whole, h.place) in
            let nothing : rest ≡ 0 = omega (arith, h.whole, h.place) in
            let full : s.buf_put ≡ chunk = ground arith in
            let too_much : surplus chunk left len ≡ chunk = ground arith in
            record {
              after = record t { mapped = false };
              result = next ∙ map_next-end chunk positive rest t end;
              file = file;
              told = omega (arith, h.whole, h.place, h.bounded);
              holds = λ zero. absurd (omega arith);
            }
      ]

  mmap_pad_rest-Padded :
      (s : Mapped) (held : Bytes) (left len : ℕ)
      → Holds chunk s held (replicate left 0)
      → at_end_of_map chunk s ≡ true
      → 0 < len
      → len ≤ left
      → Padded chunk held left len (surplus chunk left len) (mmap_pad_rest chunk len s)
  mmap_pad_rest-Padded s held left len h e some le =
      let to_write = len / chunk * chunk in
      let whole : to_write + len % chunk ≡ len =
        ap (λ k. k + len % chunk) (mul_comm (len / chunk) chunk) ∙ div-add-mod len chunk in
      let below : len % chunk < chunk = mod-lt len positive in
      let z : length (replicate {A = ℕ} left 0) ≡ left = length-replicate left 0 in
      pad_rest-cut s held left len to_write (len % chunk) h e some le whole below z refl (
        pad_rest-next len (s.offset + s.buf_put + to_write) s e
          (omega (arith, h.whole, h.place, h.bounded)) (omega (arith, h.whole, h.place)))

  -- `Pad` of a length that fits into the rest of a mapped file smaller than 2^63 bytes, in positive
  -- chunks, whose bytes there are zero, succeeds: the file has as many zeros behind what was written
  -- before, and behind them it is still zero. `Tell` is behind the zeros, or a chunk more: the latter
  -- exactly if what is left when the buffer is full is a positive multiple of the chunk and ends where
  -- the file does. In all other cases the buffer is again one that lies in the file.
  pub mmap_pad-Padded :
      (s : Mapped) (held : Bytes) (left len : ℕ)
      → Holds chunk s held (replicate left 0)
      → len ≤ left
      → Padded chunk held left len
          (surplus chunk (left - min len (s.buf_size - s.buf_put)) (left_over len s))
          (mmap_pad chunk len s)
  unfolding mmap_pad
  mmap_pad-Padded s held left len h le =
      let cp = min len (s.buf_size - s.buf_put) in
      let z : length (replicate {A = ℕ} left 0) ≡ left = length-replicate left 0 in
      let room : s.offset + s.buf_put + len ≤ s.size = omega (arith, h.whole, h.place) in
      let ready = zeroed-Holds chunk s held left cp h (omega arith) (omega arith) in
      elim (Bool-cases (left_over len s == 0)) [
        | inl y ↦
            let none : left_over len s ≡ 0 = ground arith in
            let all : cp ≡ len = omega arith in
            let fine : surplus chunk (left - cp) (left_over len s) ≡ 0 = ground arith in
            record {
              after = zeroed cp s;
              result = pad_over-all (mmap_pad_rest chunk) len s room h.bounded none;
              file = ready.parts ∙ ap (λ k. (held ++ replicate k 0) ++ replicate (left - k) 0) all;
              told = omega (arith, h.whole, h.place, h.bounded);
              holds = λ zero.
                  subst
                    (λ k.
                      Holds chunk (zeroed cp s) (held ++ replicate k 0) (replicate (left - k) 0))
                    all ready;
            }
        | inr n ↦
            let some : 0 < left_over len s = ground arith in
            let m =
              mmap_pad_rest-Padded (zeroed cp s) (held ++ replicate cp 0) (left - cp)
                (left_over len s) ready (full_map s held left len h le some) some (omega arith) in
            let joined : (held ++ replicate cp 0) ++ replicate (left_over len s) 0
                ≡ held ++ replicate len 0 =
              let e : cp + left_over len s ≡ len = omega arith in
              zeros_join held cp (left_over len s) ∙ ap (λ k. held ++ replicate k 0) e in
            let behind : left - cp - left_over len s ≡ left - len = omega arith in
            let y : length (replicate {A = ℕ} cp 0) ≡ cp = length-replicate cp 0 in
            let moved = length-append held (replicate cp 0) in
            record {
              after = m.after;
              result = pad_over-more (mmap_pad_rest chunk) len s room h.bounded some ∙ m.result;
              file =
                  m.file
                  ∙ ap (λ xs. xs ++ replicate (left - cp - left_over len s) 0) joined
                  ∙ ap (λ k. (held ++ replicate len 0) ++ replicate k 0) behind;
              told = m.told ∙ omega arith;
              holds = λ zero.
                  subst (λ xs. Holds chunk m.after xs (replicate (left - len) 0)) joined
                    (subst
                      (λ k.
                        Holds chunk m.after
                          ((held ++ replicate cp 0) ++ replicate (left_over len s) 0)
                          (replicate k 0))
                      behind (m.holds zero));
            }
      ]
