-- ===== src/Sink.antt =====
-- src/sink.hpp, src/sink.cpp: writing a file of a known size through a buffer. `SimpleSink` is modelled, whose
-- descriptor takes one block behind the other; `written` is what it took.
pub mod Writes
pub mod PadLoop
pub mod Pads
pub mod Mapped
pub mod Same
mod Tests
use neptools.Prelude.{
  ℕ, zero, suc, ◌+◌, ◌-◌, ◌%◌, ◌/◌, ◌^◌, Bool, true, false, List, [], ◌∷◌, ◌++◌, ltb, leb, ◌==◌,
  if◌then◌else◌, length, take, drop, replicate, min,
}
use neptools.Prelude.Bytes.{Bytes, to_le}
use neptools.Prelude.Result.{Result, ok, err, ◌>>=◌, ◌>>◌, guard, assertion, out_of_fuel}

-- `buf` is the first `buf_put` bytes of the buffer: the others are never read. `buf_size` is
-- `MEM_CHUNK`, the argument of the operations.
pub record Sink : Type 0 where
  pub written : Bytes
  pub buf : Bytes
  pub offset : ℕ
  pub size : ℕ

abbrev pub new_sink : ℕ → Sink
new_sink size = record { written = []; buf = []; offset = 0; size = size }

-- `Tell`
abbrev pub tell : Sink → ℕ
tell s = (s.offset + length s.buf) % 2 ^ 64

-- `io.Write`, and the advance of `offset` that follows each.
abbrev io_write : Bytes → Sink → Sink
io_write block s = record s {
  written = s.written ++ block;
  offset = (s.offset + length block) % 2 ^ 64;
}

-- `SimpleSink::Flush`
unfoldable pub flush : Sink → Sink
flush s = if length s.buf == 0 then s else record (io_write s.buf s) { buf = [] }

module _ (chunk : ℕ) where
  -- `SimpleSink::Write_`
  unfoldable pub write_rest : Bytes → Sink → Result Sink
  write_rest block s = do
    guard (length s.buf == chunk) assertion
    let full : Sink = io_write s.buf s
    ok (
        if leb chunk (length block)
        then record (io_write block full) { buf = [] }
        else record full { buf = block })

  -- `Sink::Write`
  unfoldable pub write : Bytes → Sink → Result Sink
  unfolding write_rest
  write block s = do
    guard (leb ((s.offset + length s.buf + length block) % 2 ^ 64) s.size) assertion
    let cp = min (length block) (chunk - length s.buf)
    let t : Sink = record s { buf = s.buf ++ take cp block }
    let rest = drop cp block
    let more = write_rest rest t
    if length rest == 0 then ok t else more

  -- The loop of `SimpleSink::Pad_`, from `i` on: what it writes, and the last `i`. The fuel counts
  -- its rounds.
  unfoldable pub pad_loop : ℕ → ℕ → ℕ → Result (Bytes × ℕ)
  pad_loop zero i len = if ltb i len then err out_of_fuel else ok ([], i)
  pad_loop (suc fuel) i len = elim (ltb i len) [
    | false ↦ ok ([], i)
    | true ↦ do (bytes, last) ← pad_loop fuel (i + chunk) len; ok (replicate chunk 0 ++ bytes, last)
  ]

  -- `SimpleSink::Pad_`
  unfoldable pub pad_rest : ℕ → Sink → Result Sink
  unfolding pad_loop
  pad_rest len s = do
    guard (length s.buf == chunk) assertion
    let full : Sink = io_write s.buf s
    let loop = pad_loop len chunk len
    let big : Result Sink = loop >>= λ (bytes, last). ok (record full {
      written = full.written ++ bytes;
      offset = (full.offset + last - chunk) % 2 ^ 64;
      buf = replicate (len % chunk) 0;
    })
    if leb chunk len then big else ok (record full { buf = replicate (len % chunk) 0 })

  -- `Sink::Pad`
  unfoldable pub pad : ℕ → Sink → Result Sink
  unfolding pad_rest
  pad len s = do
    guard (leb ((s.offset + length s.buf + len) % 2 ^ 64) s.size) assertion
    let cp = min len (chunk - length s.buf)
    let t : Sink = record s { buf = s.buf ++ replicate cp 0 }
    let more = pad_rest (len - cp) t
    if len - cp == 0 then ok t else more

  -- `WriteCString`
  unfoldable pub write_cstring : Bytes → Sink → Result Sink
  unfolding write
  write_cstring str s = write (str ++ (0 ∷ [])) s
