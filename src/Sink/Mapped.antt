-- ===== src/Sink/Mapped.antt =====
-- `MmapSink` of src/sink.cpp, whose buffer is a mapped block of the file, and `MemorySink` of src/sink.hpp, whose
-- buffer is all of it. What is written to the buffer is in `file`.
pub mod Holds
pub mod Zeros
pub mod Pads
pub mod Rest
pub mod Writes
use neptools.Prelude.{
  ℕ, zero, suc, ◌+◌, ◌-◌, ◌*◌, ◌%◌, ◌/◌, ◌^◌, Bool, true, false, ◌&&◌, ◌||◌, List, [], ◌∷◌, ◌++◌,
  ltb, leb, ◌==◌, if◌then◌else◌, length, take, drop, replicate, min,
}
use neptools.Prelude.Bytes.{Bytes}
use neptools.Prelude.Result.{Result, ok, err, ◌>>=◌, ◌>>◌, guard, assertion}

-- `buf` starts at `offset` in the file; `mapped` says that it is not null.
pub record Mapped : Type 0 where
  pub file : Bytes
  pub mapped : Bool
  pub offset : ℕ
  pub size : ℕ
  pub buf_put : ℕ
  pub buf_size : ℕ

-- `memcpy` into the file, or `Pwrite`.
abbrev pub overwrite : Bytes → ℕ → Bytes → Bytes
overwrite file at_k block = take at_k file ++ (block ++ drop (at_k + length block) file)

-- `Tell`
abbrev pub tell : Mapped → ℕ
tell s = (s.offset + s.buf_put) % 2 ^ 64

-- `MemorySink(buffer, size)`
abbrev pub memory_sink : Bytes → Mapped
memory_sink buffer = record {
  file = buffer;
  mapped = true;
  offset = 0;
  size = length buffer;
  buf_put = 0;
  buf_size = length buffer;
}

-- `MmapSink(io, size)`: `Truncate` makes a file of zeros. `limit` is `MMAP_LIMIT`, `chunk` is `MMAP_CHUNK`.
unfoldable pub mmap_sink : ℕ → ℕ → ℕ → Mapped
mmap_sink limit chunk size = record {
  file = replicate size 0;
  mapped = true;
  offset = 0;
  size = size;
  buf_put = 0;
  buf_size = if ltb size limit then size else chunk;
}

-- `Sink::Write` over a `Write_`. At the end, where `buf` is null, it copies nothing.
unfoldable pub write_over : (Bytes → Mapped → Result Mapped) → Bytes → Mapped → Result Mapped
write_over write_ block s = do
  guard (leb ((s.offset + s.buf_put + length block) % 2 ^ 64) s.size) assertion
  let cp = min (length block) (s.buf_size - s.buf_put)
  let t : Mapped = record s {
    file = overwrite s.file (s.offset + s.buf_put) (take cp block);
    buf_put = s.buf_put + cp;
  }
  let rest = drop cp block
  let more = write_ rest t
  if length rest == 0 then ok t else more

-- `Sink::Pad` over a `Pad_`
unfoldable pub pad_over : (ℕ → Mapped → Result Mapped) → ℕ → Mapped → Result Mapped
pad_over pad_ len s = do
  guard (leb ((s.offset + s.buf_put + len) % 2 ^ 64) s.size) assertion
  let cp = min len (s.buf_size - s.buf_put)
  let t : Mapped = record s {
    file = overwrite s.file (s.offset + s.buf_put) (replicate cp 0);
    buf_put = s.buf_put + cp;
  }
  let more = pad_ (len - cp) t
  if len - cp == 0 then ok t else more

-- `MemorySink`: `Write_` and `Pad_` are unreachable.
unfoldable pub memory_write : Bytes → Mapped → Result Mapped
unfolding write_over
memory_write = write_over (λ block s. err assertion)

unfoldable pub memory_pad : ℕ → Mapped → Result Mapped
unfolding pad_over
memory_pad = pad_over (λ len s. err assertion)

module _ (chunk : ℕ) where
  -- `MmapSink::MapNext`
  unfoldable pub map_next : ℕ → Mapped → Result Mapped
  map_next len s =
      let nbuf_size = min chunk ((s.size + 2 ^ 64 - s.offset) % 2 ^ 64) in
      if ltb s.offset s.size
      then (guard (leb len nbuf_size) assertion
          >> ok (record s { mapped = true; buf_put = len; buf_size = nbuf_size }))
      else ok (record s { mapped = false })

  -- The assertion at the start of `Write_` and of `Pad_`.
  abbrev pub at_end_of_map : Mapped → Bool
  at_end_of_map s = s.buf_put == s.buf_size && (ltb s.offset s.size && s.buf_size == chunk)

  -- The chunks of a block that are written past the buffer.
  unfoldable pub write_chunks : Bytes → Mapped → Mapped
  write_chunks block s =
      let to_write = length block / chunk * chunk in
      if length block / chunk == 0 then s else record s {
        file = overwrite s.file s.offset (take to_write block);
        offset = (s.offset + to_write) % 2 ^ 64;
        buf_put = 0;
      }

  -- The copy into the new map.
  unfoldable pub copy_in : Bytes → Mapped → Result Mapped
  copy_in block s =
      if s.mapped
      then ok (record s { file = overwrite s.file s.offset block })
      else (guard (length block == 0) assertion >> ok s)

  -- `MmapSink::Write_`
  unfoldable pub mmap_write_rest : Bytes → Mapped → Result Mapped
  unfolding map_next write_chunks copy_in
  mmap_write_rest block s = do
    guard (at_end_of_map s) assertion
    let t = write_chunks block (record s { offset = (s.offset + s.buf_put) % 2 ^ 64 })
    let rest =
        if length block / chunk == 0 then block else drop (length block / chunk * chunk) block
    u ← map_next (length rest) t
    copy_in rest u

  -- `MmapSink::Pad_`
  unfoldable pub mmap_pad_rest : ℕ → Mapped → Result Mapped
  unfolding map_next
  mmap_pad_rest len s = do
    guard (at_end_of_map s) assertion
    let t : Mapped = record s { offset = (s.offset + s.buf_put + len / chunk * chunk) % 2 ^ 64 }
    guard (leb t.offset t.size) assertion
    map_next (len % chunk) t

  unfoldable pub mmap_write : Bytes → Mapped → Result Mapped
  unfolding write_over mmap_write_rest
  mmap_write = write_over mmap_write_rest

  unfoldable pub mmap_pad : ℕ → Mapped → Result Mapped
  unfolding pad_over mmap_pad_rest
  mmap_pad = pad_over mmap_pad_rest
