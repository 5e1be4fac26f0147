-- ===== src/Sink/Tests.antt =====
-- src/sink.hpp and src/sink.cpp on a sink of twenty bytes, in chunks of four.
use neptools.Prelude.{◌≡◌, refl, List, [], ◌∷◌, ◌-◌, arith, replicate, drop, min, inl}
use neptools.Prelude.Bytes.{Bytes}
use neptools.Prelude.Result.{ok, ◌>>=◌}
use neptools.Sink.{tell as sink_tell, Sink, new_sink, flush, write, pad}
use neptools.Sink.Writes.{IsSink, Wrote, output, flush-output, write-Wrote}
use neptools.Sink.Pads.{padded, pad-Wrote}
use neptools.Sink.Mapped.{Mapped, tell, mmap_sink, memory_sink, mmap_write, mmap_pad, memory_write}
use neptools.Sink.Mapped.Holds.{Holds, Puts}
use neptools.Sink.Mapped.Writes.{mmap_write-Puts}
use neptools.Sink.Mapped.Pads.{Padded, surplus, left_over, mmap_pad-Padded}
use neptools.Sink.Same.{joined, write_all, flushed, sinks-same}

abbrev six_written : Sink
six_written = record { written = 1 ∷ 2 ∷ 3 ∷ 4 ∷ []; buf = 5 ∷ 6 ∷ []; offset = 4; size = 20 }

six_written-IsSink : IsSink 4 six_written
six_written-IsSink = record {
  room = omega arith;
  place = refl;
  bounded = omega arith;
  fits = omega arith;
}

flush-output_example :
    IsSink 4 (flush six_written)
    × ((flush six_written).written ≡ output six_written)
    × ((flush six_written).buf ≡ [])
    × ((flush six_written).size ≡ six_written.size)
    × (sink_tell (flush six_written) ≡ sink_tell six_written)
flush-output_example = flush-output 4 six_written six_written-IsSink

write-Wrote_example : Wrote 4 six_written (7 ∷ 8 ∷ 9 ∷ []) (write 4 (7 ∷ 8 ∷ 9 ∷ []) six_written)
write-Wrote_example = write-Wrote 4 (7 ∷ 8 ∷ 9 ∷ []) six_written six_written-IsSink (omega arith)

pad-Wrote_example :
    Wrote 4 six_written (replicate (padded 4 (omega arith) 6 six_written) 0) (pad 4 6 six_written)
pad-Wrote_example = pad-Wrote 4 (omega arith) 6 six_written six_written-IsSink (omega arith)

-- The first map of a file of twenty bytes, in chunks of four.
abbrev first_map : Mapped
first_map = mmap_sink 8 4 20

first_map-Holds : Holds 4 first_map [] (replicate 20 0)
unfolding mmap_sink
first_map-Holds = record {
  parts = refl;
  whole = refl;
  bounded = omega arith;
  place = refl;
  room = omega arith;
  map = inl (omega arith, inl refl);
}

mmap_write-Puts_example :
    Puts 4
      (1 ∷ 2 ∷ 3 ∷ 4 ∷ 5 ∷ 6 ∷ 7 ∷ 8 ∷ 9 ∷ [])
      (drop 9 (replicate 20 0))
      (mmap_write 4 (1 ∷ 2 ∷ 3 ∷ 4 ∷ 5 ∷ 6 ∷ 7 ∷ 8 ∷ 9 ∷ []) first_map)
mmap_write-Puts_example =
    mmap_write-Puts 4 first_map [] (1 ∷ 2 ∷ 3 ∷ 4 ∷ 5 ∷ 6 ∷ 7 ∷ 8 ∷ 9 ∷ []) (replicate 20 0)
      (omega arith) first_map-Holds (omega arith)

mmap_pad-Padded_example :
    Padded 4 [] 20 20
      (surplus 4 (20 - min 20 (first_map.buf_size - first_map.buf_put)) (left_over 20 first_map))
      (mmap_pad 4 20 first_map)
mmap_pad-Padded_example =
    mmap_pad-Padded 4 (omega arith) first_map [] 20 20 first_map-Holds (omega arith)

-- The last position of the file is past it.
told_past_end : (mmap_pad 4 20 first_map >>= λ t. ok (tell t)) ≡ ok 24
unfolding mmap_pad mmap_sink
told_past_end = refl

abbrev three_blocks : List Bytes
three_blocks = (1 ∷ 2 ∷ 3 ∷ []) ∷ (4 ∷ 5 ∷ 6 ∷ 7 ∷ 8 ∷ 9 ∷ 10 ∷ 11 ∷ 12 ∷ []) ∷ (13 ∷ []) ∷ []

sinks-same_example :
    ((write_all (write 2) three_blocks (new_sink 13) >>= λ t. ok (flushed t))
      ≡ ok (joined three_blocks))
    × ((write_all (mmap_write 4) three_blocks (mmap_sink 8 4 13) >>= λ t. ok t.file)
        ≡ ok (joined three_blocks))
    × ((write_all memory_write three_blocks (memory_sink (replicate 13 7)) >>= λ t. ok t.file)
        ≡ ok (joined three_blocks))
sinks-same_example =
    sinks-same 2 8 4 13 (replicate 13 7) three_blocks (omega arith) (omega arith) (omega arith) refl
      refl
