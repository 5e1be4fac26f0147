-- ===== src/Source/Tests.antt =====
-- src/source.hpp and src/source.cpp on a file of ten bytes, in chunks of four.
use neptools.Prelude.{◌≡◌, refl, [], ◌∷◌, ◌++◌, arith, take, drop, if◌then◌else◌, leb}
use neptools.Prelude.Bytes.{Bytes}
use neptools.Prelude.Result.{ok, err, ◌>>=◌, assertion}
use neptools.Source.{Source, pread, read, sub_source}
use neptools.Source.Reads.{IsWindow, window, pread-window, read-read, sub_source-window}
use neptools.Source.Provider.{LowIo, new_lru, pread_cached, dump_chunks}
use neptools.Source.Provider.Chunks.{new_lru-IsLru}
use neptools.Source.Provider.Cached.{Gives, pread_cached-Gives}
use neptools.Source.Provider.Dumped.{dump_chunks-Gives}

abbrev ten_bytes : Bytes
ten_bytes = 10 ∷ 11 ∷ 12 ∷ 13 ∷ 14 ∷ 15 ∷ 16 ∷ 17 ∷ 18 ∷ 19 ∷ []

abbrev six_bytes : Source
six_bytes = record { contents = ten_bytes; offset = 2; size = 6; get = 1 }

six_bytes-IsWindow : IsWindow six_bytes
six_bytes-IsWindow = record { fits = omega arith; addressable = omega arith }

pread-window_example :
    pread 1 3 six_bytes
    ≡ (if leb 4 6 then ok (take 3 (drop 1 (window six_bytes))) else err assertion)
pread-window_example = pread-window six_bytes 1 3 six_bytes-IsWindow (omega arith)

read-read_example :
    (read 2 six_bytes >>= λ (a, t). read 3 t >>= λ (b, u). ok (a ++ b, u)) ≡ read 5 six_bytes
read-read_example = read-read six_bytes 2 3 six_bytes-IsWindow (omega arith)

sub_source-window_example :
    (t : Source) × (sub_source six_bytes 1 4 ≡ ok t)
    × IsWindow t
    × (window t ≡ take 4 (drop 1 (window six_bytes)))
    × (t.get ≡ 0)
    × (t.size ≡ 4)
sub_source-window_example = sub_source-window six_bytes 1 4 six_bytes-IsWindow (omega arith)

abbrev file_io : LowIo
file_io = record {
  file = ten_bytes;
  pread = λ offs len. take len (drop offs ten_bytes);
  pread_lem = λ offs len h. refl;
}

pread_cached-Gives_example : Gives file_io 3 6 (pread_cached file_io 4 6 3 6 new_lru)
pread_cached-Gives_example =
    pread_cached-Gives file_io 4 (omega arith) 6 3 6 new_lru (omega arith) (omega arith)
      (new_lru-IsLru file_io)

dump_chunks-Gives_example : Gives file_io 2 7 (dump_chunks file_io 4 7 2 7 0 new_lru)
dump_chunks-Gives_example =
    dump_chunks-Gives file_io 4 (omega arith) 2 7 (omega arith) 7 0 new_lru (omega arith)
      (new_lru-IsLru file_io)
