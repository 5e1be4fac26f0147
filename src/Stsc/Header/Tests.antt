-- ===== src/Stsc/Header/Tests.antt =====
-- src/format/stsc/header.cpp on a header that has a number behind it.
use neptools.Prelude.{ℕ, ◌+◌, ◌≡◌, ◌≤◌, ◌<◌, refl, none, some, [], ◌∷◌, arith}
use neptools.Prelude.Bytes.{from_le, are_bytes-IsBytes}
use neptools.Prelude.Result.{ok}
use neptools.Prelude.Text.{codes, str_eq}
use neptools.Context.{
  Context, label_at, get_pointer, floor_entry, position_of, create_label_fallback, fallback_name,
  attach, free_name, taken, find_label, candidate, label_pos,
}
use neptools.Source.{
  Source, from_memory, read, pread, read_little, check_size, check_remaining_size,
}
use neptools.Source.Consumed.{IsReadable}
use neptools.Source.Struct.{read_gen, unpack}
use neptools.Stsc.Header.{
  HeaderItem, parse_header, read_header, to_header, validate_header, read_if, dump_header, get_size,
}
use neptools.Stsc.Header.RoundTrip.{parse_header-IsReproduced, parse_header-get_size}
use neptools.Stsc.Reproduced.{IsReproduced}

abbrev file_context : Context
file_context = record {
  children = record { id = 1; position = 0; size = 20 } ∷ [];
  pmap = (0, 1) ∷ [];
  labels = [];
}

abbrev labelled : Context
labelled = record file_context {
  labels = label_at (codes "entry_point") (record { item = 1; offset = 16 }) ∷ [];
}

abbrev file : Source
file =
    from_memory
      (83 ∷ 84 ∷ 83 ∷ 67 ∷ 16 ∷ 0 ∷ 0 ∷ 0 ∷ 4 ∷ 0 ∷ 0 ∷ 0 ∷ 7 ∷ 1 ∷ 0 ∷ 0 ∷ 1 ∷ 2 ∷ 3 ∷ 4 ∷ [])

abbrev file_behind : Source
file_behind = record file { get = 14 }

abbrev header : HeaderItem
header = record {
  entry_point = codes "entry_point";
  extra_headers_1 = none;
  extra_headers_2 = none;
  extra_headers_4 = some 263;
}

file-IsReadable : IsReadable file
file-IsReadable = record {
  window = record { fits = omega arith; addressable = omega arith };
  bytes = are_bytes-IsBytes file.contents refl;
  in_window = omega arith;
  small = omega arith;
}

parse_header_run : parse_header file_context file ≡ ok (header, (labelled, file_behind))
unfolding parse_header read_header to_header validate_header read_if get_pointer floor_entry
    position_of create_label_fallback fallback_name attach free_name taken find_label candidate
    str_eq from_le read pread read_little check_size check_remaining_size read_gen unpack
parse_header_run = refl

parse_header-IsReproduced_example :
    IsReproduced (λ later. dump_header later header) file_context file labelled file_behind
parse_header-IsReproduced_example =
    parse_header-IsReproduced file_context file header labelled file_behind file-IsReadable tt
      parse_header_run

parse_header-get_size_example :
    (file_behind.get ≡ file.get + get_size header)
    × ((pos : ℕ) × ((label_pos labelled header.entry_point ≡ some pos)
          × ((get_size header ≤ pos) × (pos + 1 < file.size))))
parse_header-get_size_example =
    parse_header-get_size file_context file header labelled file_behind file-IsReadable tt
      parse_header_run
