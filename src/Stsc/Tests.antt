-- ===== src/Stsc/Tests.antt =====
-- src/format/stsc/instruction.cpp on instructions of a small file.
use neptools.Prelude.{ℕ, ◌≡◌, refl, Option, none, some, [], ◌∷◌, arith, false}
use neptools.Prelude.Bytes.{from_le, are_bytes-IsBytes}
use neptools.Prelude.Result.{ok}
use neptools.Prelude.Text.{codes, digits_in, str_eq}
use neptools.Context.{
  Context, Item, label_at, sum_sizes, get_label_to, get_pointer, floor_entry, position_of,
  get_label_to_ptr, get_or_create_at, find_offset, points_at, create_label_fallback, fallback_name,
  attach, free_name, taken, find_label, candidate,
}
use neptools.Source.{
  Source, from_memory, read, pread, read_little, check_size, check_remaining_size,
}
use neptools.Source.Consumed.{IsReadable}
use neptools.Source.Struct.{read_gen, unpack}
use neptools.Stsc.Kind.{flavor_noire, uint8, pointer}
use neptools.Stsc.Opcodes.{instruction_map, lookup}
use neptools.Stsc.Simple.{
  int, label, parse_simple, parse_args, parse_arg, parse_pointer, some_label, validate_args,
  validate_arg,
}
use neptools.Stsc.JumpSwitch.{
  JumpSwitch, parse_switch, parse_switch_potbb, to_switch, validate_switch, parse_expressions,
  to_pair,
}
use neptools.Stsc.JumpSwitch.RoundTrip.{
  SwitchDecodes, PotbbDecodes, parse_switch-SwitchDecodes, parse_switch_potbb-PotbbDecodes,
}
use neptools.Stsc.Instruction.{Instruction, simple_body, create, parse_body, dump_instruction}
use neptools.Stsc.Instruction.RoundTrip.{create-IsReproduced}
use neptools.Stsc.Reproduced.{IsReproduced}

abbrev script : Item
script = record { id = 1; position = 0; size = 64 }

abbrev script_context : Context
script_context = record { children = script ∷ []; pmap = (0, 1) ∷ []; labels = [] }

abbrev script_labelled : Context
script_labelled = record script_context {
  labels = label_at (codes "loc_00000008") (record { item = 1; offset = 8 }) ∷ [];
}

abbrev no_raws : ℕ → Option Source
no_raws id = none

-- `SubStart` of a byte and a pointer.
abbrev sub_start : Source
sub_start = from_memory (0x0b ∷ 7 ∷ 8 ∷ 0 ∷ 0 ∷ 0 ∷ [])

abbrev sub_start_end : Source
sub_start_end = record sub_start { get = 6 }

abbrev sub_start_instruction : Instruction
sub_start_instruction = record {
  opcode = 0x0b;
  body = simple_body (uint8 ∷ pointer ∷ []) (int 7 ∷ label (some (codes "loc_00000008")) ∷ []);
}

sub_start-IsReadable : IsReadable sub_start
sub_start-IsReadable = record {
  window = record { fits = omega arith; addressable = omega arith };
  bytes = are_bytes-IsBytes sub_start.contents refl;
  in_window = omega arith;
  small = omega arith;
}

create-sub_start :
    create no_raws flavor_noire script_context sub_start
    ≡ ok (sub_start_instruction, (script_labelled, sub_start_end))
unfolding create parse_body instruction_map lookup parse_simple parse_args parse_arg parse_pointer
    some_label validate_args validate_arg sum_sizes get_label_to get_pointer floor_entry position_of
    get_label_to_ptr get_or_create_at find_offset points_at create_label_fallback fallback_name
    attach free_name taken find_label candidate digits_in str_eq from_le read pread read_little
    check_size check_remaining_size read_gen unpack
create-sub_start = refl

create-IsReproduced_example :
    IsReproduced
      (λ later. dump_instruction later sub_start_instruction)
      script_context
      sub_start
      script_labelled
      sub_start_end
create-IsReproduced_example =
    create-IsReproduced no_raws flavor_noire script_context sub_start sub_start_instruction
      script_labelled sub_start_end sub_start-IsReadable tt refl create-sub_start

-- A switch of one expression, and the byte behind it in the other flavor.
abbrev one_case : Source
one_case = from_memory (5 ∷ 0 ∷ 0 ∷ 0 ∷ 1 ∷ 0 ∷ 9 ∷ 0 ∷ 0 ∷ 0 ∷ 8 ∷ 0 ∷ 0 ∷ 0 ∷ 3 ∷ [])

one_case-IsReadable : IsReadable one_case
one_case-IsReadable = record {
  window = record { fits = omega arith; addressable = omega arith };
  bytes = are_bytes-IsBytes one_case.contents refl;
  in_window = omega arith;
  small = omega arith;
}

abbrev one_case_switch : JumpSwitch
one_case_switch = record {
  expected_val = 5;
  last_is_default = false;
  expressions = record { expression = 9; target = codes "loc_00000008" } ∷ [];
}

abbrev behind_switch : Source
behind_switch = record one_case { get = 14 }

abbrev behind_byte : Source
behind_byte = record one_case { get = 15 }

parse_switch-one_case :
    parse_switch script_context one_case ≡ ok (one_case_switch, (script_labelled, behind_switch))
unfolding parse_switch to_switch validate_switch parse_expressions to_pair sum_sizes get_label_to
    get_pointer floor_entry position_of get_label_to_ptr get_or_create_at find_offset points_at
    create_label_fallback fallback_name attach free_name taken find_label candidate digits_in str_eq
    from_le read pread read_little check_size check_remaining_size read_gen unpack
parse_switch-one_case = refl

parse_switch-SwitchDecodes_example :
    SwitchDecodes script_context one_case one_case_switch script_labelled behind_switch
parse_switch-SwitchDecodes_example =
    parse_switch-SwitchDecodes script_context one_case one_case_switch script_labelled behind_switch
      one_case-IsReadable tt parse_switch-one_case

parse_switch_potbb-one_case :
    parse_switch_potbb script_context one_case
    ≡ ok ((one_case_switch, 3), (script_labelled, behind_byte))
unfolding parse_switch_potbb parse_switch to_switch validate_switch parse_expressions to_pair
    sum_sizes get_label_to get_pointer floor_entry position_of get_label_to_ptr get_or_create_at
    find_offset points_at create_label_fallback fallback_name attach free_name taken find_label
    candidate digits_in str_eq from_le read pread read_little check_size check_remaining_size
    read_gen unpack
parse_switch_potbb-one_case = refl

parse_switch_potbb-PotbbDecodes_example :
    PotbbDecodes script_context one_case (one_case_switch, 3) script_labelled behind_byte
parse_switch_potbb-PotbbDecodes_example =
    parse_switch_potbb-PotbbDecodes script_context one_case (one_case_switch, 3) script_labelled
      behind_byte one_case-IsReadable tt parse_switch_potbb-one_case
