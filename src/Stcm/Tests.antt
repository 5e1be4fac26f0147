-- ===== src/Stcm/Tests.antt =====
-- src/format/stcm/instruction.cpp on an instruction of a small file.
use neptools.Prelude.{◌≡◌, refl, [], ◌∷◌, arith, ◌++◌}
use neptools.Prelude.Bytes.{to_le, from_le, are_bytes-IsBytes}
use neptools.Prelude.Result.{ok}
use neptools.Prelude.Text.{codes, digits_in, str_eq}
use neptools.Context.{
  Context, Item, label_at, sum_sizes, get_label_to, get_pointer, floor_entry, position_of,
  get_label_to_ptr, get_or_create_at, find_offset, points_at, create_label_fallback, fallback_name,
  attach, free_name, taken, find_label, candidate,
}
use neptools.Source.{Source, from_memory, read, pread}
use neptools.Source.Consumed.{IsReadable}
use neptools.Source.Struct.{read_gen, unpack}
use neptools.Stcm.Word.{type_tag, value}
use neptools.Stcm.Param.{
  Param, Param48, Parameter, get_variant, validate, validate48, variant_of, get_mem_offset,
  get_variant48,
}
use neptools.Stcm.Param.RoundTrip.{IsParameter, Decodes, get_variant-Decodes}
use neptools.Stcm.Instruction.{
  InstructionItem, OpcodeTarget, parse, parse_params, parse_target, to_header, to_parameter,
  validate_header,
}
use neptools.Stcm.Instruction.RoundTrip.{ItemDecodes, parse-ItemDecodes}

abbrev whole : Item
whole = record { id = 1; position = 0; size = 64 }

abbrev unlabelled : Context
unlabelled = record { children = whole ∷ []; pmap = (0, 1) ∷ []; labels = [] }

-- A pointer to byte 8, an immediate 5, and a read of the stack.
abbrev words : Parameter
words = record { param_0 = 8; param_4 = 0x40000005; param_8 = 0xffffff02 }

abbrev decoded : Param
decoded = Param.mem_offset (codes "loc_00000008") (Param48.immediate 5) (Param48.read_stack 2)

abbrev labelled_8 : Context
labelled_8 = record unlabelled {
  labels = label_at (codes "loc_00000008") (record { item = 1; offset = 8 }) ∷ [];
}

words-IsParameter : IsParameter words
words-IsParameter = record { word_0 = omega arith; word_4 = omega arith; word_8 = omega arith }

get_variant-words : get_variant words unlabelled ≡ ok (decoded, labelled_8)
unfolding get_variant validate validate48 variant_of get_mem_offset get_variant48 type_tag value
    sum_sizes get_label_to get_pointer floor_entry position_of get_label_to_ptr get_or_create_at
    find_offset points_at create_label_fallback fallback_name attach free_name taken find_label
    candidate digits_in str_eq
get_variant-words = refl

get_variant-Decodes_example : Decodes unlabelled words decoded labelled_8
get_variant-Decodes_example =
    get_variant-Decodes words unlabelled decoded labelled_8 words-IsParameter tt get_variant-words

abbrev instruction_source : Source
instruction_source = from_memory (
    to_le 4 0
    ++ to_le 4 16
    ++ to_le 4 1
    ++ to_le 4 28
    ++ to_le 4 8
    ++ to_le 4 0x40000005
    ++ to_le 4 0xffffff02)

abbrev after_instruction : Source
after_instruction = record instruction_source { get = 28 }

abbrev instruction : InstructionItem
instruction = record {
  opcode_target = OpcodeTarget.opcode 0x10;
  params = decoded ∷ [];
  children = [];
}

instruction_source-IsReadable : IsReadable instruction_source
unfolding to_le
instruction_source-IsReadable = record {
  window = record { fits = omega arith; addressable = omega arith };
  bytes = are_bytes-IsBytes instruction_source.contents refl;
  in_window = omega arith;
  small = omega arith;
}

instruction_parsed :
    parse unlabelled instruction_source ≡ ok (instruction, (labelled_8, after_instruction))
unfolding parse parse_params parse_target to_header to_parameter validate_header read pread read_gen
    unpack to_le from_le get_variant validate validate48 variant_of get_mem_offset get_variant48
    type_tag value sum_sizes get_label_to get_pointer floor_entry position_of get_label_to_ptr
    get_or_create_at find_offset points_at create_label_fallback fallback_name attach free_name
    taken find_label candidate digits_in str_eq
instruction_parsed = refl

parse-ItemDecodes_example :
    ItemDecodes unlabelled instruction_source instruction labelled_8 after_instruction
parse-ItemDecodes_example =
    parse-ItemDecodes unlabelled instruction_source instruction labelled_8 after_instruction
      instruction_source-IsReadable tt instruction_parsed
