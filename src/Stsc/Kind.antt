-- ===== src/Stsc/Kind.antt =====
-- What an opcode stands for: `SimpleInstruction` with the types of its arguments, or one of the other
-- classes of src/format/stsc/instruction.hpp.
use neptools.Prelude.{ℕ, Bool, true, false, List}

-- `Flavor` of src/format/stsc/file.hpp.
pub data Flavor : Type 0 where
  flavor_noire flavor_potbb : Flavor

-- The types of arguments: `Tagged` is `uint32_t`, `void*` is `pointer`, `Code*` is `code`.
pub data ArgType : Type 0 where
  uint8 uint16 uint32 float pointer str code : ArgType

pub data Kind : Type 0 where
  simple : Bool → List ArgType → Kind
  rnd_jump jump_if jump_switch_noire jump_switch_potbb unimplemented : Kind

-- `SimpleInstruction<true, ...>`, behind which no instruction follows.
abbrev pub stops : List ArgType → Kind
stops types = simple true types

-- `SimpleInstruction<false, ...>`
abbrev pub goes : List ArgType → Kind
goes types = simple false types

-- `Traits<T>::SIZE`
abbrev pub arg_size : ArgType → ℕ
arg_size uint8 = 1
arg_size uint16 = 2
arg_size uint32 = 4
arg_size float = 4
arg_size pointer = 4
arg_size str = 4
arg_size code = 4
