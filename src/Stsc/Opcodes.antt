-- ===== src/Stsc/Opcodes.antt =====
-- `InstructionMap` of src/format/stsc/instruction.hpp: what the opcodes of a flavor stand for.
use neptools.Prelude.{ℕ, List, [], ◌∷◌, ◌==◌, if◌then◌else◌}
use neptools.Stsc.Kind.{Flavor, flavor_noire, flavor_potbb, Kind, goes, uint8}
use neptools.Stsc.Noire.{noire}
use neptools.Stsc.Potbb.{potbb}

unfoldable pub lookup : ℕ → Kind → List (ℕ × Kind) → Kind
lookup opcode default [] = default
lookup opcode default ((k, v) ∷ rows) = if k == opcode then v else lookup opcode default rows

-- The opcodes that are not listed skip nothing, or one byte.
unfoldable pub instruction_map : Flavor → ℕ → Kind
instruction_map flavor_noire opcode = lookup opcode (goes []) noire
instruction_map flavor_potbb opcode = lookup opcode (goes (uint8 ∷ [])) potbb
