-- ===== src/Stsc/Potbb.antt =====
-- The opcodes of the flavor POTBB: `InstructionMap` of src/format/stsc/instruction.hpp.
use neptools.Prelude.{ℕ, List, [], ◌∷◌}
use neptools.Stsc.Kind.{Kind, goes, jump_if, jump_switch_potbb, rnd_jump, stops, unimplemented}
use neptools.Stsc.Kind.{code, float, pointer, str, uint16, uint32, uint8}

abbrev pub potbb : List (ℕ × Kind)
potbb =
    (0x00, goes ([]))
    ∷ (0x01, stops ([]))
    ∷ (0x02, stops ([]))
    ∷ (0x03, goes (uint8 ∷ []))
    ∷ (0x04, stops ([]))
    ∷ (0x05, goes (uint32 ∷ []))
    ∷ (0x06, goes (code ∷ []))
    ∷ (0x07, stops ([]))
    ∷ (0x08, goes ([]))
    ∷ (0x09, goes ([]))
    ∷ (0x0a, goes (uint32 ∷ []))
    ∷ (0x0b, goes (uint8 ∷ pointer ∷ []))
    ∷ (0x0c, goes (uint8 ∷ []))
    ∷ (0x0d, rnd_jump)
    ∷ (0x0e, goes (str ∷ []))
    ∷ (0x0f, stops (str ∷ []))
    ∷ (0x10, goes (uint32 ∷ code ∷ []))
    ∷ (0x11, goes (uint32 ∷ code ∷ []))
    ∷ (0x12, goes (uint32 ∷ uint8 ∷ []))
    ∷ (0x13, goes (uint32 ∷ uint8 ∷ uint32 ∷ code ∷ []))
    ∷ (0x14, goes (uint32 ∷ uint8 ∷ uint32 ∷ code ∷ []))
    ∷ (0x15, goes (uint32 ∷ uint32 ∷ []))
    ∷ (0x16, goes (uint32 ∷ uint32 ∷ []))
    ∷ (0x17, goes (uint32 ∷ uint32 ∷ []))
    ∷ (0x18, goes (uint32 ∷ uint32 ∷ []))
    ∷ (0x19, unimplemented)
    ∷ (0x1a, goes (code ∷ []))
    ∷ (0x1b, stops ([]))
    ∷ (0x1c, stops (uint8 ∷ []))
    ∷ (0x1d, jump_if)
    ∷ (0x1e, jump_switch_potbb)
    ∷ (0x1f, goes (uint32 ∷ uint16 ∷ []))
    ∷ (0x20, goes (uint8 ∷ pointer ∷ pointer ∷ []))
    ∷ (0x21, goes (uint16 ∷ []))
    ∷ (0x22, goes (uint16 ∷ []))
    ∷ (0x23, goes (uint16 ∷ []))
    ∷ (0x24, goes (uint16 ∷ []))
    ∷ (0x25, goes (uint8 ∷ uint16 ∷ uint8 ∷ []))
    ∷ (0x26, goes (uint8 ∷ []))
    ∷ (0x27, goes (uint8 ∷ []))
    ∷ (0x28, goes (uint16 ∷ uint8 ∷ uint8 ∷ uint16 ∷ uint16 ∷ uint16 ∷ float ∷ uint8 ∷ []))
    ∷ (0x29, goes (uint8 ∷ uint8 ∷ []))
    ∷ (0x2a, goes (uint8 ∷ uint8 ∷ uint8 ∷ uint16 ∷ uint8 ∷ []))
    ∷ (0x2b, goes (float ∷ uint8 ∷ uint8 ∷ []))
    ∷ (0x2c, goes (float ∷ float ∷ uint16 ∷ []))
    ∷ (0x2d, goes (uint32 ∷ []))
    ∷ (0x2e, goes (uint32 ∷ uint16 ∷ []))
    ∷ (0x2f, goes (uint16 ∷ []))
    ∷ (0x30, goes (str ∷ uint8 ∷ uint8 ∷ []))
    ∷ (0x31, goes (uint8 ∷ uint16 ∷ []))
    ∷ (0x32, goes (float ∷ uint16 ∷ []))
    ∷ (0x33, goes (uint32 ∷ uint8 ∷ []))
    ∷ (0x34, goes (uint32 ∷ uint16 ∷ []))
    ∷ (0x35, goes (uint32 ∷ uint8 ∷ []))
    ∷ (0x36, goes (uint32 ∷ float ∷ uint16 ∷ []))
    ∷ (0x37, goes (uint16 ∷ []))
    ∷ (0x38, goes (str ∷ []))
    ∷ (0x39, goes (uint16 ∷ []))
    ∷ (0x3a, goes (uint8 ∷ []))
    ∷ (0x3b, goes (uint32 ∷ []))
    ∷ (0x3e, goes (uint32 ∷ []))
    ∷ (0x3f, goes (uint32 ∷ []))
    ∷ (0x40, goes (uint32 ∷ uint16 ∷ uint8 ∷ []))
    ∷ (0x41, goes (uint16 ∷ []))
    ∷ (0x42, goes (uint16 ∷ uint16 ∷ []))
    ∷ (0x43, goes (uint16 ∷ uint16 ∷ uint16 ∷ uint8 ∷ []))
    ∷ (0x44, goes (float ∷ uint16 ∷ uint8 ∷ uint8 ∷ []))
    ∷ (0x45, goes (uint8 ∷ uint32 ∷ uint8 ∷ uint16 ∷ []))
    ∷ (0x46, goes (uint8 ∷ uint16 ∷ []))
    ∷ (0x47, goes (uint8 ∷ uint16 ∷ uint16 ∷ uint16 ∷ uint8 ∷ []))
    ∷ (0x48, goes (uint8 ∷ uint16 ∷ uint16 ∷ uint16 ∷ uint8 ∷ []))
    ∷ (0x49, goes (uint8 ∷ float ∷ uint16 ∷ uint8 ∷ uint8 ∷ []))
    ∷ (0x4a, goes (uint8 ∷ uint8 ∷ []))
    ∷ (0x4b, goes (uint8 ∷ uint8 ∷ uint8 ∷ uint16 ∷ []))
    ∷ (0x4c, goes (uint8 ∷ []))
    ∷ (0x4d, goes (uint16 ∷ []))
    ∷ (0x4e, goes (uint8 ∷ float ∷ float ∷ uint16 ∷ []))
    ∷ (0x4f, goes (str ∷ []))
    ∷ (0x50, goes (uint16 ∷ uint16 ∷ str ∷ uint8 ∷ uint16 ∷ []))
    ∷ (0x51, goes (uint8 ∷ []))
    ∷ (0x52, goes ([]))
    ∷ (0x53, goes (uint8 ∷ []))
    ∷ (0x54, goes (uint16 ∷ uint16 ∷ []))
    ∷ (0x55, goes (uint8 ∷ []))
    ∷ (0x56, goes ([]))
    ∷ (0x57, goes (uint16 ∷ uint16 ∷ []))
    ∷ (0x58, goes (uint8 ∷ uint8 ∷ uint16 ∷ []))
    ∷ (0x59, goes (code ∷ str ∷ uint16 ∷ []))
    ∷ (0x5a, stops ([]))
    ∷ (0x5b, goes (uint32 ∷ []))
    ∷ (0x5c, goes (uint16 ∷ []))
    ∷ (0x5d, goes (uint8 ∷ []))
    ∷ (0x5e, goes (uint32 ∷ []))
    ∷ (0x5f, stops (uint16 ∷ []))
    ∷ (0x60, stops (str ∷ []))
    ∷ (0x61, goes (uint32 ∷ uint16 ∷ []))
    ∷ (0x62, goes ([]))
    ∷ (0x63, goes (uint8 ∷ []))
    ∷ (0x64, goes (uint8 ∷ []))
    ∷ (0x65, goes (uint8 ∷ []))
    ∷ (0x66, goes (uint8 ∷ []))
    ∷ (0x67, goes ([]))
    ∷ (0x68, goes ([]))
    ∷ (0x69, goes (str ∷ str ∷ []))
    ∷ (0x6a, goes (str ∷ str ∷ []))
    ∷ (0x6b, goes (uint8 ∷ []))
    ∷ (0x6f, goes (str ∷ uint8 ∷ []))
    ∷ (0x70, goes (uint16 ∷ uint8 ∷ []))
    ∷ (0x71, goes (uint16 ∷ uint8 ∷ []))
    ∷ (0x72, goes (uint8 ∷ []))
    ∷ (0x73, goes (str ∷ []))
    ∷ (0x78, goes (uint16 ∷ []))
    ∷ (0x79, goes (uint16 ∷ uint16 ∷ []))
    ∷ (0x7a, goes (uint8 ∷ []))
    ∷ (0x7b, goes (uint8 ∷ []))
    ∷ []
