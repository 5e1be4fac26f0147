-- ===== src/Stsc/Noire.antt =====
-- The opcodes of the flavor NOIRE: `InstructionMap` of src/format/stsc/instruction.hpp.
use neptools.Prelude.{ℕ, List, [], ◌∷◌}
use neptools.Stsc.Kind.{Kind, goes, jump_if, jump_switch_noire, rnd_jump, stops, unimplemented}
use neptools.Stsc.Kind.{code, float, pointer, str, uint16, uint32, uint8}

abbrev pub noire : List (ℕ × Kind)
noire =
    (0x01, stops ([]))
    ∷ (0x04, stops ([]))
    ∷ (0x05, goes (uint32 ∷ []))
    ∷ (0x06, goes (code ∷ []))
    ∷ (0x07, stops ([]))
    ∷ (0x0a, goes (code ∷ []))
    ∷ (0x0b, goes (uint8 ∷ pointer ∷ []))
    ∷ (0x0c, goes (uint8 ∷ []))
    ∷ (0x0d, rnd_jump)
    ∷ (0x0e, goes (str ∷ []))
    ∷ (0x0f, stops (str ∷ str ∷ []))
    ∷ (0x10, goes (uint32 ∷ code ∷ []))
    ∷ (0x11, goes (uint32 ∷ code ∷ []))
    ∷ (0x12, goes (uint32 ∷ uint8 ∷ []))
    ∷ (0x13, goes (uint32 ∷ uint8 ∷ uint32 ∷ code ∷ []))
    ∷ (0x14, goes (uint32 ∷ uint8 ∷ uint32 ∷ code ∷ []))
    ∷ (0x15, goes (uint32 ∷ uint32 ∷ []))
    ∷ (0x16, goes (uint32 ∷ uint32 ∷ []))
    ∷ (0x17, goes (uint32 ∷ uint32 ∷ []))
    ∷ (0x18, goes (uint32 ∷ uint32 ∷ []))
    ∷ (0x19, unimplemented)
    ∷ (0x1a, goes (code ∷ []))
    ∷ (0x1b, stops ([]))
    ∷ (0x1c, goes (uint8 ∷ []))
    ∷ (0x1d, jump_if)
    ∷ (0x1e, jump_switch_noire)
    ∷ (0x1f, goes (uint32 ∷ uint16 ∷ []))
    ∷ (0x20, goes (uint8 ∷ pointer ∷ pointer ∷ []))
    ∷ (0x21, goes (pointer ∷ pointer ∷ []))
    ∷ (0x22, goes (pointer ∷ pointer ∷ []))
    ∷ (0x23, goes (pointer ∷ pointer ∷ []))
    ∷ (0x24, goes (uint32 ∷ []))
    ∷ (0x30, goes (str ∷ uint8 ∷ uint8 ∷ []))
    ∷ (0x31, goes (uint8 ∷ uint16 ∷ []))
    ∷ (0x32, goes (float ∷ uint16 ∷ []))
    ∷ (0x33, goes (uint32 ∷ uint8 ∷ []))
    ∷ (0x34, goes (uint32 ∷ uint16 ∷ []))
    ∷ (0x35, goes (uint32 ∷ uint8 ∷ []))
    ∷ (0x36, goes (uint32 ∷ float ∷ uint16 ∷ []))
    ∷ (0x37, goes (uint16 ∷ []))
    ∷ (0x38, goes (str ∷ []))
    ∷ (0x39, goes (uint16 ∷ []))
    ∷ (0x3a, goes (uint8 ∷ []))
    ∷ (0x3f, goes (uint32 ∷ []))
    ∷ (0x40, goes (uint32 ∷ uint16 ∷ uint8 ∷ []))
    ∷ (0x41, goes (uint16 ∷ []))
    ∷ (0x42, goes (uint8 ∷ []))
    ∷ (0x43, goes (uint16 ∷ uint16 ∷ uint16 ∷ uint8 ∷ []))
    ∷ (0x44, goes (float ∷ uint16 ∷ uint8 ∷ uint8 ∷ []))
    ∷ (0x45, goes (uint8 ∷ uint32 ∷ uint8 ∷ uint16 ∷ []))
    ∷ (0x46, goes (uint8 ∷ uint16 ∷ []))
    ∷ (0x47, goes (uint8 ∷ uint16 ∷ uint16 ∷ uint16 ∷ uint8 ∷ []))
    ∷ (0x48, goes (uint8 ∷ uint16 ∷ uint16 ∷ uint16 ∷ uint8 ∷ []))
    ∷ (0x49, goes (uint8 ∷ float ∷ uint16 ∷ uint8 ∷ uint8 ∷ []))
    ∷ (0x4a, goes (uint8 ∷ uint8 ∷ []))
    ∷ (0x4b, goes (uint8 ∷ uint8 ∷ uint16 ∷ []))
    ∷ (0x4c, goes (uint8 ∷ uint32 ∷ []))
    ∷ (0x4d, goes (uint8 ∷ uint8 ∷ []))
    ∷ (0x4e, goes (uint8 ∷ float ∷ float ∷ uint16 ∷ []))
    ∷ (0x4f, goes (str ∷ []))
    ∷ (0x50, goes (uint16 ∷ uint16 ∷ str ∷ []))
    ∷ (0x51, goes (uint8 ∷ []))
    ∷ (0x53, goes (uint8 ∷ []))
    ∷ (0x54, goes (uint8 ∷ uint8 ∷ []))
    ∷ (0x55, goes (uint8 ∷ []))
    ∷ (0x57, goes (uint8 ∷ uint16 ∷ []))
    ∷ (0x58, goes (uint8 ∷ uint16 ∷ []))
    ∷ (0x59, goes (uint8 ∷ uint8 ∷ uint8 ∷ uint8 ∷ []))
    ∷ (0x5a, goes (uint32 ∷ []))
    ∷ (0x5b, goes (uint8 ∷ []))
    ∷ (0x5c, goes (uint32 ∷ uint8 ∷ []))
    ∷ (0x5d, goes (uint8 ∷ uint16 ∷ []))
    ∷ (0x5e, goes (uint8 ∷ uint8 ∷ []))
    ∷ (0x5f, goes (uint16 ∷ uint8 ∷ uint8 ∷ []))
    ∷ (0x60, goes (uint32 ∷ uint8 ∷ uint8 ∷ []))
    ∷ (0x61, goes (uint32 ∷ []))
    ∷ (0x62, goes (str ∷ []))
    ∷ (0x63, goes (uint8 ∷ []))
    ∷ (0x64, goes (uint8 ∷ []))
    ∷ (0x65, goes (uint8 ∷ []))
    ∷ (0x66, goes (uint8 ∷ []))
    ∷ (0x67, goes (uint32 ∷ uint32 ∷ []))
    ∷ (0x68, goes (uint32 ∷ []))
    ∷ (0x69, goes (uint8 ∷ uint32 ∷ str ∷ []))
    ∷ (0x6a, goes (uint16 ∷ uint8 ∷ []))
    ∷ (0x6b, goes (uint8 ∷ []))
    ∷ (0x6c, goes (uint32 ∷ []))
    ∷ (0x6d, goes (uint8 ∷ []))
    ∷ (0x6e, goes (uint32 ∷ []))
    ∷ (0x6f, goes (str ∷ uint8 ∷ []))
    ∷ (0x70, goes (uint32 ∷ []))
    ∷ (0x71, stops (uint32 ∷ []))
    ∷ (0x73, goes (str ∷ []))
    ∷ (0x74, goes (uint16 ∷ []))
    ∷ (0x75, goes (uint16 ∷ uint8 ∷ []))
    ∷ (0x76, goes (uint8 ∷ uint32 ∷ []))
    ∷ (0x77, goes (uint8 ∷ str ∷ []))
    ∷ (0x78, goes (uint16 ∷ []))
    ∷ (0x79, goes (uint8 ∷ []))
    ∷ (0x7a, goes (uint32 ∷ []))
    ∷ (0x7b, goes (uint8 ∷ []))
    ∷ (0x7c, goes (uint32 ∷ []))
    ∷ (0x7d, goes (str ∷ []))
    ∷ (0x7e, goes (uint8 ∷ uint32 ∷ []))
    ∷ (0x7f, goes (uint16 ∷ uint8 ∷ []))
    ∷ (0x80, goes (uint32 ∷ str ∷ []))
    ∷ (0x81, stops ([]))
    ∷ (0x82, goes (uint32 ∷ uint32 ∷ uint32 ∷ []))
    ∷ (0x83, goes (uint32 ∷ uint32 ∷ []))
    ∷ (0x84, goes (uint32 ∷ []))
    ∷ (0x87, goes (uint16 ∷ uint8 ∷ []))
    ∷ (0x88, goes (uint16 ∷ uint32 ∷ []))
    ∷ (0x89, goes (uint8 ∷ uint8 ∷ []))
    ∷ (0x8a, goes (uint8 ∷ uint32 ∷ []))
    ∷ (0x8b, goes (uint8 ∷ uint32 ∷ []))
    ∷ (0x8c, goes (uint32 ∷ uint32 ∷ uint32 ∷ []))
    ∷ (0x8d, goes (uint8 ∷ []))
    ∷ (0x8e, goes (uint32 ∷ []))
    ∷ (0x8f, goes (uint32 ∷ []))
    ∷ (0x90, goes (uint32 ∷ []))
    ∷ (0x91, goes (uint32 ∷ []))
    ∷ (0x92, goes (uint32 ∷ []))
    ∷ (0x93, goes (str ∷ uint8 ∷ uint32 ∷ []))
    ∷ (0x94, goes (uint32 ∷ []))
    ∷ (0x95, goes (str ∷ uint8 ∷ []))
    ∷ (0x96, goes (uint8 ∷ []))
    ∷ (0x97, goes (uint8 ∷ []))
    ∷ (0x98, goes (uint16 ∷ uint32 ∷ []))
    ∷ (0x99, goes (uint32 ∷ []))
    ∷ (0xa0, goes (pointer ∷ []))
    ∷ (0xa1, goes (uint8 ∷ pointer ∷ uint16 ∷ uint16 ∷ []))
    ∷ (0xa2, goes (uint16 ∷ pointer ∷ uint16 ∷ uint16 ∷ []))
    ∷ (0xa3, goes (str ∷ []))
    ∷ (0xa5, goes (pointer ∷ []))
    ∷ (0xa6, goes (uint8 ∷ pointer ∷ uint16 ∷ uint16 ∷ []))
    ∷ (0xa7, goes (uint8 ∷ uint8 ∷ []))
    ∷ (0xa8, goes (uint8 ∷ uint32 ∷ []))
    ∷ (0xa9, goes (uint32 ∷ []))
    ∷ (0xaa, goes (uint32 ∷ []))
    ∷ (0xab, goes (uint32 ∷ []))
    ∷ (0xb0, goes (uint16 ∷ []))
    ∷ (0xb1, goes (uint16 ∷ uint32 ∷ []))
    ∷ (0xb3, goes (uint16 ∷ uint32 ∷ []))
    ∷ (0xb4, goes (uint16 ∷ []))
    ∷ (0xb5, goes (uint8 ∷ []))
    ∷ (0xd0, goes (uint32 ∷ uint8 ∷ []))
    ∷ (0xd1, goes (uint32 ∷ uint8 ∷ uint8 ∷ []))
    ∷ (0xd2, goes (uint32 ∷ uint8 ∷ uint8 ∷ float ∷ []))
    ∷ (0xd3, goes (uint32 ∷ uint8 ∷ []))
    ∷ (0xd4, goes (uint32 ∷ uint8 ∷ []))
    ∷ (0xd5, goes (uint32 ∷ uint16 ∷ float ∷ float ∷ float ∷ float ∷ uint8 ∷ []))
    ∷ (0xd6, goes (uint32 ∷ []))
    ∷ (0xd7, goes (uint32 ∷ float ∷ float ∷ float ∷ float ∷ uint16 ∷ uint8 ∷ []))
    ∷ (0xd8, goes (uint8 ∷ uint8 ∷ float ∷ float ∷ float ∷ float ∷ uint16 ∷ uint8 ∷ []))
    ∷ (0xd9, goes (uint32 ∷ uint8 ∷ []))
    ∷ (0xda, goes (uint8 ∷ []))
    ∷ (0xdb, goes (uint8 ∷ uint16 ∷ uint8 ∷ uint8 ∷ float ∷ uint8 ∷ []))
    ∷ (0xdc, goes (uint8 ∷ []))
    ∷ (0xdd, goes (uint32 ∷ []))
    ∷ (0xdf, goes (uint8 ∷ []))
    ∷ (0xf0, goes (uint8 ∷ uint32 ∷ []))
    ∷ (0xf1, goes (uint8 ∷ uint16 ∷ []))
    ∷ (0xf2, goes (uint8 ∷ str ∷ []))
    ∷ (0xf3, goes (uint8 ∷ uint8 ∷ []))
    ∷ (0xf4, goes (str ∷ []))
    ∷ (0xf5, goes (uint16 ∷ uint8 ∷ []))
    ∷ (0xf7, goes (uint16 ∷ uint8 ∷ []))
    ∷ []
