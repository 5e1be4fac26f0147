-- ===== src/Stcm/Word/Tag.antt =====
-- `Type0` and `Type48` of src/format/stcm/instruction.hpp: what a word's tag says.
use Prim.Native.Nat.{ℕ}

abbrev pub mem_offset : ℕ
mem_offset = 0

abbrev pub immediate : ℕ
immediate = 1

abbrev pub indirect : ℕ
indirect = 2

abbrev pub special : ℕ
special = 3
