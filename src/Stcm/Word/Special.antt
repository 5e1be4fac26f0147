-- ===== src/Stcm/Word/Special.antt =====
-- `Type0Special` and `Type48Special` of src/format/stcm/instruction.hpp.
use Prim.Native.Nat.{ℕ}

abbrev pub read_stack_min : ℕ
read_stack_min = 0xffffff00

abbrev pub read_stack_max : ℕ
read_stack_max = 0xffffff0f

abbrev pub read_4ac_min : ℕ
read_4ac_min = 0xffffff20

abbrev pub read_4ac_max : ℕ
read_4ac_max = 0xffffff27

abbrev pub instr_ptr0 : ℕ
instr_ptr0 = 0xffffff40

abbrev pub instr_ptr1 : ℕ
instr_ptr1 = 0xffffff41

abbrev pub coll_link : ℕ
coll_link = 0xffffff42

abbrev pub expansion : ℕ
expansion = 0xffffff43
