-- ===== src/Stcm.antt =====
-- src/format/stcm: the items of an STCM file.
pub mod Word
pub mod Param
pub mod Instruction
mod Tests
