-- ===== src/Stsc.antt =====
-- src/format/stsc/instruction.cpp: the instructions of the STSC scripts, in their two flavors.
pub mod Kind
pub mod Noire
pub mod Potbb
pub mod Opcodes
pub mod Reproduced
pub mod Simple
pub mod Header
pub mod Text
pub mod RndJump
pub mod JumpIf
pub mod JumpSwitch
pub mod Instruction
mod Tests
