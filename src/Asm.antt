-- ===== src/Asm.antt =====
-- The x86 disassembler.
pub mod Names
pub mod Opcode
