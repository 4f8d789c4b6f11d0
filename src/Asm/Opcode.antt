-- ===== src/Asm/Opcode.antt =====
-- The lines that `__z__x86__dis` of core/asm/x86/disasm.c prints for opcodes of one byte: the name
-- of the operation and what its operands are. The texts of the operands and their output are left
-- out; `diff` is the position in a group, as the emulator gives it, and `none` is an opcode for
-- which the disassembler loops for ever.
pub mod Regular
mod Tests
use bin_tools.Asm.Names.{
  get_jmp_name, get_op_shift_name, get_f6_opcode_name, get_fe_opcode_name, get_op01_f_base,
}
use bin_tools.Base.{
  ℕ, Bool, ◌&&◌, List, [], ◌∷◌, Option, none, some, ◌>>=◌, bit_and, leb, ◌==◌, if◌then◌else◌,
}

-- The operand of `mod` and `rm`, the one of `reg`, a register at 64 bits, or a number of so many
-- bits.
pub data Operand : Type 0 where
  rm_name : Operand
  reg_name : Operand
  full_register : Operand
  imm : ℕ → Operand

-- Without a name nothing is printed.
pub record Line : Type 0 where
  pub name : Option (List ℕ)
  pub operands : List Operand

abbrev pub named : List ℕ → List Operand → Option Line
named name operands = some (record { name = some name; operands = operands })

abbrev pub named_by : Option (List ℕ) → List Operand → Option Line
named_by name operands = do n ← name; named n operands

abbrev pub silent : Option Line
silent = some (record { name = none; operands = [] })

abbrev pub within : (low x high : ℕ) → Bool
within low x high = leb low x && leb x high

-- The cases 00 to 6a.
unfoldable pub dis_low : (opcode diff : ℕ) → Option Line
dis_low opcode diff =
    if within 0x00 opcode 0x05
    then (named (b'a' ∷ b'd' ∷ b'd' ∷ []) (rm_name ∷ reg_name ∷ []))
    else if within 0x08 opcode 0x0d
    then (named (b'o' ∷ b'r' ∷ []) (rm_name ∷ reg_name ∷ []))
    else if within 0x10 opcode 0x15
    then (named (b'a' ∷ b'd' ∷ b'c' ∷ []) (rm_name ∷ reg_name ∷ []))
    else if within 0x18 opcode 0x1d
    then (named (b's' ∷ b'b' ∷ b'b' ∷ []) (rm_name ∷ reg_name ∷ []))
    else if within 0x20 opcode 0x25
    then (named (b'a' ∷ b'n' ∷ b'd' ∷ []) (rm_name ∷ reg_name ∷ []))
    else if within 0x28 opcode 0x2d
    then (named (b's' ∷ b'u' ∷ b'b' ∷ []) (rm_name ∷ reg_name ∷ []))
    else if opcode == 0x2e
    then (named (b'n' ∷ b'o' ∷ b'p' ∷ []) [])
    else if within 0x30 opcode 0x35
    then (named (b'x' ∷ b'o' ∷ b'r' ∷ []) (rm_name ∷ reg_name ∷ []))
    else if within 0x38 opcode 0x3d
    then (named (b'c' ∷ b'm' ∷ b'p' ∷ []) (rm_name ∷ reg_name ∷ []))
    else if within 0x50 opcode 0x57
    then (named (b'p' ∷ b'u' ∷ b's' ∷ b'h' ∷ []) (full_register ∷ []))
    else if within 0x58 opcode 0x5f
    then (named (b'p' ∷ b'o' ∷ b'p' ∷ []) (full_register ∷ []))
    else if opcode == 0x60
    then (named (b'p' ∷ b'u' ∷ b's' ∷ b'h' ∷ []) (imm 32 ∷ []))
    else if opcode == 0x68
    then (named (b'p' ∷ b'u' ∷ b's' ∷ b'h' ∷ []) (imm 32 ∷ []))
    else if opcode == 0x6a
    then (named (b'p' ∷ b'u' ∷ b's' ∷ b'h' ∷ []) (imm 8 ∷ []))
    else none

-- The cases 70 to ad.
unfoldable pub dis_middle : (opcode diff : ℕ) → Option Line
dis_middle opcode diff =
    if within 0x70 opcode 0x7f
    then (named_by (get_jmp_name opcode) (imm 8 ∷ []))
    else if within 0x80 opcode 0x83
    then (named_by (get_op01_f_base diff) (rm_name ∷ imm 8 ∷ []))
    else if within 0x84 opcode 0x85
    then (named (b't' ∷ b'e' ∷ b's' ∷ b't' ∷ []) (rm_name ∷ reg_name ∷ []))
    else if within 0x86 opcode 0x87
    then (named (b'x' ∷ b'c' ∷ b'h' ∷ b'g' ∷ []) (rm_name ∷ reg_name ∷ []))
    else if within 0x88 opcode 0x8b
    then (named (b'm' ∷ b'o' ∷ b'v' ∷ []) (rm_name ∷ reg_name ∷ []))
    else if opcode == 0x8c
    then (silent)
    else if opcode == 0x8d
    then (named (b'l' ∷ b'e' ∷ b'a' ∷ []) (rm_name ∷ reg_name ∷ []))
    else if within 0x8e opcode 0x8f
    then (silent)
    else if within 0x90 opcode 0x97
    then (named (b'x' ∷ b'c' ∷ b'h' ∷ b'g' ∷ []) (rm_name ∷ reg_name ∷ []))
    else if within 0x98 opcode 0x99
    then (silent)
    else if opcode == 0x9c
    then (named (b'p' ∷ b'u' ∷ b's' ∷ b'h' ∷ b'f' ∷ []) [])
    else if opcode == 0x9d
    then (named (b'p' ∷ b'o' ∷ b'p' ∷ b'f' ∷ []) [])
    else if opcode == 0xa8
    then (silent)
    else if opcode == 0xa9
    then (named (b't' ∷ b'e' ∷ b's' ∷ b't' ∷ []) (rm_name ∷ imm 32 ∷ []))
    else if within 0xaa opcode 0xab
    then (named (b's' ∷ b't' ∷ b'o' ∷ b's' ∷ b'S' ∷ []) [])
    else if within 0xac opcode 0xad
    then (named (b'l' ∷ b'o' ∷ b'd' ∷ b's' ∷ b'S' ∷ []) [])
    else none

-- The cases b0 to ff.
unfoldable pub dis_high : (opcode diff : ℕ) → Option Line
dis_high opcode diff =
    if within 0xb0 opcode 0xbf
    then (named (b'm' ∷ b'o' ∷ b'v' ∷ [])
        (reg_name ∷ imm (if bit_and opcode 8 == 0 then 8 else 32) ∷ []))
    else if within 0xc0 opcode 0xc1
    then (named_by (get_op_shift_name diff) (rm_name ∷ imm 8 ∷ []))
    else if opcode == 0xc2
    then (named (b'r' ∷ b'e' ∷ b't' ∷ []) (rm_name ∷ []))
    else if opcode == 0xc3
    then (named (b'r' ∷ b'e' ∷ b't' ∷ []) [])
    else if within 0xc4 opcode 0xc5
    then (silent)
    else if within 0xc6 opcode 0xc7
    then (named (b'm' ∷ b'o' ∷ b'v' ∷ []) (rm_name ∷ reg_name ∷ []))
    else if within 0xd0 opcode 0xd1
    then (named_by (get_op_shift_name diff) (rm_name ∷ imm 8 ∷ []))
    else if opcode == 0xe8
    then (named (b'c' ∷ b'a' ∷ b'l' ∷ b'l' ∷ []) (imm 32 ∷ []))
    else if opcode == 0xe9
    then (named (b'j' ∷ b'm' ∷ b'p' ∷ []) (imm 32 ∷ []))
    else if within 0xea opcode 0xeb
    then (named (b'j' ∷ b'm' ∷ b'p' ∷ []) (imm 8 ∷ []))
    else if within 0xf6 opcode 0xf7
    then (named_by (get_f6_opcode_name diff) (rm_name ∷ []))
    else if within 0xfe opcode 0xff
    then (named_by (get_fe_opcode_name diff) (rm_name ∷ []))
    else none

unfoldable pub dis : (opcode diff : ℕ) → Option Line
unfolding dis_low dis_middle dis_high
dis opcode diff =
    if leb opcode 0x6f
    then dis_low opcode diff
    else if leb opcode 0xaf
    then dis_middle opcode diff
    else dis_high opcode diff
