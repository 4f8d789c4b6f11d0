-- ===== src/Asm/Opcode/Tests.antt =====
-- A few opcodes.
use bin_tools.Asm.Names.{get_jmp_name}
use bin_tools.Asm.Opcode.{imm, dis, named}
use bin_tools.Base.{[], ◌∷◌, none, ◌≡◌, refl}

dis_je : dis 0x74 0 ≡ named (b'j' ∷ b'e' ∷ []) (imm 8 ∷ [])
unfolding dis get_jmp_name
dis_je = refl

dis_halt : dis 0xf4 0 ≡ none
unfolding dis
dis_halt = refl
