-- ===== src/Asm/Opcode/Regular.antt =====
-- The regular part of the opcode table.
use bin_tools.Asm.Names.{get_op01_f_base}
use bin_tools.Asm.Opcode.{rm_name, reg_name, dis, named_by}
use bin_tools.Base.{ℕ, ◌+◌, ◌*◌, [], ◌∷◌, ◌≡◌}

abbrev Row : ℕ → ℕ → Type 0
Row k f = dis (8 * k + f) 0 ≡ named_by (get_op01_f_base k) (rm_name ∷ reg_name ∷ [])
