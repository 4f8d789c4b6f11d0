-- ===== src/Asm/Names.antt =====
-- The names that core/asm/x86/disasm.c prints: of registers, of conditional jumps and of the groups
-- of operations. A name is the list of its bytes; `none` is a handler that loops for ever or answers
-- a null pointer. The position in a group, which the source gets from a table of the emulator, is
-- an argument.
pub mod Distinct
mod Tests
use bin_tools.Base.{
  ℕ, zero, suc, ◌+◌, List, [], ◌∷◌, Option, none, some, ◌>>=◌, leb, ◌==◌, if◌then◌else◌, update,
}

-- The 8 bytes of `__REGISTER`.
abbrev pub Buf : Type 0
Buf = ℕ → ℕ

-- The name begins at `q`, or one byte behind it.
unfoldable pub set_name1 : Buf → (q flag : ℕ) → ℕ × Buf
set_name1 buf q flag =
    if flag == 0x00
    then (q + 1, update buf (q + 2) b'l')
    else if flag == 0x04
    then (q + 1, update buf (q + 2) b'h')
    else if flag == 0x08
    then (q + 1, update buf (q + 2) b'x')
    else if flag == 0x10
    then (q, update (update buf q b'e') (q + 2) b'x')
    else if flag == 0x18
    then (q, update (update buf q b'r') (q + 2) b'x')
    else (q, buf)

unfoldable pub set_name2 : Buf → (q flag : ℕ) → Option (ℕ × Buf)
set_name2 buf q flag =
    if flag == 0x00
    then some (q + 1, update buf (q + 3) b'l')
    else if flag == 0x04
    then none
    else if flag == 0x08
    then some (q + 1, buf)
    else if flag == 0x10
    then some (q, update buf q b'e')
    else if flag == 0x18
    then some (q, update buf q b'r')
    else some (q, buf)

-- `set_name3` at the byte `q`; the callers keep their own beginning of the name.
unfoldable pub set_name3 : Buf → (q flag : ℕ) → Option Buf
set_name3 buf q flag =
    if flag == 0x00
    then some (update buf (q + 2) b'b')
    else if flag == 0x04
    then none
    else if flag == 0x08
    then some (update buf (q + 2) b'w')
    else if flag == 0x10
    then some (update buf (q + 2) b'd')
    else some buf

abbrev pub letter : ℕ → Buf
letter c = update (λ i. 0) 1 c

abbrev pub letters : (c d : ℕ) → Buf
letters c d = update (update (λ i. 0) 1 c) 2 d

abbrev pub started_at : ℕ → Buf → ℕ × Buf
started_at q buf = (q, buf)

-- Register `r` of the register file, at the width `flag`.
unfoldable pub get_register_name : (r flag : ℕ) → Option (ℕ × Buf)
get_register_name r flag =
    if r == 0
    then (some (set_name1 (letter b'a') 0 flag))
    else if r == 1
    then (some (set_name1 (letter b'c') 0 flag))
    else if r == 2
    then (some (set_name1 (letter b'd') 0 flag))
    else if r == 3
    then (some (set_name1 (letter b'b') 0 flag))
    else if r == 4
    then (set_name2 (letters b's' b'p') 0 flag)
    else if r == 5
    then (set_name2 (letters b'b' b'p') 0 flag)
    else if r == 6
    then (set_name2 (letters b's' b'i') 0 flag)
    else if r == 7
    then (set_name2 (letters b'd' b'i') 0 flag)
    else if r == 8
    then (do buf ← set_name3 (update (update (λ i. 0) 0 b'r') 1 b'8') 0 flag; some (0, buf))
    else if r == 9
    then (do buf ← set_name3 (update (update (λ i. 0) 0 b'r') 1 b'9') 0 flag; some (0, buf))
    else if leb r 15
    then (do
      buf ← set_name3 (update (update (update (λ i. 0) 0 b'r') 1 b'1') 2 (r + 0x26)) 1 flag
      some (0, buf))
    else none

-- The string from `q` on, of at most `n` bytes.
unfoldable pub string_at : ℕ → Buf → ℕ → List ℕ
string_at zero buf q = []
string_at (suc n) buf q =
    let rest = string_at n buf (q + 1) in if buf q == 0 then [] else buf q ∷ rest

unfoldable pub register_name : (r flag : ℕ) → Option (List ℕ)
register_name r flag = do (q, buf) ← get_register_name r flag; some (string_at 8 buf q)

unfoldable pub get_jmp_name : ℕ → Option (List ℕ)
get_jmp_name index =
    if index == 0x70
    then some (b'j' ∷ b'o' ∷ [])
    else if index == 0x71
    then some (b'j' ∷ b'n' ∷ b'o' ∷ [])
    else if index == 0x72
    then some (b'j' ∷ b'n' ∷ b'a' ∷ b'e' ∷ [])
    else if index == 0x73
    then some (b'j' ∷ b'n' ∷ b'c' ∷ [])
    else if index == 0x74
    then some (b'j' ∷ b'e' ∷ [])
    else if index == 0x75
    then some (b'j' ∷ b'n' ∷ b'e' ∷ [])
    else if index == 0x76
    then some (b'j' ∷ b'n' ∷ b'a' ∷ [])
    else if index == 0x77
    then some (b'j' ∷ b'a' ∷ [])
    else if index == 0x78
    then some (b'j' ∷ b's' ∷ [])
    else if index == 0x79
    then some (b'j' ∷ b'n' ∷ b's' ∷ [])
    else if index == 0x7a
    then some (b'j' ∷ b'p' ∷ b'e' ∷ [])
    else if index == 0x7b
    then some (b'j' ∷ b'p' ∷ b'o' ∷ [])
    else if index == 0x7c
    then some (b'j' ∷ b'n' ∷ b'g' ∷ b'e' ∷ [])
    else if index == 0x7d
    then some (b'j' ∷ b'g' ∷ b'e' ∷ [])
    else if index == 0x7e
    then some (b'j' ∷ b'n' ∷ b'g' ∷ [])
    else if index == 0x7f
    then some (b'j' ∷ b'n' ∷ b'l' ∷ b'e' ∷ [])
    else none

unfoldable pub get_op_shift_name : ℕ → Option (List ℕ)
get_op_shift_name diff =
    if diff == 0x0
    then some (b'r' ∷ b'o' ∷ b'l' ∷ [])
    else if diff == 0x1
    then some (b'r' ∷ b'o' ∷ b'r' ∷ [])
    else if diff == 0x2
    then some (b'r' ∷ b'c' ∷ b'l' ∷ [])
    else if diff == 0x3
    then some (b'r' ∷ b'c' ∷ b'r' ∷ [])
    else if diff == 0x4
    then some (b's' ∷ b'h' ∷ b'l' ∷ [])
    else if diff == 0x5
    then some (b's' ∷ b'h' ∷ b'r' ∷ [])
    else if diff == 0x6
    then some (b's' ∷ b'h' ∷ b'l' ∷ b'1' ∷ [])
    else if diff == 0x7
    then some (b's' ∷ b'a' ∷ b'r' ∷ [])
    else none

unfoldable pub get_f6_opcode_name : ℕ → Option (List ℕ)
get_f6_opcode_name diff =
    if diff == 0x0
    then some (b't' ∷ b'e' ∷ b's' ∷ b't' ∷ [])
    else if diff == 0x2
    then some (b'n' ∷ b'o' ∷ b't' ∷ [])
    else if diff == 0x3
    then some (b'n' ∷ b'e' ∷ b'g' ∷ [])
    else if diff == 0x4
    then some (b'm' ∷ b'u' ∷ b'l' ∷ [])
    else if diff == 0x5
    then some (b'i' ∷ b'm' ∷ b'u' ∷ b'l' ∷ [])
    else if diff == 0x6
    then some (b'd' ∷ b'i' ∷ b'v' ∷ [])
    else if diff == 0x7
    then some (b'i' ∷ b'd' ∷ b'i' ∷ b'v' ∷ [])
    else none

unfoldable pub get_fe_opcode_name : ℕ → Option (List ℕ)
get_fe_opcode_name diff =
    if diff == 0x0
    then some (b'i' ∷ b'n' ∷ b'c' ∷ [])
    else if diff == 0x1
    then some (b'd' ∷ b'e' ∷ b'c' ∷ [])
    else if diff == 0x2
    then some (b'c' ∷ b'a' ∷ b'l' ∷ b'l' ∷ [])
    else if diff == 0x3
    then some (b'c' ∷ b'a' ∷ b'l' ∷ b'l' ∷ [])
    else if diff == 0x4
    then some (b'j' ∷ b'm' ∷ b'p' ∷ [])
    else if diff == 0x5
    then some (b'j' ∷ b'm' ∷ b'p' ∷ [])
    else if diff == 0x6
    then some (b'p' ∷ b'u' ∷ b's' ∷ b'h' ∷ [])
    else none

unfoldable pub get_op01_f_base : ℕ → Option (List ℕ)
get_op01_f_base diff =
    if diff == 0x0
    then some (b'a' ∷ b'd' ∷ b'd' ∷ [])
    else if diff == 0x1
    then some (b'o' ∷ b'r' ∷ [])
    else if diff == 0x2
    then some (b'a' ∷ b'd' ∷ b'c' ∷ [])
    else if diff == 0x3
    then some (b's' ∷ b'b' ∷ b'b' ∷ [])
    else if diff == 0x4
    then some (b'a' ∷ b'n' ∷ b'd' ∷ [])
    else if diff == 0x5
    then some (b's' ∷ b'u' ∷ b'b' ∷ [])
    else if diff == 0x6
    then some (b'x' ∷ b'o' ∷ b'r' ∷ [])
    else if diff == 0x7
    then some (b'c' ∷ b'm' ∷ b'p' ∷ [])
    else none
