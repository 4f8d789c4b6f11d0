-- ===== src/Asm/Names/Tests.antt =====
-- A few names.
use bin_tools.Base.{ℕ, [], ◌∷◌, some, none, ◌≡◌, refl, arith}
use bin_tools.Asm.Names.Distinct.{register_name-distinct}
use bin_tools.Asm.Names.{set_name2, set_name3, get_register_name, string_at, register_name}

r10d_name : register_name 10 0x10 ≡ some (b'r' ∷ b'1' ∷ b'0' ∷ b'd' ∷ [])
unfolding register_name get_register_name set_name3 string_at
r10d_name = refl

spl_name : register_name 4 0x00 ≡ some (b's' ∷ b'p' ∷ b'l' ∷ [])
unfolding register_name get_register_name set_name2 string_at
spl_name = refl

no_high_byte : register_name 9 0x04 ≡ none
unfolding register_name get_register_name set_name3
no_high_byte = refl

abbrev twelve : ℕ
twelve = 12

abbrev two : ℕ
two = 2

register_name-distinct_example : (twelve ≡ 12) × (two ≡ 2)
register_name-distinct_example =
    register_name-distinct twelve two 12 2 (omega arith) (omega arith) (omega arith) (omega arith)
      refl
