-- ===== src/Link/Hash/Tests.antt =====
-- The hashes on short names.
use bin_tools.Base.{ℕ, List, [], ◌∷◌, ◌≡◌, refl}
use bin_tools.Link.Hash.Laws.{elf_hash-eq-sysv_hash}
use bin_tools.Link.Hash.{elf_hash, sysv_hash, gnu_hash}

abbrev printf_name : List ℕ
printf_name = b'p' ∷ b'r' ∷ b'i' ∷ b'n' ∷ b't' ∷ b'f' ∷ []

elf_hash-eq-sysv_hash_example : elf_hash printf_name ≡ sysv_hash printf_name
elf_hash-eq-sysv_hash_example = elf_hash-eq-sysv_hash printf_name

elf_hash_printf : elf_hash printf_name ≡ 0x77905a6
unfolding elf_hash
elf_hash_printf = refl

sysv_hash_printf : sysv_hash printf_name ≡ 0x77905a6
unfolding sysv_hash
sysv_hash_printf = refl

gnu_hash_printf : gnu_hash printf_name ≡ 0x156b2bb8
unfolding gnu_hash
gnu_hash_printf = refl
