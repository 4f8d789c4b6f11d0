-- ===== src/Link/Hash.antt =====
-- The string hashes of core/link/hashtable.c. A string is the list of its bytes, without the
-- closing zero. `uint_fast32_t` has 64 bits, as on the x86-64 targets of the linker.
pub mod Laws
mod Tests
use bin_tools.Base.{
  ℕ, ◌+◌, ◌-◌, ◌*◌, ◌^◌, List, [], ◌∷◌, bit_and, bit_xor, u32, u64, ◌<<<◌, ◌>>>◌, ◌==◌,
  if◌then◌else◌,
}

-- `h = (h << 4) + *name; if (g = h & 0xf0000000) h ^= g >> 24; h &= ~g` on 32-bit words.
elf_round : ℕ → ℕ → ℕ
elf_round h c =
    let h1 = u32 (u32 (h <<< 4) + c) in
    let g = bit_and h1 0xf000_0000 in
    let h2 = if g == 0 then h1 else bit_xor h1 (g >>> 24) in bit_and h2 (2 ^ 32 - 1 - g)

elf_rounds : ℕ → List ℕ → ℕ
elf_rounds h [] = h
elf_rounds h (c ∷ name) = elf_rounds (elf_round h c) name

unfoldable pub elf_hash : List ℕ → ℕ
unfolding elf_rounds elf_round
elf_hash name = elf_rounds 0 name

-- `h = 16*h + *s++; h ^= h>>24 & 0xf0`
sysv_round : ℕ → ℕ → ℕ
sysv_round h c = let h1 = u64 (u64 (16 * h) + c) in bit_xor h1 (bit_and (h1 >>> 24) 0xf0)

sysv_rounds : ℕ → List ℕ → ℕ
sysv_rounds h [] = h
sysv_rounds h (c ∷ s) = sysv_rounds (sysv_round h c) s

unfoldable pub sysv_hash : List ℕ → ℕ
unfolding sysv_rounds sysv_round
sysv_hash s = u32 (bit_and (sysv_rounds 0 s) 0xfff_ffff)

-- `h += h * 32 + *s`
gnu_rounds : ℕ → List ℕ → ℕ
gnu_rounds h [] = h
gnu_rounds h (c ∷ s) = gnu_rounds (u64 (h + u64 (u64 (h * 32) + c))) s

-- The result is returned as a `uint32_t`.
unfoldable pub gnu_hash : List ℕ → ℕ
unfolding gnu_rounds
gnu_hash s = u32 (gnu_rounds 5381 s)
