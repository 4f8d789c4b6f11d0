-- ===== src/Link/Hash/Laws.antt =====
-- The hashes of core/link/hashtable.c: ranges, and independent descriptions.
use bin_tools.Base.Bits.{bit_and_ones, bit_xor_cut, bit_xor-lt, bit_xor-zero}
use bin_tools.Base.Masks.{bit_and_top_nibble, bit_and_high_nibble, bit_and_clear_nibble}
use bin_tools.Base.{
  ℕ, ◌+◌, ◌*◌, ◌/◌, ◌%◌, ◌^◌, ◌<◌, List, [], ◌∷◌, bit_and, bit_xor, u32, u64, ◌<<<◌, ◌>>>◌, ◌==◌,
  ◌≡◌, refl, sym, ◌∙◌, ap, arith, Bool-cases, inl, inr, ==_iff, if◌then◌else◌,
}
use bin_tools.Link.Hash.{
  elf_round, elf_rounds, elf_hash, sysv_round, sysv_rounds, sysv_hash, gnu_rounds, gnu_hash,
}

-- What both rounds keep of the word `t` that they have just built: its low 28 bits, with the
-- top nibble folded into the low byte.
fold_nibble : ℕ → ℕ
fold_nibble t = t % 2 ^ 28 / 256 * 256 + bit_xor (t % 256) (t / 2 ^ 28 % 16 * 16)

-- The mask is one byte.
xor_nibble :
    (x : ℕ)
    → bit_xor x (x / 2 ^ 28 % 16 * 16) ≡ x / 256 * 256 + bit_xor (x % 256) (x / 2 ^ 28 % 16 * 16)
xor_nibble x = bit_xor_cut 8 x (x / 2 ^ 28 % 16 * 16) (omega arith)

xor_nibble-lt : (x : ℕ) → bit_xor (x % 256) (x / 2 ^ 28 % 16 * 16) < 256
xor_nibble-lt x = bit_xor-lt 8 (x % 256) (x / 2 ^ 28 % 16 * 16) (omega arith) (omega arith)

sysv_mask : (x : ℕ) → bit_and (x >>> 24) 0xf0 ≡ x / 2 ^ 28 % 16 * 16
sysv_mask x = omega (arith, bit_and_high_nibble (x / 2 ^ 24))

-- The low 28 bits of a round on 64 bits.
sysv_round-mod : (h c : ℕ) → sysv_round h c % 2 ^ 28 ≡ fold_nibble ((16 * h + c) % 2 ^ 32)
unfolding sysv_round fold_nibble
sysv_round-mod h c =
    let x = u64 (u64 (16 * h) + c) in
    let t = (16 * h + c) % 2 ^ 32 in
    let same_byte : x % 256 ≡ t % 256 = omega arith in
    let same_nibble : x / 2 ^ 28 % 16 ≡ t / 2 ^ 28 % 16 = omega arith in
    rw (sysv_mask x, xor_nibble x, same_byte, same_nibble) (omega (arith, xor_nibble-lt t))

-- When the top nibble is 0, the skipped step would change nothing.
skip_xor :
    (x g : ℕ)
    → (if g * 2 ^ 28 == 0 then x else bit_xor x ((g * 2 ^ 28) >>> 24)) ≡ bit_xor x (g * 16)
skip_xor x g = elim (Bool-cases (g * 2 ^ 28 == 0)) [
  | inl e ↦
      let zero_nibble : g * 16 ≡ 0 = omega (arith, (==_iff (g * 2 ^ 28) 0).0 e) in
      rw (e, zero_nibble) (sym (bit_xor-zero x))
  | inr e ↦ let shifted : (g * 2 ^ 28) / 2 ^ 24 ≡ g * 16 = omega arith in rw (e, shifted)
]

elf_round_lem : (h c : ℕ) → elf_round h c ≡ fold_nibble ((16 * h + c) % 2 ^ 32)
unfolding elf_round fold_nibble
elf_round_lem h c =
    let x = u32 (u32 (h <<< 4) + c) in
    let g = x / 2 ^ 28 in
    let word : x ≡ (16 * h + c) % 2 ^ 32 = omega arith in
    let nibble : g % 16 * 16 ≡ g * 16 = omega arith in
    let low = xor_nibble-lt x in
    let mixed = xor_nibble x in
    let kept : bit_xor x (g * 16) / 2 ^ 28 ≡ g = rw (← nibble) (omega arith) in
    rw (bit_and_top_nibble x (omega arith), skip_xor x g)
      (bit_and_clear_nibble (bit_xor x (g * 16)) g (omega arith) kept
        ∙ rw (← nibble, mixed, ← word) (omega arith))

elf_rounds-eq-sysv_rounds :
    (s : List ℕ) (h k : ℕ) → h ≡ k % 2 ^ 28 → elf_rounds h s ≡ sysv_rounds k s % 2 ^ 28
unfolding elf_rounds sysv_rounds
elf_rounds-eq-sysv_rounds [] h k e = e
elf_rounds-eq-sysv_rounds (c ∷ s) h k e =
    let same_word : (16 * h + c) % 2 ^ 32 ≡ (16 * k + c) % 2 ^ 32 = omega arith in
    elf_rounds-eq-sysv_rounds s (elf_round h c) (sysv_round k c)
      (elf_round_lem h c ∙ ap fold_nibble same_word ∙ sym (sysv_round-mod k c))

-- The ELF hash that keeps 28 bits in every round, and the System V hash that lets a 64-bit
-- accumulator grow and cuts it once at the end, are the same function on every name.
pub elf_hash-eq-sysv_hash : (name : List ℕ) → elf_hash name ≡ sysv_hash name
unfolding elf_hash sysv_hash
elf_hash-eq-sysv_hash name =
    omega (
      arith,
      elf_rounds-eq-sysv_rounds name 0 0 (omega arith),
      bit_and_ones 28 (sysv_rounds 0 name),
    )

-- The System V hash of any name fits 28 bits.
pub sysv_hash-lt : (name : List ℕ) → sysv_hash name < 2 ^ 28
unfolding sysv_hash
sysv_hash-lt name = omega (arith, bit_and_ones 28 (sysv_rounds 0 name))

-- The polynomial in 33 with the bytes of the name as coefficients, without any wrap-around.
abbrev pub horner : ℕ → List ℕ → ℕ
horner h [] = h
horner h (c ∷ s) = horner (33 * h + c) s

horner_mod :
    (s : List ℕ) (h k : ℕ) → h % 2 ^ 32 ≡ k % 2 ^ 32 → horner h s % 2 ^ 32 ≡ horner k s % 2 ^ 32
horner_mod [] h k e = e
horner_mod (c ∷ s) h k e = horner_mod s (33 * h + c) (33 * k + c) (omega arith)

gnu_rounds-horner : (s : List ℕ) (h : ℕ) → gnu_rounds h s % 2 ^ 32 ≡ horner h s % 2 ^ 32
unfolding gnu_rounds
gnu_rounds-horner [] h = refl
gnu_rounds-horner (c ∷ s) h =
    gnu_rounds-horner s _
    ∙ horner_mod s (u64 (h + u64 (u64 (h * 32) + c))) (33 * h + c) (omega arith)

-- The GNU hash of any name, accumulated on 64 bits, is the 32-bit remainder of the exact
-- polynomial: start at 5381, multiply by 33, add the next byte.
pub gnu_hash-horner : (s : List ℕ) → gnu_hash s ≡ horner 5381 s % 2 ^ 32
unfolding gnu_hash
gnu_hash-horner s = gnu_rounds-horner s 5381
