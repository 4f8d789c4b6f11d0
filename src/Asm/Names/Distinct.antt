-- ===== src/Asm/Names/Distinct.antt =====
-- Different things have different names.
use bin_tools.Base.Tried.{tried, tried_sound}
use bin_tools.Base.{
  ℕ, ◌+◌, ◌*◌, ◌/◌, ◌%◌, ◌<◌, Bool, true, false, not, ◌||◌, List, Option, none, some, ◌==◌, ==_iff,
  same_string, same_string_refl, subst, ◌≡◌, refl, arith,
}
use bin_tools.Asm.Names.{
  set_name1, set_name2, set_name3, get_register_name, string_at, register_name, get_jmp_name,
}

abbrev same_name : Option (List ℕ) → Option (List ℕ) → Bool
same_name none none = true
same_name none (some b) = false
same_name (some a) none = false
same_name (some a) (some b) = same_string a b

same_name_refl : (a : Option (List ℕ)) → same_name a a ≡ true
same_name_refl none = refl
same_name_refl (some a) = same_string_refl a

-- No two numbers below `n` have the same name.
abbrev all_distinct : (ℕ → Option (List ℕ)) → ℕ → Bool
all_distinct name n = tried (λ x. tried (λ y. not (same_name (name x) (name y)) || x == y) n) n

all_distinct_sound :
    (name : ℕ → Option (List ℕ)) (n : ℕ) {x y : ℕ}
    → all_distinct name n ≡ true
    → x < n
    → y < n
    → name x ≡ name y
    → x ≡ y
all_distinct_sound name n {x} {y} h lx ly e =
    let row =
      tried_sound (λ x. tried (λ y. not (same_name (name x) (name y)) || x == y) n) n lx h in
    let cell = tried_sound (λ y. not (same_name (name x) (name y)) || x == y) n ly row in
    let same : same_name (name x) (name y) ≡ true =
      subst (λ v. same_name (name x) v ≡ true) e (same_name_refl (name x)) in
    (==_iff x y).0 (rw same at cell)

-- Register `x % 16` at the width `x / 16`, in the order of the flags 0x00, 0x08, 0x10 and 0x18.
abbrev wide_name : ℕ → Option (List ℕ)
wide_name x = register_name (x % 16) (8 * (x / 16))

wide_name-table : all_distinct wide_name 64 ≡ true
unfolding tried register_name get_register_name set_name1 set_name2 set_name3 string_at same_string
wide_name-table = refl

-- The name of a register tells its number and its width: among the 16 registers at 8, 16, 32 and 64
-- bits no two have the same name.
pub register_name-distinct :
    (r w r' w' : ℕ)
    → r < 16
    → w < 4
    → r' < 16
    → w' < 4
    → register_name r (8 * w) ≡ register_name r' (8 * w')
    → (r ≡ r') × (w ≡ w')
register_name-distinct r w r' w' lr lw lr' lw' e =
    let a : (16 * w + r) % 16 ≡ r = omega arith in
    let b : (16 * w + r) / 16 ≡ w = omega arith in
    let a' : (16 * w' + r') % 16 ≡ r' = omega arith in
    let b' : (16 * w' + r') / 16 ≡ w' = omega arith in
    let same : wide_name (16 * w + r) ≡ wide_name (16 * w' + r') = rw (a, b, a', b') e in
    let eq : 16 * w + r ≡ 16 * w' + r' =
      all_distinct_sound wide_name 64 wide_name-table (omega arith) (omega arith) same in
    (omega arith, omega arith)

abbrev jump_name : ℕ → Option (List ℕ)
jump_name x = get_jmp_name (0x70 + x)

jump_name-table : all_distinct jump_name 16 ≡ true
unfolding tried get_jmp_name same_string
jump_name-table = refl

-- The sixteen conditional jumps have sixteen names.
pub get_jmp_name-distinct :
    (x y : ℕ) → x < 16 → y < 16 → get_jmp_name (0x70 + x) ≡ get_jmp_name (0x70 + y) → x ≡ y
get_jmp_name-distinct x y lx ly e = all_distinct_sound jump_name 16 jump_name-table lx ly e
