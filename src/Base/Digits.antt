-- ===== src/Base/Digits.antt =====
-- Single bits of words.
use Prim.Native.Nat.{
  ℕ, zero, suc, ◌+◌, ◌-◌, ◌*◌, ◌/◌, ◌%◌, ◌^◌, ◌≤◌, ◌<◌, bit_and, bit_or, min, max,
}
use mathlib.Core.Path.{◌≡◌, refl, ap, sym, ◌∙◌}
use mathlib.Core.Logic.{◌≢◌}
use native.Mathlib.Nat.{pow-suc, div-div-eq-div-mul}
use native.Mathlib.Omega.{arith}
use bin_tools.Base.Bits.{
  bit_or_last_digit, bit_and_last_digit, bit_or-zero, bit_and-zero, bit_and_ones,
}

-- Bit `t` of a word.
abbrev pub digit : ℕ → ℕ → ℕ
digit zero x = x % 2
digit (suc t) x = digit t (x / 2)

pub digit-bit_or : (t a b : ℕ) → digit t (bit_or a b) ≡ max (digit t a) (digit t b)
digit-bit_or zero a b = ground (arith, bit_or_last_digit a b)
digit-bit_or (suc t) a b =
    ap (digit t) (ground (arith, bit_or_last_digit a b)) ∙ digit-bit_or t (a / 2) (b / 2)

pub digit-bit_and : (t a b : ℕ) → digit t (bit_and a b) ≡ min (digit t a) (digit t b)
digit-bit_and zero a b = ground (arith, bit_and_last_digit a b)
digit-bit_and (suc t) a b =
    ap (digit t) (ground (arith, bit_and_last_digit a b)) ∙ digit-bit_and t (a / 2) (b / 2)

pub digit-pow : (t : ℕ) → digit t (1 * 2 ^ t) ≡ 1
digit-pow zero = refl
digit-pow (suc t) = ap (digit t) (omega (arith, pow-suc 2 t)) ∙ digit-pow t

digit-zero : (t : ℕ) → digit t 0 ≡ 0
digit-zero zero = refl
digit-zero (suc t) = digit-zero t

pub digit-le : (t x : ℕ) → digit t x ≤ 1
digit-le zero x = omega arith
digit-le (suc t) x = digit-le t (x / 2)

pub digit-or_left : (t x y : ℕ) → digit t x ≡ 1 → digit t (bit_or x y) ≡ 1
digit-or_left t x y h = ground (arith, digit-bit_or t x y, digit-le t y)

pub digit-or_right : (t x y : ℕ) → digit t y ≡ 1 → digit t (bit_or x y) ≡ 1
digit-or_right t x y h = ground (arith, digit-bit_or t x y, digit-le t x)

-- A word with a bit is not 0.
pub digit-ne-zero : (t x : ℕ) → digit t x ≡ 1 → x ≢ 0
digit-ne-zero t zero h e = omega (arith, h, digit-zero t)
digit-ne-zero t (suc x) h e = omega (arith, e)

pub digit-shift : (t x : ℕ) → x / 2 ^ t % 2 ≡ digit t x
digit-shift zero x = omega arith
digit-shift (suc t) x =
    ap (λ (y : ℕ). x / y % 2) (pow-suc 2 t ∙ omega arith)
    ∙ ap (λ (y : ℕ). y % 2) (sym (div-div-eq-div-mul x 2 (2 ^ t)))
    ∙ digit-shift t (x / 2)

pub bit_or_one : (x : ℕ) → bit_or x 1 ≡ x / 2 * 2 + 1
bit_or_one x = ground (arith, bit_or_last_digit x 1, bit_or-zero (x / 2))

pub bit_and_one : (x : ℕ) → bit_and x 1 ≡ x % 2
bit_and_one x = ground (arith, bit_and_last_digit x 1, bit_and-zero (x / 2))

pub bit_and_even : (x : ℕ) → x < 2 ^ 32 → bit_and x (2 ^ 32 - 2) ≡ x / 2 * 2
bit_and_even x h = ground (arith, bit_and_last_digit x (2 ^ 32 - 2), bit_and_ones 31 (x / 2))
