-- ===== src/Base/Masks.antt =====
-- The masks of the sources.
use Prim.Native.Nat.{ℕ, ◌+◌, ◌-◌, ◌*◌, ◌/◌, ◌%◌, ◌^◌, ◌<◌, bit_and}
use mathlib.Core.Bool.{true}
use mathlib.Core.Path.{◌≡◌, refl, ap, ap₂, ◌∙◌}
use native.Mathlib.Omega.{arith}
use bin_tools.Base.Tests.{◌==◌, ==_iff}
use bin_tools.Base.Bits.{bit_and-zero, bit_and_cut, bit_and_ones}
use bin_tools.Base.Tried.{tried, tried_sound}

-- The top nibble of a 32-bit word, as `& 0xf0000000` takes it.
pub bit_and_top_nibble : (x : ℕ) → x < 2 ^ 32 → bit_and x 0xf000_0000 ≡ x / 2 ^ 28 * 2 ^ 28
bit_and_top_nibble x h = omega (
  arith,
  bit_and_cut 28 x 15 0 (omega arith),
  bit_and_ones 4 (x / 2 ^ 28),
  bit_and-zero (x % 2 ^ 28),
)

-- The high nibble of the byte that starts at bit 24, as `>> 24 & 0xf0` takes it.
pub bit_and_high_nibble : (y : ℕ) → bit_and y 0xf0 ≡ y / 16 % 16 * 16
bit_and_high_nibble y = omega (
  arith,
  bit_and_cut 4 y 15 0 (omega arith),
  bit_and_ones 4 (y / 2 ^ 4),
  bit_and-zero (y % 2 ^ 4),
)

nibble_complement_table : tried (λ g. bit_and g (15 - g) == 0) 16 ≡ true
unfolding tried
nibble_complement_table = refl

-- `x & ~(g << 28)` clears the top nibble of a 32-bit word whose top nibble is `g`.
pub bit_and_clear_nibble :
    (x g : ℕ) → g < 16 → x / 2 ^ 28 ≡ g → bit_and x (2 ^ 32 - 1 - g * 2 ^ 28) ≡ x % 2 ^ 28
bit_and_clear_nibble x g h e =
    let mask : 2 ^ 32 - 1 - g * 2 ^ 28 ≡ (15 - g) * 2 ^ 28 + (2 ^ 28 - 1) = omega arith in
    let clear : bit_and g (15 - g) ≡ 0 =
      (==_iff _ 0).0 (tried_sound _ 16 h nibble_complement_table) in
    rw mask (
      bit_and_cut 28 x (15 - g) (2 ^ 28 - 1) (omega arith)
      ∙ ap₂ (λ (a b : ℕ). a * 2 ^ 28 + b) (ap (λ (t : ℕ). bit_and t (15 - g)) e ∙ clear)
          (bit_and_ones 28 (x % 2 ^ 28))
      ∙ omega arith)
