-- ===== src/Base/Bits.antt =====
-- `&`, `|` and `^` of words that are cut at a bit position.
use Prim.Native.Nat.{
  ℕ, zero, suc, ◌+◌, ◌-◌, ◌*◌, ◌/◌, ◌%◌, ◌^◌, ◌≤◌, ◌<◌, bit_and, bit_or, bit_xor, min, max, digits,
  bitwise, bit_and-bitwise, bit_or-bitwise, bit_xor-bitwise,
}
use mathlib.Core.Path.{◌≡◌, refl, ap, ap₂, sym, ◌∙◌}
use native.Mathlib.Nat.{pow-suc, one-le-pow}
use native.Mathlib.Omega.{arith}

mul_one_add : (a : ℕ) → a * 2 ^ 0 + 0 ≡ a
mul_one_add a = omega arith

mul-two-pow-suc : (a k : ℕ) → a * 2 ^ suc k ≡ 2 * (a * 2 ^ k)
mul-two-pow-suc a k = omega (arith, ap (λ (t : ℕ). a * t) (pow-suc 2 k))

-- The lowest digit and the rest of a word that is cut above bit `k`.
halve :
    (k a r : ℕ) → ((a * 2 ^ suc k + r) / 2 ≡ a * 2 ^ k + r / 2) × ((a * 2 ^ suc k + r) % 2 ≡ r % 2)
halve k a r = omega (arith, mul-two-pow-suc a k)

-- An operation that works digit by digit, and what it does on the lowest digits.
module _ (op digit : ℕ → ℕ → ℕ)
    (step : (a b : ℕ) → op a b ≡ op (a / 2) (b / 2) * 2 + digit (a % 2) (b % 2))
    (none : op 0 0 ≡ 0) where
  -- The operation works on both sides of bit `k` apart.
  op_split :
      (k a b r s : ℕ)
      → r < 2 ^ k
      → s < 2 ^ k
      → op (a * 2 ^ k + r) (b * 2 ^ k + s) ≡ op a b * 2 ^ k + op r s
  op_split zero a b r s hr hs =
      let er : r ≡ 0 = omega arith in
      let es : s ≡ 0 = omega arith in
      rw (er, es) (rw (mul_one_add a, mul_one_add b) (omega (arith, none)))
  op_split (suc k) a b r s hr hs = ground (
    arith,
    step (a * 2 ^ suc k + r) (b * 2 ^ suc k + s),
    step r s,
    halve k a r,
    halve k b s,
    pow-suc 2 k,
    mul-two-pow-suc (op a b) k,
    op_split k a b (r / 2) (s / 2),
  )

module _ (z : ℕ → ℕ) (f : ℕ → ℕ → ℕ) where
  digits-zero : (n b : ℕ) → digits z f n 0 b ≡ z b
  digits-zero zero b = refl
  digits-zero (suc n) b = refl

  -- Any two counts of rounds that reach the last digit agree.
  digits_rounds : (n m a b : ℕ) → a ≤ n → a ≤ m → digits z f n a b ≡ digits z f m a b
  digits_rounds n m zero b p q = digits-zero n b ∙ sym (digits-zero m b)
  digits_rounds zero m (suc a) b p q = elim p [ ]
  digits_rounds (suc n) zero (suc a) b p q = elim q [ ]
  digits_rounds (suc n) (suc m) (suc a) b p q =
      ap (λ (t : ℕ). t * 2 + f (suc a % 2) (b % 2))
        (digits_rounds n m (suc a / 2) (b / 2) (omega arith) (omega arith))

  bitwise_step :
      (a b : ℕ)
      → bitwise z f (suc a) b ≡ bitwise z f (suc a / 2) (b / 2) * 2 + f (suc a % 2) (b % 2)
  bitwise_step a b =
      ap (λ (t : ℕ). t * 2 + f (suc a % 2) (b % 2))
        (digits_rounds a (suc a / 2) (suc a / 2) (b / 2) (omega arith) (omega arith))

abbrev differ : ℕ → ℕ → ℕ
differ = Prim.Native.Nat.differ

pub bit_or_last_digit : (a b : ℕ) → bit_or a b ≡ bit_or (a / 2) (b / 2) * 2 + max (a % 2) (b % 2)
bit_or_last_digit zero b = simp bit_or-bitwise (omega arith)
bit_or_last_digit (suc a) b = simp bit_or-bitwise (bitwise_step (λ y. y) max a b)

pub bit_and_last_digit : (a b : ℕ) → bit_and a b ≡ bit_and (a / 2) (b / 2) * 2 + min (a % 2) (b % 2)
bit_and_last_digit zero b = simp bit_and-bitwise (omega arith)
bit_and_last_digit (suc a) b = simp bit_and-bitwise (bitwise_step (λ y. 0) min a b)

bit_xor_last_digit : (a b : ℕ) → bit_xor a b ≡ bit_xor (a / 2) (b / 2) * 2 + differ (a % 2) (b % 2)
bit_xor_last_digit zero b = simp bit_xor-bitwise (omega arith)
bit_xor_last_digit (suc a) b = simp bit_xor-bitwise (bitwise_step (λ y. y) differ a b)

bit_and-zero_rounds : (n a : ℕ) → a ≤ n → bit_and a 0 ≡ 0
bit_and-zero_rounds n zero h = refl
bit_and-zero_rounds zero (suc a) h = elim h [ ]
bit_and-zero_rounds (suc n) (suc a) h =
    omega (arith, bit_and_last_digit (suc a) 0, bit_and-zero_rounds n (suc a / 2) (omega arith))

pub bit_and-zero : (a : ℕ) → bit_and a 0 ≡ 0
bit_and-zero a = bit_and-zero_rounds a a (omega arith)

differ-zero : (a : ℕ) → differ a 0 ≡ a
differ-zero zero = refl
differ-zero (suc a) = refl

bit_xor-zero_rounds : (n a : ℕ) → a ≤ n → bit_xor a 0 ≡ a
bit_xor-zero_rounds n zero h = refl
bit_xor-zero_rounds zero (suc a) h = elim h [ ]
bit_xor-zero_rounds (suc n) (suc a) h = omega (
  arith,
  bit_xor_last_digit (suc a) 0,
  differ-zero (suc a % 2),
  bit_xor-zero_rounds n (suc a / 2) (omega arith),
)

pub bit_xor-zero : (a : ℕ) → bit_xor a 0 ≡ a
bit_xor-zero a = bit_xor-zero_rounds a a (omega arith)

bit_or-zero_rounds : (n a : ℕ) → a ≤ n → bit_or a 0 ≡ a
bit_or-zero_rounds n zero h = refl
bit_or-zero_rounds zero (suc a) h = elim h [ ]
bit_or-zero_rounds (suc n) (suc a) h =
    ground (arith, bit_or_last_digit (suc a) 0, bit_or-zero_rounds n (suc a / 2))

pub bit_or-zero : (a : ℕ) → bit_or a 0 ≡ a
bit_or-zero a = bit_or-zero_rounds a a (omega arith)

pub zero-bit_or : (a : ℕ) → bit_or 0 a ≡ a
zero-bit_or a = simp bit_or-bitwise refl

bit_and_comm_rounds : (n a b : ℕ) → a ≤ n → bit_and a b ≡ bit_and b a
bit_and_comm_rounds n zero b h = bit_and-bitwise 0 b ∙ sym (bit_and-zero b)
bit_and_comm_rounds zero (suc a) b h = elim h [ ]
bit_and_comm_rounds (suc n) (suc a) b h = ground (
  arith,
  bit_and_last_digit (suc a) b,
  bit_and_last_digit b (suc a),
  bit_and_comm_rounds n (suc a / 2) (b / 2),
)

pub bit_and_comm : (a b : ℕ) → bit_and a b ≡ bit_and b a
bit_and_comm a b = bit_and_comm_rounds a a b (omega arith)

differ-le : (a b : ℕ) → a ≤ 1 → b ≤ 1 → differ a b ≤ 1
differ-le zero b p q = q
differ-le (suc a) zero p q = p
differ-le (suc a) (suc b) p q =
    let ea : a ≡ 0 = omega arith in let eb : b ≡ 0 = omega arith in rw (ea, eb) (omega arith)

pub bit_and_split :
    (k a b r s : ℕ)
    → r < 2 ^ k
    → s < 2 ^ k
    → bit_and (a * 2 ^ k + r) (b * 2 ^ k + s) ≡ bit_and a b * 2 ^ k + bit_and r s
bit_and_split = op_split bit_and min bit_and_last_digit refl

pub bit_or_split :
    (k a b r s : ℕ)
    → r < 2 ^ k
    → s < 2 ^ k
    → bit_or (a * 2 ^ k + r) (b * 2 ^ k + s) ≡ bit_or a b * 2 ^ k + bit_or r s
bit_or_split = op_split bit_or max bit_or_last_digit refl

pub bit_xor_split :
    (k a b r s : ℕ)
    → r < 2 ^ k
    → s < 2 ^ k
    → bit_xor (a * 2 ^ k + r) (b * 2 ^ k + s) ≡ bit_xor a b * 2 ^ k + bit_xor r s
bit_xor_split = op_split bit_xor differ bit_xor_last_digit refl

pub bit_xor-lt : (k a b : ℕ) → a < 2 ^ k → b < 2 ^ k → bit_xor a b < 2 ^ k
bit_xor-lt zero a b p q =
    let ea : a ≡ 0 = omega arith in let eb : b ≡ 0 = omega arith in rw (ea, eb) (omega arith)
bit_xor-lt (suc k) a b p q = ground (
  arith,
  bit_xor_last_digit a b,
  pow-suc 2 k,
  differ-le (a % 2) (b % 2),
  bit_xor-lt k (a / 2) (b / 2),
)

-- A word is its part above bit `k` and its part below.
cut : (k x : ℕ) → x / 2 ^ k * 2 ^ k + x % 2 ^ k ≡ x
cut k x = ground (arith, one-le-pow k 2)

zero_above : (k s : ℕ) → 0 * 2 ^ k + s ≡ s
zero_above k s = omega arith

-- `x ^ m` for a mask `m` below bit `k` changes the bits below only.
pub bit_xor_cut : (k x m : ℕ) → m < 2 ^ k → bit_xor x m ≡ x / 2 ^ k * 2 ^ k + bit_xor (x % 2 ^ k) m
bit_xor_cut k x m h =
    ap₂ bit_xor (sym (cut k x)) (sym (zero_above k m))
    ∙ bit_xor_split k (x / 2 ^ k) 0 (x % 2 ^ k) m (ground (arith, one-le-pow k 2)) h
    ∙ ap (λ (t : ℕ). t * 2 ^ k + bit_xor (x % 2 ^ k) m) (bit_xor-zero (x / 2 ^ k))

pub bit_and_cut :
    (k x b s : ℕ)
    → s < 2 ^ k
    → bit_and x (b * 2 ^ k + s) ≡ bit_and (x / 2 ^ k) b * 2 ^ k + bit_and (x % 2 ^ k) s
bit_and_cut k x b s h =
    ap (λ (t : ℕ). bit_and t (b * 2 ^ k + s)) (sym (cut k x))
    ∙ bit_and_split k (x / 2 ^ k) b (x % 2 ^ k) s (ground (arith, one-le-pow k 2)) h

bit_and_ones_below : (k r : ℕ) → r < 2 ^ k → bit_and r (2 ^ k - 1) ≡ r
bit_and_ones_below zero r h = omega (arith, bit_and-zero r)
bit_and_ones_below (suc k) r h = ground (
  arith,
  bit_and_last_digit r (2 ^ suc k - 1),
  pow-suc 2 k,
  one-le-pow k 2,
  bit_and_ones_below k (r / 2),
)

-- A mask of `k` ones takes the remainder by `2 ^ k`.
pub bit_and_ones : (k a : ℕ) → bit_and a (2 ^ k - 1) ≡ a % 2 ^ k
bit_and_ones k a =
    ap (bit_and a) (sym (zero_above k (2 ^ k - 1)))
    ∙ bit_and_cut k a 0 (2 ^ k - 1) (omega (arith, one-le-pow k 2 (omega arith)))
    ∙ ap₂ (λ (x y : ℕ). x * 2 ^ k + y) (bit_and-zero (a / 2 ^ k))
        (bit_and_ones_below k (a % 2 ^ k) (ground (arith, one-le-pow k 2)))
    ∙ zero_above k (a % 2 ^ k)
