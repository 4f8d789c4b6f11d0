-- ===== src/Tools/Hex/Roundtrip.antt =====
-- What is written in hexadecimal is read back.
use native.Mathlib.Nat.{
  pow-suc, one-le-pow, add-mul, mul_assoc, div-add-mod', mod-lt, mod-eq_of_lt, mul-le-mul_right,
  add-mul-mod_self_right, mul-div_cancel,
}
use bin_tools.Base.Bits.{bit_and_cut, bit_and_ones, bit_and-zero}
use bin_tools.Base.Tried.{tried, tried_sound}
use bin_tools.Base.{
  ℕ, zero, suc, ◌+◌, ◌-◌, ◌*◌, ◌/◌, ◌%◌, ◌^◌, ◌<◌, ◌≤◌, Bool, true, false, ◌&&◌, List, [], ◌∷◌,
  some, u8, u16, u64, bit_and, ◌<<<◌, ◌>>>◌, leb, ltb, ltb→lt, lt→ltb, ne→==, ◌==◌, if◌then◌else◌,
  ◌≡◌, refl, ap, ◌∙◌, arith, Bool-cases, inl, inr,
}
use bin_tools.Tools.Hex.{
  hex_char, itoh_loop, itoh, shifted_int, ascii_loop, backwards, ascii_to_bin,
}

-- The lowest `n` digits of a number.
unfoldable pub hex_digits : ℕ → ℕ → List ℕ
hex_digits a zero = []
hex_digits a (suc n) = hex_char (u8 (bit_and a (0x0f <<< (4 * n)) >>> (4 * n))) ∷ hex_digits a n

-- Its lowest `digit` bits as a text.
unfoldable pub hex_text : ℕ → ℕ → List ℕ
hex_text a digit = b'0' ∷ b'x' ∷ hex_digits a (digit / 4)

nibble : (a k : ℕ) → u8 (bit_and a (0x0f <<< k) >>> k) ≡ a / 2 ^ k % 16
nibble a k =
    let pos : 0 < 2 ^ k = one-le-pow k 2 (omega arith) in
    let mask : 0x0f * 2 ^ k + 0 ≡ 0x0f * 2 ^ k = omega arith in
    let kept = rw mask at (bit_and_cut k a 0x0f 0 pos) in
    let low : bit_and (a / 2 ^ k) 0x0f ≡ a / 2 ^ k % 16 = bit_and_ones 4 (a / 2 ^ k) in
    let all : bit_and a (0x0f * 2 ^ k) ≡ a / 2 ^ k % 16 * 2 ^ k =
      kept ∙ omega (arith, bit_and-zero (a % 2 ^ k), ap (λ (x : ℕ). x * 2 ^ k) low) in
    rw all (rw (mul-div_cancel (a / 2 ^ k % 16) pos) (omega arith))

four_bits : (k : ℕ) → 2 ^ (4 * suc k) ≡ 16 * 2 ^ (4 * k)
four_bits k =
    let j = 4 * k in
    let e : 4 * suc k ≡ suc (suc (suc (suc (4 * k)))) = omega arith in
    rw e (
      omega (
        arith,
        pow-suc 2 (suc (suc (suc j))),
        pow-suc 2 (suc (suc j)),
        pow-suc 2 (suc j),
        pow-suc 2 j,
      ))

-- The digit above a remainder makes the next remainder.
next_remainder :
    (a k : ℕ) → a % 2 ^ (4 * suc k) ≡ a % 2 ^ (4 * k) + a / 2 ^ (4 * k) % 16 * 2 ^ (4 * k)
next_remainder a k =
    let P = 2 ^ (4 * k) in
    let d = a / P % 16 in
    let y = a / P / 16 in
    let pos : 0 < P = one-le-pow (4 * k) 2 (omega arith) in
    let up : 2 ^ (4 * suc k) ≡ 16 * P = four_bits k in
    let whole : a ≡ a % P + d * P + y * (16 * P) = omega (
      arith,
      div-add-mod' a P,
      ap (λ (x : ℕ). x * P) (div-add-mod' (a / P) 16),
      add-mul (y * 16) d P,
      mul_assoc y 16 P,
    ) in
    let below : a % P + d * P < 16 * P =
      omega (arith, mod-lt a pos, mul-le-mul_right {m = d} {n = 15} P (omega arith)) in
    rw up (
      ap (λ (x : ℕ). x % (16 * P)) whole
      ∙ add-mul-mod_self_right (a % P + d * P) y (16 * P)
      ∙ mod-eq_of_lt below)

shifted_int-small : (d s : ℕ) → d * 2 ^ s < 2 ^ 31 → shifted_int d s ≡ d * 2 ^ s
unfolding shifted_int
shifted_int-small d s lt = ground arith

-- One digit that was written is read.
ascii_loop-hex_char :
    (d : ℕ) (xs : List ℕ) (r s : ℕ)
    → d < 16
    → r + d * 2 ^ s < 2 ^ 31
    → ascii_loop (hex_char d ∷ xs) r s ≡ ascii_loop xs (r + d * 2 ^ s) (s + 4)
unfolding ascii_loop hex_char
ascii_loop-hex_char d xs r s lt small = elim (Bool-cases (ltb d 0x0a)) [
  | inl e ↦
      let x : u8 (d + (if ltb d 0x0a then 0x30 else 0x61 - 0x0a)) ≡ d + 0x30 = ground arith in
      let back : d + 0x30 - b'0' ≡ d = omega arith in
      let sum : u64 (r + d * 2 ^ s) ≡ r + d * 2 ^ s = mod-eq_of_lt (omega arith) in
      let is_decimal : (leb b'0' (d + 0x30) && leb (d + 0x30) b'9') ≡ true = ground arith in
      rw (x, is_decimal, back, shifted_int-small d s (omega arith), sum) refl
  | inr e ↦
      let x : u8 (d + (if ltb d 0x0a then 0x30 else 0x61 - 0x0a)) ≡ d + 0x57 = ground arith in
      let back : d + 0x57 + 10 - b'a' ≡ d = omega arith in
      let sum : u64 (r + d * 2 ^ s) ≡ r + d * 2 ^ s = mod-eq_of_lt (omega arith) in
      let no_decimal : (leb b'0' (d + 0x57) && leb (d + 0x57) b'9') ≡ false = ground arith in
      let is_letter : (leb b'a' (d + 0x57) && leb (d + 0x57) b'f') ≡ true = ground arith in
      rw (x, no_decimal, is_letter, back, shifted_int-small d s (omega arith), sum) refl
]

ascii_loop-hex_digits :
    (a n : ℕ) (acc : List ℕ)
    → a % 2 ^ (4 * n) < 2 ^ 31
    → ascii_loop (backwards (hex_digits a n) acc) 0 0 ≡ ascii_loop acc (a % 2 ^ (4 * n)) (4 * n)
unfolding hex_digits backwards
ascii_loop-hex_digits a zero acc small = let z : a % 2 ^ (4 * 0) ≡ 0 = omega arith in rw z refl
ascii_loop-hex_digits a (suc n) acc small =
    let d = a / 2 ^ (4 * n) % 16 in
    let more = next_remainder a n in
    let digit : hex_char (u8 (bit_and a (0x0f <<< (4 * n)) >>> (4 * n))) ≡ hex_char d =
      ap hex_char (nibble a (4 * n)) in
    let go = ascii_loop-hex_digits a n (hex_char d ∷ acc) (omega (arith, more)) in
    let last =
      ascii_loop-hex_char d acc (a % 2 ^ (4 * n)) (4 * n) (omega arith) (omega (arith, more)) in
    let place : 4 * n + 4 ≡ 4 * suc n = omega arith in rw digit (go ∙ last ∙ rw (more, place) refl)

pub ascii_to_bin-hex_text :
    (a digit : ℕ)
    → digit % 4 ≡ 0
    → a % 2 ^ digit < 2 ^ 31
    → ascii_to_bin (hex_text a digit) ≡ a % 2 ^ digit
unfolding ascii_to_bin hex_text ascii_loop
ascii_to_bin-hex_text a digit four small =
    let whole : 4 * (digit / 4) ≡ digit = omega arith in
    rw whole at (ascii_loop-hex_digits a (digit / 4) [] (rw whole small))

-- The mask with `n` digits left.
mask : ℕ → ℕ
mask zero = 0
mask (suc n) = 0x0f * 2 ^ (4 * n)

mask-next : (n : ℕ) → (0x0f * 2 ^ (4 * n)) / 16 ≡ mask n
unfolding mask
mask-next zero = omega arith
mask-next (suc n) = rw (four_bits n) (omega arith)

itoh_loop-hex_digits :
    (a n room : ℕ) → n ≤ room → itoh_loop a (mask n) (4 * n) room ≡ some (hex_digits a n)
unfolding itoh_loop hex_digits mask
itoh_loop-hex_digits a zero zero h = refl
itoh_loop-hex_digits a zero (suc room) h = refl
itoh_loop-hex_digits a (suc n) zero h = absurd (omega arith)
itoh_loop-hex_digits a (suc n) (suc room) h =
    let P = 2 ^ (4 * n) in
    let pos : 0 < P = one-le-pow (4 * n) 2 (omega arith) in
    let more : (0x0f * P == 0) ≡ false = ne→== (0x0f * P) 0 (omega arith) in
    let next : 4 * suc n - 4 ≡ 4 * n = omega arith in
    let high : ltb (4 * suc n) 4 ≡ false = ground arith in
    let m : (0x0f * P) / 16 ≡ mask n = mask-next n in
    rw (more, high, next) (rw m (rw (itoh_loop-hex_digits a n room (omega arith)) refl))

-- A mask of up to 14 digits fits 64 bits.
fits : ℕ → Bool
fits n = ltb (0x0f * 2 ^ (4 * n)) (2 ^ 64)

all_fit : tried fits 14 ≡ true
unfolding tried fits
all_fit = refl

mask-lt : (n : ℕ) → n < 14 → 0x0f * 2 ^ (4 * n) < 2 ^ 64
unfolding fits
mask-lt n h = ltb→lt _ _ (tried_sound fits 14 h all_fit)

itoh-hex_digits :
    (a n digit : ℕ)
    → n < 14
    → digit ≡ 4 * suc n
    → itoh a digit ≡ some (b'0' ∷ b'x' ∷ hex_digits a (suc n))
unfolding itoh mask
itoh-hex_digits a n digit h e =
    let s : u16 (digit + (2 ^ 16 - 4)) ≡ 4 * n = omega arith in
    let l : ltb (4 * n) 64 ≡ true = lt→ltb _ _ (omega arith) in
    let u : u64 (0x0f * 2 ^ (4 * n)) ≡ 0x0f * 2 ^ (4 * n) = mod-eq_of_lt (mask-lt n h) in
    let next : 4 * n + 4 ≡ 4 * suc n = omega arith in
    let r = itoh_loop-hex_digits a (suc n) 14 (omega arith) in
    rw s (rw l (rw u (rw next (rw r refl))))

pub itoh-hex_text :
    (a digit : ℕ) → digit % 4 ≡ 0 → 0 < digit → digit ≤ 56 → itoh a digit ≡ some (hex_text a digit)
unfolding hex_text
itoh-hex_text a digit four pos most =
    let k : suc (digit / 4 - 1) ≡ digit / 4 = omega arith in
    itoh-hex_digits a (digit / 4 - 1) digit (omega arith) (omega arith)
    ∙ ap (λ (n : ℕ). some (b'0' ∷ b'x' ∷ hex_digits a n)) k

-- For a number of bits `digit` that is a multiple of 4 from 4 to 56, `itoh` writes its text without
-- leaving the buffer; and when the lowest `digit` bits of the number fit 31 bits, the patch tool reads
-- them back from this text.
pub ascii_to_bin-itoh :
    (a digit : ℕ)
    → digit % 4 ≡ 0
    → 0 < digit
    → digit ≤ 56
    → a % 2 ^ digit < 2 ^ 31
    → (text : List ℕ) × (itoh a digit ≡ some text) × (ascii_to_bin text ≡ a % 2 ^ digit)
ascii_to_bin-itoh a digit four pos most small = (
  hex_text a digit,
  itoh-hex_text a digit four pos most,
  ascii_to_bin-hex_text a digit four small,
)
