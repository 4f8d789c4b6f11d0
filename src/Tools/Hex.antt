-- ===== src/Tools/Hex.antt =====
-- Hexadecimal numbers: `ascii_to_bin` of tools/bipatch.c reads what `itoh` of
-- core/asm/x86/disasm.c writes. A stretch of text is the list of its bytes.
pub mod Roundtrip
mod Tests
use bin_tools.Base.{
  ℕ, zero, suc, ◌+◌, ◌-◌, ◌*◌, ◌/◌, ◌%◌, ◌^◌, Bool, ◌&&◌, List, [], ◌∷◌, Option, none, some, ◌>>=◌,
  u8, u16, u64, bit_and, ◌<<<◌, ◌>>>◌, leb, ltb, ◌==◌, if◌then◌else◌,
}

-- `b += (b < 0x0a) ? 0x30 : 0x61 - 0x0a`
unfoldable pub hex_char : ℕ → ℕ
hex_char b = u8 (b + (if ltb b 0x0a then 0x30 else 0x61 - 0x0a))

-- The loop of `itoh` with the mask `p`, `room` bytes left in the buffer, and an `i` that is 4 less than
-- `next`; `none` is a digit behind the end of the buffer or a shift by a negative number.
unfoldable pub itoh_loop : (a p next room : ℕ) → Option (List ℕ)
itoh_loop a p next zero = if p == 0 then some [] else none
itoh_loop a p next (suc room) =
    let rest = itoh_loop a (p >>> 4) (next - 4) room in
    if p == 0
    then some []
    else if ltb next 4
    then none
    else rest >>= (λ (ds : List ℕ). some (hex_char (u8 (bit_and a p >>> (next - 4))) ∷ ds))

-- What is written into the buffer of 16 bytes; `none` is as above, or a shift by 64 or more, as for a
-- `digit` of 0, from which `digit - 4` wraps.
unfoldable pub itoh : (a digit : ℕ) → Option (List ℕ)
unfolding itoh_loop
itoh a digit =
    let shift = u16 (digit + (2 ^ 16 - 4)) in
    if ltb shift 64
    then itoh_loop a (u64 (0x0f <<< shift)) (shift + 4) 14
      >>= (λ (ds : List ℕ). some (b'0' ∷ b'x' ∷ ds))
    else none

-- An `int` that is shifted to the left, added to 64 bits: bit 31 is its sign.
unfoldable pub shifted_int : ℕ → ℕ → ℕ
shifted_int d s = let w = d * 2 ^ s % 2 ^ 32 in if ltb w (2 ^ 31) then w else w + 2 ^ 64 - 2 ^ 32

abbrev pub parse_error : ℕ
parse_error = 2 ^ 64 - 1

-- The loop of `ascii_to_bin` on the bytes from the last one on, with its variables `r` and `s`.
unfoldable pub ascii_loop : List ℕ → ℕ → ℕ → ℕ
ascii_loop [] r s = r
ascii_loop (x ∷ xs) r s =
    let decimal = leb b'0' x && leb x b'9' in
    let letter = leb b'a' x && leb x b'f' in
    let d = if decimal then x - b'0' else x + 10 - b'a' in
    let rest = ascii_loop xs (u64 (r + shifted_int d s)) (s + 4) in
    if decimal then rest else if letter then rest else parse_error

unfoldable pub backwards : List ℕ → List ℕ → List ℕ
backwards [] acc = acc
backwards (x ∷ xs) acc = backwards xs (x ∷ acc)

-- The text from `begin` to `end`.
unfoldable pub ascii_to_bin : List ℕ → ℕ
ascii_to_bin (x0 ∷ x1 ∷ xs) =
    if x0 == b'0' && x1 == b'x' then ascii_loop (backwards xs []) 0 0 else parse_error
ascii_to_bin _ = parse_error
