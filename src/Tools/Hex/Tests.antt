-- ===== src/Tools/Hex/Tests.antt =====
-- Numbers that are written and read.
use bin_tools.Base.{ℕ, List, none, some, ◌%◌, ◌^◌, ◌-◌, [], ◌∷◌, ◌≡◌, refl, arith}
use bin_tools.Tools.Hex.Roundtrip.{hex_digits, hex_text, ascii_to_bin-itoh}
use bin_tools.Tools.Hex.{
  hex_char, itoh_loop, itoh, shifted_int, ascii_loop, backwards, ascii_to_bin,
}

ascii_to_bin-itoh_example :
    (text : List ℕ) × (itoh 0x1234_abcd 32 ≡ some text) × (ascii_to_bin text ≡ 0x1234_abcd % 2 ^ 32)
ascii_to_bin-itoh_example =
    ascii_to_bin-itoh 0x1234_abcd 32 refl (omega arith) (omega arith) (omega arith)

itoh_byte : itoh 0x3f 8 ≡ some (b'0' ∷ b'x' ∷ b'3' ∷ b'f' ∷ [])
unfolding itoh itoh_loop hex_char
itoh_byte = refl

-- No digit, and more than the buffer holds.
no_digit : itoh 0x3f 0 ≡ none
unfolding itoh
no_digit = refl

too_long : itoh 0x3f 60 ≡ none
unfolding itoh itoh_loop
too_long = refl

-- Bit 31 is taken for a sign.
high_address : ascii_to_bin (hex_text 0x8000_0000 32) ≡ 2 ^ 64 - 2 ^ 31
unfolding hex_text hex_digits hex_char ascii_to_bin ascii_loop backwards shifted_int
high_address = refl
