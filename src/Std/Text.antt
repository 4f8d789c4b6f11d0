-- ===== src/Std/Text.antt =====
-- The string functions of core/std/string.c and core/std/hash_table.c. A string is the list of its
-- bytes, without the closing zero; a difference of two bytes is returned as a `uint8_t`.
pub mod Laws
mod Tests
use bin_tools.Base.{
  ℕ, zero, suc, ◌+◌, ◌-◌, Bool, List, [], ◌∷◌, Option, none, some, u8, ◌==◌, if◌then◌else◌,
}

-- `*p1 - *p2` at the first bytes of what is left of two strings.
abbrev pub first_difference : List ℕ → List ℕ → ℕ
first_difference [] [] = 0
first_difference [] (b ∷ bs) = u8 (256 - b)
first_difference (a ∷ as') [] = u8 a
first_difference (a ∷ as') (b ∷ bs) = u8 (a + 256 - b)

-- `for (;*p1 && *p2 && *p1 == *p2;p1++,p2++)`
unfoldable pub strcmp : List ℕ → List ℕ → ℕ
strcmp [] bs = first_difference [] bs
strcmp (a ∷ as') [] = first_difference (a ∷ as') []
strcmp (a ∷ as') (b ∷ bs) =
    let rest = strcmp as' bs in if a == b then rest else first_difference (a ∷ as') (b ∷ bs)

unfoldable pub strlen : List ℕ → ℕ
strlen [] = 0
strlen (c ∷ s) = suc (strlen s)

unfoldable pub strncmp : List ℕ → List ℕ → ℕ → ℕ
strncmp as' bs zero = 0
strncmp [] bs (suc i) = first_difference [] bs
strncmp (a ∷ as') [] (suc i) = first_difference (a ∷ as') []
strncmp (a ∷ as') (b ∷ bs) (suc i) =
    let rest = strncmp as' bs i in if a == b then rest else first_difference (a ∷ as') (b ∷ bs)

-- The three answers of `strtok`: a null pointer, the address 1, or the pointer behind a space.
pub data Token : Type 0 where
  nothing : Token
  flag : Token
  next : List ℕ → List ℕ → Token

-- What is in front of the space stays as a string of its own; `front` is it in reverse order.
pub strtok_loop : Bool → List ℕ → List ℕ → Token
strtok_loop has front [] = if has then flag else nothing
strtok_loop has front (c ∷ s) =
    let rest = strtok_loop Bool.true (c ∷ front) s in if c == 0x20 then next front s else rest

unfoldable pub strtok : List ℕ → Token
unfolding strtok_loop
strtok s = strtok_loop Bool.false [] s
