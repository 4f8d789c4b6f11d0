-- ===== src/Log.antt =====
-- The formats of core/log/logger.c. Strings are lists of bytes without the closing zero; what a
-- function writes from the end of its buffer on is the list in front of what is there.
pub mod Numbers
mod Tests
use bin_tools.Base.{
  ℕ, zero, suc, ◌+◌, ◌-◌, ◌*◌, ◌/◌, ◌%◌, ◌^◌, List, [], ◌∷◌, ◌++◌, length, Option, none, some,
  get_or, u8, bit_or, bit_and, ◌<<<◌, ◌>>>◌, ◌==◌, if◌then◌else◌,
}

-- 0, or 1 when one string goes on, or -1 at a difference, which is `2 ^ 32 - 1`.
unfoldable pub strcmp : List ℕ → List ℕ → ℕ
strcmp [] [] = 0
strcmp [] (b ∷ bs) = 1
strcmp (a ∷ as') [] = 1
strcmp (a ∷ as') (b ∷ bs) = let rest = strcmp as' bs in if a == b then rest else 2 ^ 32 - 1

abbrev pub xdigits : List ℕ
xdigits = 48 ∷ 49 ∷ 50 ∷ 51 ∷ 52 ∷ 53 ∷ 54 ∷ 55 ∷ 56 ∷ 57 ∷ 65 ∷ 66 ∷ 67 ∷ 68 ∷ 69 ∷ 70 ∷ []

-- `xdigits[d] | lower`
unfoldable pub xdigit : ℕ → ℕ → ℕ
xdigit lower d = bit_or (get_or xdigits d 0) lower

-- `for (; x; x >>= 4) *--s = xdigits[(x & 15)] | lower;` for at most `fuel` digits.
unfoldable pub fmt_x : (fuel : ℕ) → ℕ → List ℕ → ℕ → Option (List ℕ)
unfolding xdigit
fmt_x zero x s lower = if x == 0 then some s else none
fmt_x (suc fuel) x s lower =
    let rest = fmt_x fuel (x >>> 4) (xdigit lower (bit_and x 15) ∷ s) lower in
    if x == 0 then some s else rest

-- `for (y = x; y; y /= 10) *--s = '0' + y % 10;`
unfoldable pub fmt_u : (fuel : ℕ) → ℕ → List ℕ → Option (List ℕ)
fmt_u zero y s = if y == 0 then some s else none
fmt_u (suc fuel) y s =
    let rest = fmt_u fuel (y / 10) ((48 + y % 10) ∷ s) in if y == 0 then some s else rest

-- The digits of the two halves of a byte at bit `4 * i`.
unfoldable pub pair_at : ℕ → ℕ → ℕ → List ℕ
unfolding xdigit
pair_at lower x i =
    xdigit lower (bit_and (x >>> (4 * (i + 1))) 15) ∷ xdigit lower (bit_and (x >>> (4 * i)) 15) ∷ []

-- `_fmt_x` for `max = 2 * k + 2`: the byte `k` first.
unfoldable pub fmt_bytes : ℕ → ℕ → (k : ℕ) → List ℕ
unfolding pair_at
fmt_bytes lower x zero = pair_at lower x 0
fmt_bytes lower x (suc k) = pair_at lower x (2 * suc k) ++ fmt_bytes lower x k

-- `fmt_mx` for `max = 2 * n`, from the byte `k` on: the lowest byte first.
unfoldable pub fmt_mx : ℕ → ℕ → (k n : ℕ) → List ℕ
unfolding pair_at
fmt_mx lower x k zero = []
fmt_mx lower x k (suc n) = pair_at lower x (2 * k) ++ fmt_mx lower x (suc k) n

-- One conversion of the argument, as a number or as the string it points to; a number has room for
-- 7 digits.
unfoldable pub convert : (key number : ℕ) → List ℕ → Option (List ℕ)
unfolding fmt_x fmt_u
convert key number string =
    if key == 115
    then some (if number == 0 then [] else string)
    else if key == 120
    then fmt_x 7 number [] 32
    else if key == 112
    then fmt_x 7 number [] 32
    else if key == 100
    then fmt_u 7 number []
    else some []

unfoldable pub joined : Option (List ℕ) → ℕ → Option (List ℕ) → Option (List ℕ)
joined none d rest = none
joined (some text) d none = none
joined (some text) d (some rest) = some (text ++ d ∷ rest)

-- The argument after a conversion: a string is read to its end, which the argument then points to.
unfoldable pub number_after : (key number : ℕ) → List ℕ → ℕ
number_after key number string =
    if key == 115 then (if number == 0 then 0 else number + length string) else number

unfoldable pub string_after : (key : ℕ) → List ℕ → List ℕ
string_after key string = if key == 115 then [] else string

-- The text of a format. Every conversion reads the first argument, and the byte behind it is
-- copied; `none` is a format that ends at a conversion, which is read behind its end, or a number
-- that is longer than its buffer.
unfoldable pub sprintf : List ℕ → (number : ℕ) → List ℕ → Option (List ℕ)
unfolding convert joined number_after string_after
sprintf [] number string = some []
sprintf (c ∷ []) number string = if c == 37 then none else some (c ∷ [])
sprintf (c ∷ k ∷ []) number string =
    if c == 37 then none else joined (some []) c (if k == 37 then none else some (k ∷ []))
sprintf (c ∷ k ∷ d ∷ p) number string =
    let converted = sprintf p (number_after k number string) (string_after k string) in
    let copied = sprintf (k ∷ d ∷ p) number string in
    if c == 37 then joined (convert k number string) d converted else joined (some []) c copied

-- The files of the log: 0 is the standard output, then `memory.log`, `misc.log` and
-- `instruction.log`.
unfoldable pub check_handle : List ℕ → ℕ
unfolding strcmp
check_handle name =
    if strcmp name (109 ∷ 101 ∷ 109 ∷ 111 ∷ 114 ∷ 121 ∷ 46 ∷ 108 ∷ 111 ∷ 103 ∷ []) == 0
    then 1
    else if strcmp name (109 ∷ 105 ∷ 115 ∷ 99 ∷ 46 ∷ 108 ∷ 111 ∷ 103 ∷ []) == 0
    then 2
    else if strcmp name (
          105 ∷ 110 ∷ 115 ∷ 116 ∷ 114 ∷ 117 ∷ 99 ∷ 116 ∷ 105 ∷ 111 ∷ 110 ∷ 46 ∷ 108 ∷ 111 ∷ 103
          ∷ [])
        == 0
    then 3
    else 0
