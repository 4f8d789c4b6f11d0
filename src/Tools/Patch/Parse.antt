-- ===== src/Tools/Patch/Parse.antt =====
-- The texts that `read_patch` of tools/bipatch.c reads.
use bin_tools.Base.{
  ℕ, zero, suc, ◌+◌, ◌/◌, ◌%◌, ◌^◌, ◌<◌, ◌≤◌, List, [], ◌∷◌, ◌++◌, length, false, ◌==◌,
  if◌then◌else◌, ◌≡◌, refl, sym, ◌∙◌, ap, arith, ◌⊎◌, u8, ne→==,
}
use bin_tools.Tools.Hex.{ascii_to_bin, parse_error}
use bin_tools.Tools.Hex.Roundtrip.{hex_text, hex_digits, ascii_to_bin-hex_text}
use bin_tools.Tools.Patch.{Edit, done, and_then, skip_spaces, split_at, read_number, read_elem}

-- The text of a patch in front of `rest`: for each edit a line with the command, the address in 8
-- digits, and the bytes to insert or the number of bytes to remove in 2 digits.
unfoldable pub elem_text : List ℕ → List ℕ → List ℕ
elem_text [] rest = rest
elem_text (b ∷ bs) rest = hex_text b 8 ++ (32 ∷ elem_text bs rest)

unfoldable pub line_text : Edit → List ℕ → List ℕ
unfolding elem_text
line_text e rest =
    (if e.cmd == 1 then b'1' else b'0')
    ∷ 32
    ∷ (hex_text e.addr 32
        ++ (32
            ∷ (if e.cmd == 1
                then elem_text e.elem (10 ∷ rest)
                else hex_text e.length 8 ++ (10 ∷ rest))))

unfoldable pub patch_text : List Edit → List ℕ
unfolding line_text
patch_text [] = []
patch_text (e ∷ es) = line_text e (patch_text es)

unfoldable pub AreBytes : List ℕ → Type 0
AreBytes [] = Unit
AreBytes (b ∷ bs) = (b < 2 ^ 8) × AreBytes bs

-- The numbers of the edits fit their places.
unfoldable pub IsWritable : List Edit → Type 0
IsWritable [] = Unit
IsWritable (e ∷ es) =
    (e.addr < 2 ^ 31)
    × (((e.cmd ≡ 1) × (length e.elem ≡ e.length) × (e.length < 2 ^ 16) × AreBytes e.elem)
        ⊎ ((e.cmd ≡ 0) × (e.elem ≡ []) × (e.length < 2 ^ 8)))
    × IsWritable es

split_at-append : (xs ys : List ℕ) → split_at (length xs) (xs ++ ys) ≡ done (xs, ys)
unfolding split_at and_then
split_at-append [] ys = refl
split_at-append (x ∷ xs) ys = rw (split_at-append xs ys) refl

length-hex_digits : (a n : ℕ) → length (hex_digits a n) ≡ n
unfolding hex_digits
length-hex_digits a zero = refl
length-hex_digits a (suc n) = omega (arith, length-hex_digits a n)

length-hex_text : (a digit : ℕ) → length (hex_text a digit) ≡ 2 + digit / 4
unfolding hex_text
length-hex_text a digit = omega (arith, length-hex_digits a (digit / 4))

-- A number of `digit` bits, in its place.
pub read_number-hex_text :
    (a digit n : ℕ) (rest : List ℕ)
    → digit % 4 ≡ 0
    → a % 2 ^ digit ≡ a
    → a < 2 ^ 31
    → n ≡ 2 + digit / 4
    → read_number n (hex_text a digit ++ rest) ≡ done (a, rest)
unfolding read_number and_then
read_number-hex_text a digit n rest four h small e =
    let l : n ≡ length (hex_text a digit) = e ∙ sym (length-hex_text a digit) in
    let r : ascii_to_bin (hex_text a digit) ≡ a =
      ascii_to_bin-hex_text a digit four (omega arith) ∙ h in
    let f : (a == parse_error) ≡ false = ne→== a parse_error (omega arith) in
    rw l (rw (split_at-append (hex_text a digit) rest) (rw r (rw f refl)))

pub skip_spaces-elem_text :
    (bs rest : List ℕ) → skip_spaces (elem_text bs (10 ∷ rest)) ≡ elem_text bs (10 ∷ rest)
unfolding skip_spaces elem_text hex_text
skip_spaces-elem_text [] rest = refl
skip_spaces-elem_text (b ∷ bs) rest = refl

read_elem-step :
    (left x d : ℕ) (xs behind bs more : List ℕ)
    → (x == 10) ≡ false
    → read_number 4 (x ∷ xs) ≡ done (d, behind)
    → read_elem left (skip_spaces behind) ≡ done (bs, more)
    → read_elem (suc left) (x ∷ xs) ≡ done (u8 d ∷ bs, more)
unfolding read_elem and_then
read_elem-step left x d xs behind bs more n h r = rw n (rw h (rw r refl))

pub read_elem-elem_text :
    (left : ℕ) (bs rest : List ℕ)
    → length bs ≤ left
    → AreBytes bs
    → read_elem left (elem_text bs (10 ∷ rest)) ≡ done (bs, 10 ∷ rest)
unfolding read_elem elem_text AreBytes hex_text skip_spaces
read_elem-elem_text zero [] rest h k = refl
read_elem-elem_text zero (b ∷ bs) rest h k = let b : ⊥ = omega arith in elim b [ ]
read_elem-elem_text (suc left) [] rest h k = refl
read_elem-elem_text (suc left) (b ∷ bs) rest h (l, k) =
    let text = elem_text bs (10 ∷ rest) in
    let r = skip_spaces-elem_text bs rest in
    let i = read_elem-elem_text left bs rest (omega arith) k in
    read_elem-step left b'0' b (b'x' ∷ (hex_digits b 2 ++ (32 ∷ text))) (32 ∷ text) bs (10 ∷ rest)
      refl (read_number-hex_text b 8 4 (32 ∷ text) refl (omega arith) (omega arith) refl)
      (ap (read_elem left) r ∙ i)
    ∙ ap (λ (x : ℕ). done (x ∷ bs, 10 ∷ rest)) (omega arith)
