-- ===== src/Tools/Patch/Lines.antt =====
-- The lines that `read_patch` of tools/bipatch.c reads, up to the file that the patch tool writes.
use bin_tools.Base.{
  ℕ, zero, suc, false, ◌+◌, ◌-◌, ◌%◌, ◌^◌, ◌<◌, ◌≤◌, List, [], ◌∷◌, ◌++◌, length, ◌==◌,
  if◌then◌else◌, ne→==, ◌≡◌, refl, sym, ◌∙◌, ap, arith, inl, inr, u16,
}
use bin_tools.Tools.Hex.Roundtrip.{hex_text}
use bin_tools.Tools.Patch.{
  Edit, PatchInfo, done, and_then, skip_to_space, skip_spaces, read_edit, updown, skip_one,
  read_edits, read_patch, apply_patch,
}
use bin_tools.Tools.Patch.Apply.{patched, IsValid}
use bin_tools.Tools.Patch.Whole.{updown_all, inserted, apply_patch-patched}
use bin_tools.Tools.Patch.Parse.{
  elem_text, line_text, patch_text, AreBytes, IsWritable, read_number-hex_text,
  skip_spaces-elem_text, read_elem-elem_text,
}

read_edit-insert :
    (left a : ℕ) (bs rest : List ℕ)
    → a < 2 ^ 31
    → length bs ≤ left
    → AreBytes bs
    → read_edit left 1 (32 ∷ (hex_text a 32 ++ (32 ∷ elem_text bs (10 ∷ rest))))
      ≡ done (record { cmd = 1; addr = a; length = u16 (length bs); elem = bs }, 10 ∷ rest)
unfolding read_edit and_then skip_to_space skip_spaces
read_edit-insert left a bs rest h m k =
    let body = elem_text bs (10 ∷ rest) in
    let n = read_number-hex_text a 32 10 (32 ∷ body) refl (omega arith) h refl in
    let s : skip_spaces (32 ∷ body) ≡ body = skip_spaces-elem_text bs rest in
    let e = read_elem-elem_text left bs rest m k in rw n (rw s (rw e refl))

skip_spaces-hex_text :
    (n : ℕ) (rest : List ℕ)
    → skip_spaces (hex_text n 8 ++ (10 ∷ rest)) ≡ hex_text n 8 ++ (10 ∷ rest)
unfolding skip_spaces hex_text
skip_spaces-hex_text n rest = refl

read_edit-remove :
    (left a n : ℕ) (rest : List ℕ)
    → a < 2 ^ 31
    → n < 2 ^ 8
    → read_edit left 0 (32 ∷ (hex_text a 32 ++ (32 ∷ (hex_text n 8 ++ (10 ∷ rest)))))
      ≡ done (record { cmd = 0; addr = a; length = n; elem = [] }, 10 ∷ rest)
unfolding read_edit and_then skip_to_space skip_spaces
read_edit-remove left a n rest h k =
    let body = hex_text n 8 ++ (10 ∷ rest) in
    let r = read_number-hex_text a 32 10 (32 ∷ body) refl (omega arith) h refl in
    let s : skip_spaces (32 ∷ body) ≡ body = skip_spaces-hex_text n rest in
    let e = read_number-hex_text n 8 4 (10 ∷ rest) refl (omega arith) (omega arith) refl in
    let u : u16 n ≡ n = omega arith in rw r (rw s (rw e (rw u refl)))

-- One line in front of a text that is read.
module _ (room left s : ℕ) (xs rest : List ℕ) (e : Edit) (es : List Edit) (total : ℕ)
    (h : read_edits room (left - length e.elem) (updown s e) rest
      ≡ done (record { edits = es; size_updown = total })) where
  step_insert :
      read_edit left 1 xs ≡ done (e, 10 ∷ rest)
      → read_edits (suc room) left s (b'1' ∷ xs)
        ≡ done (record { edits = e ∷ es; size_updown = total })
  unfolding read_edits and_then skip_one
  step_insert r = rw r (rw h refl)

  step_remove :
      read_edit left 0 xs ≡ done (e, 10 ∷ rest)
      → read_edits (suc room) left s (b'0' ∷ xs)
        ≡ done (record { edits = e ∷ es; size_updown = total })
  unfolding read_edits and_then skip_one
  step_remove r = rw r (rw h refl)

line_text-insert :
    (e : Edit) (rest : List ℕ)
    → e.cmd ≡ 1
    → line_text e rest ≡ b'1' ∷ 32 ∷ (hex_text e.addr 32 ++ (32 ∷ elem_text e.elem (10 ∷ rest)))
unfolding line_text
line_text-insert e rest c = rw c refl

line_text-remove :
    (e : Edit) (rest : List ℕ)
    → e.cmd ≡ 0
    → line_text e rest
      ≡ b'0' ∷ 32 ∷ (hex_text e.addr 32 ++ (32 ∷ (hex_text e.length 8 ++ (10 ∷ rest))))
unfolding line_text
line_text-remove e rest c = rw c refl

-- An edit is the record of its fields.
edit_eq :
    (e : Edit) (c n : ℕ) (bs : List ℕ)
    → c ≡ e.cmd
    → n ≡ e.length
    → bs ≡ e.elem
    → record { cmd = c; addr = e.addr; length = n; elem = bs } ≡ e
edit_eq e c n bs p q r =
    ap (λ (x : ℕ). record { cmd = x; addr = e.addr; length = n; elem = bs }) p
    ∙ ap (λ (x : ℕ). record { cmd = e.cmd; addr = e.addr; length = x; elem = bs }) q
    ∙ ap (λ (x : List ℕ). record { cmd = e.cmd; addr = e.addr; length = e.length; elem = x }) r

read_edits-line :
    (room left s : ℕ) (e : Edit) (es : List Edit) (rest : List ℕ) (total : ℕ)
    → IsWritable (e ∷ es)
    → length e.elem ≤ left
    → read_edits room (left - length e.elem) (updown s e) rest
      ≡ done (record { edits = es; size_updown = total })
    → read_edits (suc room) left s (line_text e rest)
      ≡ done (record { edits = e ∷ es; size_updown = total })
unfolding IsWritable
read_edits-line room left s e es rest total (a, inl (c, l, m, b), w) fits h =
    let q = edit_eq e 1 (u16 (length e.elem)) e.elem (sym c) (omega arith) refl in
    let r =
      read_edit-insert left e.addr e.elem rest a fits b
      ∙ ap (λ (x : Edit). done (x, 10 ∷ rest)) q in
    ap (read_edits (suc room) left s) (line_text-insert e rest c)
    ∙ step_insert room left s (32 ∷ (hex_text e.addr 32 ++ (32 ∷ elem_text e.elem (10 ∷ rest))))
        rest e es total h r
read_edits-line room left s e es rest total (a, inr (c, l, m), w) fits h =
    let q = edit_eq e 0 e.length [] (sym c) refl (sym l) in
    let r =
      read_edit-remove left e.addr e.length rest a m ∙ ap (λ (x : Edit). done (x, 10 ∷ rest)) q in
    ap (read_edits (suc room) left s) (line_text-remove e rest c)
    ∙ step_remove room left s
        (32 ∷ (hex_text e.addr 32 ++ (32 ∷ (hex_text e.length 8 ++ (10 ∷ rest))))) rest e es total h
        r

IsWritable-rest : (e : Edit) (es : List Edit) → IsWritable (e ∷ es) → IsWritable es
unfolding IsWritable
IsWritable-rest e es w = w.2

-- The bytes of a writable edit are those that it inserts.
length-elem :
    (e : Edit) (es : List Edit)
    → IsWritable (e ∷ es)
    → length e.elem ≡ (if e.cmd == 0 then 0 else e.length)
unfolding IsWritable
length-elem e es (a, inl (c, l, m, b), w) = rw c l
length-elem e es (a, inr (c, l, m), w) = rw c (ap length l)

read_edits-patch_text :
    (room left s : ℕ) (es : List Edit)
    → length es ≤ room
    → inserted es ≤ left
    → IsWritable es
    → read_edits room left s (patch_text es)
      ≡ done (record { edits = es; size_updown = updown_all s es })
unfolding patch_text updown_all read_edits inserted
read_edits-patch_text room left s [] h k w = refl
read_edits-patch_text zero left s (e ∷ es) h k w = let b : ⊥ = omega arith in elim b [ ]
read_edits-patch_text (suc room) left s (e ∷ es) h k w =
    let l = length-elem e es w in
    read_edits-line room left s e es (patch_text es) (updown_all (updown s e) es) w (omega arith) (
      read_edits-patch_text room (left - length e.elem) (updown s e) es (omega arith) (omega arith)
        (IsWritable-rest e es w))

-- For at least 1 and fewer than 128 edits, which insert no more than 4096 bytes together, as the
-- mappings hold: when the numbers of the edits fit their places, the edits are valid for the input, and
-- the input together with what is inserted is shorter than 2 ^ 31 bytes, reading the text of the
-- edits and applying them writes the patched file and creates a file of its size.
pub apply_patch-read_patch :
    (input : List ℕ) (es : List Edit)
    → 0 < length es
    → length es < 128
    → inserted es ≤ 4096
    → IsWritable es
    → IsValid 0 (length input) es
    → length input + inserted es < 2 ^ 31
    → and_then (read_patch (patch_text es)) (apply_patch input)
      ≡ done (patched 0 input es, length (patched 0 input es))
unfolding read_patch and_then
apply_patch-read_patch input es some_ few k w v h =
    let info : PatchInfo = record { edits = es; size_updown = updown_all 0 es } in
    let kept : (length es % 128 == 0) ≡ false = ne→== _ 0 (omega arith) in
    rw (read_edits-patch_text 128 4096 0 es (omega arith) k w)
      (rw kept (apply_patch-patched input info v refl h))
