-- ===== src/Tools/Patch/Whole.antt =====
-- The file that `apply_patch` of tools/bipatch.c creates.
use bin_tools.Base.{
  ℕ, zero, suc, ◌+◌, ◌-◌, ◌*◌, ◌%◌, ◌^◌, ◌<◌, ◌≤◌, List, [], ◌∷◌, ◌++◌, length, length-append, ◌==◌,
  if◌then◌else◌, ◌≡◌, refl, arith, inl, inr, ◌⊎◌, u64, ltb, Bool-cases,
}
use bin_tools.Tools.Hex.{shifted_int}
use bin_tools.Tools.Patch.{
  Edit, PatchInfo, done, and_then, updown, output_file_size, mapped_size, apply_patch,
}
use bin_tools.Tools.Patch.Apply.{
  take, drop, length-drop, patched, IsValid, apply_loop-patched, IsValid-eq,
}

-- The bytes that are removed and inserted.
unfoldable pub removed : List Edit → ℕ
removed [] = 0
removed (e ∷ es) = (if e.cmd == 0 then e.length else 0) + removed es

unfoldable pub inserted : List Edit → ℕ
inserted [] = 0
inserted (e ∷ es) = (if e.cmd == 0 then 0 else e.length) + inserted es

-- The change of the size after all edits.
unfoldable pub updown_all : ℕ → List Edit → ℕ
updown_all s [] = s
updown_all s (e ∷ es) = updown_all (updown s e) es

updown-sum :
    (s : ℕ) (e : Edit)
    → (if e.cmd == 0 then e.length else 0) < 2 ^ 32
    → (updown s e + (if e.cmd == 0 then e.length else 0)) % 2 ^ 32
      ≡ (s + (if e.cmd == 0 then 0 else e.length)) % 2 ^ 32
unfolding updown
updown-sum s e h = ground arith

updown_all-sums :
    (s : ℕ) (es : List Edit)
    → removed es < 2 ^ 32
    → (updown_all s es + removed es) % 2 ^ 32 ≡ (s + inserted es) % 2 ^ 32
unfolding updown_all removed inserted
updown_all-sums s [] h = omega arith
updown_all-sums s (e ∷ es) h =
    let r = updown_all-sums (updown s e) es (omega arith) in
    let u = updown-sum s e (omega arith) in omega arith

updown_all-lt : (s : ℕ) (es : List Edit) → s < 2 ^ 32 → updown_all s es < 2 ^ 32
unfolding updown_all updown
updown_all-lt s [] h = h
updown_all-lt s (e ∷ es) h = updown_all-lt (updown s e) es (ground arith)

length-take : (n : ℕ) (xs : List ℕ) → n ≤ length xs → length (take n xs) ≡ n
unfolding take
length-take zero xs h = refl
length-take (suc n) [] h = omega arith
length-take (suc n) (x ∷ xs) h = omega (arith, length-take n xs)

length-patched :
    (p : ℕ) (rest : List ℕ) (es : List Edit)
    → IsValid p (p + length rest) es
    → length (patched p rest es) + removed es ≡ length rest + inserted es
unfolding patched IsValid removed inserted
length-patched p rest [] v = omega arith
length-patched p rest (e ∷ es) (l, h, inl (k, n, v)) =
    let d = drop (e.addr - p) rest in
    let m : length d ≡ length rest - (e.addr - p) = length-drop (e.addr - p) rest in
    let t : length (take (e.addr - p) rest) ≡ e.addr - p =
      length-take (e.addr - p) rest (omega arith) in
    let a = length-append (take (e.addr - p) rest) (e.elem ++ patched e.addr d es) in
    let b = length-append e.elem (patched e.addr d es) in
    let i = length-patched e.addr d es (IsValid-eq es refl (omega arith) v) in rw k (omega arith)
length-patched p rest (e ∷ es) (l, h, inr (k, n, v)) =
    let d = drop (e.addr - p) rest in
    let m : length d ≡ length rest - (e.addr - p) = length-drop (e.addr - p) rest in
    let m' : length (drop e.length d) ≡ length d - e.length = length-drop e.length d in
    let t : length (take (e.addr - p) rest) ≡ e.addr - p =
      length-take (e.addr - p) rest (omega arith) in
    let a =
      length-append (take (e.addr - p) rest) (patched (e.addr + e.length) (drop e.length d) es) in
    let i =
      length-patched (e.addr + e.length) (drop e.length d) es
        (IsValid-eq es refl (omega arith) v) in
    rw k (omega arith)

shifted_int-cases :
    (w : ℕ)
    → w < 2 ^ 32
    → ((w < 2 ^ 31) × (shifted_int w 0 ≡ w))
      ⊎ ((2 ^ 31 ≤ w) × (shifted_int w 0 ≡ w + 2 ^ 64 - 2 ^ 32))
unfolding shifted_int
shifted_int-cases w h =
    let k : w * 2 ^ 0 % 2 ^ 32 ≡ w = omega arith in
    elim (Bool-cases (ltb w (2 ^ 31))) [
      | inl b ↦ inl (ground arith, rw k (rw b refl))
      | inr b ↦ inr (ground arith, rw k (rw b refl))
    ]

-- A change of the size, as an `int`, between two sizes below 2 ^ 31.
sized :
    (n m w : ℕ)
    → 0 < n
    → n < 2 ^ 31
    → m < 2 ^ 31
    → w < 2 ^ 32
    → (w + n) % 2 ^ 32 ≡ m
    → (u64 (output_file_size n w + 1) ≡ m) × (m ≤ mapped_size (output_file_size n w))
unfolding output_file_size mapped_size
sized n m w z a b c e = elim (shifted_int-cases w c) [
  | inl (l, s) ↦ (rw s (omega arith), rw s (omega arith))
  | inr (l, s) ↦ (rw s (omega arith), rw s (omega arith))
]

IsValid-nonempty : (n : ℕ) (es : List Edit) → IsValid 0 n es → 0 < n
unfolding IsValid
IsValid-nonempty n [] v = omega arith
IsValid-nonempty n (e ∷ es) (l, h, v) = omega arith

-- When the edits are valid for the input, their lengths have been summed up, and the input together
-- with what is inserted is shorter than 2 ^ 31 bytes: the patched file is written, and the file
-- that is created has its size.
pub apply_patch-patched :
    (input : List ℕ) (info : PatchInfo)
    → IsValid 0 (length input) info.edits
    → info.size_updown ≡ updown_all 0 info.edits
    → length input + inserted info.edits < 2 ^ 31
    → apply_patch input info
      ≡ done (patched 0 input info.edits, length (patched 0 input info.edits))
unfolding apply_patch and_then
apply_patch-patched input info v u h =
    let es = info.edits in
    let n = length input in
    let out = patched 0 input es in
    let l : length out + removed es ≡ n + inserted es =
      length-patched 0 input es (IsValid-eq es refl (omega arith) v) in
    let w = updown_all-sums 0 es (omega arith) in
    let (size, fits) =
      sized n (length out) info.size_updown (IsValid-nonempty n es v) (omega arith) (omega arith)
        (rw u (updown_all-lt 0 es (omega arith))) (rw u (omega arith)) in
    let a =
      apply_loop-patched (suc (n + length es)) (mapped_size (output_file_size n info.size_updown)) 0
        input 0 es (IsValid-eq es refl (omega arith) v) (omega arith) (omega arith) in
    rw a (rw size refl)
