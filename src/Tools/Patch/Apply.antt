-- ===== src/Tools/Patch/Apply.antt =====
-- What the loop of `apply` in tools/bipatch.c writes, against a description of the patched file.
use bin_tools.Base.{
  ℕ, zero, suc, ◌+◌, ◌-◌, ◌<◌, ◌≤◌, List, [], ◌∷◌, ◌++◌, length, length-append, true, ◌==◌,
  if◌then◌else◌, ◌≡◌, ◌≢◌, refl, sym, ◌∙◌, ap, subst, arith, inl, inr, ◌⊎◌, Bool-cases, ==_iff,
  ne→==,
}
use bin_tools.Tools.Patch.{Edit, done, and_then, split_at, skip, current, prepend, apply_loop}

unfoldable pub take : ℕ → List ℕ → List ℕ
take zero xs = []
take (suc n) [] = []
take (suc n) (x ∷ xs) = x ∷ take n xs

unfoldable pub drop : ℕ → List ℕ → List ℕ
drop zero xs = xs
drop (suc n) [] = []
drop (suc n) (x ∷ xs) = drop n xs

-- The file from offset `p` on, of which `rest` is left: the bytes up to the next edit, and behind
-- them what it inserts, or what is left without the bytes that it removes.
unfoldable pub patched : (p : ℕ) → (rest : List ℕ) → List Edit → List ℕ
unfolding take drop
patched p rest [] = rest
patched p rest (e ∷ es) =
    take (e.addr - p) rest
    ++ (if e.cmd == 1
        then e.elem ++ patched e.addr (drop (e.addr - p) rest) es
        else patched (e.addr + e.length) (drop e.length (drop (e.addr - p) rest)) es)

-- The edits are in the order of their addresses, lie inside the file of that size and do not
-- overlap; the last one does not leave the loop at the beginning of the file.
unfoldable pub IsValid : (p size : ℕ) → List Edit → Type 0
IsValid p size [] = 0 < p
IsValid p size (e ∷ es) =
    (p ≤ e.addr)
    × (e.addr < size)
    × (((e.cmd ≡ 1) × (length e.elem ≡ e.length) × IsValid e.addr size es)
        ⊎ ((e.cmd ≡ 0) × (e.addr + e.length ≤ size) × IsValid (e.addr + e.length) size es))

patched-before :
    (p x : ℕ) (xs : List ℕ) (e : Edit) (es : List Edit)
    → p < e.addr
    → patched p (x ∷ xs) (e ∷ es) ≡ x ∷ patched (p + 1) xs (e ∷ es)
unfolding patched
patched-before p x xs e es h =
    let s : e.addr - p ≡ suc (e.addr - (p + 1)) = omega arith in rw s refl

patched-insert :
    (p : ℕ) (rest : List ℕ) (e : Edit) (es : List Edit)
    → p ≡ e.addr
    → e.cmd ≡ 1
    → patched p rest (e ∷ es) ≡ e.elem ++ patched p rest es
unfolding patched take drop
patched-insert p rest e es h c = let s : e.addr - p ≡ 0 = omega arith in rw s (rw c (rw h refl))

patched-remove :
    (p : ℕ) (rest : List ℕ) (e : Edit) (es : List Edit)
    → p ≡ e.addr
    → e.cmd ≡ 0
    → patched p rest (e ∷ es) ≡ patched (p + e.length) (drop e.length rest) es
unfolding patched take drop
patched-remove p rest e es h c = let s : e.addr - p ≡ 0 = omega arith in rw s (rw c (rw h refl))

split_at-length : (xs : List ℕ) → split_at (length xs) xs ≡ done (xs, [])
unfolding split_at and_then
split_at-length [] = refl
split_at-length (x ∷ xs) = rw (split_at-length xs) refl

skip-drop : (n : ℕ) (xs : List ℕ) → n ≤ length xs → skip n xs ≡ done (drop n xs)
unfolding skip drop
skip-drop zero xs h = refl
skip-drop (suc n) [] h = let b : ⊥ = omega arith in elim b [ ]
skip-drop (suc n) (x ∷ xs) h = skip-drop n xs (omega arith)

pub length-drop : (n : ℕ) (xs : List ℕ) → length (drop n xs) ≡ length xs - n
unfolding drop
length-drop zero xs = omega arith
length-drop (suc n) [] = omega arith
length-drop (suc n) (x ∷ xs) = omega (arith, length-drop n xs)

none_left : (xs : List ℕ) → length xs ≤ 0 → xs ≡ []
none_left [] h = refl
none_left (x ∷ xs) h = let b : ⊥ = omega arith in elim b [ ]

-- One round of the loop in front of a byte, while there is room.
module _ (fuel room p x : ℕ) (xs : List ℕ) (q : ℕ) (r : q < room) where
  round_copy :
      (es : List Edit) (out : List ℕ)
      → p ≢ (current es).addr
      → apply_loop fuel room (p + 1) xs (q + 1) es ≡ done out
      → apply_loop (suc fuel) room p (x ∷ xs) q es ≡ done (x ∷ out)
  unfolding apply_loop prepend and_then
  round_copy es out n h =
      rw (ne→== q room (omega arith)) (rw (ne→== p (current es).addr n) (rw h refl))

  round_insert :
      (e : Edit) (es : List Edit) (out : List ℕ)
      → p ≡ e.addr
      → e.cmd ≡ 1
      → length e.elem ≡ e.length
      → apply_loop fuel room p (x ∷ xs) (q + e.length) es ≡ done out
      → apply_loop (suc fuel) room p (x ∷ xs) q (e ∷ es) ≡ done (e.elem ++ out)
  unfolding apply_loop prepend and_then
  round_insert e es out a c l h =
      let s : split_at e.length e.elem ≡ done (e.elem, []) = rw⁻¹ l (split_at-length e.elem) in
      let b : (p == e.addr) ≡ true = (==_iff p e.addr).1 a in
      rw (ne→== q room (omega arith)) (rw b (rw c (rw s (rw h refl))))

  round_remove :
      (e : Edit) (es : List Edit) (out : List ℕ)
      → p ≡ e.addr
      → e.cmd ≡ 0
      → e.length ≤ suc (length xs)
      → apply_loop fuel room (p + e.length) (drop e.length (x ∷ xs)) q es ≡ done out
      → apply_loop (suc fuel) room p (x ∷ xs) q (e ∷ es) ≡ done out
  unfolding apply_loop and_then
  round_remove e es out a c l h =
      let s = skip-drop e.length (x ∷ xs) l in
      let b : (p == e.addr) ≡ true = (==_iff p e.addr).1 a in
      rw (ne→== q room (omega arith)) (rw b (rw c (rw s h)))

round_full :
    (fuel room p x : ℕ) (xs : List ℕ) (q : ℕ) (es : List Edit)
    → q ≡ room
    → apply_loop (suc fuel) room p (x ∷ xs) q es ≡ done []
unfolding apply_loop
round_full fuel room p x xs q es h = rw ((==_iff q room).1 h) refl

-- What is left to be shown when there is no room.
full_or_open :
    (fuel room p x : ℕ) (xs : List ℕ) (q : ℕ) (es : List Edit) (out : List ℕ)
    → q + length out ≤ room
    → (q < room → apply_loop (suc fuel) room p (x ∷ xs) q es ≡ done out)
    → apply_loop (suc fuel) room p (x ∷ xs) q es ≡ done out
full_or_open fuel room p x xs q es out c go = elim (Bool-cases (q == room)) [
  | inl e ↦
      let h = (==_iff q room).0 e in
      round_full fuel room p x xs q es h ∙ ap done (sym (none_left out (omega arith)))
  | inr e ↦ let n : q ≢ room = (λ h. let t = (==_iff q room).1 h in cc) in go (omega arith)
]

pub IsValid-eq :
    {p p' n n' : ℕ} (es : List Edit) → p ≡ p' → n ≡ n' → IsValid p n es → IsValid p' n' es
IsValid-eq {p} {p'} {n} {n'} es e f h =
    subst (λ (x : ℕ). IsValid x n' es) e (subst (λ (x : ℕ). IsValid p x es) f h)

-- With room for what the description gives and fuel for every byte and every edit, the loop writes it.
pub apply_loop-patched :
    (fuel room p : ℕ) (rest : List ℕ) (q : ℕ) (es : List Edit)
    → IsValid p (p + length rest) es
    → length rest + length es < fuel
    → q + length (patched p rest es) ≤ room
    → apply_loop fuel room p rest q es ≡ done (patched p rest es)
unfolding IsValid patched apply_loop
apply_loop-patched fuel room p [] q [] v f c = refl
apply_loop-patched fuel room p [] q (e ∷ es) (l, h, v) f c = let b : ⊥ = omega arith in elim b [ ]
apply_loop-patched zero room p (x ∷ xs) q es v f c = let b : ⊥ = omega arith in elim b [ ]
apply_loop-patched (suc fuel) room p (x ∷ xs) q [] v f c =
    full_or_open fuel room p x xs q [] (x ∷ xs) c (λ r.
      round_copy fuel room p x xs q r [] xs (omega arith) (
        apply_loop-patched fuel room (p + 1) xs (q + 1) [] (omega arith) (omega arith)
          (omega arith)))
apply_loop-patched (suc fuel) room p (x ∷ xs) q (e ∷ es) (l, h, v) f c =
    full_or_open fuel room p x xs q (e ∷ es) (patched p (x ∷ xs) (e ∷ es)) c (λ r.
      elim (Bool-cases (p == e.addr)) [
        | inl b ↦
            let a = (==_iff p e.addr).0 b in
            elim v [
              | inl (k, n, w) ↦
                  let u = patched-insert p (x ∷ xs) e es a k in
                  let w' : IsValid p (p + length (x ∷ xs)) es =
                    subst (λ (y : ℕ). IsValid y (p + length (x ∷ xs)) es) (sym a) w in
                  let c' = ap length u in
                  let m = length-append e.elem (patched p (x ∷ xs) es) in
                  round_insert fuel room p x xs q r e es (patched p (x ∷ xs) es) a k n (
                    apply_loop-patched fuel room p (x ∷ xs) (q + e.length) es w' (omega arith)
                      (omega arith))
                  ∙ ap done (sym u)
              | inr (k, n, w) ↦
                  let u = patched-remove p (x ∷ xs) e es a k in
                  let d : length (drop e.length (x ∷ xs)) ≡ suc (length xs) - e.length =
                    length-drop e.length (x ∷ xs) in
                  let w' = IsValid-eq es (ap (λ (y : ℕ). y + e.length) (sym a)) (omega arith) w in
                  let c' = ap length u in
                  round_remove fuel room p x xs q r e es
                    (patched (p + e.length) (drop e.length (x ∷ xs)) es) a k (omega arith)
                    (apply_loop-patched fuel room (p + e.length) (drop e.length (x ∷ xs)) q es w'
                      (omega arith) (omega arith))
                  ∙ ap done (sym u)
            ]
        | inr b ↦
            let n : p ≢ e.addr = (λ a. let t = (==_iff p e.addr).1 a in cc) in
            let u = patched-before p x xs e es (omega arith) in
            let c' = ap length u in
            round_copy fuel room p x xs q r (e ∷ es) (patched (p + 1) xs (e ∷ es)) n (
              apply_loop-patched fuel room (p + 1) xs (q + 1) (e ∷ es)
                (subst (λ (y : ℕ). IsValid (p + 1) y (e ∷ es)) (omega arith) (omega arith, h, v))
                (omega arith) (omega arith))
            ∙ ap done (sym u)
      ])
