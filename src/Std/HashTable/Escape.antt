-- ===== src/Std/HashTable/Escape.antt =====
-- The hash of a pattern with `%`, and the hashes of both ends of a key that `hash_partial_find`
-- adds up.
use mathlib.Core.List.{append_assoc}
use bin_tools.Base.Bits.{bit_and_ones}
use bin_tools.Base.{
  ℕ, suc, ◌+◌, ◌-◌, ◌^◌, ◌<◌, true, false, List, [], ◌∷◌, ◌++◌, ◌==◌, ltb, lt→ltb, if◌then◌else◌,
  u64, u8, u32, bit_and, ◌≡◌, refl, ap, ◌∙◌, arith,
}
use bin_tools.Std.HashTable.{HashTable, escape_rounds, reversed, with_escape_hash, ends_hash}
use bin_tools.Std.Text.{strlen}

-- The bytes of a string but its escapes, added up.
abbrev share : ℕ → ℕ
share c = if c == b'%' then 0 else c

abbrev pub weight : List ℕ → ℕ
weight [] = 0
weight (c ∷ s) = share c + weight s

weight-append : (s t : List ℕ) → weight (s ++ t) ≡ weight s + weight t
weight-append [] t = omega arith
weight-append (c ∷ s) t = ground (arith, weight-append s t)

strlen-append : (s t : List ℕ) → strlen (s ++ t) ≡ strlen s + strlen t
unfolding strlen
strlen-append [] t = omega arith
strlen-append (c ∷ s) t = omega (arith, strlen-append s t)

reversed-append : (s t acc : List ℕ) → reversed (s ++ t) acc ≡ reversed t (reversed s acc)
unfolding reversed
reversed-append [] t acc = refl
reversed-append (c ∷ s) t acc = reversed-append s t (c ∷ acc)

weight-reversed : (s acc : List ℕ) → weight (reversed s acc) ≡ weight s + weight acc
unfolding reversed
weight-reversed [] acc = omega arith
weight-reversed (c ∷ s) acc = ground (arith, weight-reversed s (c ∷ acc))

strlen-reversed : (s acc : List ℕ) → strlen (reversed s acc) ≡ strlen s + strlen acc
unfolding reversed strlen
strlen-reversed [] acc = omega arith
strlen-reversed (c ∷ s) acc = omega (arith, strlen-reversed s (c ∷ acc))

taken-share :
    (c h : ℕ) → h + share c < 2 ^ 64 → (if c == b'%' then h else u64 (h + c)) ≡ h + share c
taken-share c h lt = ground arith

escape_rounds-unlimited :
    (c : ℕ) (s : List ℕ) (h : ℕ)
    → h + share c < 2 ^ 64
    → escape_rounds h (c ∷ s) 0 ≡ escape_rounds (h + share c) s 0
unfolding escape_rounds
escape_rounds-unlimited c s h lt = ap (λ (x : ℕ). escape_rounds x s 0) (taken-share c h lt)

escape_rounds-last :
    (c : ℕ) (s : List ℕ) (h : ℕ) → h + share c < 2 ^ 64 → escape_rounds h (c ∷ s) 1 ≡ h + share c
unfolding escape_rounds
escape_rounds-last c s h lt = ground arith

escape_rounds-next :
    (c : ℕ) (s : List ℕ) (h n : ℕ)
    → h + share c < 2 ^ 64
    → escape_rounds h (c ∷ s) (suc (suc n)) ≡ escape_rounds (h + share c) s (suc n)
unfolding escape_rounds
escape_rounds-next c s h n lt =
    let more : (suc (suc n) == 1) ≡ false = ground arith in
    let left : suc (suc n) - 1 ≡ suc n = omega arith in
    rw (more, left) (ap (λ (x : ℕ). escape_rounds x s (suc n)) (taken-share c h lt))

escape_rounds-all :
    (s : List ℕ) (h : ℕ) → h + weight s < 2 ^ 64 → escape_rounds h s 0 ≡ h + weight s
unfolding escape_rounds
escape_rounds-all [] h lt = omega arith
escape_rounds-all (c ∷ s) h lt =
    escape_rounds-unlimited c s h (omega arith)
    ∙ escape_rounds-all s (h + share c) (omega arith)
    ∙ omega arith

escape_rounds-prefix :
    (s t : List ℕ) (h : ℕ)
    → 0 < strlen s
    → h + weight s < 2 ^ 64
    → escape_rounds h (s ++ t) (strlen s) ≡ h + weight s
unfolding strlen
escape_rounds-prefix [] t h pos lt = absurd (omega arith)
escape_rounds-prefix (c ∷ []) t h pos lt = escape_rounds-last c t h (omega arith) ∙ omega arith
escape_rounds-prefix (c ∷ d ∷ s) t h pos lt =
    escape_rounds-next c (d ∷ s ++ t) h (strlen s) (omega arith)
    ∙ escape_rounds-prefix (d ∷ s) t (h + share c) (omega arith) (omega arith)
    ∙ omega arith

half : (n : ℕ) → n < 2 ^ 28 → u32 (bit_and n 0xfff_ffff) ≡ n
half n lt = omega (arith, bit_and_ones 28 n)

with_escape_hash-weight : (s : List ℕ) → weight s < 2 ^ 28 → with_escape_hash s false 0 ≡ weight s
unfolding with_escape_hash
with_escape_hash-weight s lt =
    let z : 0 + weight s ≡ weight s = omega arith in
    ap (λ (x : ℕ). u32 (bit_and x 0xfff_ffff)) (escape_rounds-all s 0 (omega arith) ∙ z)
    ∙ half (weight s) lt

with_escape_hash-prefix :
    (s t : List ℕ)
    → 0 < strlen s
    → weight s < 2 ^ 28
    → with_escape_hash (s ++ t) false (strlen s) ≡ weight s
unfolding with_escape_hash
with_escape_hash-prefix s t pos lt =
    let z : 0 + weight s ≡ weight s = omega arith in
    ap (λ (x : ℕ). u32 (bit_and x 0xfff_ffff)) (escape_rounds-prefix s t 0 pos (omega arith) ∙ z)
    ∙ half (weight s) lt

reversed-front : (t s acc : List ℕ) → reversed t (s ++ acc) ≡ reversed t s ++ acc
unfolding reversed
reversed-front [] s acc = refl
reversed-front (c ∷ t) s acc = reversed-front t (c ∷ s) acc

strlen-nil : (n : ℕ) → n + strlen [] ≡ n
unfolding strlen
strlen-nil n = omega arith

with_escape_hash-suffix :
    (s t : List ℕ)
    → 0 < strlen t
    → weight t < 2 ^ 28
    → with_escape_hash (s ++ t) true (strlen t) ≡ weight t
unfolding with_escape_hash
with_escape_hash-suffix s t pos lt =
    let turned : reversed (s ++ t) [] ≡ reversed t [] ++ reversed s [] =
      reversed-append s t [] ∙ reversed-front t [] (reversed s []) in
    let w : weight (reversed t []) ≡ weight t = weight-reversed t [] ∙ omega arith in
    let n : strlen (reversed t []) ≡ strlen t = strlen-reversed t [] ∙ strlen-nil (strlen t) in
    let go =
      escape_rounds-prefix (reversed t []) (reversed s []) 0 (omega (arith, n))
        (omega (arith, w)) in
    let z : 0 + weight t ≡ weight t = omega arith in
    rw (turned)
      (ap (λ (x : ℕ). u32 (bit_and x 0xfff_ffff)) (rw (n, w, z) at go) ∙ half (weight t) lt)

-- A pattern `pre%suf` is stored in the bucket in which `hash_partial_find` looks for any key that
-- begins with `pre` and ends with `suf` behind it, when neither is empty, each is shorter than 255
-- bytes, and the sum of their bytes fits 28 bits.
pub ends_hash-pattern :
    (t : HashTable) (pre stem suf : List ℕ)
    → t.hash_f ≡ with_escape_hash
    → 0 < strlen pre
    → 0 < strlen suf
    → strlen pre < 255
    → strlen suf < 255
    → weight pre + weight suf < 2 ^ 28
    → ends_hash t (pre ++ stem ++ suf) (strlen pre) (strlen suf)
      ≡ t.hash_f (pre ++ b'%' ∷ suf) false 0
unfolding ends_hash
ends_hash-pattern t pre stem suf own p q pm qm lt =
    let pu : u8 (strlen pre) ≡ strlen pre = omega arith in
    let qu : u8 (strlen suf) ≡ strlen suf = omega arith in
    let long : strlen (pre ++ stem ++ suf) ≡ strlen pre + strlen stem + strlen suf =
      strlen-append (pre ++ stem) suf ∙ ap (λ (x : ℕ). x + strlen suf) (strlen-append pre stem) in
    let front : with_escape_hash (pre ++ stem ++ suf) false (strlen pre) ≡ weight pre =
      rw append_assoc (with_escape_hash-prefix pre (stem ++ suf) p (omega arith)) in
    let back = with_escape_hash-suffix (pre ++ stem) suf q (omega arith) in
    let whole =
      with_escape_hash-weight (pre ++ b'%' ∷ suf) (omega (arith, weight-append pre (b'%' ∷ suf))) in
    let sum = weight-append pre (b'%' ∷ suf) in
    let p' : (strlen pre == 0) ≡ false = ground arith in
    let q' : (strlen suf == 0) ≡ false = ground arith in
    let pl : ltb (strlen pre) (strlen (pre ++ stem ++ suf)) ≡ true =
      lt→ltb _ _ (omega (arith, long)) in
    let ql : ltb (strlen suf) (strlen (pre ++ stem ++ suf)) ≡ true =
      lt→ltb _ _ (omega (arith, long)) in
    rw (pu, qu, p', q', pl, ql, own) (rw (front, back) (omega (arith, whole, sum)))
