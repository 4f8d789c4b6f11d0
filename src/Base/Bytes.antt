-- ===== src/Base/Bytes.antt =====
-- Runs of bytes in memory, as they are written and as they are found there.
use Prim.Native.Nat.{ℕ, suc, ◌+◌, ◌*◌, ◌/◌, ◌%◌, ◌^◌, ◌≤◌, ◌<◌}
use mathlib.Core.Path.{◌≡◌, refl, sym, ◌∙◌, ap}
use mathlib.Core.Logic.{◌≢◌, ◌⊎◌, inl, inr}
use mathlib.Core.Bool.{Bool, ◌&&◌}
use mathlib.Core.List.{List, [], ◌∷◌, ◌++◌}
use native.Mathlib.Omega.{arith}
use bin_tools.Base.Tests.{◌==◌, if◌then◌else◌, ==_refl, ne→==}
use bin_tools.Base.Lists.{length, update, same_string}

-- The bytes from an address on.
unfoldable pub poke : (ℕ → ℕ) → ℕ → List ℕ → ℕ → ℕ
poke m a [] = m
poke m a (b ∷ bs) = poke (update m a b) (suc a) bs

-- The address is not one of the `n` from `a` on.
abbrev pub AwayFrom : (a n q : ℕ) → Type 0
AwayFrom a n q = (q < a) ⊎ (a + n ≤ q)

pub AwayFrom-split :
    (a k n m q : ℕ) → m ≡ k + n → AwayFrom a m q → AwayFrom a k q × AwayFrom (a + k) n q
AwayFrom-split a k n m q e (inl h) = (inl (omega arith), inl (omega arith))
AwayFrom-split a k n m q e (inr h) = (inr (omega arith), inr (omega arith))

pub AwayFrom-part : (a n a' n' q : ℕ) → AwayFrom a n q → a ≤ a' → a' + n' ≤ a + n → AwayFrom a' n' q
AwayFrom-part a n a' n' q (inl h) l r = inl (omega arith)
AwayFrom-part a n a' n' q (inr h) l r = inr (omega arith)

pub poke-away : (m : ℕ → ℕ) (a q : ℕ) (bs : List ℕ) → AwayFrom a (length bs) q → poke m a bs q ≡ m q
unfolding poke
poke-away m a q [] h = refl
poke-away m a q (b ∷ bs) h =
    let r : AwayFrom (suc a) (length bs) q = elim h [
      | inl l ↦ inl (omega arith)
      | inr l ↦ inr (omega arith)
    ] in
    let n : q ≢ a = elim h [ inl l ↦ omega arith | inr l ↦ omega arith ] in
    poke-away (update m a b) (suc a) q bs r
    ∙ ap (λ (t : Bool). if t then b else m q) (ne→== a q (λ e. n (sym e)))

-- The bytes are in memory from an address on.
unfoldable pub IsAt : (ℕ → ℕ) → ℕ → List ℕ → Type 0
IsAt m a [] = Unit
IsAt m a (b ∷ bs) = (m a ≡ b) × IsAt m (suc a) bs

pub IsAt-poke : (m : ℕ → ℕ) (a : ℕ) (bs : List ℕ) → IsAt (poke m a bs) a bs
unfolding poke IsAt
IsAt-poke m a [] = tt
IsAt-poke m a (b ∷ bs) = (
  poke-away (update m a b) (suc a) a bs (inl (omega arith))
      ∙ ap (λ (t : Bool). if t then b else m a) (==_refl a),
  IsAt-poke (update m a b) (suc a) bs,
)

pub IsAt-frame :
    (m m' : ℕ → ℕ) (a : ℕ) (bs : List ℕ)
    → ((q : ℕ) → a ≤ q → q < a + length bs → m' q ≡ m q)
    → IsAt m a bs
    → IsAt m' a bs
unfolding IsAt
IsAt-frame m m' a [] h i = tt
IsAt-frame m m' a (b ∷ bs) h (e, i) = (
  h a (omega arith) (omega arith) ∙ e,
  IsAt-frame m m' (suc a) bs (λ q l r. h q (omega arith) (omega arith)) i,
)

-- Two runs have no address in common.
abbrev pub Apart : (a n b k : ℕ) → Type 0
Apart a n b k = (a + n ≤ b) ⊎ (b + k ≤ a)

pub Apart-AwayFrom : (a n b k q : ℕ) → Apart a n b k → a ≤ q → q < a + n → AwayFrom b k q
Apart-AwayFrom a n b k q (inl h) l r = inl (omega arith)
Apart-AwayFrom a n b k q (inr h) l r = inr (omega arith)

pub IsAt-poke-Apart :
    (m : ℕ → ℕ) (a b : ℕ) (bs cs : List ℕ)
    → Apart a (length bs) b (length cs)
    → IsAt m a bs
    → IsAt (poke m b cs) a bs
IsAt-poke-Apart m a b bs cs h i =
    IsAt-frame m (poke m b cs) a bs
      (λ q l r. poke-away m b q cs (Apart-AwayFrom a (length bs) b (length cs) q h l r)) i

-- Two bytes and four, the lowest first.
unfoldable pub half_bytes : ℕ → List ℕ
half_bytes v = v % 2 ^ 8 ∷ v / 2 ^ 8 % 2 ^ 8 ∷ []

unfoldable pub word_bytes : ℕ → List ℕ
word_bytes v = v % 2 ^ 8 ∷ v / 2 ^ 8 % 2 ^ 8 ∷ v / 2 ^ 16 % 2 ^ 8 ∷ v / 2 ^ 24 % 2 ^ 8 ∷ []

unfoldable pub load_half : (ℕ → ℕ) → ℕ → ℕ
load_half m a = m a + m (a + 1) * 2 ^ 8

unfoldable pub load_word : (ℕ → ℕ) → ℕ → ℕ
load_word m a = m a + m (a + 1) * 2 ^ 8 + m (a + 2) * 2 ^ 16 + m (a + 3) * 2 ^ 24

pub load_half-IsAt : (m : ℕ → ℕ) (a v : ℕ) → IsAt m a (half_bytes v) → load_half m a ≡ v % 2 ^ 16
unfolding load_half half_bytes IsAt
load_half-IsAt m a v (e, (e', u)) =
    let f : m (a + 1) ≡ v / 2 ^ 8 % 2 ^ 8 = ap m (omega arith) ∙ e' in omega arith

pub load_word-IsAt : (m : ℕ → ℕ) (a v : ℕ) → IsAt m a (word_bytes v) → load_word m a ≡ v % 2 ^ 32
unfolding load_word word_bytes IsAt
load_word-IsAt m a v (e, (e', (e'', (e''', u)))) =
    let f : m (a + 1) ≡ v / 2 ^ 8 % 2 ^ 8 = ap m (omega arith) ∙ e' in
    let f' : m (a + 2) ≡ v / 2 ^ 16 % 2 ^ 8 = ap m (omega arith) ∙ e'' in
    let f'' : m (a + 3) ≡ v / 2 ^ 24 % 2 ^ 8 = ap m (omega arith) ∙ e''' in omega arith

-- `!strcmp(s, p)` for a string without its closing zero and a pointer to memory.
unfoldable pub strings_equal : (ℕ → ℕ) → List ℕ → ℕ → Bool
strings_equal m [] p = m p == 0
strings_equal m (b ∷ bs) p = b == m p && strings_equal m bs (suc p)

-- A string has no zero before its end.
unfoldable pub HasNoZero : List ℕ → Type 0
HasNoZero [] = Unit
HasNoZero (b ∷ bs) = (0 < b) × HasNoZero bs

pub strings_equal-IsAt :
    (m : ℕ → ℕ) (s name : List ℕ) (p : ℕ)
    → HasNoZero s
    → HasNoZero name
    → IsAt m p (name ++ 0 ∷ [])
    → strings_equal m s p ≡ same_string s name
unfolding strings_equal same_string IsAt HasNoZero
strings_equal-IsAt m [] [] p z z' (e, u) = ground arith
strings_equal-IsAt m [] (c ∷ cs) p z (z', zs') (e, u) = ground arith
strings_equal-IsAt m (b ∷ bs) [] p (z, zs) z' (e, u) = ground arith
strings_equal-IsAt m (b ∷ bs) (c ∷ cs) p (z, zs) (z', zs') (e, u) =
    ground (arith, strings_equal-IsAt m bs cs (suc p) zs zs' u)
