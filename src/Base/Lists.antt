-- ===== src/Base/Lists.antt =====
-- Lists measured and indexed by native numbers, and memory as a function of the index.
use Prim.Native.Nat.{ℕ, zero, suc, ◌+◌}
use mathlib.Core.Path.{◌≡◌, refl}
use mathlib.Core.Bool.{Bool, true, false, ◌&&◌}
use mathlib.Core.List.{List, [], ◌∷◌, ◌++◌}
use mathlib.Core.Option.{Option, none, some}
use native.Mathlib.Omega.{arith}
use bin_tools.Base.Tests.{◌==◌, if◌then◌else◌}

module _ {ℓ} {A : Type ℓ} where
  abbrev pub length : List A → ℕ
  length [] = 0
  length (x ∷ xs) = suc (length xs)

  abbrev pub get_elem? : List A → ℕ → Option A
  get_elem? [] i = none
  get_elem? (x ∷ xs) zero = some x
  get_elem? (x ∷ xs) (suc i) = get_elem? xs i

  abbrev pub get_or : List A → ℕ → A → A
  get_or [] i d = d
  get_or (x ∷ xs) zero d = x
  get_or (x ∷ xs) (suc i) d = get_or xs i d

  pub length-append : (xs ys : List A) → length (xs ++ ys) ≡ length xs + length ys
  length-append [] ys = omega arith
  length-append (x ∷ xs) ys = omega (arith, length-append xs ys)

-- A store into an array or into memory.
abbrev pub update {ℓ} : {A : Type ℓ} → (ℕ → A) → ℕ → A → ℕ → A
update f p v q = if p == q then v else f q

-- `strcmp(a, b) == 0` on strings without their closing zeros.
unfoldable pub same_string : List ℕ → List ℕ → Bool
same_string [] [] = true
same_string [] (b ∷ bs) = false
same_string (a ∷ as') [] = false
same_string (a ∷ as') (b ∷ bs) = a == b && same_string as' bs

pub same_string_refl : (a : List ℕ) → same_string a a ≡ true
unfolding same_string
same_string_refl [] = refl
same_string_refl (a ∷ as') = ground (arith, same_string_refl as')

pub same_string_sound : (a b : List ℕ) → same_string a b ≡ true → a ≡ b
unfolding same_string
same_string_sound [] [] h = refl
same_string_sound [] (b ∷ bs) h = cc
same_string_sound (a ∷ as') [] h = cc
same_string_sound (a ∷ as') (b ∷ bs) h = ground (arith, same_string_sound as' bs)
