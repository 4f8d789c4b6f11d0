-- ===== src/Log/Numbers.antt =====
-- The numbers that core/log/logger.c prints.
use native.Mathlib.Nat.{pow-suc}
use mathlib.Core.List.{append_assoc}
use bin_tools.Base.{
  ℕ, zero, suc, ◌+◌, ◌-◌, ◌*◌, ◌/◌, ◌%◌, ◌^◌, ◌<◌, ◌≤◌, List, [], ◌∷◌, ◌++◌, length, length-append,
  Option, some, ltb, ◌==◌, if◌then◌else◌, Bool, Bool-cases, inl, inr, ◌≡◌, ◌≢◌, sym, refl, arith,
  ap, ◌∙◌, ==_iff,
}
use bin_tools.Log.{xdigit, fmt_u}

-- The value of a digit in lower case.
abbrev digit_value : ℕ → ℕ
digit_value c = if ltb c 58 then c - 48 else c - 87

-- The number that a text in base `b` stands for, behind the digits of `v`.
unfoldable pub read_digits : (b v : ℕ) → List ℕ → ℕ
read_digits b v [] = v
read_digits b v (c ∷ cs) = read_digits b (v * b + digit_value c) cs

-- The first digit, which is 1 where there is none.
abbrev pub first_digit : List ℕ → ℕ
first_digit [] = 1
first_digit (c ∷ cs) = digit_value c

-- At most `n` digits of the number in front of a text, the first of which is not 0, and none for
-- the number 0.
pub record IsText (b x n : ℕ) (s : List ℕ) (o : Option (List ℕ)) : Type 0 where
  pub digits : List ℕ
  pub printed : o ≡ some (digits ++ s)
  pub value : read_digits b 0 digits ≡ x
  pub short : length digits ≤ n
  pub no_zero : 0 < first_digit digits
  pub empty : x ≡ 0 → digits ≡ []

is_right : ℕ → Bool
is_right d = digit_value (xdigit 32 d) == d

read_digits-append :
    (b v : ℕ) (xs : List ℕ) (c : ℕ)
    → read_digits b v (xs ++ c ∷ []) ≡ read_digits b v xs * b + digit_value c
unfolding read_digits
read_digits-append b v [] c = refl
read_digits-append b v (x ∷ xs) c = read_digits-append b (v * b + digit_value x) xs c

first_digit-append :
    (xs : List ℕ) (c : ℕ)
    → 0 < first_digit xs
    → (xs ≡ [] → 0 < digit_value c)
    → 0 < first_digit (xs ++ c ∷ [])
first_digit-append [] c h k = k refl
first_digit-append (x ∷ xs) c h k = h

read_digits-nil : (b : ℕ) (xs : List ℕ) → xs ≡ [] → read_digits b 0 xs ≡ 0
unfolding read_digits
read_digits-nil b xs e = rw e refl

-- No digit for the number 0.
zero-IsText : (b x n : ℕ) (s : List ℕ) → x ≡ 0 → IsText b x n s (some s)
unfolding read_digits
zero-IsText b x n s z = record {
  digits = [];
  printed = refl;
  value = sym z;
  short = omega arith;
  no_zero = omega arith;
  empty = λ e. refl;
}

-- The last digit of a number, which is printed first.
IsText-digit :
    (b x y n c : ℕ) (s : List ℕ) (o : Option (List ℕ))
    → IsText b y n (c ∷ s) o
    → y * b + digit_value c ≡ x
    → x ≢ 0
    → IsText b x (suc n) s o
IsText-digit b x y n c s o i e nz = record {
  digits = i.digits ++ c ∷ [];
  printed = i.printed ∙ ap some (sym (append_assoc i.digits (c ∷ []) s));
  value = read_digits-append b 0 i.digits c ∙ ap (λ (v : ℕ). v * b + digit_value c) i.value ∙ e;
  short = omega (arith, i.short, length-append i.digits (c ∷ []));
  no_zero = first_digit-append i.digits c i.no_zero (λ none_left.
      let z : y ≡ 0 = sym i.value ∙ read_digits-nil b i.digits none_left in
      let f : 0 * b + digit_value c ≡ x = rw z at e in omega (arith, nz));
  empty = λ z. let f : ⊥ = nz z in elim f [ ];
}

pub fmt_u-IsText : (n x : ℕ) (s : List ℕ) → x < 10 ^ n → IsText 10 x n s (fmt_u n x s)
unfolding fmt_u
fmt_u-IsText zero x s h = let z : x ≡ 0 = omega arith in rw z (zero-IsText 10 0 0 s refl)
fmt_u-IsText (suc n) x s h = elim (Bool-cases (x == 0)) [
  | inl e ↦ rw e (zero-IsText 10 x (suc n) s ((==_iff x 0).0 e))
  | inr e ↦
      let nz : x ≢ 0 = (λ z. let t = (==_iff x 0).1 z in cc) in
      let i = fmt_u-IsText n (x / 10) ((48 + x % 10) ∷ s) (omega (arith, pow-suc 10 n)) in
      let d : x / 10 * 10 + digit_value (48 + x % 10) ≡ x = ground arith in
      rw e (IsText-digit 10 x (x / 10) n (48 + x % 10) s _ i d nz)
]
