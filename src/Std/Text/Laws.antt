-- ===== src/Std/Text/Laws.antt =====
-- What the comparisons of strings decide.
use bin_tools.Base.{
  ℕ, ◌+◌, ◌-◌, ◌<◌, List, [], ◌∷◌, ◌++◌, u8, ◌==◌, ==_iff, ==_refl, Bool-cases, ◌≡◌, refl, ◌↔◌, inl,
  inr, arith,
}
use bin_tools.Std.Text.{strcmp, strlen, strncmp}

-- The bytes of a string, none of which is the closing zero.
abbrev pub AreBytes : List ℕ → Type 0
AreBytes [] = Unit
AreBytes (c ∷ s) = (0 < c) × (c < 256) × AreBytes s

pub strcmp_refl : (s : List ℕ) → strcmp s s ≡ 0
unfolding strcmp
strcmp_refl [] = refl
strcmp_refl (c ∷ s) = rw (==_refl c) (strcmp_refl s)

strcmp_sound : (s t : List ℕ) → AreBytes s → AreBytes t → strcmp s t ≡ 0 → s ≡ t
unfolding strcmp
strcmp_sound [] [] bs bt h = refl
strcmp_sound [] (b ∷ t) bs bt h = absurd (omega (arith, h, bt.0, bt.1))
strcmp_sound (a ∷ s) [] bs bt h = absurd (omega (arith, h, bs.0, bs.1))
strcmp_sound (a ∷ s) (b ∷ t) bs bt h = elim (Bool-cases (a == b)) [
  | inl e ↦
      let go = strcmp_sound s t bs.2 bt.2 (rw e at h) in let same : a ≡ b = (==_iff a b).0 e in cc
  | inr e ↦
      let h' : u8 (a + 256 - b) ≡ 0 = rw e at h in
      absurd (ground (arith, h', e, bs.0, bs.1, bt.0, bt.1))
]

-- The difference that is returned as a `uint8_t` is 0 exactly for equal strings.
pub strcmp-eq : (s t : List ℕ) → AreBytes s → AreBytes t → (strcmp s t ≡ 0) ↔ (s ≡ t)
strcmp-eq s t bs bt = (strcmp_sound s t bs bt, λ e. rw e (strcmp_refl t))

-- Exchanging the strings negates the difference on 8 bits.
pub strcmp_antisym : (s t : List ℕ) → AreBytes s → AreBytes t → u8 (strcmp s t + strcmp t s) ≡ 0
unfolding strcmp
strcmp_antisym [] [] bs bt = refl
strcmp_antisym [] (b ∷ t) bs bt = omega (arith, bt.0, bt.1)
strcmp_antisym (a ∷ s) [] bs bt = omega (arith, bs.0, bs.1)
strcmp_antisym (a ∷ s) (b ∷ t) bs bt =
    ground (arith, bs.0, bs.1, bt.0, bt.1, strcmp_antisym s t bs.2 bt.2)

-- Comparing as many bytes as a prefix has, `strncmp` accepts every string that begins with the
-- prefix.
pub strncmp-append : (s t : List ℕ) → strncmp s (s ++ t) (strlen s) ≡ 0
unfolding strncmp strlen
strncmp-append [] t = refl
strncmp-append (c ∷ s) t = rw (==_refl c) (strncmp-append s t)
