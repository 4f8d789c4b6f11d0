-- ===== src/Link/GnuHash/Buckets.antt =====
-- The buckets and the walks of the GNU hash table of core/link/elf/dynamic.c.
use bin_tools.Base.{
  ℕ, zero, suc, ◌==◌, ◌+◌, ◌<◌, ◌≤◌, if◌then◌else◌, update, true, ◌≡◌, ◌≢◌, refl, arith, ap, ◌∙◌,
  sym, Bool-cases, inl, inr, ◌⊎◌, ne→==, ==_iff, some,
}
use bin_tools.Link.GnuHash.{first_free}

-- The buckets with a symbol in the bucket `m`, when that is free.
abbrev pub bucket_with : (ℕ → ℕ) → (m sym_index : ℕ) → ℕ → ℕ
bucket_with f m sym_index = if f m == 0 then update f m sym_index else f

pub bucket_with-cases :
    (f : ℕ → ℕ) (m s q : ℕ)
    → ((f m ≡ 0) × (m ≡ q) × (bucket_with f m s q ≡ s))
      ⊎ ((f m ≢ 0 ⊎ m ≢ q) × (bucket_with f m s q ≡ f q))
bucket_with-cases f m s q = elim (Bool-cases (f m == 0)) [
  | inl z ↦ elim (Bool-cases (m == q)) [
    | inl e ↦ inl ((==_iff (f m) 0).0 z, (==_iff m q).0 e, rw z (rw e refl))
    | inr e ↦ inr (inr (λ x. (let y : (m == q) ≡ true = (==_iff m q).1 x in cc)), rw z (rw e refl))
  ]
  | inr z ↦ inr (inl (λ x. (let y : (f m == 0) ≡ true = (==_iff (f m) 0).1 x in cc)), rw z refl)
]

pub first_free-end :
    (fuel : ℕ) (chain : ℕ → ℕ) (b k : ℕ)
    → ((i : ℕ) → b ≤ i → i < b + k → chain i ≢ 0)
    → chain (b + k) ≡ 0
    → k < fuel
    → first_free fuel chain b ≡ some (b + k)
unfolding first_free
first_free-end zero chain b k f z h = elim h [ ]
first_free-end (suc fuel) chain b zero f z h =
    let e : b + 0 ≡ b = omega arith in rw (sym (ap chain e) ∙ z) (ap some (sym e))
first_free-end (suc fuel) chain b (suc k) f z h =
    rw (ne→== (chain b) 0 (f b (omega arith) (omega arith))) (
      first_free-end fuel chain (b + 1) k (λ i p q. f i (omega arith) (omega arith))
        (ap chain (omega arith) ∙ z) (omega arith)
      ∙ ap some (omega arith))

pub lt_or_eq : (j n : ℕ) → j < suc n → j < n ⊎ j ≡ n
lt_or_eq j n l = elim (Bool-cases (j == n)) [
  | inl e ↦ inr ((==_iff j n).0 e)
  | inr e ↦ inl (ground (arith, ==_iff j n))
]
