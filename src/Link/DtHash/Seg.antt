-- ===== src/Link/DtHash/Seg.antt =====
-- Chains of the DT_HASH table: what a walk from a word of the table goes through.

use bin_tools.Base.{
  ℕ, zero, suc, ◌+◌, ◌≤◌, ◌<◌, List, [], ◌∷◌, ◌++◌, some, ◌≡◌, refl, ◌≢◌, ◌⊎◌, inl, inr, update,
  length, arith,
}
use bin_tools.Link.DtHash.{Words, chain_end, check_dt_hash_collision}

module _ (home : ℕ → ℕ) (chain : ℕ) where
  -- From word `p` the links lead through the symbols `is` of bucket `b`, all below `next`, and end.
  abbrev pub Seg : Words → ℕ → ℕ → ℕ → List ℕ → Type 0
  Seg t next b p [] = t p ≡ 0
  Seg t next b p (i ∷ is) =
      (t p ≡ i)
      × (0 < i)
      × (i < next)
      × (p < chain + i)
      × (home i ≡ b)
      × Seg t next b (chain + i) is

  -- The word that ends the walk.
  abbrev pub end_of : ℕ → List ℕ → ℕ
  end_of p [] = p
  end_of p (i ∷ is) = end_of (chain + i) is

  pub le-end_of : (t : Words) (next b p : ℕ) (is : List ℕ) → Seg t next b p is → p ≤ end_of p is
  le-end_of t next b p [] s = omega arith
  le-end_of t next b p (i ∷ is) s = omega (arith, le-end_of t next b (chain + i) is s.5)

  pub end_of-cases :
      (t : Words) (next b p : ℕ) (is : List ℕ)
      → Seg t next b p is
      → (end_of p is ≡ p) ⊎ ((k : ℕ) × (end_of p is ≡ chain + k) × (home k ≡ b) × (k < next))
  end_of-cases t next b p [] s = inl refl
  end_of-cases t next b p (i ∷ is) s = elim (end_of-cases t next b (chain + i) is s.5) [
    | inl e ↦ inr (i, e, s.4, s.2)
    | inr c ↦ inr c
  ]

  -- The walk of `check_dt_hash_collision` stops at that word.
  pub chain_end-Seg :
      (fuel : ℕ) (t : Words) (next b p : ℕ) (is : List ℕ)
      → Seg t next b p is
      → length is < fuel
      → chain_end fuel t chain p ≡ some (end_of p is)
  unfolding chain_end
  chain_end-Seg zero t next b p is s h = elim h [ ]
  chain_end-Seg (suc fuel) t next b p [] s h = ground arith
  chain_end-Seg (suc fuel) t next b p (i ∷ is) s h =
      ground (arith, chain_end-Seg fuel t next b (chain + i) is s.5)

  -- A store outside the chain leaves it alone.
  pub Seg-frame :
      (t : Words) (next next' b p e v : ℕ) (is : List ℕ)
      → Seg t next b p is
      → next ≤ next'
      → e ≢ p
      → ((k : ℕ) → k < next → home k ≡ b → e ≢ chain + k)
      → Seg (update t e v) next' b p is
  Seg-frame t next next' b p e v [] s le ne out = ground arith
  Seg-frame t next next' b p e v (i ∷ is) s le ne out = (
    ground arith,
    s.1,
    omega arith,
    s.3,
    s.4,
    Seg-frame t next next' b (chain + i) e v is s.5 le (out i s.2 s.4) out,
  )

  -- A store of a new symbol at the end of the chain appends it.
  pub Seg-extend :
      (t : Words) (next b p new : ℕ) (is : List ℕ)
      → Seg t next b p is
      → 0 < new
      → next ≤ new
      → p < chain + new
      → home new ≡ b
      → t (chain + new) ≡ 0
      → Seg (update t (end_of p is) new) (suc new) b p (is ++ new ∷ [])
  Seg-extend t next b p new [] s pos le below at zero_word =
      (ground arith, pos, omega arith, below, at, ground arith)
  Seg-extend t next b p new (i ∷ is) s pos le below at zero_word =
      let after = le-end_of t next b (chain + i) is s.5 in
      (
        ground arith,
        s.1,
        omega arith,
        s.3,
        s.4,
        Seg-extend t next b (chain + i) new is s.5 pos le (omega arith) at zero_word,
      )

  -- The bucket word itself may be that word.
  pub check_dt_hash_collision-Seg :
      (fuel : ℕ) (t : Words) (next b bucket sym : ℕ) (is : List ℕ)
      → Seg t next b (bucket + b) is
      → length is < fuel
      → check_dt_hash_collision fuel t bucket chain b sym
        ≡ some (update t (end_of (bucket + b) is) sym)
  unfolding check_dt_hash_collision
  check_dt_hash_collision-Seg fuel t next b bucket sym [] s h = ground arith
  check_dt_hash_collision-Seg fuel t next b bucket sym (i ∷ is) s h =
      ground (arith, chain_end-Seg fuel t next b (chain + i) is s.5)
