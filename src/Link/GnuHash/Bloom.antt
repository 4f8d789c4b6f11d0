-- ===== src/Link/GnuHash/Bloom.antt =====
-- The bloom filter of the GNU hash table has no false negative.
use bin_tools.Base.Digits.{
  digit, digit-or_left, digit-or_right, digit-bit_and, digit-pow, digit-ne-zero, digit-shift,
  bit_and_one,
}
use bin_tools.Base.{
  ℕ, ◌==◌, ◌<<<◌, ◌>>>◌, bit_and, true, ◌≡◌, refl, arith, ap, ◌∙◌, Bool-cases, inl, inr, ne→==,
  ==_refl, ==_iff,
}
use bin_tools.Link.GnuHash.{GnuHashTable, bloom_index, shift1, shift2, set_bloom_bits, passes_bloom}

-- Both bits of a hash are set.
pub record HasBits (t : GnuHashTable) (gh : ℕ) : Type 0 where
  pub first : digit (shift1 gh) (t.bloom (bloom_index t gh)) ≡ 1
  pub second : digit (shift2 t gh) (t.bloom (bloom_index t gh)) ≡ 1

pub set_bloom_bits-HasBits : (t : GnuHashTable) (gh : ℕ) → HasBits (set_bloom_bits t gh) gh
unfolding set_bloom_bits bloom_index shift1 shift2
set_bloom_bits-HasBits t gh = record {
  first =
      rw (==_refl (bloom_index t gh))
        (digit-or_left (shift1 gh) _ _ (digit-or_right (shift1 gh) _ _ (digit-pow (shift1 gh))));
  second =
      rw (==_refl (bloom_index t gh)) (digit-or_right (shift2 t gh) _ _ (digit-pow (shift2 t gh)));
}

-- A word of the filter keeps its bits.
keeps_bit :
    (t : GnuHashTable) (gh i b : ℕ)
    → digit b (t.bloom i) ≡ 1
    → digit b ((set_bloom_bits t gh).bloom i) ≡ 1
unfolding set_bloom_bits
keeps_bit t gh i b h = elim (Bool-cases (bloom_index t gh == i)) [
  | inl e ↦
      let same : bloom_index t gh ≡ i = (==_iff (bloom_index t gh) i).0 e in
      rw e
        (digit-or_left b _ _ (digit-or_left b _ _ (ap (λ (x : ℕ). digit b (t.bloom x)) same ∙ h)))
  | inr e ↦ rw e h
]

pub HasBits-set_bloom_bits :
    (t : GnuHashTable) (gh g : ℕ) → HasBits t g → HasBits (set_bloom_bits t gh) g
unfolding set_bloom_bits bloom_index shift1 shift2
HasBits-set_bloom_bits t gh g h = record {
  first = keeps_bit t gh (bloom_index t g) (shift1 g) h.first;
  second = keeps_bit t gh (bloom_index t g) (shift2 t g) h.second;
}

-- A hash whose bits are set passes both tests.
pub passes_bloom-HasBits : (t : GnuHashTable) (gh : ℕ) → HasBits t gh → passes_bloom t gh ≡ true
unfolding passes_bloom
passes_bloom-HasBits t gh h =
    let f = t.bloom (bloom_index t gh) in
    let both : digit (shift1 gh) (bit_and f (1 <<< shift1 gh)) ≡ 1 =
      ground
        (arith, digit-bit_and (shift1 gh) f (1 <<< shift1 gh), digit-pow (shift1 gh), h.first) in
    let one : bit_and (f >>> shift2 t gh) 1 ≡ 1 =
      bit_and_one (f >>> shift2 t gh) ∙ digit-shift (shift2 t gh) f ∙ h.second in
    rw (ne→== (bit_and f (1 <<< shift1 gh)) 0 (digit-ne-zero (shift1 gh) _ both)) (rw one refl)
