-- ===== src/Link/GnuHash/Found.antt =====
-- Symbols that were entered into the GNU hash table are found by core/link/hashtable.c.
use bin_tools.Base.Digits.{bit_or_one, bit_and_one}
use bin_tools.Base.{
  ℕ, zero, suc, ◌==◌, ◌+◌, ◌-◌, ◌*◌, ◌%◌, ◌/◌, ◌^◌, ◌<◌, ◌≤◌, bit_and, bit_or, Bool, true, false,
  ◌&&◌, ◌≡◌, ◌≢◌, refl, arith, ap, ◌∙◌, sym, Bool-cases, inl, inr, ne→==, ==_refl, some, List,
  same_string, same_string_refl,
}
use bin_tools.Link.Hash.{gnu_hash}
use bin_tools.Link.GnuHash.{
  GnuHashTable, without_end, gnu_walk, gnu_lookup, gnu_lookup_filtered, find_sym2,
}
use bin_tools.Link.GnuHash.Bloom.{passes_bloom-HasBits}
use bin_tools.Link.GnuHash.Enter.{
  Entered, AreHashable, add_symbols, add_symbols-Filled, empty-Filled, without_end-half,
  gnu_hash-lt,
}

-- A symbol between `low` and `high` with the name.
pub record IsFound (name_of : ℕ → List ℕ) (s : List ℕ) (low high r : ℕ) : Type 0 where
  pub named : same_string s (name_of r) ≡ true
  pub above : low ≤ r
  pub below : r ≤ high

same_hash : (gh : ℕ) → gh < 2 ^ 32 → (bit_or gh 1 == bit_or (without_end gh) 1) ≡ true
same_hash gh h =
    let e : without_end gh ≡ gh / 2 * 2 = without_end-half gh h in
    let f : bit_or gh 1 ≡ gh / 2 * 2 + 1 = bit_or_one gh in
    let g : bit_or (without_end gh) 1 ≡ gh / 2 * 2 + 1 =
      bit_or_one (without_end gh) ∙ omega (arith, e) in
    rw (f ∙ sym g) (==_refl (bit_or (without_end gh) 1))

no_end : (gh : ℕ) → gh < 2 ^ 32 → bit_and (without_end gh) 1 ≡ 0
no_end gh h = omega (arith, bit_and_one (without_end gh), without_end-half gh h)

abbrev matches : (ℕ → List ℕ) → GnuHashTable → ℕ → List ℕ → ℕ → Bool
matches name_of t h1 s i = bit_or h1 1 == bit_or (t.chain i) 1 && same_string s (name_of i)

and_right : (a b : Bool) → (a && b) ≡ true → b ≡ true
and_right true b h = h
and_right false b h = cc

gnu_walk-here :
    (fuel : ℕ) (name_of : ℕ → List ℕ) (t : GnuHashTable) (h1 : ℕ) (s : List ℕ) (i : ℕ)
    → matches name_of t h1 s i ≡ true
    → gnu_walk (suc fuel) name_of t h1 s i ≡ some i
unfolding gnu_walk
gnu_walk-here fuel name_of t h1 s i e = rw e refl

gnu_walk-next :
    (fuel : ℕ) (name_of : ℕ → List ℕ) (t : GnuHashTable) (h1 : ℕ) (s : List ℕ) (i : ℕ)
    → matches name_of t h1 s i ≡ false
    → bit_and (t.chain i) 1 ≡ 0
    → gnu_walk (suc fuel) name_of t h1 s i ≡ gnu_walk fuel name_of t h1 s (i + 1)
unfolding gnu_walk
gnu_walk-next fuel name_of t h1 s i e z = rw e (rw z refl)

module _ (name_of : ℕ → List ℕ) (lo : ℕ) (positive : 0 < lo) where
  matches_itself :
      (n j : ℕ) (t : GnuHashTable)
      → Entered name_of lo n t
      → j < n
      → matches name_of t (gnu_hash (name_of (lo + j))) (name_of (lo + j)) (lo + j) ≡ true
  matches_itself n j t h b = rw (h.filled j b) (
      rw (same_hash (gnu_hash (name_of (lo + j))) (gnu_hash-lt (name_of (lo + j))))
        (same_string_refl (name_of (lo + j))))

  goes_on :
      (n i : ℕ) (t : GnuHashTable)
      → Entered name_of lo n t
      → lo ≤ i
      → i < lo + n
      → bit_and (t.chain i) 1 ≡ 0
  goes_on n i t h l b =
      let j = i - lo in
      let e : lo + j ≡ i = omega arith in
      ap (λ (x : ℕ). bit_and (t.chain x) 1) (sym e)
      ∙ ap (λ (x : ℕ). bit_and x 1) (h.filled j (omega arith))
      ∙ no_end (gnu_hash (name_of (lo + j))) (gnu_hash-lt (name_of (lo + j)))

  -- The walk stops at the symbol itself or at one of the same name before it.
  gnu_walk-IsFound :
      (fuel n k j : ℕ) (t : GnuHashTable) (i : ℕ)
      → Entered name_of lo n t
      → lo ≤ i
      → i + k ≡ lo + j
      → j < n
      → k < fuel
      → (r : ℕ) × (gnu_walk fuel name_of t (gnu_hash (name_of (lo + j))) (name_of (lo + j)) i
          ≡ some r)
        × IsFound name_of (name_of (lo + j)) i (lo + j) r
  gnu_walk-IsFound zero n k j t i h l e b f = elim f [ ]
  gnu_walk-IsFound (suc fuel) n k j t i h l e b f =
      let s = name_of (lo + j) in
      elim (Bool-cases (matches name_of t (gnu_hash s) s i)) [
        | inl m ↦ (
          i,
          gnu_walk-here fuel name_of t (gnu_hash s) s i m,
          record { named = and_right _ _ m; above = omega arith; below = omega arith },
        )
        | inr m ↦
            let k' = k - 1 in
            let further : i ≢ lo + j = λ (x : i ≡ lo + j).
              (let y : matches name_of t (gnu_hash s) s i ≡ true =
                  ap (matches name_of t (gnu_hash s) s) x ∙ matches_itself n j t h b in
                cc) in
            let (r, p, q) =
              gnu_walk-IsFound fuel n k' j t (i + 1) h (omega arith) (omega arith) b
                (omega arith) in
            (
              r,
              gnu_walk-next fuel name_of t (gnu_hash s) s i m (goes_on n i t h l (omega arith)) ∙ p,
              record { named = q.named; above = omega (arith, q.above); below = q.below },
            )
      ]

  gnu_lookup-IsFound :
      (fuel n j : ℕ) (t : GnuHashTable)
      → Entered name_of lo n t
      → j < n
      → n ≤ fuel
      → (r : ℕ) × (gnu_lookup fuel name_of t (gnu_hash (name_of (lo + j))) (name_of (lo + j))
          ≡ some r)
        × IsFound name_of (name_of (lo + j)) lo (lo + j) r
  unfolding gnu_lookup
  gnu_lookup-IsFound fuel n j t h b f =
      let i = t.bucket (gnu_hash (name_of (lo + j)) % t.nbuckets) in
      let (l, u) = h.started j b in
      let (r, p, q) =
        gnu_walk-IsFound fuel n (lo + j - i) j t i h l (omega arith) b (omega arith) in
      (
        r,
        rw (ne→== i 0 (λ (z : i ≡ 0). omega arith)) p,
        record { named = q.named; above = omega (arith, q.above); below = q.below },
      )

-- When symbols with the numbers from `lo` on, which is not 0, are entered into an empty GNU hash
-- table, and no hash of a name is 0 or 1, all walks end on as much fuel as there are symbols, and
-- each of the names is found afterwards: the filter lets it pass, and the lookup returns the number
-- of a symbol with that name.
pub find_sym2-add_symbols :
    (name_of : ℕ → List ℕ) (lo : ℕ) (t : GnuHashTable) (n j : ℕ)
    → 0 < lo
    → ((i : ℕ) → t.chain i ≡ 0)
    → ((m : ℕ) → t.bucket m ≡ 0)
    → AreHashable name_of lo n
    → j < n
    → (u : GnuHashTable) × (add_symbols n name_of t lo n ≡ some u)
      × (r : ℕ) × (find_sym2 n name_of u (name_of (lo + j)) ≡ some r)
      × IsFound name_of (name_of (lo + j)) lo (lo + j) r
unfolding find_sym2 gnu_lookup_filtered
find_sym2-add_symbols name_of lo t n j positive c b a l =
    let (u, e, h) =
      add_symbols-Filled name_of lo positive n t n (empty-Filled name_of lo positive t c b) a
        (omega arith) in
    let (r, p, q) = gnu_lookup-IsFound name_of lo positive n n j u h.entries l (omega arith) in
    (u, e, r, rw (passes_bloom-HasBits u (gnu_hash (name_of (lo + j))) (h.bits j l)) p, q)
