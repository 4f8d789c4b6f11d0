-- ===== src/Link/GnuHash/Enter.antt =====
-- Symbols entered into the GNU hash table of core/link/elf/dynamic.c.
use bin_tools.Base.Digits.{bit_and_even}
use bin_tools.Base.{
  ℕ, zero, suc, ◌==◌, ◌+◌, ◌-◌, ◌*◌, ◌%◌, ◌/◌, ◌^◌, ◌<◌, ◌≤◌, update, false, ◌≡◌, ◌≢◌, refl, arith,
  ap, ◌∙◌, sym, Bool-cases, inl, inr, ◌⊎◌, ne→==, ==_refl, Option, some, ◌>>=◌, List,
}
use bin_tools.Link.Hash.{gnu_hash}
use bin_tools.Link.GnuHash.{
  GnuHashTable, bloom_index, shift1, shift2, set_bloom_bits, first_free, without_end,
  check_gnu_hash_collision, add_gnu_hash_entry,
}
use bin_tools.Link.GnuHash.Buckets.{bucket_with, bucket_with-cases, first_free-end, lt_or_eq}
use bin_tools.Link.GnuHash.Bloom.{HasBits, set_bloom_bits-HasBits, HasBits-set_bloom_bits}

-- The symbols `lo`, `lo + 1` and so on, `n` of them, are entered one after the other.
unfoldable pub add_symbols : ℕ → (ℕ → List ℕ) → GnuHashTable → (lo n : ℕ) → Option GnuHashTable
add_symbols fuel name_of t lo zero = some t
add_symbols fuel name_of t lo (suc n) =
    add_symbols fuel name_of t lo n >>= λ u. add_gnu_hash_entry fuel u (name_of (lo + n)) (lo + n)

pub gnu_hash-lt : (s : List ℕ) → gnu_hash s < 2 ^ 32
unfolding gnu_hash
gnu_hash-lt s = omega arith

pub without_end-half : (gh : ℕ) → gh < 2 ^ 32 → without_end gh ≡ gh / 2 * 2
unfolding without_end
without_end-half gh h = bit_and_even gh h

-- The table with the symbol at the place of its number.
abbrev entered : GnuHashTable → (gh mod_ sym_index : ℕ) → GnuHashTable
entered t gh mod_ sym_index = record t {
  bucket = bucket_with t.bucket mod_ sym_index;
  chain = update t.chain sym_index (without_end gh);
}

-- The symbols `lo` to `lo + n` are in the table, and nothing is behind them.
pub record Entered (name_of : ℕ → List ℕ) (lo n : ℕ) (t : GnuHashTable) : Type 0 where
  pub filled : (j : ℕ) → j < n → t.chain (lo + j) ≡ without_end (gnu_hash (name_of (lo + j)))
  pub free : (i : ℕ) → lo + n ≤ i → t.chain i ≡ 0
  pub buckets : (m : ℕ) → t.bucket m ≡ 0 ⊎ (lo ≤ t.bucket m × t.bucket m < lo + n)
  pub started :
      (j : ℕ)
      → j < n
      → lo ≤ t.bucket (gnu_hash (name_of (lo + j)) % t.nbuckets)
        × t.bucket (gnu_hash (name_of (lo + j)) % t.nbuckets) ≤ lo + j

-- Each hash has a bit above its lowest one.
abbrev pub AreHashable : (ℕ → List ℕ) → (lo n : ℕ) → Type 0
AreHashable name_of lo n = (j : ℕ) → j < n → 2 ≤ gnu_hash (name_of (lo + j))

module _ (name_of : ℕ → List ℕ) (lo : ℕ) (positive : 0 < lo) where
  chain-ne-zero :
      (n : ℕ) (t : GnuHashTable) (i : ℕ)
      → Entered name_of lo n t
      → AreHashable name_of lo n
      → lo ≤ i
      → i < lo + n
      → t.chain i ≢ 0
  chain-ne-zero n t i h a p q z =
      let j = i - lo in
      let e : lo + j ≡ i = omega arith in
      let g = h.filled j (omega arith) in
      let w = without_end-half (gnu_hash (name_of (lo + j))) (gnu_hash-lt (name_of (lo + j))) in
      omega (arith, g, w, a j (omega arith), ap t.chain e, z)

  walked :
      (fuel n : ℕ) (t : GnuHashTable) (m : ℕ)
      → t.bucket m ≡ 0 ⊎ (lo ≤ t.bucket m × t.bucket m < lo + n)
      → Entered name_of lo n t
      → AreHashable name_of lo n
      → (t.bucket m == 0) ≡ false
      → n < fuel
      → first_free fuel t.chain (t.bucket m) ≡ some (lo + n)
  walked fuel n t m (inl z) h a e f = let x : (0 == 0) ≡ false = rw z at e in cc
  walked fuel n t m (inr (p, q)) h a e f =
      let k = lo + n - t.bucket m in
      let r : t.bucket m + k ≡ lo + n = omega arith in
      first_free-end fuel t.chain (t.bucket m) k
        (λ i u v. chain-ne-zero n t i h a (omega arith) (omega arith))
        (ap t.chain r ∙ h.free (lo + n) (omega arith)) (omega arith)
      ∙ ap some r

  -- Wherever its chain begins, the new symbol gets the place of its number.
  check_gnu_hash_collision-entered :
      (fuel n : ℕ) (t : GnuHashTable) (gh mod_ : ℕ)
      → Entered name_of lo n t
      → AreHashable name_of lo n
      → n < fuel
      → check_gnu_hash_collision fuel t gh mod_ (lo + n) ≡ some (entered t gh mod_ (lo + n))
  unfolding check_gnu_hash_collision
  check_gnu_hash_collision-entered fuel n t gh mod_ h a f = elim (Bool-cases (t.bucket mod_ == 0)) [
    | inl e ↦ rw e refl
    | inr e ↦ rw e (rw (walked fuel n t mod_ (h.buckets mod_) h a e f) refl)
  ]

  started_below :
      (n m q : ℕ) (f : ℕ → ℕ) (b : ℕ)
      → lo ≤ f q
      → f q ≤ b
      → lo ≤ bucket_with f m (lo + n) q × bucket_with f m (lo + n) q ≤ b
  started_below n m q f b p r = elim (bucket_with-cases f m (lo + n) q) [
    | inl (z, e, v) ↦ (let x : f m ≡ f q = ap f e in omega arith)
    | inr (_, v) ↦ rw v (p, r)
  ]

  in_bounds :
      (n m q : ℕ) (f : ℕ → ℕ)
      → f q ≡ 0 ⊎ (lo ≤ f q × f q < lo + n)
      → bucket_with f m (lo + n) q ≡ 0
        ⊎ (lo ≤ bucket_with f m (lo + n) q × bucket_with f m (lo + n) q < lo + suc n)
  in_bounds n m q f o = elim (bucket_with-cases f m (lo + n) q) [
    | inl (z, e, v) ↦ rw v (inr (omega arith, omega arith))
    | inr (_, v) ↦ rw v (elim o [ inl z ↦ inl z | inr (a, b) ↦ inr (a, omega arith) ])
  ]

  not_free :
      (n m : ℕ) (f : ℕ → ℕ)
      → f m ≡ 0 ⊎ (lo ≤ f m × f m < lo + n)
      → f m ≢ 0 ⊎ m ≢ m
      → lo ≤ f m × f m ≤ lo + n
  not_free n m f (inl z) (inl w) = elim (w z) [ ]
  not_free n m f (inl z) (inr w) = elim (w refl) [ ]
  not_free n m f (inr (a, b)) w = (a, omega arith)

  started_last :
      (n m : ℕ) (f : ℕ → ℕ)
      → f m ≡ 0 ⊎ (lo ≤ f m × f m < lo + n)
      → lo ≤ bucket_with f m (lo + n) m × bucket_with f m (lo + n) m ≤ lo + n
  started_last n m f o = elim (bucket_with-cases f m (lo + n) m) [
    | inl (z, e, v) ↦ rw v (omega arith, omega arith)
    | inr (w, v) ↦ rw v (not_free n m f o w)
  ]

  -- The table with one more symbol.
  entered-Entered :
      (n : ℕ) (t : GnuHashTable)
      → Entered name_of lo n t
      → Entered name_of lo
          (suc n)
          (let gh = gnu_hash (name_of (lo + n)) in entered t gh (gh % t.nbuckets) (lo + n))
  entered-Entered n t h = record {
    filled = λ j l. elim (lt_or_eq j n l) [
      | inl r ↦ rw (ne→== (lo + n) (lo + j) (λ (e : lo + n ≡ lo + j). omega arith)) (h.filled j r)
      | inr e ↦ rw e (rw (==_refl (lo + n)) refl)
    ];
    free = λ i l. rw (ne→== (lo + n) i (λ (e : lo + n ≡ i). omega arith)) (h.free i (omega arith));
    buckets = λ m. in_bounds n _ m t.bucket (h.buckets m);
    started = λ j l. elim (lt_or_eq j n l) [
      | inl r ↦ started_below n _ _ t.bucket (lo + j) (h.started j r).0 (h.started j r).1
      | inr e ↦ rw e (started_last n _ t.bucket (h.buckets _))
    ];
  }

  Entered-set_bloom_bits :
      (n : ℕ) (t : GnuHashTable) (gh : ℕ)
      → Entered name_of lo n t
      → Entered name_of lo n (set_bloom_bits t gh)
  unfolding set_bloom_bits
  Entered-set_bloom_bits n t gh h = record {
    filled = h.filled;
    free = h.free;
    buckets = h.buckets;
    started = h.started;
  }

  -- The symbols with the bits of all of them.
  pub record Filled (n : ℕ) (t : GnuHashTable) : Type 0 where
    pub entries : Entered name_of lo n t
    pub bits : (j : ℕ) → j < n → HasBits t (gnu_hash (name_of (lo + j)))

  HasBits-entered : (t : GnuHashTable) (gh m s g : ℕ) → HasBits t g → HasBits (entered t gh m s) g
  unfolding bloom_index shift1 shift2
  HasBits-entered t gh m s g h = record { first = h.first; second = h.second }

  nbuckets-set_bloom_bits :
      (t : GnuHashTable) (gh : ℕ) → (set_bloom_bits t gh).nbuckets ≡ t.nbuckets
  unfolding set_bloom_bits
  nbuckets-set_bloom_bits t gh = refl

  -- One more symbol is entered, and the table stays filled.
  add_gnu_hash_entry-Filled :
      (fuel n : ℕ) (t : GnuHashTable)
      → Filled n t
      → AreHashable name_of lo n
      → n < fuel
      → (u : GnuHashTable) × (add_gnu_hash_entry fuel t (name_of (lo + n)) (lo + n) ≡ some u)
        × Filled (suc n) u
  unfolding add_gnu_hash_entry
  add_gnu_hash_entry-Filled fuel n t h a f =
      let gh = gnu_hash (name_of (lo + n)) in
      let b = set_bloom_bits t gh in
      let e = Entered-set_bloom_bits n t gh h.entries in
      (
        entered b gh (gh % b.nbuckets) (lo + n),
        ap (λ (m : ℕ). check_gnu_hash_collision fuel b gh (gh % m) (lo + n))
              (sym (nbuckets-set_bloom_bits t gh))
            ∙ check_gnu_hash_collision-entered fuel n b gh (gh % b.nbuckets) e a f,
        record {
          entries = entered-Entered n b e;
          bits = λ j l.
              HasBits-entered b gh (gh % b.nbuckets) (lo + n) (gnu_hash (name_of (lo + j)))
                (elim (lt_or_eq j n l) [
                  | inl r ↦ HasBits-set_bloom_bits t gh _ (h.bits j r)
                  | inr e ↦ rw e (set_bloom_bits-HasBits t gh)
                ]);
        },
      )

  pub add_symbols-Filled :
      (fuel : ℕ) (t : GnuHashTable) (n : ℕ)
      → Filled 0 t
      → AreHashable name_of lo n
      → n ≤ fuel
      → (u : GnuHashTable) × (add_symbols fuel name_of t lo n ≡ some u) × Filled n u
  unfolding add_symbols
  add_symbols-Filled fuel t zero h a f = (t, refl, h)
  add_symbols-Filled fuel t (suc n) h a f =
      let (u, e, g) = add_symbols-Filled fuel t n h (λ j l. a j (omega arith)) (omega arith) in
      let (v, e', g') =
        add_gnu_hash_entry-Filled fuel n u g (λ j l. a j (omega arith)) (omega arith) in
      (v, rw e e', g')

  -- A table without symbols.
  pub empty-Filled :
      (t : GnuHashTable) → ((i : ℕ) → t.chain i ≡ 0) → ((m : ℕ) → t.bucket m ≡ 0) → Filled 0 t
  empty-Filled t c b = record {
    entries = record {
      filled = λ j l. elim l [ ];
      free = λ i l. c i;
      buckets = λ m. inl (b m);
      started = λ j l. elim l [ ];
    };
    bits = λ j l. elim l [ ];
  }
