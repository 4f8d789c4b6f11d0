-- ===== src/Link/GnuHash.antt =====
-- The GNU hash table: what core/link/elf/dynamic.c enters and core/link/hashtable.c looks up.
-- The chain is indexed by the symbol: its word `i` is the one at `chain + i - symoffset`. The three
-- arrays of the table do not overlap. A walk has fuel, and `none` is one that has not ended by then.
pub mod Bloom
pub mod Buckets
pub mod Enter
pub mod Found
mod Tests
use bin_tools.Base.{
  ℕ, zero, suc, ◌+◌, ◌-◌, ◌*◌, ◌/◌, ◌%◌, ◌^◌, List, Option, none, some, ◌>>=◌, Bool, ◌&&◌, u32, u64,
  ◌<<<◌, ◌>>>◌, ◌==◌, if◌then◌else◌, update, same_string, bit_and, bit_or,
}
use bin_tools.Link.Hash.{gnu_hash}

pub record GnuHashTable : Type 0 where
  pub nbuckets : ℕ
  pub symoffset : ℕ
  pub bloom_size : ℕ
  pub bloom_shift : ℕ
  pub bloom : ℕ → ℕ
  pub bucket : ℕ → ℕ
  pub chain : ℕ → ℕ

-- The word of the bloom filter for a hash, and its two bits.
unfoldable pub bloom_index : GnuHashTable → ℕ → ℕ
bloom_index t gh = bit_and (gh / 64) (u32 (t.bloom_size + (2 ^ 32 - 1)))

unfoldable pub shift1 : ℕ → ℕ
shift1 gh = gh % 64

unfoldable pub shift2 : GnuHashTable → ℕ → ℕ
shift2 t gh = (gh >>> t.bloom_shift) % 64

unfoldable pub set_bloom_bits : GnuHashTable → ℕ → GnuHashTable
unfolding bloom_index shift1 shift2
set_bloom_bits t gh = record t {
  bloom =
      update t.bloom (bloom_index t gh)
        (bit_or (bit_or (t.bloom (bloom_index t gh)) (1 <<< shift1 gh)) (1 <<< shift2 t gh));
}

-- `for (; *p; p++);`
unfoldable pub first_free : ℕ → (ℕ → ℕ) → ℕ → Option ℕ
first_free zero chain p = none
first_free (suc fuel) chain p =
    let rest = first_free fuel chain (p + 1) in if chain p == 0 then some p else rest

-- `gh & -2`
unfoldable pub without_end : ℕ → ℕ
without_end gh = bit_and gh (2 ^ 32 - 2)

unfoldable pub check_gnu_hash_collision :
    ℕ → GnuHashTable → (gh mod_ sym_index : ℕ) → Option GnuHashTable
unfolding first_free without_end
check_gnu_hash_collision fuel t gh mod_ sym_index =
    if t.bucket mod_ == 0
    then some (record t {
      bucket = update t.bucket mod_ sym_index;
      chain = update t.chain sym_index (without_end gh);
    })
    else (first_free fuel t.chain (t.bucket mod_) >>= λ p.
        some (record t { chain = update t.chain p (without_end gh) }))

unfoldable pub add_gnu_hash_entry : ℕ → GnuHashTable → List ℕ → ℕ → Option GnuHashTable
unfolding set_bloom_bits check_gnu_hash_collision
add_gnu_hash_entry fuel t name sym_index =
    let gh = gnu_hash name in
    check_gnu_hash_collision fuel (set_bloom_bits t gh) gh (gh % t.nbuckets) sym_index

-- `for (h1 |= 1;; i++)`, where `name_of i` is the string of symbol `i`.
unfoldable pub gnu_walk : ℕ → (ℕ → List ℕ) → GnuHashTable → ℕ → List ℕ → ℕ → Option ℕ
gnu_walk zero name_of t h1 s i = none
gnu_walk (suc fuel) name_of t h1 s i =
    let rest = gnu_walk fuel name_of t h1 s (i + 1) in
    if bit_or h1 1 == bit_or (t.chain i) 1 && same_string s (name_of i)
    then some i
    else if bit_and (t.chain i) 1 == 0
    then rest
    else some 0

unfoldable pub gnu_lookup : ℕ → (ℕ → List ℕ) → GnuHashTable → ℕ → List ℕ → Option ℕ
unfolding gnu_walk
gnu_lookup fuel name_of t h1 s =
    let i = t.bucket (h1 % t.nbuckets) in
    let found = gnu_walk fuel name_of t h1 s i in if i == 0 then some 0 else found

-- The two tests of the bloom filter.
unfoldable pub passes_bloom : GnuHashTable → ℕ → Bool
unfolding bloom_index shift1 shift2
passes_bloom t h1 =
    let f = t.bloom (bloom_index t h1) in
    if bit_and f (1 <<< shift1 h1) == 0
    then Bool.false
    else (if bit_and (f >>> shift2 t h1) 1 == 0 then Bool.false else Bool.true)

unfoldable pub gnu_lookup_filtered : ℕ → (ℕ → List ℕ) → GnuHashTable → ℕ → List ℕ → Option ℕ
unfolding passes_bloom gnu_lookup
gnu_lookup_filtered fuel name_of t h1 s =
    let found = gnu_lookup fuel name_of t h1 s in if passes_bloom t h1 then found else some 0

unfoldable pub find_sym2 : ℕ → (ℕ → List ℕ) → GnuHashTable → List ℕ → Option ℕ
unfolding gnu_lookup_filtered
find_sym2 fuel name_of t s = gnu_lookup_filtered fuel name_of t (gnu_hash s) s
