-- ===== src/Link/GnuHash/Tests.antt =====
-- A concrete GNU hash table for core/link/elf/dynamic.c and core/link/hashtable.c.
use bin_tools.Base.{ℕ, zero, suc, ◌+◌, List, [], ◌∷◌, some, ◌≡◌, refl, arith}
use bin_tools.Link.Hash.{gnu_hash}
use bin_tools.Link.GnuHash.{GnuHashTable, find_sym2}
use bin_tools.Link.GnuHash.Enter.{add_symbols, AreHashable}
use bin_tools.Link.GnuHash.Found.{IsFound, find_sym2-add_symbols}

abbrev empty : GnuHashTable
empty = record {
  nbuckets = 2;
  symoffset = 1;
  bloom_size = 2;
  bloom_shift = 5;
  bloom = λ i. 0;
  bucket = λ i. 0;
  chain = λ i. 0;
}

-- The names `a`, `b`, `c` and so on for the symbols from 1 on.
abbrev name_of : ℕ → List ℕ
name_of i = (96 + i) ∷ []

three-AreHashable : AreHashable name_of 1 3
unfolding gnu_hash
three-AreHashable zero l = omega arith
three-AreHashable (suc zero) l = omega arith
three-AreHashable (suc (suc zero)) l = omega arith
three-AreHashable (suc (suc (suc j))) l = omega arith

find_sym2-add_symbols_example :
    (u : GnuHashTable) × (add_symbols 3 name_of empty 1 3 ≡ some u)
    × (r : ℕ) × (find_sym2 3 name_of u (name_of (1 + 2)) ≡ some r)
    × IsFound name_of (name_of (1 + 2)) 1 (1 + 2) r
find_sym2-add_symbols_example =
    find_sym2-add_symbols name_of 1 empty 3 2 (omega arith) (λ i. refl) (λ m. refl)
      three-AreHashable (omega arith)
