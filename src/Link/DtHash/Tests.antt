-- ===== src/Link/DtHash/Tests.antt =====
-- DT_HASH tables with two buckets and four symbols.
use bin_tools.Base.{ℕ, zero, suc, ◌≤◌, List, [], ◌∷◌, some, ◌≡◌, refl, arith, same_string, ◌>>=◌}
use bin_tools.Link.DtHash.Build.{add_all, IsFresh, sysv_lookup-add_all}
use bin_tools.Link.DtHash.Laws.{first_named}
use bin_tools.Link.DtHash.{
  Words, chain_end, store_at, check_dt_hash_collision, add_dt_hash_entry, lookup_from, sysv_lookup,
}
use bin_tools.Link.Hash.{sysv_hash}

-- Symbols 1 and 3 have the same name.
abbrev sample_names : ℕ → List ℕ
sample_names (suc zero) = b'f' ∷ []
sample_names (suc (suc zero)) = b'g' ∷ []
sample_names (suc (suc (suc zero))) = b'f' ∷ []
sample_names _ = b'm' ∷ b'a' ∷ b'i' ∷ b'n' ∷ []

abbrev zeroed_table : Words
zeroed_table zero = 2
zeroed_table (suc i) = 0

zeroed_table-zero : (i : ℕ) → 1 ≤ i → zeroed_table i ≡ 0
zeroed_table-zero zero h = elim h [ ]
zeroed_table-zero (suc i) h = refl

zeroed_table-IsFresh : IsFresh sample_names 2 zeroed_table
zeroed_table-IsFresh = record { nbucket = refl; pos = omega arith; zeroed = zeroed_table-zero }

abbrev sample_symbols : List ℕ
sample_symbols = 1 ∷ 2 ∷ 3 ∷ 4 ∷ []

sysv_lookup-add_all_example :
    (t' : Words) × (add_all sample_names 2 zeroed_table sample_symbols ≡ some t')
    × ((s : List ℕ)
        → sysv_lookup sample_names t' s (sysv_hash s)
          ≡ some (first_named sample_names 2 s sample_symbols))
sysv_lookup-add_all_example =
    sysv_lookup-add_all sample_names 2 sample_symbols zeroed_table-IsFresh (omega arith)

lookup_main :
    (do
      t ← add_all sample_names 2 zeroed_table sample_symbols
      sysv_lookup sample_names t (sample_names 4) (sysv_hash (sample_names 4)))
    ≡ some 4
unfolding chain_end store_at check_dt_hash_collision add_dt_hash_entry lookup_from sysv_lookup
    sysv_hash same_string
lookup_main = refl
