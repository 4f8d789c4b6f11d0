-- ===== src/Link/DtHash.antt =====
-- The DT_HASH table of core/link/hashtable.c: `add_dt_hash_entry` and `sysv_lookup`.
-- The table is an array of 32-bit words, a function of the index: word 0 is `nbucket`, word 1 is
-- `nchain`, the buckets begin at word 2 and the chain behind them. A pointer into it is an index.
-- The walks have as much fuel as the table has entries and one more; `none` is a walk that has
-- not ended by then.
mod Seg
pub mod Laws
pub mod Build
mod Tests
use bin_tools.Base.{
  ℕ, zero, suc, ◌+◌, ◌%◌, List, Option, none, some, u32, ◌==◌, if◌then◌else◌, update, same_string,
}
use bin_tools.Link.Hash.{sysv_hash}

abbrev pub Words : Type 0
Words = ℕ → ℕ

-- `for (; *p; p = chain + *p);`
pub chain_end : ℕ → Words → ℕ → ℕ → Option ℕ
chain_end zero t chain p = none
chain_end (suc fuel) t chain p =
    let rest = chain_end fuel t chain (chain + t p) in if t p == 0 then some p else rest

pub store_at : Words → ℕ → Option ℕ → Option Words
store_at t v none = none
store_at t v (some p) = some (update t p v)

pub check_dt_hash_collision : ℕ → Words → ℕ → ℕ → ℕ → ℕ → Option Words
unfolding chain_end store_at
check_dt_hash_collision fuel t bucket chain mod_ sym_index =
    if t (bucket + mod_) == 0
    then some (update t (bucket + mod_) sym_index)
    else store_at t sym_index (chain_end fuel t chain (chain + t (bucket + mod_)))

unfoldable pub add_dt_hash_entry : Words → List ℕ → ℕ → Option Words
add_dt_hash_entry t name sym_index =
    let mod_ = sysv_hash name % t 0 in
    let counted = update t 1 (u32 (t 1 + 1)) in
    check_dt_hash_collision (suc (t 1)) counted 2 (2 + counted 0) mod_ sym_index

-- `for (; i; i = hashtab[2 + hashtab[0] + i])`, where `name_of i` is the string of symbol `i`.
pub lookup_from : ℕ → (ℕ → List ℕ) → Words → List ℕ → ℕ → Option ℕ
lookup_from zero name_of t s i = none
lookup_from (suc fuel) name_of t s i =
    let rest = lookup_from fuel name_of t s (t (2 + t 0 + i)) in
    if i == 0 then some 0 else if same_string s (name_of i) then some i else rest

unfoldable pub sysv_lookup : (ℕ → List ℕ) → Words → List ℕ → ℕ → Option ℕ
sysv_lookup name_of t s h = lookup_from (suc (t 1)) name_of t s (t (2 + h % t 0))
