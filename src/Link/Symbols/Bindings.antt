-- ===== src/Link/Symbols/Bindings.antt =====
-- The tables of core/link/elf/symbol.c as the bindings that were entered, in order.
use bin_tools.Base.{
  ℕ, List, [], ◌∷◌, some, ◌==◌, if◌then◌else◌, update, same_string, ==_iff, ==_refl, ◌%◌, ap, ◌∙◌,
  same_string_sound, ◌≡◌, refl, arith, Bool, true, false, Bool-cases, inl, inr, sym,
}
use bin_tools.Link.Hash.{elf_hash}
use bin_tools.Link.Symbols.{
  SymbolChain, SymbolTable, alloc_symbol_chain, bucket_of, append_chain, alloc_dynamic_symbol_chain,
  lookup_chain, lookup_symbol,
}

pub record Binding : Type 0 where
  pub is : ℕ
  pub name : List ℕ
  pub schain : ℕ

-- The calls of `alloc_dynamic_symbol_chain`, one after the other.
unfoldable pub alloc_all : SymbolTable → List Binding → SymbolTable
alloc_all table [] = table
alloc_all table (b ∷ bs) = alloc_all (alloc_dynamic_symbol_chain table b.is b.name b.schain) bs

-- The first binding of the name, or 0.
unfoldable pub first_bound : List Binding → List ℕ → ℕ
first_bound [] s = 0
first_bound (b ∷ bs) s = let rest = first_bound bs s in if same_string s b.name then b.is else rest

abbrev pub chains_or : List SymbolChain → List ℕ → ℕ → ℕ
chains_or [] s d = d
chains_or (c ∷ cs) s d = let rest = chains_or cs s d in if same_string s c.name then c.p else rest

pub lookup_chain-or : (s : List ℕ) (cs : List SymbolChain) → lookup_chain s cs ≡ chains_or cs s 0
unfolding lookup_chain
lookup_chain-or s [] = refl
lookup_chain-or s (c ∷ cs) = rw (lookup_chain-or s cs) refl

chains_or-append :
    (cs : List SymbolChain) (c : SymbolChain) (s : List ℕ) (d : ℕ)
    → chains_or (append_chain cs c) s d ≡ chains_or cs s (if same_string s c.name then c.p else d)
unfolding append_chain
chains_or-append [] c s d = refl
chains_or-append (x ∷ xs) c s d = rw (chains_or-append xs c s d) refl

differs : (t : Bool) (i j : ℕ) → (t ≡ true → i ≡ j) → (i == j) ≡ false → t ≡ false
differs true i j h e = ground (arith, h refl)
differs false i j h e = refl

-- A chain of another bucket stays, a chain of the same one grows behind.
chains_or-update :
    (f : ℕ → List SymbolChain) (i j : ℕ) (c : SymbolChain) (s : List ℕ) (d : ℕ)
    → (same_string s c.name ≡ true → i ≡ j)
    → chains_or (update f i (append_chain (f i) c) j) s d
      ≡ chains_or (f j) s (if same_string s c.name then c.p else d)
chains_or-update f i j c s d h = elim (Bool-cases (i == j)) [
  | inl e ↦
      let same : i ≡ j = (==_iff i j).0 e in rw same (rw (==_refl j) (chains_or-append (f j) c s d))
  | inr e ↦ rw e (rw (differs (same_string s c.name) i j h e) refl)
]

pub chains_or-alloc :
    (table : SymbolTable) (b : Binding) (s : List ℕ) (d : ℕ)
    → chains_or
        ((alloc_dynamic_symbol_chain table b.is b.name b.schain).bucket (bucket_of table s))
        s
        d
      ≡ chains_or (table.bucket (bucket_of table s)) s (if same_string s b.name then b.is else d)
unfolding alloc_dynamic_symbol_chain alloc_symbol_chain
chains_or-alloc table b s d =
    chains_or-update table.bucket (bucket_of table b.name) (bucket_of table s)
      (alloc_symbol_chain b.is b.name b.schain) s d
      (λ h. ap (bucket_of table) (sym (same_string_sound s b.name h)))

nbucket-alloc :
    (table : SymbolTable) (b : Binding)
    → (alloc_dynamic_symbol_chain table b.is b.name b.schain).nbucket ≡ table.nbucket
unfolding alloc_dynamic_symbol_chain
nbucket-alloc table b = refl

chains_or-alloc_all :
    (table : SymbolTable) (bs : List Binding) (s : List ℕ)
    → chains_or ((alloc_all table bs).bucket (elf_hash s % table.nbucket)) s 0
      ≡ chains_or (table.bucket (elf_hash s % table.nbucket)) s (first_bound bs s)
unfolding alloc_all first_bound alloc_dynamic_symbol_chain bucket_of
chains_or-alloc_all table [] s = refl
chains_or-alloc_all table (b ∷ bs) s =
    chains_or-alloc_all (alloc_dynamic_symbol_chain table b.is b.name b.schain) bs s
    ∙ chains_or-alloc table b s (first_bound bs s)

-- A table of the given number of buckets, all of them null.
unfoldable pub empty_table : ℕ → SymbolTable
empty_table n = record { nbucket = n; bucket = λ i. [] }

nbucket-alloc_all :
    (table : SymbolTable) (bs : List Binding) → (alloc_all table bs).nbucket ≡ table.nbucket
unfolding alloc_all alloc_dynamic_symbol_chain
nbucket-alloc_all table [] = refl
nbucket-alloc_all table (b ∷ bs) =
    nbucket-alloc_all (alloc_dynamic_symbol_chain table b.is b.name b.schain) bs

-- Whatever sequence of symbols is entered into an empty table of imports, with whatever collisions
-- of buckets, a lookup returns the pointer of the first symbol of that name, and the null pointer
-- for a name that was not entered.
pub lookup_symbol-alloc_all :
    (exports : SymbolTable) (n : ℕ) (bs : List Binding) (s : List ℕ)
    → lookup_symbol (record { export = exports; dynamic_import = alloc_all (empty_table n) bs }) s 1
      ≡ some (first_bound bs s)
unfolding lookup_symbol bucket_of empty_table
lookup_symbol-alloc_all exports n bs s = ap some (
    lookup_chain-or s
      ((alloc_all (empty_table n) bs).bucket (elf_hash s % (alloc_all (empty_table n) bs).nbucket))
    ∙ rw (nbucket-alloc_all (empty_table n) bs) (chains_or-alloc_all (empty_table n) bs s))
