-- ===== src/Link/Symbols.antt =====
-- The symbol chains of core/link/elf/symbol.c. A bucket is the list of its chain; `p` and `schain`
-- are pointers, as numbers; the bucket of a name is `elf_hash(name) % nbucket`.
pub mod Bindings
pub mod Export
mod Tests
use bin_tools.Base.{
  ℕ, zero, suc, ◌+◌, ◌%◌, List, [], ◌∷◌, ◌++◌, Option, none, some, u32, ◌==◌, if◌then◌else◌, update,
  same_string,
}
use bin_tools.Link.Hash.{elf_hash}

pub record SymbolChain : Type 0 where
  pub p : ℕ
  pub name : List ℕ
  pub schain : ℕ

pub record SymbolTable : Type 0 where
  pub nbucket : ℕ
  pub bucket : ℕ → List SymbolChain

unfoldable pub alloc_symbol_chain : ℕ → List ℕ → ℕ → SymbolChain
alloc_symbol_chain is name schain = record { p = is; name = name; schain = schain }

-- `M1(table, elf_hash, name)`, the place of the bucket.
unfoldable pub bucket_of : SymbolTable → List ℕ → ℕ
bucket_of table name = elf_hash name % table.nbucket

-- `for (; chain->next; chain = chain->next); chain->next = c`, or `*table_index = c`.
unfoldable pub append_chain : List SymbolChain → SymbolChain → List SymbolChain
append_chain [] c = c ∷ []
append_chain (x ∷ xs) c = x ∷ append_chain xs c

unfoldable pub alloc_dynamic_symbol_chain : SymbolTable → ℕ → List ℕ → ℕ → SymbolTable
unfolding append_chain alloc_symbol_chain bucket_of
alloc_dynamic_symbol_chain table is name schain =
    let index = bucket_of table name in
    record {
      nbucket = table.nbucket;
      bucket =
          update table.bucket index
            (append_chain (table.bucket index) (alloc_symbol_chain is name schain));
    }

-- `for (; chain; chain = chain->next) if (!strcmp(name, chain->name)) return chain->p;`
unfoldable pub lookup_chain : List ℕ → List SymbolChain → ℕ
lookup_chain name [] = 0
lookup_chain name (c ∷ cs) =
    let rest = lookup_chain name cs in if same_string name c.name then c.p else rest

pub record SymbolTables : Type 0 where
  pub export : SymbolTable
  pub dynamic_import : SymbolTable

-- `none` is the read through the null pointer for a table that does not exist.
unfoldable pub lookup_symbol : SymbolTables → List ℕ → ℕ → Option ℕ
unfolding lookup_chain bucket_of
lookup_symbol tables name zero =
    some (lookup_chain name (tables.export.bucket (bucket_of tables.export name)))
lookup_symbol tables name (suc zero) =
    some (lookup_chain name (tables.dynamic_import.bucket (bucket_of tables.dynamic_import name)))
lookup_symbol tables name (suc (suc ht)) = none

-- `for (; schain && i == shndx; schain = schain->next, i++);` from the head.
unfoldable pub section_walk : (i shndx : ℕ) → List ℕ → List ℕ
section_walk i shndx [] = []
section_walk i shndx (s ∷ ss) =
    let rest = section_walk (u32 (i + 1)) shndx ss in if i == shndx then rest else s ∷ ss

-- What an object keeps of its exported symbols; the tail is the last of the list.
pub record ExportObject : Type 0 where
  pub section_chains : List ℕ
  pub symbol_chains : List SymbolChain
  pub export_symbol_num : ℕ

-- A pointer to the head of a list, null for the empty one.
unfoldable pub head_or_null : List ℕ → ℕ
head_or_null [] = 0
head_or_null (s ∷ ss) = s

unfoldable pub alloc_export_symbol_chain : ExportObject → ℕ → List ℕ → ℕ → ExportObject
unfolding section_walk head_or_null alloc_symbol_chain append_chain
alloc_export_symbol_chain o is name shndx = record {
  section_chains = o.section_chains;
  symbol_chains =
      append_chain o.symbol_chains
        (alloc_symbol_chain is name (head_or_null (section_walk 0 shndx o.section_chains)));
  export_symbol_num = u32 (o.export_symbol_num + 1);
}
