-- ===== src/Link/Symbols/Export.antt =====
-- The list of exported symbols that core/link/elf/symbol.c builds for the current object.
use bin_tools.Base.{
  ne→==, ℕ, suc, ◌+◌, ◌<◌, ◌^◌, List, [], ◌∷◌, length, ◌≡◌, refl, arith, ◌≢◌, zero,
}
use bin_tools.Link.Symbols.{
  SymbolChain, ExportObject, alloc_symbol_chain, append_chain, alloc_export_symbol_chain,
  section_walk, head_or_null,
}

pub record Exported : Type 0 where
  pub is : ℕ
  pub name : List ℕ
  pub shndx : ℕ

-- The calls of `alloc_export_symbol_chain` for one object, one after the other.
unfoldable pub export_all : ExportObject → List Exported → ExportObject
export_all o [] = o
export_all o (e ∷ es) = export_all (alloc_export_symbol_chain o e.is e.name e.shndx) es

-- The count is the number of symbols on the list.
pub record IsCounted (o : ExportObject) : Type 0 where
  pub counted : o.export_symbol_num ≡ length o.symbol_chains

length-append_chain :
    (cs : List SymbolChain) (c : SymbolChain) → length (append_chain cs c) ≡ suc (length cs)
unfolding append_chain
length-append_chain [] c = refl
length-append_chain (x ∷ xs) c = omega (arith, length-append_chain xs c)

last_of : ExportObject → Exported → SymbolChain
unfolding alloc_symbol_chain
last_of o e =
    alloc_symbol_chain e.is e.name (head_or_null (section_walk 0 e.shndx o.section_chains))

length-alloc_export_symbol_chain :
    (o : ExportObject) (e : Exported)
    → length (alloc_export_symbol_chain o e.is e.name e.shndx).symbol_chains
      ≡ suc (length o.symbol_chains)
unfolding alloc_export_symbol_chain last_of
length-alloc_export_symbol_chain o e = length-append_chain o.symbol_chains (last_of o e)

alloc_export_symbol_chain-IsCounted :
    (o : ExportObject) (e : Exported)
    → IsCounted o
    → suc (length o.symbol_chains) < 2 ^ 32
    → IsCounted (alloc_export_symbol_chain o e.is e.name e.shndx)
unfolding alloc_export_symbol_chain
alloc_export_symbol_chain-IsCounted o e h small = record {
  counted = omega (arith, h.counted, length-alloc_export_symbol_chain o e);
}

-- As long as the list has less than 2 ^ 32 symbols in the end, the count of exported symbols is
-- the length of the list after any sequence of exports.
pub export_all-IsCounted :
    (o : ExportObject) (es : List Exported)
    → IsCounted o
    → length o.symbol_chains + length es < 2 ^ 32
    → IsCounted (export_all o es)
unfolding export_all
export_all-IsCounted o [] h small = h
export_all-IsCounted o (e ∷ es) h small =
    export_all-IsCounted (alloc_export_symbol_chain o e.is e.name e.shndx) es
      (alloc_export_symbol_chain-IsCounted o e h (omega arith))
      (omega (arith, length-alloc_export_symbol_chain o e))

section_walk-head : (ss : List ℕ) (shndx : ℕ) → shndx ≢ 0 → section_walk 0 shndx ss ≡ ss
unfolding section_walk
section_walk-head [] shndx h = refl
section_walk-head (s ∷ ss) zero h = elim (h refl) [ ]
section_walk-head (s ∷ ss) (suc n) h = rw (ne→== 0 (suc n) (λ e. omega (arith, e))) refl
