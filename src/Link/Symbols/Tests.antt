-- ===== src/Link/Symbols/Tests.antt =====
-- Concrete tables for core/link/elf/symbol.c.
use bin_tools.Base.{same_string, List, [], ◌∷◌, some, ◌≡◌, refl, arith}
use bin_tools.Link.Symbols.{ExportObject, lookup_symbol, alloc_export_symbol_chain}
use bin_tools.Link.Symbols.Bindings.{
  Binding, alloc_all, empty_table, first_bound, lookup_symbol-alloc_all,
}
use bin_tools.Link.Symbols.Export.{Exported, export_all, IsCounted, export_all-IsCounted}

-- `read`, `main` and `read` again; all fall into few buckets.
abbrev three_imports : List Binding
three_imports =
    record { is = 0x100; name = 114 ∷ 101 ∷ 97 ∷ 100 ∷ []; schain = 0 }
    ∷ record { is = 0x200; name = 109 ∷ 97 ∷ 105 ∷ 110 ∷ []; schain = 0 }
    ∷ record { is = 0x300; name = 114 ∷ 101 ∷ 97 ∷ 100 ∷ []; schain = 0 }
    ∷ []

lookup_symbol-alloc_all_example :
    lookup_symbol
      (record {
        export = empty_table 100;
        dynamic_import = alloc_all (empty_table 10) three_imports;
      })
      (114 ∷ 101 ∷ 97 ∷ 100 ∷ [])
      1
    ≡ some (first_bound three_imports (114 ∷ 101 ∷ 97 ∷ 100 ∷ []))
lookup_symbol-alloc_all_example =
    lookup_symbol-alloc_all (empty_table 100) 10 three_imports (114 ∷ 101 ∷ 97 ∷ 100 ∷ [])

first_read : first_bound three_imports (114 ∷ 101 ∷ 97 ∷ 100 ∷ []) ≡ 0x100
unfolding first_bound same_string
first_read = refl

abbrev two_sections : ExportObject
two_sections = record {
  section_chains = 0x10 ∷ 0x20 ∷ [];
  symbol_chains = [];
  export_symbol_num = 0;
}

abbrev two_exports : List Exported
two_exports =
    record { is = 0x100; name = 102 ∷ []; shndx = 1 }
    ∷ record { is = 0x118; name = 103 ∷ []; shndx = 2 }
    ∷ []

two_exports-counted : (export_all two_sections two_exports).export_symbol_num ≡ 2
unfolding export_all alloc_export_symbol_chain
two_exports-counted = refl

export_all-IsCounted_example : IsCounted (export_all two_sections two_exports)
export_all-IsCounted_example =
    export_all-IsCounted two_sections two_exports (record { counted = refl }) (omega arith)
