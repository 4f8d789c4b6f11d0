-- ===== src/Link/Dynamic/Tests.antt =====
-- Concrete dynamic tables for core/link/elf/dynamic.c.
use bin_tools.Base.{ℕ, ◌+◌, List, [], ◌∷◌, map, some, true, ◌≡◌, refl, arith, same_string}
use bin_tools.Link.Symbols.Bindings.{empty_table}
use bin_tools.Link.Dynamic.{Dynamic, StringArea, Sym, add_dynstr_entry, add_dynsym_entry}
use bin_tools.Link.Dynamic.Imports.{import_all, intern_all, address_or, Holds, HasRoom, is_member}
use bin_tools.Link.Dynamic.Entries.{Written, HasSpace, StringsAt, symbols_of, relas_of}
use bin_tools.Link.Dynamic.Runs.{import_all-refines}
use bin_tools.Link.Dynamic.Strings.{Added, add_dynstr_entry-Added}
use bin_tools.Link.Dynamic.Needed.{
  add_dt_needed, needed_values, needed_values-add_dt_needed, AreNeeded, HasNoZero, total_length,
}
use bin_tools.Link.Dynamic.Tags.{Sizes, Headers, set_tags, dynamic_entry_tags}
use bin_tools.Link.Dynamic.Tags.Regions.{described, sum_of, set_tags-described}

abbrev empty_strings : StringArea
empty_strings = record { bytes = λ q. 0; size = 1; alloc_size = 0x3000; closed = [] }

abbrev null_symbol : Sym
null_symbol = record {
  st_name = 0;
  st_info = 18;
  st_other = 0;
  st_shndx = 0;
  st_value = 0;
  st_size = 0;
}

-- The state after `add_dynamic`, which enters the null symbol.
abbrev initial : Dynamic
initial = record {
  base_address = 0x400000;
  plt_address = 0x401000;
  pltgot = record { entries = []; size = 0; alloc_size = 0; closed = [] };
  dynstr = empty_strings;
  dynsym = record { entries = null_symbol ∷ []; size = 1; alloc_size = 0x48000; closed = [] };
  rela_plt = record { entries = []; size = 0; alloc_size = 0x48000; closed = [] };
  tables = record { export = empty_table 100; dynamic_import = empty_table 10 };
  init_array = record { entries = []; size = 0; alloc_size = 0x20; closed = [] };
  fini_array = record { entries = []; size = 0; alloc_size = 0x20; closed = [] };
}

abbrev imports : List (List ℕ)
imports = (114 ∷ 101 ∷ []) ∷ (109 ∷ []) ∷ (114 ∷ 101 ∷ []) ∷ []

initial-Holds : Holds 1 [] initial
unfolding empty_table address_or
initial-Holds = record {
  plt_count = refl;
  plt_alloc = refl;
  sym_count = refl;
  looked_up = λ s e. refl;
}

initial-HasRoom : HasRoom 3 [] initial
initial-HasRoom = record {
  positive = omega arith;
  addresses = omega arith;
  symbols = omega arith;
  small = omega arith;
}

initial-Written : Written 1 1 7 (null_symbol ∷ []) [] [] initial
unfolding StringsAt symbols_of relas_of total_length
initial-Written = record {
  codes = refl;
  string_size = refl;
  strings = tt;
  symbols = refl;
  relas = refl;
}

initial-HasSpace : HasSpace imports initial
unfolding total_length
initial-HasSpace = record {
  relas = omega arith;
  relas_small = omega arith;
  strings = omega arith;
  strings_small = omega arith;
  blank = λ q h l. refl;
}

import_all-refines_example :
    Holds 1 (intern_all [] imports) (import_all (λ q. 0) 7 initial imports).1
    × Written 1 1 7
        (null_symbol ∷ [])
        []
        (intern_all [] imports)
        (import_all (λ q. 0) 7 initial imports).1
    × ((import_all (λ q. 0) 7 initial imports).0
        ≡ map (λ (s : List ℕ). address_or initial.plt_address (intern_all [] imports) s 0) imports)
import_all-refines_example =
    import_all-refines 1 1 7 (null_symbol ∷ []) [] (λ q. 0) [] initial imports initial-Holds
      initial-HasRoom initial-Written initial-HasSpace

-- The third import is the first one again.
imported_addresses :
    map (λ (s : List ℕ). address_or 0x401000 (intern_all [] imports) s 0) imports
    ≡ 0x401000 ∷ 0x401010 ∷ 0x401000 ∷ []
unfolding address_or intern_all is_member same_string
imported_addresses = refl

-- `libc.so` and `m.so`.
abbrev libraries : List (List ℕ)
libraries = (108 ∷ 105 ∷ 98 ∷ 99 ∷ 46 ∷ 115 ∷ 111 ∷ []) ∷ (109 ∷ 46 ∷ 115 ∷ 111 ∷ []) ∷ []

add_dynstr_entry-Added_example :
    Added empty_strings
      (add_dynstr_entry (λ q. 0) empty_strings (109 ∷ 46 ∷ 115 ∷ 111 ∷ [])).1
      (add_dynstr_entry (λ q. 0) empty_strings (109 ∷ 46 ∷ 115 ∷ 111 ∷ [])).0
      (109 ∷ 46 ∷ 115 ∷ 111 ∷ [])
add_dynstr_entry-Added_example =
    add_dynstr_entry-Added (λ q. 0) empty_strings (109 ∷ 46 ∷ 115 ∷ 111 ∷ []) (λ q h l. refl)
      (omega arith) (omega arith)

libraries-AreNeeded : AreNeeded (λ n. true) 10 libraries
unfolding AreNeeded HasNoZero
libraries-AreNeeded = (
  refl,
  (
    λ h. omega (arith, h),
    (
      λ h. omega (arith, h),
      (
        λ h. omega (arith, h),
        (
          λ h. omega (arith, h),
          (λ h. omega (arith, h), (λ h. omega (arith, h), (λ h. omega (arith, h), tt))),
        ),
      ),
    ),
  ),
  omega arith,
  (
    refl,
    (
      λ h. omega (arith, h),
      (λ h. omega (arith, h), (λ h. omega (arith, h), (λ h. omega (arith, h), tt))),
    ),
    omega arith,
    tt,
  ),
)

needed_values-add_dt_needed_example :
    needed_values 10
      (add_dt_needed
        (λ q. 0)
        (λ n. true)
        (record { dynstr = empty_strings; num = 0 })
        libraries).1.dynstr.bytes
      2
      1
    ≡ some
        (add_dt_needed
          (λ q. 0)
          (λ n. true)
          (record { dynstr = empty_strings; num = 0 })
          libraries).0
unfolding total_length
needed_values-add_dt_needed_example =
    needed_values-add_dt_needed (λ q. 0) (λ n. true) 10 (record { dynstr = empty_strings; num = 0 })
      libraries libraries-AreNeeded (λ q h l. refl) (omega arith) (omega arith)

needed_offsets :
    (add_dt_needed (λ q. 0) (λ n. true) (record { dynstr = empty_strings; num = 0 }) libraries).0
    ≡ 1 ∷ 9 ∷ []
unfolding add_dt_needed add_dynstr_entry
needed_offsets = refl

abbrev sizes : Sizes
sizes = record {
  init_array = 8;
  fini_array = 16;
  dt_hash = 0;
  gnu_hash = 0x40;
  rela_plt = 48;
  plt_got = 2;
  dynsym = 3;
  dynstr = 20;
}

abbrev no_headers : Headers
no_headers = record {
  init_array = 0;
  fini_array = 0;
  dt_hash = 0;
  gnu_hash = 0;
  rela_plt = 0;
  plt_got = 0;
  dynsym = 0;
  dynstr = 0;
}

set_tags-described_example : set_tags sizes no_headers 0x2000 dynamic_entry_tags ≡ (
  described sizes 0x2000,
  record {
    init_array = 8;
    fini_array = 16;
    dt_hash = 0;
    gnu_hash = 0x40;
    rela_plt = 48;
    plt_got = 0x20;
    dynsym = 96;
    dynstr = 20;
  },
  0x2000 + sum_of sizes,
)
unfolding sum_of
set_tags-described_example = set_tags-described sizes no_headers 0x2000 (omega arith) (omega arith)

-- The symbol that fills the area makes the count the size of the area in bytes.
full_area :
    (add_dynsym_entry
      (record { entries = null_symbol ∷ []; size = 1; alloc_size = 48; closed = [] })
      5
      0
      0).size
    ≡ 48
unfolding add_dynsym_entry
full_area = refl
