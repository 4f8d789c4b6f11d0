-- ===== src/Link/Reloc/Tests.antt =====
-- A concrete call of core/link/elf/reloc.c.
use bin_tools.Base.{[], ◌∷◌, ◌≡◌, refl, arith, inl, inr}
use bin_tools.Link.Symbols.Bindings.{empty_table}
use bin_tools.Link.Dynamic.{Dynamic}
use bin_tools.Link.Reloc.{Relocation, Object, RelaEntry, Target, read_word, distance, resolve_new}
use bin_tools.Link.Reloc.Filled.{IsKnown, IsRelative, place, filled, resolve_new-IsRelative}

abbrev tables : Dynamic
tables = record {
  base_address = 0x400000;
  plt_address = 0x401000;
  pltgot = record { entries = []; size = 0; alloc_size = 0; closed = [] };
  dynstr = record { bytes = λ q. 0; size = 1; alloc_size = 0x3000; closed = [] };
  dynsym = record { entries = []; size = 1; alloc_size = 0x48000; closed = [] };
  rela_plt = record { entries = []; size = 0; alloc_size = 0x48000; closed = [] };
  tables = record { export = empty_table 100; dynamic_import = empty_table 10 };
  init_array = record { entries = []; size = 0; alloc_size = 0x20; closed = [] };
  fini_array = record { entries = []; size = 0; alloc_size = 0x20; closed = [] };
}

abbrev blank : Relocation
blank = record {
  memory = λ q. 0;
  dynamic = tables;
  dynamic_num = 0;
  external_num = 0;
  internal_num = 0;
}

-- One exported function.
abbrev one_function : Object
one_function = record {
  symbols = λ i. record { st_info = 18; st_shndx = 1; name = 102 ∷ [] };
  section_addr = λ i. 0x1000;
  exported = λ name. 0x1040;
}

-- A call at offset 5 with the addend -4.
abbrev call : RelaEntry
call = record { r_offset = 5; r_sym = 1; r_type = 4; r_addend = 0xffff_ffff_ffff_fffc }

abbrev text : Target
text = record { sh_offset = 0x7000; sh_addr = 0x1000 }

function-IsKnown : IsKnown one_function (one_function.symbols 1) 0 0x1040
unfolding IsKnown
function-IsKnown = inr (omega arith, refl, omega arith, omega arith, omega arith)

first_distance : distance (filled call text) 0x1040 ≡ 0x37
unfolding distance
first_distance = refl

blank_word : read_word blank.memory (place call text) ≡ 0
unfolding read_word
blank_word = refl

resolve_new-IsRelative_example :
    IsRelative blank call text 0x1040 (resolve_new (λ q. 0) one_function blank call text 0)
resolve_new-IsRelative_example =
    resolve_new-IsRelative (λ q. 0) one_function blank call text 0 0x1040 function-IsKnown
      (inr (inl refl)) blank_word (λ e. omega (arith, first_distance, e)) (omega arith)
