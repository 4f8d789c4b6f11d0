-- ===== src/Link/Layout/Tests.antt =====
-- A concrete layout for core/link/elf/reloc.c.
use bin_tools.Base.{◌+◌, ◌≤◌, List, [], ◌∷◌, ◌≡◌, refl, arith}
use bin_tools.Link.Layout.{
  Container, Layout, set_addresses, elf_set_virtual_address, count_program_header,
}
use bin_tools.Link.Layout.Ordered.{set_addresses-apart, placed, AreFresh, total, total_size}

abbrev start : Layout
start = record {
  program_header_num = 3;
  virtual_address_offset = 0x1000;
  output_vaddr_alignment = 0x10;
  plt_offset = 0;
}

-- `.text` of two files, an empty container, and `.data` of one file.
abbrev containers : List Container
containers =
    record {
      virtual_address = 0;
      size = 0;
      chains = record { sh_size = 0x20; sh_addr = 0 } ∷ record { sh_size = 0x8; sh_addr = 0 } ∷ [];
    }
    ∷ record { virtual_address = 0; size = 0; chains = [] }
    ∷ record { virtual_address = 0; size = 0; chains = record { sh_size = 0x40; sh_addr = 0 } ∷ [] }
    ∷ []

laid_out :
    placed (set_addresses elf_set_virtual_address start containers).1
    ≡ record { sh_size = 0x20; sh_addr = 0x1000 }
      ∷ record { sh_size = 0x8; sh_addr = 0x1020 }
      ∷ record { sh_size = 0x40; sh_addr = 0x1038 }
      ∷ []
unfolding set_addresses elf_set_virtual_address placed
laid_out = refl

set_addresses-apart_example :
    (0x1000 ≤ 0x1020)
    × (0x1020 + 0x8 ≤ 0x1038)
    × (0x1038 + 0x40
        ≤ (set_addresses elf_set_virtual_address start containers).0.virtual_address_offset)
unfolding set_addresses elf_set_virtual_address placed AreFresh total total_size
set_addresses-apart_example =
    set_addresses-apart start containers 1 2 (record { sh_size = 0x8; sh_addr = 0x1020 })
      (record { sh_size = 0x40; sh_addr = 0x1038 }) (refl, (refl, (refl, tt))) (omega arith)
      (omega arith) refl refl

header_room : (count_program_header start).virtual_address_offset ≡ 0x10e8
unfolding count_program_header
header_room = refl
