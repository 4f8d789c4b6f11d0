-- ===== src/Link/Emit/Tests.antt =====
-- A small file for core/link/elf/emit.c, as what is written behind the place of a seek.
use bin_tools.Base.{
  ℕ, zero, suc, true, false, List, [], ◌∷◌, some, length, same_string, ◌≡◌, refl, arith,
}
use bin_tools.Link.Layout.{Container, set_addresses, elf_set_virtual_address}
use bin_tools.Link.Layout.Ordered.{AreFresh, total, total_size}
use bin_tools.Link.Files.{place, add, place-add, place_at, seek-place_at}
use bin_tools.Link.Emit.{
  EmitConfig, Ehdr, Phdr, RawContainer, set_elf_default_config, elf_header, fixed_program_headers,
  write_headers, gen_elf, start_layout, start_config, dynamic_name,
}
use bin_tools.Link.Emit.Packed.{IsFilled, CarryFirst, FirstAtAddress, gen_elf-set_addresses}
use bin_tools.Link.Emit.Headers.{write_headers-tail}

abbrev zeros : ℕ → List ℕ
zeros zero = []
zeros (suc n) = 0 ∷ zeros n

length-zeros : (n : ℕ) → length (zeros n) ≡ n
length-zeros zero = refl
length-zeros (suc n) = omega (arith, length-zeros n)

-- A library with the interpreter `ld`.
abbrev config : EmitConfig
config = record {
  outfile_type = 3;
  base_address = 0x400000;
  out_size = 0x1000;
  bss_size = 0x20;
  entry_address = 0;
  program_header_num = 0;
  program_header_tail = 0;
  dynamic_entry_num = 0;
  no_interp = false;
  interp_name = some (108 ∷ 100 ∷ []);
  output_vaddr_alignment = 0x20;
  shdr_num = 7;
  nbucket = 0;
  bloom_size = 0;
  bloom_shift = 0;
  use_dt_hash = true;
  use_gnu_hash = false;
}

entry_behind_headers : (start_config (set_elf_default_config config false)).entry_address ≡ 291
unfolding start_config set_elf_default_config
entry_behind_headers = refl

write_headers-tail_example :
    (place (
        write_headers place add
          (λ (h : Ehdr). zeros 64)
          (λ (h : Phdr). zeros 56)
          (set_elf_default_config config false)
          (0, [])
          0x100
          0)
      ≡ (set_elf_default_config config false).program_header_tail)
    × (length (fixed_program_headers (set_elf_default_config config false) 0x100 0)
        ≡ (elf_header (set_elf_default_config config false)).e_phnum)
write_headers-tail_example =
    write_headers-tail place add place-add (λ (h : Ehdr). zeros 64) (λ (h : Ehdr). length-zeros 64)
      (λ (h : Phdr). zeros 56) (λ (h : Phdr). length-zeros 56) config false (0, []) 0x100 refl

-- Two sections of code, one of data, and `.plt.got`, which is empty when the addresses are given.
abbrev containers : List Container
containers =
    record {
      virtual_address = 0;
      size = 0;
      chains = record { sh_size = 2; sh_addr = 0 } ∷ record { sh_size = 0; sh_addr = 0 } ∷ [];
    }
    ∷ record { virtual_address = 0; size = 0; chains = record { sh_size = 3; sh_addr = 0 } ∷ [] }
    ∷ record { virtual_address = 0; size = 0; chains = record { sh_size = 0; sh_addr = 0 } ∷ [] }
    ∷ []

-- A container with one section that is written in whole.
abbrev one_raw : (name contents : List ℕ) → (sh_addr : ℕ) → RawContainer
one_raw name contents sh_addr = record {
  name = name;
  raws =
      record {
        section = record { sh_size = length contents; sh_addr = sh_addr };
        contents = contents;
        file_offset = 0;
      }
      ∷ [];
}

-- What is written: the first two containers as they are laid out, `.plt.got` with one entry, and
-- `.dynamic` behind it.
abbrev raw_containers : List RawContainer
raw_containers =
    record {
      name = 46 ∷ 116 ∷ [];
      raws =
          record {
            section = record { sh_size = 2; sh_addr = 291 };
            contents = 1 ∷ 2 ∷ [];
            file_offset = 0;
          }
          ∷ record {
            section = record { sh_size = 0; sh_addr = 293 };
            contents = [];
            file_offset = 0;
          }
          ∷ [];
    }
    ∷ one_raw (46 ∷ 100 ∷ []) (3 ∷ 4 ∷ 5 ∷ []) 293
    ∷ one_raw (46 ∷ 112 ∷ []) (zeros 16) 296
    ∷ one_raw dynamic_name (zeros 32) 0
    ∷ []

dynamic_found :
    (gen_elf place add place_at
      (λ (h : Ehdr). zeros 64)
      (λ (h : Phdr). zeros 56)
      (set_elf_default_config config false)
      (0, [])
      raw_containers).0.dynamic_offset
    ≡ 312
unfolding gen_elf set_elf_default_config same_string
dynamic_found = refl

gen_elf-set_addresses_example :
    FirstAtAddress 2
      (set_elf_default_config config false).base_address
      (gen_elf place add place_at
        (λ (h : Ehdr). zeros 64)
        (λ (h : Phdr). zeros 56)
        (set_elf_default_config config false)
        (0, [])
        raw_containers).1
unfolding set_elf_default_config AreFresh total total_size CarryFirst IsFilled set_addresses
    elf_set_virtual_address start_layout
gen_elf-set_addresses_example =
    gen_elf-set_addresses place add place-add place_at seek-place_at (λ (h : Ehdr). zeros 64)
      (λ (h : Phdr). zeros 56) config false 0 2 (0, []) containers raw_containers
      (refl, (refl, (refl, tt))) (omega arith) (refl, (refl, (refl, tt)), (refl, (refl, tt), tt))
