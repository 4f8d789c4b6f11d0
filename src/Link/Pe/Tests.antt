-- ===== src/Link/Pe/Tests.antt =====
-- A small image for core/link/coff/emit.c.
use bin_tools.Base.{same_string, ◌+◌, ◌-◌, ◌≤◌, false, List, [], ◌∷◌, ◌≡◌, refl, arith}
use bin_tools.Link.Files.{Written, place, add, place-add, place_at, seek-place_at}
use bin_tools.Link.Layout.{Container, Layout, set_addresses, coff_set_virtual_address}
use bin_tools.Link.Layout.Ordered.{AreFresh, total, total_size}
use bin_tools.Link.Emit.{RawContainer}
use bin_tools.Link.Emit.Packed.{IsFilled, Carry, AllAtAddress}
use bin_tools.Link.Pe.{
  PeConfig, set_coff_default_config, FileHeader, OptionalHeader, SectionHeader, Formats, emit_dos,
  Image, set_image_directory_entry, edata_name,
}
use bin_tools.Link.Pe.Sizes.{IsUncounted}
use bin_tools.Link.Pe.Mapped.{emit_dos-set_addresses}

abbrev config : PeConfig
config = record {
  pe32 = false;
  outfile_type = 0;
  base_address = 0;
  entry_address = 0;
  virtual_address_offset = 0;
  shdr_num = 0;
  header_size = 0;
  out_size = 0;
  use_dt_hash = false;
  use_gnu_hash = false;
}

config-IsUncounted : IsUncounted config
config-IsUncounted = record { not_pe32 = refl; no_header = refl; no_out = refl }

-- The headers are marked by one byte each.
abbrev formats : Formats
formats = record {
  dos_header = 77 ∷ 90 ∷ [];
  signature = 80 ∷ 69 ∷ [];
  file_header = λ (h : FileHeader). 1 ∷ [];
  optional = λ (h : OptionalHeader). 2 ∷ [];
  section = λ (h : SectionHeader). 3 ∷ [];
}

abbrev layout : Layout
layout = record {
  program_header_num = 0;
  virtual_address_offset = 0x1000;
  output_vaddr_alignment = 0;
  plt_offset = 0;
}

abbrev containers : List Container
containers =
    record { virtual_address = 0; size = 0; chains = [] }
    ∷ record {
      virtual_address = 0;
      size = 0;
      chains = record { sh_size = 2; sh_addr = 0 } ∷ record { sh_size = 1; sh_addr = 0 } ∷ [];
    }
    ∷ []

abbrev raw_containers : List RawContainer
raw_containers =
    record { name = []; raws = [] }
    ∷ record {
      name = 46 ∷ 116 ∷ [];
      raws =
          record {
            section = record { sh_size = 2; sh_addr = 0x1000 };
            contents = 1 ∷ 2 ∷ [];
            file_offset = 0;
          }
          ∷ record {
            section = record { sh_size = 1; sh_addr = 0x1002 };
            contents = 3 ∷ [];
            file_offset = 0;
          }
          ∷ [];
    }
    ∷ []

abbrev image : Image Written
image =
    emit_dos place add place_at formats (set_coff_default_config config) (0, [])
      (set_addresses coff_set_virtual_address layout containers).1 [] raw_containers

directory_found :
    (set_image_directory_entry
      (record { export = (0, 0); import = (0, 0) })
      (record {
        name = edata_name;
        virtual_address = 0x1000;
        size_of_raw_data = 9;
        virtual_size = 0;
      }
        ∷ [])).export
    ≡ (0x1000, 9)
unfolding set_image_directory_entry same_string
directory_found = refl

emit_dos-set_addresses_example :
    AllAtAddress (image.section.virtual_address - image.section.pointer_to_raw_data) image.written
    × (place image.file ≡ image.section.pointer_to_raw_data + image.section.size_of_raw_data)
    × (image.section.virtual_address + image.section.virtual_size ≤ image.header.size_of_image)
unfolding set_coff_default_config AreFresh total total_size Carry IsFilled set_addresses
    coff_set_virtual_address
emit_dos-set_addresses_example =
    emit_dos-set_addresses place add place-add place_at seek-place_at formats config (0, []) layout
      containers [] raw_containers config-IsUncounted refl (refl, (refl, tt)) (omega arith)
      (refl, tt, (refl, (refl, (refl, tt)), tt))
