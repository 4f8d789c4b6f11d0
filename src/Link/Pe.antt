-- ===== src/Link/Pe.antt =====
-- The executable for Windows that core/link/coff/emit.c writes, with the default configuration of
-- tools/zld.c. `write` and `position` are as for ELF files, and `seek` moves to a place. Sizes are not
-- negative and their sums below 2 ^ 31 are exact. A header is the record of the fields that are set.
pub mod Sizes
pub mod Mapped
mod Tests
use bin_tools.Base.{
  ℕ, ◌+◌, ◌-◌, ◌*◌, ◌/◌, ◌^◌, Bool, true, false, ◌||◌, List, [], ◌∷◌, ◌++◌, u32, bit_or, ◌==◌,
  if◌then◌else◌, same_string,
}
use bin_tools.Link.Layout.{Container}
use bin_tools.Link.Emit.{Raw, RawContainer, write_raws}

-- `pe32` is the test of the file format for `PE32`.
pub record PeConfig : Type 0 where
  pub pe32 : Bool
  pub outfile_type : ℕ
  pub base_address : ℕ
  pub entry_address : ℕ
  pub virtual_address_offset : ℕ
  pub shdr_num : ℕ
  pub header_size : ℕ
  pub out_size : ℕ
  pub use_dt_hash : Bool
  pub use_gnu_hash : Bool

-- Type 0 is no type, 2 is `PE_EXEC` and 3 is `PE_DLL`; the name of the file and the parameters of the hash
-- table are left out.
unfoldable pub set_coff_default_config : PeConfig → PeConfig
set_coff_default_config c =
    let type = if c.outfile_type == 0 then 2 else c.outfile_type in
    record c {
      outfile_type = type;
      base_address = if type == 3 then 0 else 0x40000;
      use_gnu_hash = if c.use_dt_hash then c.use_gnu_hash else true;
      virtual_address_offset = 0x1000;
      shdr_num = 1;
      entry_address = if c.entry_address == 0 then 0x1000 else c.entry_address;
      use_dt_hash = true;
    }

-- `(n + (a - 1)) & -a` for a power of two.
abbrev pub round_up : (a n : ℕ) → ℕ
round_up a n = (n + (a - 1)) / a * a

-- The sizes of the headers are 64, 4, 20, 240 and, for each section, 40.
unfoldable pub get_header_size : PeConfig → ℕ × PeConfig
get_header_size c =
    let size = 64 + 4 + 20 + 240 + 40 * c.shdr_num in
    let rounded = round_up 0x200 (if c.pe32 then size - 0x10 else size) in
    if c.header_size == 0 then (rounded, record c { header_size = rounded }) else (c.header_size, c)

-- The loop over the containers.
unfoldable pub sizes : List Container → ℕ
sizes [] = 0
sizes (sc ∷ scs) = sc.size + sizes scs

unfoldable pub get_out_size : PeConfig → List Container → ℕ × PeConfig
unfolding sizes get_header_size
get_out_size c scs = let header = get_header_size c in (sizes scs + header.0, header.1)

pub record FileHeader : Type 0 where
  pub machine : ℕ
  pub number_of_sections : ℕ
  pub pointer_to_symbol_table : ℕ
  pub number_of_symbols : ℕ
  pub size_of_optional_header : ℕ
  pub characteristics : ℕ

unfoldable pub image_file_header : PeConfig → (symbol_table_pointer symbol_num : ℕ) → FileHeader
image_file_header c symbol_table_pointer symbol_num =
    let is_image = c.outfile_type == 2 || c.outfile_type == 3 in
    let plain = if is_image then (if c.pe32 then 0x32f else 0x22f) else 0 in
    record {
      machine = if c.pe32 then 0x14c else 0x8664;
      number_of_sections = 1;
      pointer_to_symbol_table = if c.outfile_type == 1 then symbol_table_pointer else 0;
      number_of_symbols = if c.outfile_type == 1 then symbol_num else 0;
      size_of_optional_header = if is_image then (if c.pe32 then 224 else 240) else 0;
      characteristics = if c.outfile_type == 3 then bit_or plain 0x2000 else plain;
    }

-- A section header of an input file, as far as the directories are filled from it.
pub record Named : Type 0 where
  pub name : List ℕ
  pub virtual_address : ℕ
  pub size_of_raw_data : ℕ
  pub virtual_size : ℕ

-- The first two entries of the data directory, each an address and a size.
pub record Directories : Type 0 where
  pub export : ℕ × ℕ
  pub import : ℕ × ℕ

abbrev pub entry_of : Named → ℕ × ℕ
entry_of n = (n.virtual_address, if n.virtual_size == 0 then n.size_of_raw_data else n.virtual_size)

-- `.edata` and `.idata`
abbrev pub edata_name : List ℕ
edata_name = 46 ∷ 101 ∷ 100 ∷ 97 ∷ 116 ∷ 97 ∷ []

abbrev pub idata_name : List ℕ
idata_name = 46 ∷ 105 ∷ 100 ∷ 97 ∷ 116 ∷ 97 ∷ []

-- The loops over all sections of all containers.
unfoldable pub set_image_directory_entry : Directories → List Named → Directories
set_image_directory_entry d [] = d
set_image_directory_entry d (n ∷ ns) =
    set_image_directory_entry
      (record {
        export = if same_string n.name edata_name then entry_of n else d.export;
        import = if same_string n.name idata_name then entry_of n else d.import;
      })
      ns

pub record OptionalHeader : Type 0 where
  pub magic : ℕ
  pub size_of_code : ℕ
  pub address_of_entry_point : ℕ
  pub base_of_code : ℕ
  pub image_base : ℕ
  pub section_alignment : ℕ
  pub file_alignment : ℕ
  pub major_operating_system_version : ℕ
  pub major_subsystem_version : ℕ
  pub size_of_image : ℕ
  pub size_of_headers : ℕ
  pub subsystem : ℕ
  pub number_of_rva_and_sizes : ℕ
  pub directories : Directories

-- For 32-bit files the field of the image base holds two words, of which the second one stays 0.
unfoldable pub optional_header : PeConfig → List Container → List Named → OptionalHeader × PeConfig
unfolding get_out_size get_header_size set_image_directory_entry
optional_header c scs names =
    let out = get_out_size c scs in
    let counted = out.1 in
    let c' = if c.out_size == 0 then record counted { out_size = out.0 } else c in
    let headers = get_header_size c' in
    (
      record {
        magic = if c.pe32 then 0x10b else 0x20b;
        size_of_code = c'.out_size;
        address_of_entry_point = if c.entry_address == 0 then 0x1000 else c.entry_address;
        base_of_code = 0x1000;
        image_base = if c.pe32 then 0x1000 else c.base_address;
        section_alignment = 0x1000;
        file_alignment = 0x200;
        major_operating_system_version = 6;
        major_subsystem_version = 6;
        size_of_image = (c'.out_size + (2 * 0x1000 - 1)) / 0x1000 * 0x1000;
        size_of_headers = headers.0;
        subsystem = 3;
        number_of_rva_and_sizes = 0x10;
        directories = set_image_directory_entry (record { export = (0, 0); import = (0, 0) }) names;
      },
      headers.1,
    )

pub record SectionHeader : Type 0 where
  pub virtual_address : ℕ
  pub virtual_size : ℕ
  pub size_of_raw_data : ℕ
  pub pointer_to_raw_data : ℕ
  pub characteristics : ℕ

-- `write_a_section`: the whole output is one section that is executed, read and written.
unfoldable pub a_section : PeConfig → SectionHeader
a_section c = record {
  virtual_address = 0x1000;
  virtual_size = c.out_size - c.header_size;
  size_of_raw_data = c.out_size - c.header_size;
  pointer_to_raw_data = c.header_size;
  characteristics = 0xe000_0000;
}

-- The bytes of the headers.
pub record Formats : Type 0 where
  pub dos_header : List ℕ
  pub signature : List ℕ
  pub file_header : FileHeader → List ℕ
  pub optional : OptionalHeader → List ℕ
  pub section : SectionHeader → List ℕ

-- What is written, and with which headers.
pub record Image (F : Type 0) : Type 0 where
  pub file : F
  pub header : OptionalHeader
  pub section : SectionHeader
  pub written : List RawContainer

module _ {F : Type 0} (position : F → ℕ) (write : F → List ℕ → F) where
  -- `write_raw_data` for all containers, in order; `file_offset` is the variable `fp` of its loop.
  unfoldable pub write_all : F → List RawContainer → F × List RawContainer
  unfolding write_raws
  write_all f [] = (f, [])
  write_all f (rc ∷ rcs) =
      let one = write_raws position write f rc.raws in
      let rest = write_all one.0 rcs in (rest.0, record rc { raws = one.1 } ∷ rest.1)

  unfoldable pub emit_dos :
      (seek : F → ℕ → F)
      → Formats
      → PeConfig
      → (created : F) → List Container
      → List Named
      → List RawContainer
      → Image F
  unfolding write_all optional_header a_section image_file_header
  emit_dos seek formats c created scs names rcs =
      let optional = optional_header c scs names in
      let section = a_section optional.1 in
      let signed = write (write created formats.dos_header) formats.signature in
      let filed = write signed (formats.file_header (image_file_header c 0 0)) in
      let headed = write (write filed (formats.optional optional.0)) (formats.section section) in
      let out = write_all (seek headed 0x200) rcs in
      record { file = out.0; header = optional.0; section = section; written = out.1 }
