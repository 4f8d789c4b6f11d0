-- ===== src/Link/Emit/Config.antt =====
-- The part of the configuration that the output uses, with the defaults of tools/zld.c for ELF files.
use bin_tools.Base.{
  ℕ, ◌+◌, ◌*◌, Bool, true, List, [], ◌∷◌, Option, none, some, length, u32, ◌==◌, if◌then◌else◌,
}
use bin_tools.Link.Layout.{Layout}

-- The configuration that the headers are written from.
pub record EmitConfig : Type 0 where
  pub outfile_type : ℕ
  pub base_address : ℕ
  pub out_size : ℕ
  pub bss_size : ℕ
  pub entry_address : ℕ
  pub program_header_num : ℕ
  pub program_header_tail : ℕ
  pub dynamic_entry_num : ℕ
  pub no_interp : Bool
  pub interp_name : Option (List ℕ)
  pub output_vaddr_alignment : ℕ
  pub shdr_num : ℕ
  pub nbucket : ℕ
  pub bloom_size : ℕ
  pub bloom_shift : ℕ
  pub use_dt_hash : Bool
  pub use_gnu_hash : Bool

-- `/lib64/ld-linux-x86-64.so.3`
abbrev pub default_ld_name : List ℕ
default_ld_name =
    47 ∷ 108 ∷ 105 ∷ 98 ∷ 54 ∷ 52 ∷ 47 ∷ 108 ∷ 100 ∷ 45 ∷ 108 ∷ 105 ∷ 110 ∷ 117 ∷ 120 ∷ 45 ∷ 120
    ∷ 56 ∷ 54 ∷ 45 ∷ 54 ∷ 52 ∷ 46 ∷ 115 ∷ 111 ∷ 46 ∷ 51 ∷ []

-- A name without its closing zero; there is none for a null pointer.
abbrev pub text_of : Option (List ℕ) → List ℕ
text_of none = []
text_of (some name) = name

abbrev pub name_or_default : Option (List ℕ) → Option (List ℕ)
name_or_default none = some default_ld_name
name_or_default (some name) = some name

-- Type 0 is no type, 2 is `ET_EXEC` and 3 is `ET_DYN`; the name of the file is left out.
unfoldable pub set_elf_default_config : EmitConfig → (nodynamic : Bool) → EmitConfig
set_elf_default_config c nodynamic =
    let type = if c.outfile_type == 0 then 2 else c.outfile_type in
    let name = name_or_default c.interp_name in
    record c {
      outfile_type = type;
      base_address = if type == 3 then 0 else c.base_address;
      program_header_num = if c.no_interp then 3 else 4;
      program_header_tail =
          if c.no_interp then 64 + 3 * 56 else 64 + 3 * 56 + 56 + (length (text_of name) + 1);
      interp_name = if c.no_interp then c.interp_name else name;
      dynamic_entry_num = if nodynamic then 1 else 13;
      output_vaddr_alignment = 0;
      shdr_num = 0;
      nbucket = 1;
      bloom_size = 2;
      bloom_shift = 5;
      use_gnu_hash = if c.use_dt_hash then c.use_gnu_hash else true;
    }

-- What the task begins with: the first address behind the headers, which is the entry address if
-- there is none.
unfoldable pub start_config : EmitConfig → EmitConfig
start_config c = record c {
  entry_address =
      if c.entry_address == 0
      then u32 (c.base_address + c.program_header_tail)
      else c.entry_address;
}

unfoldable pub start_layout : EmitConfig → (plt_offset : ℕ) → Layout
start_layout c plt_offset = record {
  program_header_num = c.program_header_num;
  virtual_address_offset = u32 (c.base_address + c.program_header_tail);
  output_vaddr_alignment = c.output_vaddr_alignment;
  plt_offset = plt_offset;
}
