-- ===== src/Link/Emit.antt =====
-- The ELF file that core/link/elf/emit.c writes, with the default configuration of tools/zld.c.
-- `write` is `__os__write` to the file, a system call, and `position` is what `__os__seek` by 0
-- gives; `seek` moves to a place.
-- A header is the record of its fields; how its bytes are laid out is a parameter. Offsets and sizes
-- are not negative, and their sums are exact.
mod Config
pub mod Packed
pub mod Headers
mod Tests
unfoldable pub use Config.*
use bin_tools.Base.{
  ℕ, ◌+◌, ◌*◌, Bool, true, List, [], ◌∷◌, ◌++◌, Option, none, some, length, u16, u32, ◌==◌,
  if◌then◌else◌, same_string,
}
use bin_tools.Link.Layout.{Placed, Layout}

pub record Ehdr : Type 0 where
  pub e_ident : List ℕ
  pub e_type : ℕ
  pub e_machine : ℕ
  pub e_version : ℕ
  pub e_entry : ℕ
  pub e_phoff : ℕ
  pub e_shoff : ℕ
  pub e_flags : ℕ
  pub e_ehsize : ℕ
  pub e_phentsize : ℕ
  pub e_phnum : ℕ
  pub e_shentsize : ℕ
  pub e_shnum : ℕ
  pub e_shstrndx : ℕ

pub record Phdr : Type 0 where
  pub p_type : ℕ
  pub p_flags : ℕ
  pub p_offset : ℕ
  pub p_vaddr : ℕ
  pub p_paddr : ℕ
  pub p_filesz : ℕ
  pub p_memsz : ℕ
  pub p_align : ℕ

-- Bytes 7 to 15 of the identification, `e_shnum` and, in this call, `e_shoff` are left as they are
-- in fresh memory, which is zero.
unfoldable pub elf_header : EmitConfig → Ehdr
elf_header c = record {
  e_ident = 0x7f ∷ 69 ∷ 76 ∷ 70 ∷ 2 ∷ 1 ∷ 1 ∷ 0 ∷ 0 ∷ 0 ∷ 0 ∷ 0 ∷ 0 ∷ 0 ∷ 0 ∷ 0 ∷ [];
  e_type = u16 c.outfile_type;
  e_machine = 0x3e;
  e_version = 1;
  e_entry = c.entry_address;
  e_phoff = 64;
  e_shoff = 0;
  e_flags = 0;
  e_ehsize = 64;
  e_phentsize = 56;
  e_phnum = u16 c.program_header_num;
  e_shentsize = 64;
  e_shnum = 0;
  e_shstrndx = 0;
}

-- A header for the bytes at an offset of the file, which are mapped at the base address.
abbrev pub at_offset : EmitConfig → (type flags offset size align : ℕ) → Phdr
at_offset c type flags offset size align = record {
  p_type = type;
  p_flags = flags;
  p_offset = offset;
  p_vaddr = c.base_address + offset;
  p_paddr = c.base_address + offset;
  p_filesz = size;
  p_memsz = size;
  p_align = align;
}

-- `PT_PHDR` is 6, `PT_INTERP` is 3, `PT_LOAD` is 1, `PT_DYNAMIC` is 2 and `PT_GNU_PROPERTY` is
-- 0x6474e553; the files that are packed are left out, since the linker loops for them.
unfoldable pub fixed_program_headers :
    EmitConfig → (dynamic_offset gnu_property_offset : ℕ) → List Phdr
fixed_program_headers c dynamic_offset gnu_property_offset =
    let size = c.program_header_num * 56 in
    let interp = at_offset c 3 6 (64 + size) 0x1c 1 in
    let load : Phdr = record {
      p_type = 1;
      p_flags = 7;
      p_offset = 0;
      p_vaddr = c.base_address;
      p_paddr = c.base_address;
      p_filesz = c.out_size;
      p_memsz = c.out_size + c.bss_size;
      p_align = 0x200000;
    } in
    let dynamic = at_offset c 2 6 dynamic_offset (c.dynamic_entry_num * 16) 8 in
    let property = at_offset c 0x6474_e553 6 gnu_property_offset (c.dynamic_entry_num * 16) 8 in
    at_offset c 6 6 64 size 8 ∷ (if c.no_interp then load ∷ [] else interp ∷ load ∷ [])
    ++ (if gnu_property_offset == 0 then dynamic ∷ [] else dynamic ∷ property ∷ [])

-- A section of an input file with its contents, and where they are written.
pub record Raw : Type 0 where
  pub section : Placed
  pub contents : List ℕ
  pub file_offset : ℕ

pub record RawContainer : Type 0 where
  pub name : List ℕ
  pub raws : List Raw

-- What the emission keeps in variables.
pub record Emitted (F : Type 0) : Type 0 where
  pub file : F
  pub dynamic_offset : ℕ
  pub gnu_property_offset : ℕ
  pub shdr_num : ℕ

-- `.dynamic` and `.note.gnu.property`
abbrev pub dynamic_name : List ℕ
dynamic_name = 46 ∷ 100 ∷ 121 ∷ 110 ∷ 97 ∷ 109 ∷ 105 ∷ 99 ∷ []

abbrev pub gnu_property_name : List ℕ
gnu_property_name =
    46 ∷ 110 ∷ 111 ∷ 116 ∷ 101 ∷ 46 ∷ 103 ∷ 110 ∷ 117 ∷ 46 ∷ 112 ∷ 114 ∷ 111 ∷ 112 ∷ 101 ∷ 114 ∷ 116
    ∷ 121 ∷ []

module _ {F : Type 0} (position : F → ℕ) (write : F → List ℕ → F) where
  -- The loop over the sections of a container.
  unfoldable pub write_raws : F → List Raw → F × List Raw
  write_raws f [] = (f, [])
  write_raws f (r ∷ rs) =
      let f' = if r.section.sh_size == 0 then f else write f r.contents in
      let rest = write_raws f' rs in (rest.0, record r { file_offset = position f } ∷ rest.1)

  unfoldable pub write_raw_data : Emitted F → RawContainer → Emitted F × RawContainer
  unfolding write_raws
  write_raw_data e sc = elim sc.raws [
    | [] ↦ (record e { shdr_num = e.shdr_num + 1 }, sc)
    | r ∷ rs ↦
        let cp = position e.file in
        let written = write_raws e.file (r ∷ rs) in
        (
          record {
            file = written.0;
            dynamic_offset = if same_string sc.name dynamic_name then cp else e.dynamic_offset;
            gnu_property_offset =
                if same_string sc.name gnu_property_name then cp else e.gnu_property_offset;
            shdr_num = e.shdr_num + 1;
          },
          record sc { raws = written.1 },
        )
  ]

  -- The calls for all containers, in order.
  unfoldable pub write_containers : Emitted F → List RawContainer → Emitted F × List RawContainer
  unfolding write_raw_data
  write_containers e [] = (e, [])
  write_containers e (sc ∷ scs) =
      let one = write_raw_data e sc in
      let rest = write_containers one.0 scs in (rest.0, one.1 ∷ rest.1)

  -- The program headers one behind the other.
  unfoldable pub write_phdrs : (Phdr → List ℕ) → F → List Phdr → F
  write_phdrs bytes_of f [] = f
  write_phdrs bytes_of f (p ∷ ps) = write_phdrs bytes_of (write f (bytes_of p)) ps

  -- The headers from the beginning of the file on, and the name of the interpreter.
  unfoldable pub write_headers :
      (Ehdr → List ℕ)
      → (Phdr → List ℕ)
      → EmitConfig
      → (start : F) → (dynamic_offset gnu_property_offset : ℕ) → F
  unfolding elf_header fixed_program_headers write_phdrs
  write_headers ehdr_bytes phdr_bytes c start dynamic_offset gnu_property_offset =
      let headed = write start (ehdr_bytes (elf_header c)) in
      let f =
        write_phdrs phdr_bytes headed
          (fixed_program_headers c dynamic_offset gnu_property_offset) in
      if c.no_interp then f else write f (text_of c.interp_name ++ 0 ∷ [])

  -- The whole file: the sections from behind the headers on, then the headers.
  unfoldable pub gen_elf :
      (seek : F → ℕ → F)
      → (Ehdr → List ℕ)
      → (Phdr → List ℕ)
      → EmitConfig
      → (created : F) → List RawContainer
      → Emitted F × List RawContainer
  unfolding write_containers write_headers
  gen_elf seek ehdr_bytes phdr_bytes c created scs =
      let written =
        write_containers
          (record {
            file = seek created c.program_header_tail;
            dynamic_offset = 0;
            gnu_property_offset = 0;
            shdr_num = c.shdr_num;
          })
          scs in
      let e = written.0 in
      (
        record e {
          file =
              write_headers ehdr_bytes phdr_bytes c (seek e.file 0) e.dynamic_offset
                e.gnu_property_offset;
        },
        written.1,
      )
