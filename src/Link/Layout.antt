-- ===== src/Link/Layout.antt =====
-- The addresses of sections: `elf_set_virtual_address` of core/link/elf/reloc.c, and
-- `coff_set_virtual_address` of core/link/coff/callback.c, over all containers. The offset of the
-- configuration is a signed 32-bit number and is written as an unsigned one.
pub mod Ordered
mod Tests
use bin_tools.Base.{ℕ, ◌+◌, ◌*◌, List, [], ◌∷◌, ◌++◌, u32, ◌==◌, if◌then◌else◌}

-- A section of an input file with the address that it gets.
pub record Placed : Type 0 where
  pub sh_size : ℕ
  pub sh_addr : ℕ

pub record Container : Type 0 where
  pub virtual_address : ℕ
  pub size : ℕ
  pub chains : List Placed

pub record Layout : Type 0 where
  pub program_header_num : ℕ
  pub virtual_address_offset : ℕ
  pub output_vaddr_alignment : ℕ
  pub plt_offset : ℕ

-- An ELF header has 0x40 bytes and a program header 0x38.
unfoldable pub count_program_header : Layout → Layout
count_program_header l = record l {
  virtual_address_offset = u32 (l.virtual_address_offset + (l.program_header_num * 0x38 + 0x40));
}

-- The loop over the sections of a container, with the size of the container so far.
unfoldable pub place_chains : (offset size : ℕ) → List Placed → List Placed
place_chains offset size [] = []
place_chains offset size (c ∷ cs) =
    record { sh_size = c.sh_size; sh_addr = u32 (offset + size) }
    ∷ place_chains offset (u32 (size + c.sh_size)) cs

unfoldable pub size_after : ℕ → List Placed → ℕ
size_after size [] = size
size_after size (c ∷ cs) = size_after (u32 (size + c.sh_size)) cs

unfoldable pub elf_set_virtual_address : Layout → Container → Layout × Container
unfolding place_chains size_after
elf_set_virtual_address l sc = elim sc.chains [
  | [] ↦ (l, sc)
  | c ∷ cs ↦ (
    record l {
      virtual_address_offset =
          u32 (l.virtual_address_offset + (l.output_vaddr_alignment + size_after sc.size (c ∷ cs)));
    },
    record {
      virtual_address =
          if sc.virtual_address == 0 then l.virtual_address_offset else sc.virtual_address;
      size = size_after sc.size (c ∷ cs);
      chains = place_chains l.virtual_address_offset sc.size (c ∷ cs);
    },
  )
]

unfoldable pub coff_set_virtual_address : Layout → Container → Layout × Container
unfolding place_chains size_after
coff_set_virtual_address l sc = elim sc.chains [
  | [] ↦ (l, sc)
  | c ∷ cs ↦
      let offset = u32 (l.virtual_address_offset + size_after 0 (c ∷ cs)) in
      (
        record l { virtual_address_offset = offset; plt_offset = offset },
        record {
          virtual_address = l.virtual_address_offset;
          size = size_after 0 (c ∷ cs);
          chains = place_chains l.virtual_address_offset 0 (c ∷ cs);
        },
      )
]

-- The calls of `f` for all the containers, in order.
unfoldable pub set_addresses :
    (Layout → Container → Layout × Container) → Layout → List Container → Layout × List Container
set_addresses f l [] = (l, [])
set_addresses f l (sc ∷ scs) =
    let first = f l sc in let rest = set_addresses f first.0 scs in (rest.0, first.1 ∷ rest.1)
