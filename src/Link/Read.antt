-- ===== src/Link/Read.antt =====
-- Reading the section headers of a 64-bit ELF object: the callback of core/link/elf/callback.c, on the lists of
-- core/link/section.c. A header is known by its number in the table and by the address `p` of its entry;
-- `malloc` gives the address of each call of `__malloc` by its number and size.
pub mod Containers
pub mod Merged
mod Tests
use bin_tools.Base.{
  ℕ, zero, suc, ◌+◌, ◌*◌, ◌/◌, Bool, true, false, ◌&&◌, not, List, [], ◌∷◌, ◌++◌, length, Option,
  none, some, u32, u64, ◌==◌, if◌then◌else◌, same_string, update,
}
use bin_tools.Link.Section.{
  SectionContainer, Config, is_named, alloc_section_container, alloc_obj_chain, alloc_section_chain,
}
use bin_tools.Link.Reloc.{RelocationChain, alloc_reloc_chain}
use bin_tools.Link.Emit.{gnu_property_name}

pub record Header : Type 0 where
  pub p : ℕ
  pub number : ℕ
  pub name : List ℕ
  pub sh_type : ℕ
  pub sh_size : ℕ
  pub sh_link : ℕ

-- What the callback reads and changes; `sh_offset` is a field of the headers in memory, and `mallocs`
-- counts the calls of the allocator.
pub record Reading : Type 0 where
  pub conf : Config
  pub sh_offset : ℕ → ℕ
  pub symbol_num : ℕ
  pub symbol_table_p : ℕ
  pub str_table_p : ℕ
  pub relocations : List RelocationChain
  pub has_gnu_property : Bool
  pub program_header_num : ℕ
  pub program_header_tail : ℕ
  pub mallocs : ℕ

-- The first header of an object only creates the object.
unfoldable pub begin_object : Reading → Reading
begin_object r = record r {
  conf = alloc_obj_chain r.conf 0 0 0;
  symbol_num = 0;
  symbol_table_p = 0;
  str_table_p = 0;
  relocations = [];
}

-- `match_section`, by the number of the container.
unfoldable pub container_of : List SectionContainer → List ℕ → Option ℕ
container_of [] name = none
container_of (s ∷ ss) name =
    let rest = container_of ss name in
    if is_named name s then some 0 else elim rest [ none ↦ none | some k ↦ some (suc k) ]

-- `insert`, into a container or into a new one behind the others.
unfoldable pub insert_into : Config → Header → Option ℕ → Config
insert_into conf h none =
    alloc_section_chain (alloc_section_container conf 0 (some h.name)) h.p 0 (length conf.sections)
      none
insert_into conf h (some k) = alloc_section_chain conf h.p 0 k none

abbrev pub insert : Config → Header → Config
insert conf h = insert_into conf h (container_of conf.sections h.name)

-- The head is kept, and what is behind it is replaced.
unfoldable pub add_relocation : List RelocationChain → Option RelocationChain → List RelocationChain
add_relocation rs none = rs
add_relocation [] (some c) = c ∷ []
add_relocation (r ∷ rs) (some c) = r ∷ c ∷ []

-- The headers that `insert` is reached for: of type 1, 2 and 8, and of type 7 up to the GNU property.
unfoldable pub is_inserted : Bool → Header → Bool
is_inserted has_gnu_property h =
    if h.sh_type == 1
    then true
    else if h.sh_type == 2
    then true
    else if h.sh_type == 8
    then true
    else if h.sh_type == 7
    then not has_gnu_property
    else false

-- The cases of the switch, in front of `insert`; a symbol has 24 bytes and a program header 56.
unfoldable pub switch_type : (malloc : ℕ → ℕ → ℕ) → (map_base : ℕ) → Reading → Header → Reading
unfolding add_relocation
switch_type malloc map_base r h =
    if h.sh_type == 2
    then record r {
      symbol_num = u32 h.sh_size / 24;
      symbol_table_p = r.sh_offset h.number;
      str_table_p = u64 (map_base + r.sh_offset h.sh_link);
    }
    else if h.sh_type == 4
    then record r { relocations = add_relocation r.relocations (alloc_reloc_chain h.name h.p) }
    else if h.sh_type == 8
    then record r {
      sh_offset = update r.sh_offset h.number (malloc r.mallocs (u32 h.sh_size));
      mallocs = r.mallocs + 1;
    }
    else if h.sh_type == 7 && not r.has_gnu_property && same_string h.name gnu_property_name
    then record r {
      has_gnu_property = true;
      program_header_num = r.program_header_num + 1;
      program_header_tail = r.program_header_tail + 56 + 56;
    }
    else r

unfoldable pub on_section : (malloc : ℕ → ℕ → ℕ) → (map_base : ℕ) → Reading → Header → Reading
unfolding switch_type is_inserted insert_into
on_section malloc map_base r h =
    let moved = record r {
      sh_offset = update r.sh_offset h.number (u64 (r.sh_offset h.number + map_base));
    } in
    let switched = switch_type malloc map_base moved h in
    if is_inserted r.has_gnu_property h
    then record switched { conf = insert switched.conf h }
    else switched

-- The calls for the headers of an object behind the first one.
unfoldable pub on_sections : (malloc : ℕ → ℕ → ℕ) → (map_base : ℕ) → Reading → List Header → Reading
unfolding on_section
on_sections malloc map_base r [] = r
on_sections malloc map_base r (h ∷ hs) =
    on_sections malloc map_base (on_section malloc map_base r h) hs
