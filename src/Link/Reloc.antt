-- ===== src/Link/Reloc.antt =====
-- Relocation of ELF objects: core/link/elf/reloc.c. The memory of the mapped objects is a function
-- from addresses to bytes; numbers of 32 bits are stored with their lowest byte first. A call that
-- loops forever or leaves the program is an outcome.
pub mod Filled
mod Tests
use bin_tools.Base.{
  ℕ, zero, suc, ◌+◌, ◌-◌, ◌*◌, ◌/◌, ◌%◌, ◌^◌, List, [], ◌∷◌, Option, none, some, Bool, ◌||◌, u8,
  u32, u64, ◌==◌, if◌then◌else◌, update, same_string, bit_and,
}
use bin_tools.Link.Dynamic.{
  Dynamic, add_rela_plt_entry, add_dynamic_entry, add_dynamic_entry2, add_init_array,
  add_fini_array,
}

-- The names `.rela.text`, `.rela.data`, `.rela.init_array` and `.rela.fini_array`.
abbrev pub rela_text : List ℕ
rela_text = 46 ∷ 114 ∷ 101 ∷ 108 ∷ 97 ∷ 46 ∷ 116 ∷ 101 ∷ 120 ∷ 116 ∷ []

abbrev pub rela_data : List ℕ
rela_data = 46 ∷ 114 ∷ 101 ∷ 108 ∷ 97 ∷ 46 ∷ 100 ∷ 97 ∷ 116 ∷ 97 ∷ []

abbrev pub rela_init_array : List ℕ
rela_init_array =
    46 ∷ 114 ∷ 101 ∷ 108 ∷ 97 ∷ 46 ∷ 105 ∷ 110 ∷ 105 ∷ 116 ∷ 95 ∷ 97 ∷ 114 ∷ 114 ∷ 97 ∷ 121 ∷ []

abbrev pub rela_fini_array : List ℕ
rela_fini_array =
    46 ∷ 114 ∷ 101 ∷ 108 ∷ 97 ∷ 46 ∷ 102 ∷ 105 ∷ 110 ∷ 105 ∷ 95 ∷ 97 ∷ 114 ∷ 114 ∷ 97 ∷ 121 ∷ []

pub record RelocationChain : Type 0 where
  pub sec : ℕ
  pub p : ℕ

unfoldable pub alloc_reloc_chain : List ℕ → ℕ → Option RelocationChain
alloc_reloc_chain name offset =
    if same_string name rela_text
    then some (record { sec = 0; p = offset })
    else if same_string name rela_data
    then some (record { sec = 1; p = offset })
    else if same_string name rela_init_array
    then some (record { sec = 2; p = offset })
    else if same_string name rela_fini_array
    then some (record { sec = 3; p = offset })
    else none

-- `*(uint32_t*)addr`, read and written.
unfoldable pub read_word : (ℕ → ℕ) → ℕ → ℕ
read_word m a = m a + m (a + 1) * 2 ^ 8 + m (a + 2) * 2 ^ 16 + m (a + 3) * 2 ^ 24

unfoldable pub store_word : (ℕ → ℕ) → ℕ → ℕ → ℕ → ℕ
store_word m a v =
    update
      (update (update (update m a (v % 2 ^ 8)) (a + 1) (v / 2 ^ 8 % 2 ^ 8)) (a + 2)
        (v / 2 ^ 16 % 2 ^ 8))
      (a + 3) (v / 2 ^ 24 % 2 ^ 8)

-- What a relocation reads and changes, with the counts of the resolved symbols.
pub record Relocation : Type 0 where
  pub memory : ℕ → ℕ
  pub dynamic : Dynamic
  pub dynamic_num : ℕ
  pub external_num : ℕ
  pub internal_num : ℕ

pub data Outcome : Type 0 where
  done : Relocation → Outcome
  hangs : Outcome
  exits : Outcome

-- `dst_addr - src_addr` on 32 bits.
unfoldable pub distance : (src dst : ℕ) → ℕ
distance src dst = u32 (dst + (2 ^ 32 - src))

-- The types are 1 for an absolute address of 64 bits, 2, 4 and 11 for distances, 42 for an entry of
-- the global offset table, on 8 bits; the assignment in the test of type 10 makes it always exit.
unfoldable pub fill_address : Relocation → (addr type src_addr dst_addr : ℕ) → Outcome
unfolding read_word store_word distance
fill_address r addr type' src_addr dst_addr =
    let type = u8 type' in
    if read_word r.memory addr == 0
    then (if distance src_addr dst_addr == 0
        then hangs
        else if type == 1
        then done (record r {
          dynamic = record r.dynamic {
            rela_plt =
                add_rela_plt_entry r.dynamic.base_address r.dynamic.rela_plt src_addr 0 8 dst_addr;
          };
        })
        else if type == 42 || type == 2 || type == 4 || type == 11
        then done (record r { memory = store_word r.memory addr (distance src_addr dst_addr) })
        else exits)
    else hangs

-- An entry of the symbol table of an object, with its name.
pub record ObjectSymbol : Type 0 where
  pub st_info : ℕ
  pub st_shndx : ℕ
  pub name : List ℕ

-- What a relocation looks up: the symbols of its object, the addresses of the sections of its
-- object, and `st_value` of the dynamic symbol that `find_sym2` finds for a name.
pub record Object : Type 0 where
  pub symbols : ℕ → ObjectSymbol
  pub section_addr : ℕ → ℕ
  pub exported : List ℕ → ℕ

pub record RelaEntry : Type 0 where
  pub r_offset : ℕ
  pub r_sym : ℕ
  pub r_type : ℕ
  pub r_addend : ℕ

-- The section that is relocated, in memory and in the file.
pub record Target : Type 0 where
  pub sh_offset : ℕ
  pub sh_addr : ℕ

-- How a symbol is resolved: `RESOLVE_TYPE_DYNAMIC_FUNC` and so on.
pub data ResolveType : Type 0 where
  dynamic_func : ResolveType
  internal_func : ResolveType
  internal_section : ResolveType

unfoldable pub is_dynamic : ResolveType → Bool
is_dynamic dynamic_func = Bool.true
is_dynamic internal_func = Bool.false
is_dynamic internal_section = Bool.false

unfoldable pub is_section : ResolveType → Bool
is_section dynamic_func = Bool.false
is_section internal_func = Bool.false
is_section internal_section = Bool.true

-- The second switch of `resolve_new`. `src` is `src_addr`, `filled` is `src_addr + addend`; 6 is
-- `R_X86_64_GLOB_DAT`, 7 is `R_X86_64_JUMP_SLOT`.
unfoldable pub apply_type :
    (ℕ → ℕ) → Relocation → ResolveType → List ℕ → (addr rel_type src filled dst : ℕ) → Outcome
unfolding fill_address is_dynamic is_section
apply_type fresh r kind name addr rel_type src filled dst =
    let jump = add_dynamic_entry fresh r.dynamic name 7 1 in
    let slot = add_dynamic_entry fresh r.dynamic name 6 0 in
    if rel_type == 1
    then done (record r {
      dynamic =
          if is_dynamic kind
          then add_dynamic_entry2 fresh r.dynamic src name
          else record r.dynamic {
            rela_plt = add_rela_plt_entry r.dynamic.base_address r.dynamic.rela_plt src 0 8 dst;
          };
    })
    else if rel_type == 2 || rel_type == 4 || rel_type == 11
    then fill_address (record r { dynamic = if is_dynamic kind then jump.1 else r.dynamic }) addr
        rel_type filled (if is_dynamic kind then jump.0 else dst)
    else if rel_type == 42
    then (if is_section kind
        then hangs
        else fill_address (record r { dynamic = slot.1 }) addr rel_type filled (u32 (slot.0 + 8)))
    else hangs

unfoldable pub resolve_new :
    (ℕ → ℕ) → Object → Relocation → RelaEntry → Target → (reloc_section : ℕ) → Outcome
unfolding apply_type
resolve_new fresh oc r rela sub reloc_section =
    let sym = oc.symbols rela.r_sym in
    let sym_type = bit_and sym.st_info 0xf in
    let addr = sub.sh_offset + rela.r_offset in
    let src = u32 (sub.sh_addr + rela.r_offset) in
    let filled = u32 (src + u64 (2 ^ 64 - rela.r_addend)) in
    let value = u32 (oc.exported sym.name) in
    let section = u32 (oc.section_addr sym.st_shndx) in
    if sym_type == 0 || sym_type == 1 || sym_type == 2
    then (if value == 0
        then apply_type fresh (record r { dynamic_num = r.dynamic_num + 1 }) dynamic_func sym.name
            addr rela.r_type src filled 0
        else if reloc_section == 2
        then done (record r {
          dynamic = record r.dynamic { init_array = add_init_array r.dynamic.init_array value };
        })
        else if reloc_section == 3
        then done (record r {
          dynamic = record r.dynamic { fini_array = add_fini_array r.dynamic.fini_array value };
        })
        else apply_type fresh (record r { external_num = r.external_num + 1 }) internal_func
            sym.name addr rela.r_type src filled value)
    else if sym_type == 3
    then apply_type fresh (record r { internal_num = r.internal_num + 1 }) internal_section sym.name
        addr rela.r_type src filled section
    else done r

-- The relocations of one section, in order, as far as they end.
unfoldable pub do_relas : (ℕ → ℕ) → Object → Target → ℕ → Relocation → List RelaEntry → Outcome
unfolding resolve_new
do_relas fresh oc sub sec r [] = done r
do_relas fresh oc sub sec r (rela ∷ relas) = elim (resolve_new fresh oc r rela sub sec) [
  | done r' ↦ do_relas fresh oc sub sec r' relas
  | hangs ↦ hangs
  | exits ↦ exits
]

-- A relocation section of an object: what it relocates, and its entries.
pub record RelocSection : Type 0 where
  pub sec : ℕ
  pub sub : Target
  pub relas : List RelaEntry

unfoldable pub elf_do_reloc : (ℕ → ℕ) → Object → Relocation → List RelocSection → Outcome
unfolding do_relas
elf_do_reloc fresh oc r [] = done r
elf_do_reloc fresh oc r (reloc ∷ relocs) =
    elim (do_relas fresh oc reloc.sub reloc.sec r reloc.relas) [
      | done r' ↦ elf_do_reloc fresh oc r' relocs
      | hangs ↦ hangs
      | exits ↦ exits
    ]
