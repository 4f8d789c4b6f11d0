-- ===== src/Link/Dynamic.antt =====
-- The tables of the dynamic section: core/link/elf/dynamic.c. What a function writes behind the
-- data pointer of an area is the list of the entries written there; `size` is the union of the
-- fields `size` and `num`; `closed` holds the blocks that became full, each with the size that its
-- section header got. A block that `add_dynamic_sc` allocates has the bytes `fresh`.
pub mod Imports
mod Tests
pub mod Tags
pub mod Strings
pub mod Needed
pub mod Entries
pub mod Runs
use bin_tools.Base.{
  ℕ, zero, suc, ◌+◌, ◌-◌, ◌*◌, ◌%◌, ◌^◌, List, [], ◌∷◌, ◌++◌, Option, none, some, u16, u32, u64,
  ◌<<<◌, ◌==◌, ltb, if◌then◌else◌, update, length, bit_and,
}
use bin_tools.Link.Symbols.{SymbolTables, alloc_dynamic_symbol_chain, lookup_symbol}

pub record Sym : Type 0 where
  pub st_name : ℕ
  pub st_info : ℕ
  pub st_other : ℕ
  pub st_shndx : ℕ
  pub st_value : ℕ
  pub st_size : ℕ

pub record Rela : Type 0 where
  pub r_offset : ℕ
  pub r_info : ℕ
  pub r_addend : ℕ

pub record Area (E : Type 0) : Type 0 where
  pub entries : List E
  pub size : ℕ
  pub alloc_size : ℕ
  pub closed : List (ℕ × List E)

pub record StringArea : Type 0 where
  pub bytes : ℕ → ℕ
  pub size : ℕ
  pub alloc_size : ℕ
  pub closed : List (ℕ × (ℕ → ℕ))

-- `add_dynamic_sc(index, 0, D[index].sc_p)`
unfoldable pub add_dynamic_sc : {E : Type 0} → Area E → Area E
add_dynamic_sc d = record d { entries = []; closed = d.closed ++ (d.size, d.entries) ∷ [] }

unfoldable pub add_dynsym_entry : Area Sym → (str_offset shndx value : ℕ) → Area Sym
unfolding add_dynamic_sc
add_dynsym_entry d str_offset shndx value =
    let num = u32 (d.size + 1) in
    let sym : Sym = record {
      st_name = str_offset;
      st_info = (1 <<< 4) + bit_and 2 0xf;
      st_other = 0;
      st_shndx = u16 shndx;
      st_value = value;
      st_size = 0;
    } in
    if num * 24 == d.alloc_size
    then add_dynamic_sc (record d { entries = d.entries ++ sym ∷ []; size = u32 d.alloc_size })
    else record d { entries = d.entries ++ sym ∷ []; size = num }

-- `for (; *name != 0; p++, name++) *p = *name;`
unfoldable pub put_string : (ℕ → ℕ) → ℕ → List ℕ → ℕ → ℕ
put_string bytes p [] = bytes
put_string bytes p (c ∷ name) = put_string (update bytes p c) (p + 1) name

-- The offset of the string, and the area with it.
unfoldable pub add_dynstr_entry : (ℕ → ℕ) → StringArea → List ℕ → ℕ × StringArea
unfolding put_string
add_dynstr_entry fresh d name = (
  d.size,
  if ltb d.alloc_size (u64 (d.size + length name))
      then record d {
        bytes = put_string fresh 0 name;
        size = u32 (length name + 1);
        closed = d.closed ++ (d.size, d.bytes) ∷ [];
      }
      else record d {
        bytes = put_string d.bytes d.size name;
        size = u32 (d.size + length name + 1);
      },
)

-- `jmp *2(%rip)`
abbrev pub plt_code : List ℕ
plt_code = 0xff ∷ 0x25 ∷ 0x2 ∷ 0x0 ∷ 0x0 ∷ 0x0 ∷ []

unfoldable pub add_pltgot_entry : ℕ → Area (List ℕ) → ℕ × Area (List ℕ)
unfolding add_dynamic_sc
add_pltgot_entry virtual_address d =
    let num = u32 (d.size + 1) in
    (
      u32 (virtual_address + d.size * 0x10),
      if u32 (num * 0x10) == d.alloc_size
          then add_dynamic_sc
              (record d { entries = d.entries ++ plt_code ∷ []; size = d.alloc_size })
          else record d { entries = d.entries ++ plt_code ∷ []; size = num },
    )

-- `ELF64_R_INFO(sym, type)`
unfoldable pub r_info : (sym type : ℕ) → ℕ
r_info sym type = u64 ((sym <<< 32) + type)

unfoldable pub add_rela : Area Rela → Rela → Area Rela
unfolding add_dynamic_sc
add_rela d rela =
    let size = u32 (d.size + 24) in
    if size == d.alloc_size
    then add_dynamic_sc (record d { entries = d.entries ++ rela ∷ []; size = size })
    else record d { entries = d.entries ++ rela ∷ []; size = size }

unfoldable pub add_rela_plt_entry :
    (base_address : ℕ) → Area Rela → (offset sym_index type addend : ℕ) → Area Rela
unfolding add_rela r_info
add_rela_plt_entry base_address d offset sym_index type addend = add_rela d (record {
  r_offset = u64 (offset + (2 ^ 64 - base_address));
  r_info = r_info sym_index type;
  r_addend = u64 (addend + (2 ^ 64 - base_address));
})

-- `R_X86_64_RELATIVE` is 8.
unfoldable pub add_dyn_relative_entry : Area Rela → (offset addend : ℕ) → Area Rela
unfolding add_rela r_info
add_dyn_relative_entry d offset addend =
    add_rela d (record { r_offset = offset; r_info = r_info 0 8; r_addend = addend })

-- The areas that are filled while relocations are processed, and the imported symbols.
pub record Dynamic : Type 0 where
  pub base_address : ℕ
  pub plt_address : ℕ
  pub pltgot : Area (List ℕ)
  pub dynstr : StringArea
  pub dynsym : Area Sym
  pub rela_plt : Area Rela
  pub tables : SymbolTables
  pub init_array : Area ℕ
  pub fini_array : Area ℕ

-- `add_dynsym_entry(add_dynstr_entry(str), 0, 0)` and a relocation for the symbol.
unfoldable pub add_symbol_and_rela : (ℕ → ℕ) → Dynamic → List ℕ → (offset type : ℕ) → Dynamic
unfolding add_dynsym_entry add_dynstr_entry add_rela_plt_entry
add_symbol_and_rela fresh d str offset type =
    let string = add_dynstr_entry fresh d.dynstr str in
    let dynsym = add_dynsym_entry d.dynsym string.0 0 0 in
    record d {
      dynstr = string.1;
      dynsym = dynsym;
      rela_plt =
          add_rela_plt_entry d.base_address d.rela_plt offset (u32 (dynsym.size + (2 ^ 32 - 1)))
            type 0;
    }

-- The pointer that a lookup of an imported symbol finds, or null.
unfoldable pub found : SymbolTables → List ℕ → ℕ
unfolding lookup_symbol
found tables str = elim (lookup_symbol tables str 1) [ none ↦ 0 | some p ↦ p ]

-- The part of `add_dynamic_entry` that adds a symbol.
unfoldable pub add_new_entry : (ℕ → ℕ) → Dynamic → List ℕ → ℕ → ℕ × Dynamic
unfolding add_pltgot_entry add_symbol_and_rela
add_new_entry fresh d str type =
    let plt = add_pltgot_entry d.plt_address d.pltgot in
    let with_symbol =
      add_symbol_and_rela fresh (record d { pltgot = plt.1 }) str (u32 (plt.0 + 8)) type in
    (
      plt.0,
      record with_symbol {
        tables = record {
          export = d.tables.export;
          dynamic_import = alloc_dynamic_symbol_chain d.tables.dynamic_import plt.0 str 0;
        };
      },
    )

unfoldable pub add_dynamic_entry : (ℕ → ℕ) → Dynamic → List ℕ → (type check : ℕ) → ℕ × Dynamic
unfolding add_new_entry found
add_dynamic_entry fresh d str type check =
    let rela = if check == 0 then 0 else found d.tables str in
    let new = add_new_entry fresh d str type in
    (if rela == 0 then new.0 else u32 rela, if rela == 0 then new.1 else d)

-- `R_X86_64_GLOB_DAT` is 6.
unfoldable pub add_dynamic_entry2 : (ℕ → ℕ) → Dynamic → ℕ → List ℕ → Dynamic
unfolding add_symbol_and_rela
add_dynamic_entry2 fresh d offset str = add_symbol_and_rela fresh d str offset 6

unfoldable pub add_init_array : Area ℕ → ℕ → Area ℕ
unfolding add_dynamic_sc
add_init_array d addr =
    let size = u32 (d.size + 8) in
    if size == d.alloc_size
    then add_dynamic_sc (record d { entries = d.entries ++ addr ∷ []; size = size })
    else record d { entries = d.entries ++ addr ∷ []; size = size }

unfoldable pub add_fini_array : Area ℕ → ℕ → Area ℕ
add_fini_array d addr = record d { entries = d.entries ++ addr ∷ []; size = u32 (d.size + 8) }
