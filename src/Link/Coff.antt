-- ===== src/Link/Coff.antt =====
-- Relocation of COFF objects: core/link/coff/reloc.c, with the imported functions that
-- core/link/coff/symbol.c keeps in the hash table of the DLLs. The image base is not negative.
pub mod Stubs
mod Tests
use bin_tools.Base.{
  ℕ, zero, suc, ◌+◌, ◌-◌, ◌*◌, ◌/◌, ◌%◌, ◌^◌, ◌||◌, List, [], ◌∷◌, Option, none, some, u32, u64,
  ◌==◌, if◌then◌else◌, update, same_string,
}
use bin_tools.Link.Hash.{elf_hash}
use bin_tools.Link.Reloc.{read_word, store_word}
use bin_tools.Link.Import.{Imports, import_function}

-- A function of a DLL, with the address of its stub, or 0 before it is used.
pub record DllFunction : Type 0 where
  pub name : List ℕ
  pub dllname : List ℕ
  pub ever : ℕ

pub record DllTable : Type 0 where
  pub nbucket : ℕ
  pub bucket : ℕ → List DllFunction

-- `alloc_dynamic_symbol` on the chain of a bucket. Behind a function of the same name the new one
-- takes the place of what is behind the next one, and there is no new one without a next one.
unfoldable pub add_to_chain : List DllFunction → DllFunction → List DllFunction
add_to_chain [] f = f ∷ []
add_to_chain (x ∷ []) f = if same_string f.name x.name then x ∷ [] else x ∷ f ∷ []
add_to_chain (x ∷ y ∷ ys) f =
    let rest = add_to_chain (y ∷ ys) f in
    if same_string f.name x.name then x ∷ y ∷ f ∷ [] else x ∷ rest

unfoldable pub alloc_dynamic_symbol : DllTable → (name dllname : List ℕ) → DllTable
unfolding add_to_chain
alloc_dynamic_symbol t name dllname =
    let index = elf_hash name % t.nbucket in
    record t {
      bucket =
          update t.bucket index
            (add_to_chain (t.bucket index) (record { name = name; dllname = dllname; ever = 0 }));
    }

-- The DLL of a function, if any, the address of its stub, if it has one, and the chain afterwards.
pub record Found : Type 0 where
  pub dllname : Option (List ℕ)
  pub ever : ℕ
  pub chain : List DllFunction

unfoldable pub lookup_in : (plt_offset : ℕ) → List ℕ → List DllFunction → Found
lookup_in plt_offset s [] = record { dllname = none; ever = 0; chain = [] }
lookup_in plt_offset s (x ∷ xs) =
    let rest = lookup_in plt_offset s xs in
    let same = same_string s x.name in
    record {
      dllname = if same then some x.dllname else rest.dllname;
      ever = if same then x.ever else rest.ever;
      chain =
          if same
          then record x { ever = if x.ever == 0 then plt_offset else x.ever } ∷ xs
          else x ∷ rest.chain;
    }

pub record Coff : Type 0 where
  pub memory : ℕ → ℕ
  pub base_address : ℕ
  pub dlls : DllTable
  pub imports : Imports

-- `*(uint64_t*)addr += v`
unfoldable pub add_long : (ℕ → ℕ) → ℕ → ℕ → ℕ → ℕ
unfolding read_word store_word
add_long m a v =
    let w = u64 (read_word m a + read_word m (a + 4) * 2 ^ 32 + v) in
    store_word (store_word m a (w % 2 ^ 32)) (a + 4) (w / 2 ^ 32)

-- `*addr += v`
unfoldable pub add_word : (ℕ → ℕ) → ℕ → ℕ → ℕ → ℕ
unfolding read_word store_word
add_word m a v = store_word m a (u32 (read_word m a + v))

unfoldable pub coff_fill_address :
    (base_address : ℕ) → (ℕ → ℕ) → (addr type dst_vaddr src_vaddr : ℕ) → ℕ → ℕ
unfolding add_long add_word
coff_fill_address base m addr type dst src =
    if type == 1
    then add_long m addr (u32 (base + dst))
    else if type == 2
    then add_word m addr (u32 (base + dst))
    else if type == 3
    then add_word m addr dst
    else if type == 4 || type == 0x14
    then add_word m addr (u32 (dst + (2 ^ 32 - u32 (src + 4))))
    else m

-- `CallbackArgIn`; `section_vaddr` is the address of the section `shndx` of the object, if the
-- object has sections.
pub record CallbackArg : Type 0 where
  pub src_vaddr : ℕ
  pub dst_vaddr : ℕ
  pub filled_addr : ℕ
  pub name : List ℕ
  pub type : ℕ
  pub storage_class : ℕ
  pub section_vaddr : Option ℕ

unfoldable pub fill_with : Coff → CallbackArg → ℕ → ℕ → ℕ
unfolding coff_fill_address
fill_with c arg dst =
    coff_fill_address c.base_address c.memory arg.filled_addr arg.type dst arg.src_vaddr

unfoldable pub resolve_static : Coff → CallbackArg → Option ℕ → Coff
unfolding fill_with
resolve_static c arg none = c
resolve_static c arg (some va) = record c { memory = fill_with c arg (u32 (arg.dst_vaddr + va)) }

-- A function of a DLL: a stub that it has, or a new one.
unfoldable pub resolve_import : Coff → CallbackArg → Found → DllTable → Option (List ℕ) → Coff
unfolding fill_with
resolve_import c arg found dlls none = c
resolve_import c arg found dlls (some dllname) = record c {
  memory = fill_with c arg (if found.ever == 0 then c.imports.plt_offset else found.ever);
  dlls = dlls;
  imports =
      if found.ever == 0
      then import_function c.imports arg.name dllname arg.filled_addr
      else c.imports;
}

-- `lookup_dynamic_symbol(name, 1, &ever)` and what follows it.
unfoldable pub resolve_dynamic : Coff → CallbackArg → Coff
unfolding lookup_in resolve_import
resolve_dynamic c arg =
    let index = elf_hash arg.name % c.dlls.nbucket in
    let found = lookup_in c.imports.plt_offset arg.name (c.dlls.bucket index) in
    let dlls : DllTable = record c.dlls { bucket = update c.dlls.bucket index found.chain } in
    resolve_import c arg found dlls found.dllname

-- `exported` is `sysv_lookup_for_coff`.
unfoldable pub coff_resolve : (List ℕ → ℕ) → Coff → CallbackArg → Coff
unfolding resolve_static resolve_dynamic
coff_resolve exported c arg =
    if arg.storage_class == 3
    then resolve_static c arg arg.section_vaddr
    else if arg.storage_class == 2
    then (if exported arg.name == 0
        then resolve_dynamic c arg
        else record c { memory = fill_with c arg (exported arg.name) })
    else c
