-- ===== src/Link/Import.antt =====
-- The import directory of PE files: core/link/coff/import.c, and the length that
-- core/link/coff/reloc.c counts for it. The directory begins at offset 0; its entries are of 4 bytes
-- for 32-bit files and of 8 bytes otherwise; an import descriptor has 20 bytes.
pub mod Counted
pub mod Written
mod Tests
use bin_tools.Base.{
  ℕ, zero, suc, ◌+◌, ◌-◌, ◌*◌, ◌%◌, ◌^◌, Bool, true, false, ◌||◌, List, [], ◌∷◌, ◌++◌, length, u32,
  ◌==◌, if◌then◌else◌, same_string,
}

-- An imported function with the place that was relocated for it first.
pub record FunctionEntry : Type 0 where
  pub addr : ℕ
  pub name : List ℕ

pub record DllEntry : Type 0 where
  pub name : List ℕ
  pub functions : List FunctionEntry

-- The DLL is one of the entries.
unfoldable pub is_imported : List DllEntry → List ℕ → Bool
is_imported [] dllname = false
is_imported (e ∷ es) dllname = same_string e.name dllname || is_imported es dllname

-- The function goes behind the others of the last entry for the DLL.
unfoldable pub add_function : List DllEntry → FunctionEntry → List ℕ → List DllEntry
unfolding is_imported
add_function [] f dllname = []
add_function (e ∷ es) f dllname =
    let rest = add_function es f dllname in
    if is_imported es dllname
    then e ∷ rest
    else if same_string e.name dllname
    then record e { functions = e.functions ++ f ∷ [] } ∷ es
    else e ∷ es

pub record Resolved : Type 0 where
  pub is_new : Bool
  pub entries : List DllEntry

unfoldable pub add_dynamic_resolved_entry :
    List DllEntry → (name dllname : List ℕ) → (addr : ℕ) → Resolved
unfolding is_imported add_function
add_dynamic_resolved_entry es name dllname addr =
    let f : FunctionEntry = record { addr = addr; name = name } in
    record {
      is_new = if is_imported es dllname then false else true;
      entries =
          if is_imported es dllname
          then add_function es f dllname
          else es ++ record { name = dllname; functions = f ∷ [] } ∷ [];
    }

-- The bytes that one more function adds; `len` is the length so far.
unfoldable pub update_import_directory_len : (len : ℕ) → Bool → (name dllname : List ℕ) → ℕ
update_import_directory_len len is_new name dllname =
    (if is_new then (if len == 0 then 20 else 0) + (20 + 1 + length dllname) + 2 * 8 else 0)
    + (2 * 8 + 2 + length name + 1)

-- The end of `coff_resolve` for a function that is imported for the first time.
pub record Imports : Type 0 where
  pub entries : List DllEntry
  pub import_directory_len : ℕ
  pub plt_offset : ℕ

unfoldable pub import_function : Imports → (name dllname : List ℕ) → (addr : ℕ) → Imports
unfolding add_dynamic_resolved_entry update_import_directory_len
import_function i name dllname addr =
    let new = add_dynamic_resolved_entry i.entries name dllname addr in
    record {
      entries = new.entries;
      import_directory_len =
          i.import_directory_len
          + update_import_directory_len i.import_directory_len new.is_new name dllname;
      plt_offset = i.plt_offset + 6;
    }

-- `iterate_import`, which puts the address of the directory into every entry of one table.
unfoldable pub iterate_import : (width iant : ℕ) → List DllEntry → ℕ
iterate_import width iant [] = iant
iterate_import width iant (e ∷ es) =
    iterate_import width (iant + width * length e.functions + width) es

-- What is written for a function: the entries of both tables at `slot` and `int_slot` point to the
-- name at `name_at`, and the stub jumps through `slot`.
pub record Thunk : Type 0 where
  pub slot : ℕ
  pub int_slot : ℕ
  pub name_at : ℕ
  pub jump : ℕ

pub record Descriptor : Type 0 where
  pub first_thunk : ℕ
  pub original_first_thunk : ℕ
  pub name_at : ℕ

-- The pointers of `add_import`.
pub record Cursor : Type 0 where
  pub iat : ℕ
  pub int : ℕ
  pub c : ℕ
  pub plt_vaddr : ℕ

-- The loop over the functions of a DLL, for files that are not of 32 bits.
unfoldable pub write_functions :
    (import_vaddr : ℕ) → Cursor → List FunctionEntry → List Thunk × Cursor
write_functions import_vaddr k [] = ([], k)
write_functions import_vaddr k (f ∷ fs) =
    let plt_vaddr = u32 (k.plt_vaddr + 6) in
    let rest =
      write_functions import_vaddr
        (record {
          iat = k.iat + 8;
          int = k.int + 8;
          c = k.c + 2 + length f.name + 1;
          plt_vaddr = plt_vaddr;
        })
        fs in
    (
      record {
        slot = k.iat;
        int_slot = k.int;
        name_at = k.c;
        jump = u32 (u32 (import_vaddr + k.iat) + (2 ^ 32 - plt_vaddr));
      }
          ∷ rest.0,
      rest.1,
    )

unfoldable pub write_dlls :
    (import_vaddr : ℕ) → Cursor → List DllEntry → List Descriptor × List Thunk × Cursor
unfolding write_functions
write_dlls import_vaddr k [] = ([], [], k)
write_dlls import_vaddr k (e ∷ es) =
    let functions =
      write_functions import_vaddr (record k { c = k.c + length e.name + 1 }) e.functions in
    let k' = functions.1 in
    let rest = write_dlls import_vaddr (record k' { iat = k'.iat + 8; int = k'.int + 8 }) es in
    (
      record {
        first_thunk = u32 (import_vaddr + k.iat);
        original_first_thunk = u32 (import_vaddr + k.int);
        name_at = u32 (import_vaddr + k.c);
      }
          ∷ rest.0,
      functions.0 ++ rest.1,
      rest.2,
    )

-- The tables begin behind the descriptors and an empty one, the names behind both tables.
unfoldable pub add_import :
    (import_vaddr plt_vaddr : ℕ) → List DllEntry → List Descriptor × List Thunk × Cursor
unfolding iterate_import write_dlls
add_import import_vaddr plt_vaddr es =
    let iat = 20 * length es + 20 in
    let int = iterate_import 8 iat es in
    let c = iterate_import 8 int es in
    write_dlls import_vaddr (record { iat = iat; int = int; c = c; plt_vaddr = plt_vaddr }) es
