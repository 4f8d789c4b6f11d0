-- ===== src/Link/Import/Written.antt =====
-- The end of what core/link/coff/import.c writes.
use bin_tools.Base.{ℕ, ◌≤◌, ◌+◌, ◌*◌, ◌<◌, List, [], ◌∷◌, length, ◌≡◌, refl, arith, u32}
use bin_tools.Link.Import.{
  update_import_directory_len, FunctionEntry, DllEntry, Imports, import_function, iterate_import,
  Cursor, write_functions, write_dlls, add_import,
}
use bin_tools.Link.Import.Counted.{
  functions_size, dlls_size, directory_size, IsMeasured, import_function-IsMeasured,
}

-- A function that is imported: its name, its DLL, and the place for which it is resolved.
pub record Import : Type 0 where
  pub name : List ℕ
  pub dllname : List ℕ
  pub addr : ℕ

unfoldable pub import_all : Imports → List Import → Imports
import_all i [] = i
import_all i (x ∷ xs) = import_all (import_function i x.name x.dllname x.addr) xs

abbrev pub no_imports : ℕ → Imports
no_imports plt_offset = record { entries = []; import_directory_len = 0; plt_offset = plt_offset }

no_imports-IsMeasured : (plt_offset : ℕ) → IsMeasured (no_imports plt_offset)
unfolding directory_size
no_imports-IsMeasured plt_offset = record { counted = refl }

-- The bytes of one table, and of the names.
slots : List DllEntry → ℕ
slots [] = 0
slots (e ∷ es) = 8 * length e.functions + 8 + slots es

hints : List FunctionEntry → ℕ
hints [] = 0
hints (f ∷ fs) = 2 + length f.name + 1 + hints fs

texts : List DllEntry → ℕ
texts [] = 0
texts (e ∷ es) = length e.name + 1 + hints e.functions + texts es

iterate_import-slots : (a : ℕ) (es : List DllEntry) → iterate_import 8 a es ≡ a + slots es
unfolding iterate_import slots
iterate_import-slots a [] = omega arith
iterate_import-slots a (e ∷ es) =
    omega (arith, iterate_import-slots (a + 8 * length e.functions + 8) es)

c-write_functions :
    (v : ℕ) (k : Cursor) (fs : List FunctionEntry) → (write_functions v k fs).1.c ≡ k.c + hints fs
unfolding write_functions hints
c-write_functions v k [] = omega arith
c-write_functions v k (f ∷ fs) = omega (
  arith,
  c-write_functions v
      (record {
        iat = k.iat + 8;
        int = k.int + 8;
        c = k.c + 2 + length f.name + 1;
        plt_vaddr = u32 (k.plt_vaddr + 6);
      })
      fs,
)

c-write_dlls : (v : ℕ) (k : Cursor) (es : List DllEntry) → (write_dlls v k es).2.c ≡ k.c + texts es
unfolding write_dlls texts
c-write_dlls v k [] = omega arith
c-write_dlls v k (e ∷ es) =
    let k' = (write_functions v (record k { c = k.c + length e.name + 1 }) e.functions).1 in
    omega (
      arith,
      c-write_functions v (record k { c = k.c + length e.name + 1 }) e.functions,
      c-write_dlls v (record k' { iat = k'.iat + 8; int = k'.int + 8 }) es,
    )

functions_size-hints : (fs : List FunctionEntry) → functions_size fs ≡ 16 * length fs + hints fs
unfolding functions_size hints
functions_size-hints [] = omega arith
functions_size-hints (f ∷ fs) = omega (arith, functions_size-hints fs)

dlls_size-texts : (es : List DllEntry) → dlls_size es ≡ 20 * length es + 2 * slots es + texts es
unfolding dlls_size slots texts
dlls_size-texts [] = omega arith
dlls_size-texts (e ∷ es) = omega (arith, functions_size-hints e.functions, dlls_size-texts es)

c-add_import : (v p : ℕ) (es : List DllEntry) → (add_import v p es).2.c ≡ 20 + dlls_size es
unfolding add_import
c-add_import v p es =
    let iat = 20 * length es + 20 in
    let int = iterate_import 8 iat es in
    omega (
      arith,
      iterate_import-slots iat es,
      iterate_import-slots int es,
      dlls_size-texts es,
      c-write_dlls v (record { iat = iat; int = int; c = iterate_import 8 int es; plt_vaddr = p })
          es,
    )

import_all-IsMeasured :
    (i : Imports) (xs : List Import) → IsMeasured i → IsMeasured (import_all i xs)
unfolding import_all
import_all-IsMeasured i [] h = h
import_all-IsMeasured i (x ∷ xs) h =
    import_all-IsMeasured (import_function i x.name x.dllname x.addr) xs
      (import_function-IsMeasured i x.name x.dllname x.addr h)

directory_size-positive :
    (es : List DllEntry) → 0 < directory_size es → directory_size es ≡ 20 + dlls_size es
unfolding directory_size
directory_size-positive [] h = omega arith
directory_size-positive (e ∷ es) h = refl

import_function-more :
    (i : Imports) (x : Import)
    → i.import_directory_len < (import_function i x.name x.dllname x.addr).import_directory_len
unfolding import_function update_import_directory_len
import_function-more i x = omega arith

import_all-more :
    (i : Imports) (xs : List Import)
    → i.import_directory_len ≤ (import_all i xs).import_directory_len
unfolding import_all
import_all-more i [] = omega arith
import_all-more i (x ∷ xs) = omega (
  arith,
  import_function-more i x,
  import_all-more (import_function i x.name x.dllname x.addr) xs,
)

-- After any sequence of imports of at least one function, whatever DLLs they share, the length that
-- was counted while they were resolved is where the directory of a file that is not of 32 bits ends
-- when it is written, whatever its addresses.
pub import_directory_len-add_import :
    (plt_offset v p : ℕ) (x : Import) (xs : List Import)
    → (import_all (no_imports plt_offset) (x ∷ xs)).import_directory_len
      ≡ (add_import v p (import_all (no_imports plt_offset) (x ∷ xs)).entries).2.c
unfolding import_all
import_directory_len-add_import plt_offset v p x xs =
    let i = import_function (no_imports plt_offset) x.name x.dllname x.addr in
    let all = import_all i xs in
    let m = import_all-IsMeasured i xs (
      import_function-IsMeasured (no_imports plt_offset) x.name x.dllname x.addr
        (no_imports-IsMeasured plt_offset)) in
    let more : 0 < all.import_directory_len =
      omega (arith, import_function-more (no_imports plt_offset) x, import_all-more i xs) in
    omega (
      arith,
      m.counted,
      directory_size-positive all.entries (omega (arith, m.counted, more)),
      c-add_import v p all.entries,
    )
