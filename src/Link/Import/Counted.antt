-- ===== src/Link/Import/Counted.antt =====
-- The length of the import directory that core/link/coff/reloc.c counts is the length that
-- core/link/coff/import.c writes.
use bin_tools.Base.{
  ℕ, ◌+◌, ◌*◌, Bool, true, false, ◌||◌, List, [], ◌∷◌, ◌++◌, length, ◌==◌, if◌then◌else◌,
  same_string, ◌≡◌, refl, arith, Bool-cases, inl, inr, ne→==,
}
use bin_tools.Link.Import.{
  FunctionEntry, DllEntry, is_imported, add_function, Imports, import_function,
}

-- The bytes of the functions of a DLL, of the DLLs, and of the whole directory.
unfoldable pub functions_size : List FunctionEntry → ℕ
functions_size [] = 0
functions_size (f ∷ fs) = 2 * 8 + 2 + length f.name + 1 + functions_size fs

unfoldable pub dlls_size : List DllEntry → ℕ
dlls_size [] = 0
dlls_size (e ∷ es) = 20 + 2 * 8 + length e.name + 1 + functions_size e.functions + dlls_size es

unfoldable pub directory_size : List DllEntry → ℕ
directory_size [] = 0
directory_size (e ∷ es) = 20 + dlls_size (e ∷ es)

functions_size-append :
    (fs gs : List FunctionEntry) → functions_size (fs ++ gs) ≡ functions_size fs + functions_size gs
unfolding functions_size
functions_size-append [] gs = omega arith
functions_size-append (f ∷ fs) gs = omega (arith, functions_size-append fs gs)

dlls_size-append : (es ds : List DllEntry) → dlls_size (es ++ ds) ≡ dlls_size es + dlls_size ds
unfolding dlls_size
dlls_size-append [] ds = omega arith
dlls_size-append (e ∷ es) ds = omega (arith, dlls_size-append es ds)

dlls_size-add_function :
    (es : List DllEntry) (f : FunctionEntry) (dllname : List ℕ)
    → is_imported es dllname ≡ true
    → dlls_size (add_function es f dllname) ≡ dlls_size es + functions_size (f ∷ [])
unfolding dlls_size add_function is_imported functions_size
dlls_size-add_function [] f dllname h = cc
dlls_size-add_function (e ∷ es) f dllname h = elim (Bool-cases (is_imported es dllname)) [
  | inl i ↦ rw i (omega (arith, dlls_size-add_function es f dllname i))
  | inr i ↦ elim (Bool-cases (same_string e.name dllname)) [
    | inl s ↦ rw i (rw s (omega (arith, functions_size-append e.functions (f ∷ []))))
    | inr s ↦ (let x : (false || false) ≡ true = rw s at (rw i at h) in cc)
  ]
]

or_true : (a : Bool) {b : Bool} → b ≡ true → (a || b) ≡ true
or_true true h = refl
or_true false h = h

is_imported-add_function :
    (es : List DllEntry) (f : FunctionEntry) (dllname : List ℕ)
    → is_imported es dllname ≡ true
    → is_imported (add_function es f dllname) dllname ≡ true
unfolding add_function is_imported
is_imported-add_function [] f dllname h = cc
is_imported-add_function (e ∷ es) f dllname h = elim (Bool-cases (is_imported es dllname)) [
  | inl i ↦ rw i (or_true (same_string e.name dllname) (is_imported-add_function es f dllname i))
  | inr i ↦ elim (Bool-cases (same_string e.name dllname)) [
    | inl s ↦ rw i (rw s (rw s refl))
    | inr s ↦ (let x : (false || false) ≡ true = rw s at (rw i at h) in cc)
  ]
]

directory_size-imported :
    (es : List DllEntry) (dllname : List ℕ)
    → is_imported es dllname ≡ true
    → directory_size es ≡ 20 + dlls_size es
unfolding directory_size is_imported
directory_size-imported [] dllname h = cc
directory_size-imported (e ∷ es) dllname h = refl

-- What a new DLL adds, with the empty descriptor for the first one.
directory_size-new :
    (es : List DllEntry) (len : ℕ) (e : DllEntry)
    → len ≡ directory_size es
    → directory_size (es ++ e ∷ []) ≡ len + (if len == 0 then 20 else 0) + dlls_size (e ∷ [])
unfolding directory_size dlls_size
directory_size-new [] len e h = rw h (omega arith)
directory_size-new (d ∷ es) len e h =
    rw (ne→== len 0 (λ (z : len ≡ 0). omega arith)) (omega (arith, dlls_size-append es (e ∷ [])))

-- The counted length is the size of the directory.
pub record IsMeasured (i : Imports) : Type 0 where
  pub counted : i.import_directory_len ≡ directory_size i.entries

pub import_function-IsMeasured :
    (i : Imports) (name dllname : List ℕ) (addr : ℕ)
    → IsMeasured i
    → IsMeasured (import_function i name dllname addr)
unfolding import_function dlls_size functions_size
import_function-IsMeasured i name dllname addr h =
    let f : FunctionEntry = record { addr = addr; name = name } in
    elim (Bool-cases (is_imported i.entries dllname)) [
      | inl t ↦ record {
        counted = rw t (
            omega (
              arith,
              h.counted,
              directory_size-imported i.entries dllname t,
              directory_size-imported (add_function i.entries f dllname) dllname
                  (is_imported-add_function i.entries f dllname t),
              dlls_size-add_function i.entries f dllname t,
            ));
      }
      | inr t ↦ record {
        counted = rw t (
            omega (
              arith,
              directory_size-new i.entries i.import_directory_len
                  (record { name = dllname; functions = f ∷ [] }) h.counted,
            ));
      }
    ]
