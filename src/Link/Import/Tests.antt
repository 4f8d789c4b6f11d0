-- ===== src/Link/Import/Tests.antt =====
-- A concrete import directory for core/link/coff/import.c.
use bin_tools.Base.{List, [], ◌∷◌, ◌≡◌, refl, same_string}
use bin_tools.Link.Import.{add_import, import_function}
use bin_tools.Link.Import.Written.{Import, import_all, no_imports, import_directory_len-add_import}

-- `f` and `g` from `a.dll`, `h` from `b`.
abbrev first_import : Import
first_import = record { name = 102 ∷ []; dllname = 97 ∷ 46 ∷ 100 ∷ []; addr = 0 }

abbrev other_imports : List Import
other_imports =
    record { name = 103 ∷ []; dllname = 97 ∷ 46 ∷ 100 ∷ []; addr = 0 }
    ∷ record { name = 104 ∷ []; dllname = 98 ∷ []; addr = 0 }
    ∷ []

import_directory_len-add_import_example :
    (import_all (no_imports 0x3000) (first_import ∷ other_imports)).import_directory_len
    ≡ (add_import 0x4000 0x3000
        (import_all (no_imports 0x3000) (first_import ∷ other_imports)).entries).2.c
import_directory_len-add_import_example =
    import_directory_len-add_import 0x3000 0x4000 0x3000 first_import other_imports

three_functions :
    (import_all (no_imports 0x3000) (first_import ∷ other_imports)).import_directory_len ≡ 158
unfolding import_all import_function same_string
three_functions = refl
