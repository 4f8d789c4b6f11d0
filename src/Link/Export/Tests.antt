-- ===== src/Link/Export/Tests.antt =====
-- Two objects with three exported symbols for core/link/coff/export.c.
use bin_tools.Base.{
  ℕ, false, ◌==◌, if◌then◌else◌, List, [], ◌∷◌, some, none, ◌≡◌, refl, arith, same_string,
}
use bin_tools.Base.Bytes.{HasNoZero}
use bin_tools.Link.DtHash.{Words}
use bin_tools.Link.Export.{
  ExportSymbol, ExportState, add_export, find_f_from_export_directory, count_export,
}
use bin_tools.Link.Export.Room.{all_symbols, count_all, uncounted, names_size}
use bin_tools.Link.Export.Query.{first_named, AreNames, find_f_from_export_directory-add_export}

-- `f`, and behind it `gg` and another `f`; the file is `x`.
abbrev objects : List (List ExportSymbol)
objects =
    (record { name = 102 ∷ []; virtual_address = 0x1000; value = 4 } ∷ [])
    ∷ (record { name = 103 ∷ 103 ∷ []; virtual_address = 0x2000; value = 8 }
        ∷ record { name = 102 ∷ []; virtual_address = 0x3000; value = 0 }
        ∷ [])
    ∷ []

abbrev before : ExportState
before = record {
  edata = some (record { size_of_raw_data = 0; virtual_address = 0x5000; data_p = 0 });
  memory = λ (q : ℕ). 0xcc;
  hashed = none;
}

abbrev after : ExportState
after =
    add_export (120 ∷ []) false (count_all (120 ∷ []) uncounted (all_symbols objects)) 0x7000 before
      objects

counted : (count_all (120 ∷ []) uncounted (all_symbols objects)).export_directory_len ≡ 79
unfolding count_all count_export all_symbols
counted = refl

find_f_from_export_directory-add_export_example :
    find_f_from_export_directory after.memory 0x5000 0x7000 (103 ∷ 103 ∷ []) ≡ some 0x2008
unfolding first_named AreNames HasNoZero all_symbols names_size same_string
find_f_from_export_directory-add_export_example =
    find_f_from_export_directory-add_export (120 ∷ []) false 0x7000 before
      (record { size_of_raw_data = 0; virtual_address = 0x5000; data_p = 0 }) objects
      (103 ∷ 103 ∷ []) refl (omega arith) (omega arith) (omega arith)
      ((omega arith, tt), ((omega arith, (omega arith, tt)), ((omega arith, tt), tt)))
      (omega arith, (omega arith, tt))

-- With the hash table, which has one bucket and room for three chains.
abbrev empty_hash : Words
empty_hash i = if i == 0 then 1 else 0

abbrev hashing : ExportState
hashing = record before { hashed = some empty_hash }
