-- ===== src/Link/Export/Block.antt =====
-- Everything that core/link/coff/export.c writes is in the block that has the counted length.
use bin_tools.Base.{ℕ, ◌+◌, Bool, List, [], ◌∷◌, Option, some, ◌>>=◌, ◌≡◌}
use bin_tools.Link.DtHash.{Words, add_dt_hash_entry}
use bin_tools.Base.Bytes.{poke}
use bin_tools.Link.Export.{
  ExportSymbol, Counted, terminated, first_tables, directory_bytes, Edata, ExportState, add_export,
}
use bin_tools.Link.Export.Room.{all_symbols, fill, write_objects-fill}

-- The memory in front of the loops.
abbrev pub headed : (outfile_name : List ℕ) → (v begin count : ℕ) → (ℕ → ℕ) → ℕ → ℕ
headed outfile_name v begin count m =
    poke (poke m begin (directory_bytes v begin count (first_tables begin count outfile_name)))
      (begin + 40) (terminated outfile_name)

pub add_export-fill :
    (outfile_name : List ℕ) (use_dt_hash : Bool) (c : Counted) (begin : ℕ) (st : ExportState)
    (sec : Edata) (os : List (List ExportSymbol))
    → st.edata ≡ some sec
    → (add_export outfile_name use_dt_hash c begin st os).memory
      ≡ fill sec.virtual_address begin
          (headed outfile_name sec.virtual_address begin c.export_func_count st.memory)
          (first_tables begin c.export_func_count outfile_name)
          0
          (all_symbols os)
unfolding add_export
add_export-fill outfile_name use_dt_hash c begin st sec os e =
    rw e (write_objects-fill sec.virtual_address begin use_dt_hash _ os)

-- The entries of the names in the hash table, the first one with the number `i`.
unfoldable pub add_names : Option Words → (i : ℕ) → List ExportSymbol → Option Words
add_names t i [] = t
add_names t i (s ∷ ss) =
    add_names (t >>= (λ (t' : Words). add_dt_hash_entry t' s.name i)) (i + 1) ss
