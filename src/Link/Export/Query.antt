-- ===== src/Link/Export/Query.antt =====
-- The search of core/objectfile/coff_pe/read_pe.c in the export directory that core/link/coff/export.c
-- has written.
use bin_tools.Base.{
  ℕ, ◌+◌, ◌-◌, ◌*◌, ◌<◌, ◌≤◌, ◌^◌, Bool, List, [], ◌∷◌, length, u32, u64, Option, some, none, ◌≡◌,
  refl, sym, ◌∙◌, ap, arith, inl, same_string, if◌then◌else◌, ◌%◌,
}
use bin_tools.Base.Bytes.{
  poke, half_bytes, word_bytes, load_half, load_word, load_half-IsAt, load_word-IsAt, IsAt,
  IsAt-poke, IsAt-poke-Apart, HasNoZero, strings_equal, strings_equal-IsAt,
}
use bin_tools.Link.Export.{
  ExportSymbol, Tables, terminated, next_tables, first_tables, directory_bytes, Edata, ExportState,
  add_export, find_name, find_f_from_export_directory,
}
use bin_tools.Link.Export.Room.{
  all_symbols, count_all, uncounted, names_size, fill, count_all-length,
}
use bin_tools.Link.Export.Directory.{directory_words}
use bin_tools.Link.Export.Block.{headed, add_export-fill}
use bin_tools.Link.Export.Entries.{Entries, Fits, fill-Entries, IsAt-fill}

-- The address of the first symbol of that name.
unfoldable pub first_named : List ExportSymbol → List ℕ → Option ℕ
first_named [] query = none
first_named (s ∷ ss) query =
    let rest = first_named ss query in
    if same_string query s.name then some (u32 (s.virtual_address + s.value)) else rest

-- No name has a zero in it.
unfoldable pub AreNames : List ExportSymbol → Type 0
AreNames [] = Unit
AreNames (s ∷ ss) = HasNoZero s.name × AreNames ss

-- The address of the module, from the address of a directory.
abbrev module_base : (v begin : ℕ) → ℕ
module_base v begin = u64 (begin + (2 ^ 64 - v))

-- The address of something in the directory, from what the directory says.
module_base-at :
    (v begin p x : ℕ)
    → begin ≤ p
    → p < 2 ^ 64
    → v + (p - begin) < 2 ^ 32
    → x ≡ (v + (p - begin)) % 2 ^ 32
    → u64 (module_base v begin + x) ≡ p
module_base-at v begin p x h h' h'' e = omega arith

module _ (v begin : ℕ) (m : ℕ → ℕ) (functions ordinals : ℕ) (query : List ℕ)
    (z : HasNoZero query) where
  find_name-first_named :
      (t : Tables) (i : ℕ) (ss : List ExportSymbol)
      → t.functions ≡ functions + 4 * i
      → t.ordinals ≡ ordinals + 2 * i
      → i + length ss ≤ 2 ^ 16
      → begin ≤ t.c
      → t.c + names_size ss ≤ 2 ^ 64
      → v + (t.c - begin) + names_size ss < 2 ^ 32
      → AreNames ss
      → Entries v begin m t i ss
      → find_name m (module_base v begin) functions ordinals (length ss) t.names i query
        ≡ first_named ss query
  unfolding find_name first_named Entries AreNames names_size
  find_name-first_named t i [] e e' r b u w names h = refl
  find_name-first_named t i (s ∷ ss) e e' r b u w (name, names) (n, f, o, c, h) =
      let p =
        module_base-at v begin t.c (load_word m t.names) b (omega arith) (omega arith)
          (load_word-IsAt m t.names (v + (t.c - begin)) n) in
      let q : strings_equal m query (u64 (module_base v begin + load_word m t.names))
          ≡ same_string query s.name =
        ap (λ (x : ℕ). strings_equal m query x) p
        ∙ strings_equal-IsAt m query s.name t.c z name c in
      let k : load_half m (ordinals + 2 * i) ≡ i =
        ap (λ (x : ℕ). load_half m x) (sym e') ∙ load_half-IsAt m t.ordinals i o ∙ omega arith in
      let a : load_word m (functions + 4 * load_half m (ordinals + 2 * i))
          ≡ u32 (s.virtual_address + s.value) =
        ap (λ (x : ℕ). load_word m (functions + 4 * x)) k
        ∙ ap (λ (x : ℕ). load_word m x) (sym e)
        ∙ load_word-IsAt m t.functions (u32 (s.virtual_address + s.value)) f
        ∙ omega arith in
      let rest =
        find_name-first_named (next_tables t s) (u32 (i + 1)) ss (omega arith) (omega arith)
          (omega arith) (omega arith) (omega arith) (omega arith) names h in
      rw q (rw a (rw rest refl))

-- The directory is still there behind the loops.
directory_kept :
    (outfile_name : List ℕ) (v begin : ℕ) (m : ℕ → ℕ) (i : ℕ) (ss : List ExportSymbol)
    → IsAt
        (fill v begin
          (headed outfile_name v begin (length ss) m)
          (first_tables begin (length ss) outfile_name)
          i
          ss)
        begin
        (directory_bytes v begin (length ss) (first_tables begin (length ss) outfile_name))
unfolding first_tables directory_bytes word_bytes half_bytes
directory_kept outfile_name v begin m i ss =
    let t = first_tables begin (length ss) outfile_name in
    let bs = directory_bytes v begin (length ss) t in
    IsAt-fill v begin _ t i begin ss bs (inl (omega arith)) (inl (omega arith)) (inl (omega arith))
      (inl (omega arith))
      (IsAt-poke-Apart (poke m begin bs) begin (begin + 40) bs (terminated outfile_name)
        (inl (omega arith)) (IsAt-poke m begin bs))

func_count :
    (outfile_name : List ℕ) (ss : List ExportSymbol)
    → (count_all outfile_name uncounted ss).export_func_count ≡ length ss
unfolding count_all
func_count outfile_name [] = refl
func_count outfile_name (s ∷ ss) = (count_all-length outfile_name s ss).1

find_in_block :
    (outfile_name : List ℕ) (v begin : ℕ) (m : ℕ → ℕ) (ss : List ExportSymbol) (query : List ℕ)
    → length ss ≤ 2 ^ 16
    → v + (40 + length outfile_name + 1 + 10 * length ss + names_size ss) < 2 ^ 32
    → begin + (40 + length outfile_name + 1 + 10 * length ss + names_size ss) < 2 ^ 64
    → AreNames ss
    → HasNoZero query
    → find_f_from_export_directory
        (fill v begin
          (headed outfile_name v begin (length ss) m)
          (first_tables begin (length ss) outfile_name)
          0
          ss)
        v
        begin
        query
      ≡ first_named ss query
unfolding find_f_from_export_directory first_tables
find_in_block outfile_name v begin m ss query n h h' names z =
    let t = first_tables begin (length ss) outfile_name in
    let m' = fill v begin (headed outfile_name v begin (length ss) m) t 0 ss in
    let (c, f, a, o) =
      directory_words m' v begin (length ss) t (directory_kept outfile_name v begin m 0 ss) in
    let fits : Fits v begin t (length ss) = record {
      ordinals_end = omega arith;
      functions_end = omega arith;
      names_end = omega arith;
    } in
    let c' : load_word m' (begin + 24) ≡ length ss = c ∙ omega arith in
    let f' = module_base-at v begin t.functions _ (omega arith) (omega arith) (omega arith) f in
    let a' = module_base-at v begin t.names _ (omega arith) (omega arith) (omega arith) a in
    let o' = module_base-at v begin t.ordinals _ (omega arith) (omega arith) (omega arith) o in
    rw c' (
      rw f' (
        rw a' (
          rw o' (
            find_name-first_named v begin m' t.functions t.ordinals query z t 0 ss (omega arith)
              (omega arith) (omega arith) (omega arith) (omega arith) (omega arith) names
              (fill-Entries v begin (headed outfile_name v begin (length ss) m) t 0 ss fits)))))

-- When there is a section for it, at most 2 ^ 16 symbols are exported, the symbols have been counted
-- from nothing, the directory ends below 2 ^ 32 in the image and below 2 ^ 64 in memory, and no name has
-- a zero in it: the search in the directory that has been written gives, for every name, the
-- address of the first symbol of that name, and nothing if there is none.
pub find_f_from_export_directory-add_export :
    (outfile_name : List ℕ) (use_dt_hash : Bool) (begin : ℕ) (st : ExportState) (sec : Edata)
    (os : List (List ExportSymbol)) (query : List ℕ)
    → let size =
        40 + length outfile_name + 1 + 10 * length (all_symbols os) + names_size (all_symbols os) in
      st.edata ≡ some sec
      → length (all_symbols os) ≤ 2 ^ 16
      → sec.virtual_address + size < 2 ^ 32
      → begin + size < 2 ^ 64
      → AreNames (all_symbols os)
      → HasNoZero query
      → find_f_from_export_directory
          (add_export outfile_name use_dt_hash
            (count_all outfile_name uncounted (all_symbols os))
            begin
            st
            os).memory
          sec.virtual_address
          begin
          query
        ≡ first_named (all_symbols os) query
find_f_from_export_directory-add_export outfile_name use_dt_hash begin st sec os query e n h h'
      names z =
    let ss = all_symbols os in
    let c = count_all outfile_name uncounted ss in
    ap (λ (m : ℕ → ℕ). find_f_from_export_directory m sec.virtual_address begin query)
      (add_export-fill outfile_name use_dt_hash c begin st sec os e)
    ∙ ap
        (λ (k : ℕ).
          find_f_from_export_directory
            (fill sec.virtual_address begin
              (headed outfile_name sec.virtual_address begin k st.memory)
              (first_tables begin k outfile_name) 0 ss)
            sec.virtual_address begin query)
        (func_count outfile_name ss)
    ∙ find_in_block outfile_name sec.virtual_address begin st.memory ss query n h h' names z
