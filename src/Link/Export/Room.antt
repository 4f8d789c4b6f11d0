-- ===== src/Link/Export/Room.antt =====
-- The block that the export directory of core/link/coff/export.c is written to, and the length
-- that core/link/coff/callback.c counts for it.
use bin_tools.Base.{
  false, ne→==, ℕ, ◌+◌, ◌-◌, ◌*◌, ◌<◌, Bool, List, [], ◌∷◌, ◌++◌, length, length-append, u32, ◌≡◌,
  refl, sym, ◌∙◌, ap, arith, ◌==◌,
}
use bin_tools.Base.Bytes.{half_bytes, word_bytes, AwayFrom, AwayFrom-split, poke-away}
use bin_tools.Link.Export.{
  ExportSymbol, Counted, count_export, Tables, Writer, terminated, next_tables, write_symbol,
  write_symbols, write_objects,
}

-- The symbols of all objects, in order.
unfoldable pub all_symbols : List (List ExportSymbol) → List ExportSymbol
all_symbols [] = []
all_symbols (o ∷ os) = o ++ all_symbols os

unfoldable pub count_all : (outfile_name : List ℕ) → Counted → List ExportSymbol → Counted
count_all outfile_name c [] = c
count_all outfile_name c (s ∷ ss) = count_all outfile_name (count_export outfile_name c s.name) ss

-- Before any symbol.
abbrev pub uncounted : Counted
uncounted = record { export_directory_len = 0; export_func_count = 0 }

-- The bytes of the names.
unfoldable pub names_size : List ExportSymbol → ℕ
names_size [] = 0
names_size (s ∷ ss) = length s.name + 1 + names_size ss

count_all-more :
    (outfile_name : List ℕ) (ss : List ExportSymbol) (c : Counted)
    → 0 < c.export_directory_len
    → ((count_all outfile_name c ss).export_directory_len
        ≡ c.export_directory_len + 10 * length ss + names_size ss)
      × ((count_all outfile_name c ss).export_func_count ≡ c.export_func_count + length ss)
unfolding count_all count_export names_size
count_all-more outfile_name [] c h = (omega arith, omega arith)
count_all-more outfile_name (s ∷ ss) c h =
    let e : (c.export_directory_len == 0) ≡ false = ne→== _ 0 (omega arith) in
    let f : (count_export outfile_name c s.name).export_directory_len
        ≡ c.export_directory_len + (4 + 4 + 2 + length s.name + 1) =
      ground arith in
    let (a, b) =
      count_all-more outfile_name ss (count_export outfile_name c s.name) (omega arith) in
    (omega arith, omega arith)

pub count_all-length :
    (outfile_name : List ℕ) (s : ExportSymbol) (ss : List ExportSymbol)
    → ((count_all outfile_name uncounted (s ∷ ss)).export_directory_len
        ≡ 40 + length outfile_name + 1 + 10 * length (s ∷ ss) + names_size (s ∷ ss))
      × ((count_all outfile_name uncounted (s ∷ ss)).export_func_count ≡ length (s ∷ ss))
unfolding count_all count_export names_size
count_all-length outfile_name s ss =
    let (a, b) =
      count_all-more outfile_name ss (count_export outfile_name uncounted s.name) (omega arith) in
    (omega arith, omega arith)

write_symbols-append :
    (use_dt_hash : Bool) (v begin : ℕ) (ss ss' : List ExportSymbol) (w : Writer)
    → write_symbols use_dt_hash v begin w (ss ++ ss')
      ≡ write_symbols use_dt_hash v begin (write_symbols use_dt_hash v begin w ss) ss'
unfolding write_symbols
write_symbols-append use_dt_hash v begin [] ss' w = refl
write_symbols-append use_dt_hash v begin (s ∷ ss) ss' w =
    write_symbols-append use_dt_hash v begin ss ss' _

pub write_objects-all_symbols :
    (use_dt_hash : Bool) (v begin : ℕ) (w : Writer) (os : List (List ExportSymbol))
    → write_objects use_dt_hash v begin w os ≡ write_symbols use_dt_hash v begin w (all_symbols os)
unfolding write_objects all_symbols write_symbols
write_objects-all_symbols use_dt_hash v begin w [] = refl
write_objects-all_symbols use_dt_hash v begin w (o ∷ os) =
    write_objects-all_symbols use_dt_hash v begin (write_symbols use_dt_hash v begin w o) os
    ∙ sym (write_symbols-append use_dt_hash v begin o (all_symbols os) w)

module _ (v begin : ℕ) where
  -- The memory that the loops leave.
  unfoldable pub fill : (ℕ → ℕ) → Tables → (i : ℕ) → List ExportSymbol → ℕ → ℕ
  fill m t i [] = m
  fill m t i (s ∷ ss) = fill (write_symbol v begin m t i s) (next_tables t s) (u32 (i + 1)) ss

  write_symbols-fill :
      (use_dt_hash : Bool) (ss : List ExportSymbol) (w : Writer)
      → (write_symbols use_dt_hash v begin w ss).memory ≡ fill w.memory w.tables w.i ss
  unfolding write_symbols fill
  write_symbols-fill use_dt_hash [] w = refl
  write_symbols-fill use_dt_hash (s ∷ ss) w = write_symbols-fill use_dt_hash ss _

  pub write_objects-fill :
      (use_dt_hash : Bool) (w : Writer) (os : List (List ExportSymbol))
      → (write_objects use_dt_hash v begin w os).memory
        ≡ fill w.memory w.tables w.i (all_symbols os)
  write_objects-fill use_dt_hash w os =
      ap (λ (x : Writer). x.memory) (write_objects-all_symbols use_dt_hash v begin w os)
      ∙ write_symbols-fill use_dt_hash (all_symbols os) w

  -- The address is not in what remains of the tables or behind the last name.
  abbrev pub Away : Tables → List ExportSymbol → ℕ → Type 0
  Away t ss q =
      AwayFrom t.ordinals (2 * length ss) q
      × AwayFrom t.functions (4 * length ss) q
      × AwayFrom t.names (4 * length ss) q
      × AwayFrom t.c (names_size ss) q

  pub write_symbol-away :
      (m : ℕ → ℕ) (t : Tables) (i q : ℕ) (s : ExportSymbol)
      → AwayFrom t.ordinals 2 q
      → AwayFrom t.functions 4 q
      → AwayFrom t.names 4 q
      → AwayFrom t.c (length s.name + 1) q
      → write_symbol v begin m t i s q ≡ m q
  unfolding write_symbol half_bytes word_bytes
  write_symbol-away m t i q s o f n c =
      let l : length (terminated s.name) ≡ length s.name + 1 = length-append s.name (0 ∷ []) in
      poke-away _ t.c q (terminated s.name) (rw l c)
      ∙ poke-away _ t.ordinals q (half_bytes i) o
      ∙ poke-away _ t.functions q (word_bytes (u32 (s.virtual_address + s.value))) f
      ∙ poke-away m t.names q (word_bytes (v + (t.c - begin))) n

  pub fill-Away :
      (m : ℕ → ℕ) (t : Tables) (i q : ℕ) (ss : List ExportSymbol)
      → Away t ss q
      → fill m t i ss q ≡ m q
  unfolding fill names_size
  fill-Away m t i q [] h = refl
  fill-Away m t i q (s ∷ ss) (o, f, n, c) =
      let (o', os) =
        AwayFrom-split t.ordinals 2 (2 * length ss) (2 * length (s ∷ ss)) q (omega arith) o in
      let (f', fs) =
        AwayFrom-split t.functions 4 (4 * length ss) (4 * length (s ∷ ss)) q (omega arith) f in
      let (n', ns) =
        AwayFrom-split t.names 4 (4 * length ss) (4 * length (s ∷ ss)) q (omega arith) n in
      let (c', cs) = AwayFrom-split t.c (length s.name + 1) (names_size ss) _ q refl c in
      fill-Away (write_symbol v begin m t i s) (next_tables t s) (u32 (i + 1)) q ss (os, fs, ns, cs)
      ∙ write_symbol-away m t i q s o' f' n' c'
