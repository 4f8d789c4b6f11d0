-- ===== src/Link/Export/Entries.antt =====
-- What the loops of core/link/coff/export.c leave in the tables.
use bin_tools.Base.{
  ℕ, ◌+◌, ◌-◌, ◌*◌, ◌≤◌, List, [], ◌∷◌, length, length-append, u32, ◌≡◌, arith, inl, inr,
}
use bin_tools.Base.Bytes.{
  half_bytes, word_bytes, IsAt, IsAt-poke, IsAt-frame, IsAt-poke-Apart, Apart, Apart-AwayFrom,
}
use bin_tools.Link.Export.{ExportSymbol, Tables, terminated, next_tables, write_symbol}
use bin_tools.Link.Export.Room.{names_size, fill, fill-Away}

module _ (v begin : ℕ) where
  -- Every symbol has its name, the address of its name, its own address and its number.
  unfoldable pub Entries : (ℕ → ℕ) → Tables → (i : ℕ) → List ExportSymbol → Type 0
  Entries m t i [] = Unit
  Entries m t i (s ∷ ss) =
      IsAt m t.names (word_bytes (v + (t.c - begin)))
      × IsAt m t.functions (word_bytes (u32 (s.virtual_address + s.value)))
      × IsAt m t.ordinals (half_bytes i)
      × IsAt m t.c (terminated s.name)
      × Entries m (next_tables t s) (u32 (i + 1)) ss

  -- The tables have room for `n` more symbols.
  pub record Fits (t : Tables) (n : ℕ) : Type 0 where
    pub ordinals_end : t.ordinals + 2 * n ≤ t.functions
    pub functions_end : t.functions + 4 * n ≤ t.names
    pub names_end : t.names + 4 * n ≤ t.c

  pub IsAt-fill :
      (m : ℕ → ℕ) (t : Tables) (i a : ℕ) (ss : List ExportSymbol) (bs : List ℕ)
      → Apart a (length bs) t.ordinals (2 * length ss)
      → Apart a (length bs) t.functions (4 * length ss)
      → Apart a (length bs) t.names (4 * length ss)
      → Apart a (length bs) t.c (names_size ss)
      → IsAt m a bs
      → IsAt (fill v begin m t i ss) a bs
  IsAt-fill m t i a ss bs o f n c h =
      IsAt-frame m (fill v begin m t i ss) a bs
        (λ q l r. fill-Away v begin m t i q ss (
          Apart-AwayFrom a (length bs) t.ordinals (2 * length ss) q o l r,
          Apart-AwayFrom a (length bs) t.functions (4 * length ss) q f l r,
          Apart-AwayFrom a (length bs) t.names (4 * length ss) q n l r,
          Apart-AwayFrom a (length bs) t.c (names_size ss) q c l r,
        ))
        h

  -- One symbol, when there is room for it.
  write_symbol-IsAt :
      (m : ℕ → ℕ) (t : Tables) (i : ℕ) (s : ExportSymbol)
      → Fits t 1
      → IsAt (write_symbol v begin m t i s) t.names (word_bytes (v + (t.c - begin)))
        × IsAt
            (write_symbol v begin m t i s)
            t.functions
            (word_bytes (u32 (s.virtual_address + s.value)))
        × IsAt (write_symbol v begin m t i s) t.ordinals (half_bytes i)
        × IsAt (write_symbol v begin m t i s) t.c (terminated s.name)
  unfolding write_symbol word_bytes half_bytes
  write_symbol-IsAt m t i s h =
      let a = h.ordinals_end in
      let b = h.functions_end in
      let c = h.names_end in
      (
        IsAt-poke-Apart _ t.names t.c _ (terminated s.name) (inl (omega arith)) (
            IsAt-poke-Apart _ t.names t.ordinals _ (half_bytes i) (inr (omega arith)) (
              IsAt-poke-Apart _ t.names t.functions _ _ (inr (omega arith))
                (IsAt-poke m t.names _))),
        IsAt-poke-Apart _ t.functions t.c _ (terminated s.name) (inl (omega arith)) (
            IsAt-poke-Apart _ t.functions t.ordinals _ (half_bytes i) (inr (omega arith))
              (IsAt-poke _ t.functions _)),
        IsAt-poke-Apart _ t.ordinals t.c _ (terminated s.name) (inl (omega arith))
            (IsAt-poke _ t.ordinals (half_bytes i)),
        IsAt-poke _ t.c (terminated s.name),
      )

  pub fill-Entries :
      (m : ℕ → ℕ) (t : Tables) (i : ℕ) (ss : List ExportSymbol)
      → Fits t (length ss)
      → Entries (fill v begin m t i ss) t i ss
  unfolding Entries fill word_bytes half_bytes
  fill-Entries m t i [] h = tt
  fill-Entries m t i (s ∷ ss) h =
      let a = h.ordinals_end in
      let b = h.functions_end in
      let c = h.names_end in
      let l : length (terminated s.name) ≡ length s.name + 1 = length-append s.name (0 ∷ []) in
      let m' = write_symbol v begin m t i s in
      let t' = next_tables t s in
      let one : Fits t 1 = record {
        ordinals_end = omega arith;
        functions_end = omega arith;
        names_end = omega arith;
      } in
      let rest : Fits t' (length ss) = record {
        ordinals_end = omega arith;
        functions_end = omega arith;
        names_end = omega arith;
      } in
      let (n, f, o, w) = write_symbol-IsAt m t i s one in
      (
        IsAt-fill m' t' (u32 (i + 1)) t.names ss _ (inr (omega arith)) (inr (omega arith))
            (inl (omega arith)) (inl (omega arith)) n,
        IsAt-fill m' t' (u32 (i + 1)) t.functions ss _ (inr (omega arith)) (inl (omega arith))
            (inl (omega arith)) (inl (omega arith)) f,
        IsAt-fill m' t' (u32 (i + 1)) t.ordinals ss (half_bytes i) (inl (omega arith))
            (inl (omega arith)) (inl (omega arith)) (inl (omega arith)) o,
        IsAt-fill m' t' (u32 (i + 1)) t.c ss (terminated s.name) (inr (omega arith))
            (inr (omega arith)) (inr (omega arith)) (inl (omega arith)) w,
        fill-Entries m' t' (u32 (i + 1)) ss rest,
      )
