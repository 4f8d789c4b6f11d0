-- ===== src/Link/Reloc/Filled.antt =====
-- What the relocations of core/link/elf/reloc.c write.
use bin_tools.Base.{
  ℕ, ◌+◌, ◌-◌, ◌^◌, ◌<◌, ◌≤◌, List, true, false, ◌||◌, u32, u64, ◌==◌, bit_and, ◌≡◌, ◌≢◌, refl,
  arith, sym, ◌∙◌, ◌⊎◌, inl, inr, ne→==,
}
use bin_tools.Link.Reloc.{
  Relocation, Outcome, Object, ObjectSymbol, RelaEntry, Target, ResolveType, read_word, store_word,
  distance, fill_address, apply_type, resolve_new, is_dynamic,
}

read_word-store_word : (m : ℕ → ℕ) (a v : ℕ) → v < 2 ^ 32 → read_word (store_word m a v) a ≡ v
unfolding read_word store_word
read_word-store_word m a v h = ground arith

-- A branch that stores the distance.
stored :
    (r : Relocation) (addr type src dst : ℕ)
    → type ≡ 2 ⊎ type ≡ 4 ⊎ type ≡ 11
    → read_word r.memory addr ≡ 0
    → distance src dst ≢ 0
    → fill_address r addr type src dst
      ≡ Outcome.done (record r { memory = store_word r.memory addr (distance src dst) })
unfolding fill_address
stored r addr type src dst (inl t) w d = rw w (rw (ne→== (distance src dst) 0 d) (rw t refl))
stored r addr type src dst (inr (inl t)) w d = rw w (rw (ne→== (distance src dst) 0 d) (rw t refl))
stored r addr type src dst (inr (inr t)) w d = rw w (rw (ne→== (distance src dst) 0 d) (rw t refl))

-- A known symbol `sym` of an object has the address `s`: its section's, or its exported value, when
-- the section `sec` of the relocations is not one of the arrays of functions.
unfoldable pub IsKnown : Object → ObjectSymbol → (sec s : ℕ) → Type 0
IsKnown oc sym sec s =
    (bit_and sym.st_info 0xf ≡ 3) × (s ≡ u32 (oc.section_addr sym.st_shndx))
    ⊎ (bit_and sym.st_info 0xf ≤ 2)
      × (s ≡ u32 (oc.exported sym.name))
      × (s ≢ 0)
      × (sec ≢ 2)
      × (sec ≢ 3)

-- Where the relocation writes, the address it is for, and what `fill_address` takes for it.
abbrev pub place : RelaEntry → Target → ℕ
place rela sub = sub.sh_offset + rela.r_offset

abbrev pub address : RelaEntry → Target → ℕ
address rela sub = u32 (sub.sh_addr + rela.r_offset)

abbrev pub filled : RelaEntry → Target → ℕ
filled rela sub = u32 (address rela sub + u64 (2 ^ 64 - rela.r_addend))

-- The memory after a relative relocation.
pub record IsRelative (r : Relocation) (rela : RelaEntry) (sub : Target) (s : ℕ) (o : Outcome)
    : Type 0 where
  pub result : Relocation
  pub returns : o ≡ Outcome.done result
  pub relative :
      u32 (read_word result.memory (place rela sub) + address rela sub) ≡ u32 (s + rela.r_addend)
  pub same_dynamic : result.dynamic ≡ r.dynamic

distance-lt : (src dst : ℕ) → distance src dst < 2 ^ 32
unfolding distance
distance-lt src dst = omega arith

applied :
    (fresh : ℕ → ℕ) (r : Relocation) (kind : ResolveType) (name : List ℕ)
    (addr type src at_ dst : ℕ)
    → is_dynamic kind ≡ false
    → type ≡ 2 ⊎ type ≡ 4 ⊎ type ≡ 11
    → apply_type fresh r kind name addr type src at_ dst ≡ fill_address r addr type at_ dst
unfolding apply_type
applied fresh r kind name addr type src at_ dst k (inl t) = rw t (rw k refl)
applied fresh r kind name addr type src at_ dst k (inr (inl t)) = rw t (rw k refl)
applied fresh r kind name addr type src at_ dst k (inr (inr t)) = rw t (rw k refl)

apply_type-IsRelative :
    (fresh : ℕ → ℕ) (r : Relocation) (kind : ResolveType) (name : List ℕ) (rela : RelaEntry)
    (sub : Target) (s : ℕ)
    → is_dynamic kind ≡ false
    → rela.r_type ≡ 2 ⊎ rela.r_type ≡ 4 ⊎ rela.r_type ≡ 11
    → read_word r.memory (place rela sub) ≡ 0
    → distance (filled rela sub) s ≢ 0
    → rela.r_addend < 2 ^ 64
    → IsRelative r rela sub s (
        apply_type fresh r kind name
          (place rela sub)
          rela.r_type
          (address rela sub)
          (filled rela sub)
          s)
unfolding distance
apply_type-IsRelative fresh r kind name rela sub s k t w d a = record {
  result = record r {
    memory = store_word r.memory (place rela sub) (distance (filled rela sub) s);
  };
  returns =
      applied fresh r kind name (place rela sub) rela.r_type (address rela sub) (filled rela sub) s
        k t
      ∙ stored r (place rela sub) rela.r_type (filled rela sub) s t w d;
  relative = omega (
    arith,
    read_word-store_word r.memory (place rela sub) (distance (filled rela sub) s)
        (distance-lt (filled rela sub) s),
  );
  same_dynamic = refl;
}

counted_memory :
    (r r' : Relocation) (rela : RelaEntry) (sub : Target) (s : ℕ) (o : Outcome)
    → r'.dynamic ≡ r.dynamic
    → IsRelative r' rela sub s o
    → IsRelative r rela sub s o
counted_memory r r' rela sub s o e i = record {
  result = i.result;
  returns = i.returns;
  relative = i.relative;
  same_dynamic = i.same_dynamic ∙ e;
}

low_types : (t : ℕ) → t ≤ 2 → (t == 0 || t == 1 || t == 2) ≡ true
low_types t h = ground arith

-- A relocation of type 2, 4 or 11 for a known symbol with the address `s` returns, when the word at
-- its place is 0 and the distance that it stores is not 0, changes no table, and stores the word
-- that makes the relocation relative: with the address of the place it is `s` and the addend, up to
-- multiples of 2 ^ 32.
pub resolve_new-IsRelative :
    (fresh : ℕ → ℕ) (oc : Object) (r : Relocation) (rela : RelaEntry) (sub : Target) (sec s : ℕ)
    → IsKnown oc (oc.symbols rela.r_sym) sec s
    → rela.r_type ≡ 2 ⊎ rela.r_type ≡ 4 ⊎ rela.r_type ≡ 11
    → read_word r.memory (place rela sub) ≡ 0
    → distance (filled rela sub) s ≢ 0
    → rela.r_addend < 2 ^ 64
    → IsRelative r rela sub s (resolve_new fresh oc r rela sub sec)
unfolding resolve_new IsKnown is_dynamic
resolve_new-IsRelative fresh oc r rela sub sec s (inl (three, e)) t w d a = rw three (
    rw (sym e) (
      counted_memory r (record r { internal_num = r.internal_num + 1 }) rela sub s _ refl
        (apply_type-IsRelative fresh (record r { internal_num = r.internal_num + 1 })
          ResolveType.internal_section (oc.symbols rela.r_sym).name rela sub s refl t w d a)))
resolve_new-IsRelative fresh oc r rela sub sec s (inr (low, e, nz, n2, n3)) t w d a =
    rw (low_types (bit_and (oc.symbols rela.r_sym).st_info 0xf) low) (
      rw (sym e) (
        rw (ne→== s 0 nz) (
          rw (ne→== sec 2 n2) (
            rw (ne→== sec 3 n3) (
              counted_memory r (record r { external_num = r.external_num + 1 }) rela sub s _ refl
                (apply_type-IsRelative fresh (record r { external_num = r.external_num + 1 })
                  ResolveType.internal_func (oc.symbols rela.r_sym).name rela sub s refl t w d
                  a))))))
