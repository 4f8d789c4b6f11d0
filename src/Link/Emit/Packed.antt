-- ===== src/Link/Emit/Packed.antt =====
-- Where core/link/elf/emit.c writes the sections, next to the addresses that core/link/elf/reloc.c
-- gives them.
use bin_tools.Base.{
  ℕ, zero, suc, ◌+◌, ◌<◌, ◌^◌, Bool, List, [], ◌∷◌, map, length, u32, ◌==◌, if◌then◌else◌, ◌≡◌,
  refl, arith, ap, subst, inl, inr, Bool-cases, ==_iff,
}
use bin_tools.Link.Layout.{
  Placed, Container, Layout, place_chains, size_after, elf_set_virtual_address, set_addresses,
}
use bin_tools.Link.Layout.Ordered.{
  total_size, total, AreFresh, size_after-total, total_size-place_chains,
}
use bin_tools.Link.Emit.{
  EmitConfig, Ehdr, Phdr, gen_elf, Raw, RawContainer, Emitted, set_elf_default_config, start_layout,
  write_raws, write_raw_data, write_containers,
}

default_alignment :
    (c : EmitConfig) (nodynamic : Bool)
    → (set_elf_default_config c nodynamic).output_vaddr_alignment ≡ 0
unfolding set_elf_default_config
default_alignment c nodynamic = refl

-- The sections follow each other without a gap, from the address on.
unfoldable pub IsPacked : ℕ → List Placed → Type 0
IsPacked low [] = Unit
IsPacked low (c ∷ cs) = (c.sh_addr ≡ low) × IsPacked (low + c.sh_size) cs

-- The same over containers.
unfoldable pub ArePacked : ℕ → List Container → Type 0
ArePacked low [] = Unit
ArePacked low (sc ∷ scs) = IsPacked low sc.chains × ArePacked (low + total_size sc.chains) scs

pub place_chains-IsPacked :
    (offset size : ℕ) (cs : List Placed)
    → offset + size + total_size cs < 2 ^ 32
    → IsPacked (offset + size) (place_chains offset size cs)
unfolding IsPacked place_chains total_size
place_chains-IsPacked offset size [] h = tt
place_chains-IsPacked offset size (c ∷ cs) h =
    let e : size + c.sh_size ≡ u32 (size + c.sh_size) = omega arith in
    (
      omega arith,
      subst (λ (x : ℕ). IsPacked (offset + size + c.sh_size) (place_chains offset x cs)) e
          (subst (λ (x : ℕ). IsPacked x (place_chains offset (size + c.sh_size) cs)) (omega arith)
            (place_chains-IsPacked offset (size + c.sh_size) cs (omega arith))),
    )

-- One container without a gap behind it.
elf_set_virtual_address-IsPacked :
    (l : Layout) (sc : Container) (cs : List Placed)
    → sc.chains ≡ cs
    → sc.size ≡ 0
    → l.output_vaddr_alignment ≡ 0
    → l.virtual_address_offset + total_size sc.chains < 2 ^ 32
    → IsPacked l.virtual_address_offset (elf_set_virtual_address l sc).1.chains
      × ((elf_set_virtual_address l sc).0.virtual_address_offset
          ≡ l.virtual_address_offset + total_size (elf_set_virtual_address l sc).1.chains)
      × (total_size (elf_set_virtual_address l sc).1.chains ≡ total_size sc.chains)
      × ((elf_set_virtual_address l sc).0.output_vaddr_alignment ≡ 0)
unfolding elf_set_virtual_address IsPacked total_size
elf_set_virtual_address-IsPacked l sc [] e z a h = rw e (tt, omega arith, refl, a)
elf_set_virtual_address-IsPacked l sc (c ∷ cs) e z a h =
    let t : total_size sc.chains ≡ total_size (c ∷ cs) = ap total_size e in
    let n : size_after 0 (c ∷ cs) ≡ 0 + total_size (c ∷ cs) =
      size_after-total 0 (c ∷ cs) (omega arith) in
    let q : IsPacked l.virtual_address_offset (place_chains l.virtual_address_offset 0 (c ∷ cs)) =
      subst (λ (x : ℕ). IsPacked x (place_chains l.virtual_address_offset 0 (c ∷ cs))) (omega arith)
        (place_chains-IsPacked l.virtual_address_offset 0 (c ∷ cs) (omega arith)) in
    let w : total_size (place_chains l.virtual_address_offset 0 (c ∷ cs)) ≡ total_size (c ∷ cs) =
      total_size-place_chains l.virtual_address_offset 0 (c ∷ cs) in
    rw e (rw z (rw n (q, omega arith, w, a)))

set_addresses-ArePacked :
    (l : Layout) (scs : List Container)
    → AreFresh scs
    → l.output_vaddr_alignment ≡ 0
    → l.virtual_address_offset + total 0 scs < 2 ^ 32
    → ArePacked l.virtual_address_offset (set_addresses elf_set_virtual_address l scs).1
unfolding set_addresses total AreFresh ArePacked
set_addresses-ArePacked l [] fresh a h = tt
set_addresses-ArePacked l (sc ∷ scs) (z, fresh) a h =
    let first = elf_set_virtual_address l sc in
    let (p, o, t, a') = elf_set_virtual_address-IsPacked l sc sc.chains refl z a (omega arith) in
    (
      p,
      subst (λ (x : ℕ). ArePacked x (set_addresses elf_set_virtual_address first.0 scs).1) o
          (set_addresses-ArePacked first.0 scs fresh a' (omega arith)),
    )

-- Containers as they are written carry the sections of containers as they are laid out, each with
-- the contents of its size.
unfoldable pub IsFilled : List Raw → Type 0
IsFilled [] = Unit
IsFilled (r ∷ rs) = (length r.contents ≡ r.section.sh_size) × IsFilled rs

unfoldable pub Carry : List RawContainer → List Container → Type 0
Carry [] [] = Unit
Carry [] (sc ∷ scs) = ⊥
Carry (rc ∷ rcs) [] = ⊥
Carry (rc ∷ rcs) (sc ∷ scs) =
    (map (λ (r : Raw). r.section) rc.raws ≡ sc.chains) × IsFilled rc.raws × Carry rcs scs

-- The same of the first `n` containers, whatever is behind them.
unfoldable pub CarryFirst : ℕ → List RawContainer → List Container → Type 0
CarryFirst zero rcs scs = Unit
CarryFirst (suc n) [] scs = ⊥
CarryFirst (suc n) (rc ∷ rcs) [] = ⊥
CarryFirst (suc n) (rc ∷ rcs) (sc ∷ scs) =
    (map (λ (r : Raw). r.section) rc.raws ≡ sc.chains) × IsFilled rc.raws × CarryFirst n rcs scs

-- Every section is where its address is, in a file that is mapped at the base address.
unfoldable pub AtAddress : (base : ℕ) → List Raw → Type 0
AtAddress base [] = Unit
AtAddress base (r ∷ rs) = (base + r.file_offset ≡ r.section.sh_addr) × AtAddress base rs

unfoldable pub AllAtAddress : (base : ℕ) → List RawContainer → Type 0
AllAtAddress base [] = Unit
AllAtAddress base (rc ∷ rcs) = AtAddress base rc.raws × AllAtAddress base rcs

-- The same of the sections of the first `n` containers, of which there are as many.
unfoldable pub FirstAtAddress : (n base : ℕ) → List RawContainer → Type 0
FirstAtAddress zero base rcs = Unit
FirstAtAddress (suc n) base [] = ⊥
FirstAtAddress (suc n) base (rc ∷ rcs) = AtAddress base rc.raws × FirstAtAddress n base rcs

module _ {F : Type 0} (position : F → ℕ) (write : F → List ℕ → F)
    (write-position : (f : F) (bs : List ℕ) → position (write f bs) ≡ position f + length bs)
    (base : ℕ) where
  -- What a section moves the position by.
  moved_by :
      (f : F) (r : Raw)
      → length r.contents ≡ r.section.sh_size
      → position (if r.section.sh_size == 0 then f else write f r.contents)
        ≡ position f + r.section.sh_size
  moved_by f r h = elim (Bool-cases (r.section.sh_size == 0)) [
    | inl e ↦ let z = (==_iff r.section.sh_size 0).0 e in rw e (omega arith)
    | inr e ↦ rw e (omega (arith, write-position f r.contents))
  ]

  pub write_raws-AtAddress :
      (f : F) (rs : List Raw) (low : ℕ)
      → base + position f ≡ low
      → IsPacked low (map (λ (r : Raw). r.section) rs)
      → IsFilled rs
      → AtAddress base (write_raws position write f rs).1
        × (base + position (write_raws position write f rs).0
            ≡ low + total_size (map (λ (r : Raw). r.section) rs))
  unfolding write_raws IsPacked IsFilled AtAddress total_size
  write_raws-AtAddress f [] low b p h = (tt, omega arith)
  write_raws-AtAddress f (r ∷ rs) low b (p, ps) (h, hs) =
      let f' = if r.section.sh_size == 0 then f else write f r.contents in
      let m : position f' ≡ position f + r.section.sh_size = moved_by f r h in
      let (a, e) = write_raws-AtAddress f' rs (low + r.section.sh_size) (omega arith) ps hs in
      ((omega arith, a), omega arith)

  write_raw_data-AtAddress :
      (e : Emitted F) (rc : RawContainer) (rs : List Raw) (low : ℕ)
      → rc.raws ≡ rs
      → base + position e.file ≡ low
      → IsPacked low (map (λ (r : Raw). r.section) rs)
      → IsFilled rs
      → AtAddress base (write_raw_data position write e rc).1.raws
        × (base + position (write_raw_data position write e rc).0.file
            ≡ low + total_size (map (λ (r : Raw). r.section) rs))
  unfolding write_raw_data AtAddress total_size
  write_raw_data-AtAddress e rc [] low q b p h = rw q (tt, omega arith)
  write_raw_data-AtAddress e rc (r ∷ rs) low q b p h =
      rw q (write_raws-AtAddress e.file (r ∷ rs) low b p h)

  write_containers-FirstAtAddress :
      (n : ℕ) (e : Emitted F) (rcs : List RawContainer) (scs : List Container) (low : ℕ)
      → base + position e.file ≡ low
      → ArePacked low scs
      → CarryFirst n rcs scs
      → FirstAtAddress n base (write_containers position write e rcs).1
  unfolding write_containers ArePacked CarryFirst FirstAtAddress
  write_containers-FirstAtAddress zero e rcs scs low b p h = tt
  write_containers-FirstAtAddress (suc n) e [] scs low b p h = elim h [ ]
  write_containers-FirstAtAddress (suc n) e (rc ∷ rcs) [] low b p h = elim h [ ]
  write_containers-FirstAtAddress (suc n) e (rc ∷ rcs) (sc ∷ scs) low b (p, ps) (q, f, h) =
      let (a, o) = write_raw_data-AtAddress e rc rc.raws low refl b (rw q p) f in
      let t = ap total_size q in
      let rest =
        write_containers-FirstAtAddress n (write_raw_data position write e rc).0 rcs scs
          (low + total_size sc.chains) (omega arith) ps h in
      (a, rest)

module _ {F : Type 0} (position : F → ℕ) (write : F → List ℕ → F)
    (write-position : (f : F) (bs : List ℕ) → position (write f bs) ≡ position f + length bs) where
  -- With the default configuration, when no container has a size yet and the sizes of all sections
  -- together with the base address and the headers stay below 2 ^ 32: the sections of the first `n`
  -- containers that are laid out from the start of the task on, when they are also the first that are
  -- written and have as many bytes as their sizes, have their address at their offset in the file plus the
  -- base address, whatever stands in the containers behind them when the file is written, such as
  -- `.plt.got`, which is filled after the layout, and the tables of the dynamic section, which
  -- are added after it.
  pub gen_elf-set_addresses :
      (seek : F → ℕ → F) (seek-position : (f : F) (p : ℕ) → position (seek f p) ≡ p)
      (ehdr_bytes : Ehdr → List ℕ) (phdr_bytes : Phdr → List ℕ) (c : EmitConfig) (nodynamic : Bool)
      (plt_offset n : ℕ) (created : F) (scs : List Container) (rcs : List RawContainer)
      → AreFresh scs
      → (set_elf_default_config c nodynamic).base_address
          + (set_elf_default_config c nodynamic).program_header_tail
          + total 0 scs
        < 2 ^ 32
      → CarryFirst n rcs
          (set_addresses elf_set_virtual_address
            (start_layout (set_elf_default_config c nodynamic) plt_offset)
            scs).1
      → FirstAtAddress n
          (set_elf_default_config c nodynamic).base_address
          (gen_elf position write seek ehdr_bytes phdr_bytes
            (set_elf_default_config c nodynamic)
            created
            rcs).1
  unfolding start_layout gen_elf
  gen_elf-set_addresses seek seek-position ehdr_bytes phdr_bytes c nodynamic plt_offset n created
        scs rcs fresh h k =
      let d = set_elf_default_config c nodynamic in
      let p = seek-position created d.program_header_tail in
      write_containers-FirstAtAddress position write write-position d.base_address n _ rcs _
        (u32 (d.base_address + d.program_header_tail)) (omega arith)
        (set_addresses-ArePacked (start_layout d plt_offset) scs fresh
          (default_alignment c nodynamic) (omega arith))
        k
