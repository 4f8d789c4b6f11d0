-- ===== src/Link/Layout/Ordered.antt =====
-- Sections that the loops over the containers of core/link/elf/reloc.c lay out one behind the other.
use bin_tools.Base.{
  ℕ, zero, suc, ◌+◌, ◌<◌, ◌≤◌, ◌^◌, List, [], ◌∷◌, ◌++◌, u32, some, get_elem?, ◌≡◌, refl, arith, ap,
  subst,
}
use bin_tools.Link.Layout.{
  Placed, Container, Layout, place_chains, size_after, elf_set_virtual_address,
  coff_set_virtual_address, set_addresses,
}

unfoldable pub total_size : List Placed → ℕ
total_size [] = 0
total_size (c ∷ cs) = c.sh_size + total_size cs

-- The sections of all containers, in order.
unfoldable pub placed : List Container → List Placed
placed [] = []
placed (sc ∷ scs) = sc.chains ++ placed scs

-- The sum of the sizes and, for each container, of one gap.
unfoldable pub total : ℕ → List Container → ℕ
total gap [] = 0
total gap (sc ∷ scs) = gap + total_size sc.chains + total gap scs

-- No container has a size before the layout.
unfoldable pub AreFresh : List Container → Type 0
AreFresh [] = Unit
AreFresh (sc ∷ scs) = (sc.size ≡ 0) × AreFresh scs

-- The sections lie between the two addresses, each behind the one before.
unfoldable pub IsOrdered : ℕ → List Placed → ℕ → Type 0
IsOrdered low [] high = low ≤ high
IsOrdered low (c ∷ cs) high = (low ≤ c.sh_addr) × IsOrdered (c.sh_addr + c.sh_size) cs high

IsOrdered-append :
    (low middle high : ℕ) (cs ds : List Placed)
    → IsOrdered low cs middle
    → IsOrdered middle ds high
    → IsOrdered low (cs ++ ds) high
unfolding IsOrdered
IsOrdered-append low middle high [] [] h g = omega arith
IsOrdered-append low middle high [] (d ∷ ds) h (p, g) = (omega arith, g)
IsOrdered-append low middle high (c ∷ cs) ds (p, h) g =
    (p, IsOrdered-append (c.sh_addr + c.sh_size) middle high cs ds h g)

pub size_after-total :
    (size : ℕ) (cs : List Placed)
    → size + total_size cs < 2 ^ 32
    → size_after size cs ≡ size + total_size cs
unfolding size_after total_size
size_after-total size [] h = omega arith
size_after-total size (c ∷ cs) h =
    omega (arith, size_after-total (u32 (size + c.sh_size)) cs (omega arith))

IsOrdered-eq :
    {a a' b b' : ℕ} {cs ds : List Placed}
    → a ≡ a'
    → cs ≡ ds
    → b ≡ b'
    → IsOrdered a cs b
    → IsOrdered a' ds b'
IsOrdered-eq {a} {a'} {b} {b'} {cs} {ds} p q r h =
    subst (λ (x : ℕ). IsOrdered x ds b') p
      (subst (λ (x : List Placed). IsOrdered a x b') q (subst (λ (x : ℕ). IsOrdered a cs x) r h))

place_chains-IsOrdered :
    (offset size : ℕ) (cs : List Placed)
    → offset + size + total_size cs < 2 ^ 32
    → IsOrdered (offset + size) (place_chains offset size cs) (offset + size + total_size cs)
unfolding IsOrdered place_chains total_size
place_chains-IsOrdered offset size [] h = omega arith
place_chains-IsOrdered offset size (c ∷ cs) h = (
  omega arith,
  IsOrdered-eq (omega arith) (ap (λ (x : ℕ). place_chains offset x cs) (omega arith)) (omega arith)
      (place_chains-IsOrdered offset (size + c.sh_size) cs (omega arith)),
)

pub total_size-place_chains :
    (offset size : ℕ) (cs : List Placed) → total_size (place_chains offset size cs) ≡ total_size cs
unfolding place_chains total_size
total_size-place_chains offset size [] = refl
total_size-place_chains offset size (c ∷ cs) =
    omega (arith, total_size-place_chains offset (u32 (size + c.sh_size)) cs)

IsOrdered-below : (low high : ℕ) (cs : List Placed) → IsOrdered low cs high → low ≤ high
unfolding IsOrdered
IsOrdered-below low high [] h = h
IsOrdered-below low high (c ∷ cs) (p, h) =
    omega (arith, IsOrdered-below (c.sh_addr + c.sh_size) high cs h)

IsOrdered-raise :
    (low high high' : ℕ) (cs : List Placed)
    → high ≤ high'
    → IsOrdered low cs high
    → IsOrdered low cs high'
unfolding IsOrdered
IsOrdered-raise low high high' [] r h = omega arith
IsOrdered-raise low high high' (c ∷ cs) r (p, h) =
    (p, IsOrdered-raise (c.sh_addr + c.sh_size) high high' cs r h)

placed_from :
    (offset high : ℕ) (cs : List Placed)
    → offset + total_size cs < 2 ^ 32
    → offset + total_size cs ≤ high
    → IsOrdered offset (place_chains offset 0 cs) high
placed_from offset high cs h r =
    IsOrdered-raise offset (offset + 0 + total_size cs) high _ (omega arith)
      (IsOrdered-eq (omega arith) refl refl (place_chains-IsOrdered offset 0 cs (omega arith)))

-- One container: its sections begin at the offset of the configuration, and the offset goes behind
-- them and the gap.
abbrev Moved : Layout → Container → Layout → Container → Type 0
Moved l sc l' sc' =
    IsOrdered l.virtual_address_offset sc'.chains l'.virtual_address_offset
    × (l'.output_vaddr_alignment ≡ l.output_vaddr_alignment)
    × (l'.virtual_address_offset
        ≤ l.virtual_address_offset + l.output_vaddr_alignment + total_size sc.chains)

elf_set_virtual_address-Moved :
    (l : Layout) (sc : Container) (cs : List Placed)
    → sc.chains ≡ cs
    → sc.size ≡ 0
    → l.virtual_address_offset + l.output_vaddr_alignment + total_size sc.chains < 2 ^ 32
    → Moved l sc (elf_set_virtual_address l sc).0 (elf_set_virtual_address l sc).1
unfolding elf_set_virtual_address IsOrdered
elf_set_virtual_address-Moved l sc [] e z h = rw e (omega arith, refl, omega arith)
elf_set_virtual_address-Moved l sc (c ∷ cs) e z h =
    let t : total_size sc.chains ≡ total_size (c ∷ cs) = ap total_size e in
    let n : size_after 0 (c ∷ cs) ≡ 0 + total_size (c ∷ cs) =
      size_after-total 0 (c ∷ cs) (omega arith) in
    let q : IsOrdered l.virtual_address_offset (place_chains l.virtual_address_offset 0 (c ∷ cs))
        (u32 (l.virtual_address_offset + (l.output_vaddr_alignment + (0 + total_size (c ∷ cs))))) =
      placed_from l.virtual_address_offset _ (c ∷ cs) (omega arith) (omega arith) in
    rw e (rw z (rw n (q, refl, omega arith)))

coff_set_virtual_address-Moved :
    (l : Layout) (sc : Container) (cs : List Placed)
    → sc.chains ≡ cs
    → sc.size ≡ 0
    → l.virtual_address_offset + l.output_vaddr_alignment + total_size sc.chains < 2 ^ 32
    → Moved l sc (coff_set_virtual_address l sc).0 (coff_set_virtual_address l sc).1
unfolding coff_set_virtual_address IsOrdered
coff_set_virtual_address-Moved l sc [] e z h = rw e (omega arith, refl, omega arith)
coff_set_virtual_address-Moved l sc (c ∷ cs) e z h =
    let t : total_size sc.chains ≡ total_size (c ∷ cs) = ap total_size e in
    let n : size_after 0 (c ∷ cs) ≡ 0 + total_size (c ∷ cs) =
      size_after-total 0 (c ∷ cs) (omega arith) in
    let q : IsOrdered l.virtual_address_offset (place_chains l.virtual_address_offset 0 (c ∷ cs))
        (u32 (l.virtual_address_offset + (0 + total_size (c ∷ cs)))) =
      placed_from l.virtual_address_offset _ (c ∷ cs) (omega arith) (omega arith) in
    rw e (rw n (q, refl, omega arith))

-- A function that moves the offset behind each container lays all of them out in order.
module _ (f : Layout → Container → Layout × Container)
    (moves : (l : Layout) (sc : Container)
      → sc.size ≡ 0
      → l.virtual_address_offset + l.output_vaddr_alignment + total_size sc.chains < 2 ^ 32
      → Moved l sc (f l sc).0 (f l sc).1) where
  set_addresses-IsOrdered :
      (l : Layout) (scs : List Container)
      → AreFresh scs
      → l.virtual_address_offset + total l.output_vaddr_alignment scs < 2 ^ 32
      → IsOrdered l.virtual_address_offset
          (placed (set_addresses f l scs).1)
          (set_addresses f l scs).0.virtual_address_offset
  unfolding set_addresses placed total AreFresh IsOrdered
  set_addresses-IsOrdered l [] fresh h = omega arith
  set_addresses-IsOrdered l (sc ∷ scs) (z, fresh) h =
      let first = f l sc in
      let (p, a, b) = moves l sc z (omega arith) in
      IsOrdered-append l.virtual_address_offset first.0.virtual_address_offset _ first.1.chains
        (placed (set_addresses f first.0 scs).1) p
        (set_addresses-IsOrdered first.0 scs fresh (rw a (omega arith)))

inside :
    (low high : ℕ) (cs : List Placed) (j : ℕ) (d : Placed)
    → IsOrdered low cs high
    → get_elem? cs j ≡ some d
    → low ≤ d.sh_addr × d.sh_addr + d.sh_size ≤ high
unfolding IsOrdered
inside low high [] j d h e = cc
inside low high (c ∷ cs) zero d (p, h) e =
    let q : c ≡ d = cc in rw⁻¹ q (p, IsOrdered-below (c.sh_addr + c.sh_size) high cs h)
inside low high (c ∷ cs) (suc j) d (p, h) e =
    omega (arith, inside (c.sh_addr + c.sh_size) high cs j d h e)

apart :
    (low high : ℕ) (cs : List Placed) (i j : ℕ) (c d : Placed)
    → IsOrdered low cs high
    → i < j
    → get_elem? cs i ≡ some c
    → get_elem? cs j ≡ some d
    → low ≤ c.sh_addr × c.sh_addr + c.sh_size ≤ d.sh_addr × d.sh_addr + d.sh_size ≤ high
unfolding IsOrdered
apart low high [] i j c d h r e e' = cc
apart low high (x ∷ cs) i zero c d h r e e' = omega arith
apart low high (x ∷ cs) zero (suc j) c d (p, h) r e e' =
    let q : x ≡ c = cc in
    let (a, b) = inside (x.sh_addr + x.sh_size) high cs j d h e' in rw⁻¹ q (p, a, b)
apart low high (x ∷ cs) (suc i) (suc j) c d (p, h) r e e' =
    omega (arith, apart (x.sh_addr + x.sh_size) high cs i j c d h (omega arith) e e')

-- When no container has a size yet and the offset, the sizes of all sections and one gap for each
-- container stay below 2 ^ 32 in sum, the sections of all containers are laid out in their order:
-- of two of them, the second begins behind the end of the first, the first not before the old
-- offset, and the second ends before the new one.
pub set_addresses-apart :
    (l : Layout) (scs : List Container) (i j : ℕ) (c d : Placed)
    → AreFresh scs
    → l.virtual_address_offset + total l.output_vaddr_alignment scs < 2 ^ 32
    → i < j
    → get_elem? (placed (set_addresses elf_set_virtual_address l scs).1) i ≡ some c
    → get_elem? (placed (set_addresses elf_set_virtual_address l scs).1) j ≡ some d
    → l.virtual_address_offset ≤ c.sh_addr
      × c.sh_addr + c.sh_size ≤ d.sh_addr
      × d.sh_addr + d.sh_size
        ≤ (set_addresses elf_set_virtual_address l scs).0.virtual_address_offset
set_addresses-apart l scs i j c d f h r e e' =
    apart l.virtual_address_offset _ (placed (set_addresses elf_set_virtual_address l scs).1) i j c
      d
      (set_addresses-IsOrdered elf_set_virtual_address
        (λ l sc. elf_set_virtual_address-Moved l sc sc.chains refl) l scs f h)
      r e e'

-- The same for the COFF side of the linker: when no container has a size yet and the offset, the sizes of all sections and one gap for each
-- container stay below 2 ^ 32 in sum, the sections of all containers are laid out in their order:
-- of two of them, the second begins behind the end of the first, the first not before the old
-- offset, and the second ends before the new one.
pub coff_set_addresses-apart :
    (l : Layout) (scs : List Container) (i j : ℕ) (c d : Placed)
    → AreFresh scs
    → l.virtual_address_offset + total l.output_vaddr_alignment scs < 2 ^ 32
    → i < j
    → get_elem? (placed (set_addresses coff_set_virtual_address l scs).1) i ≡ some c
    → get_elem? (placed (set_addresses coff_set_virtual_address l scs).1) j ≡ some d
    → l.virtual_address_offset ≤ c.sh_addr
      × c.sh_addr + c.sh_size ≤ d.sh_addr
      × d.sh_addr + d.sh_size
        ≤ (set_addresses coff_set_virtual_address l scs).0.virtual_address_offset
coff_set_addresses-apart l scs i j c d f h r e e' =
    apart l.virtual_address_offset _ (placed (set_addresses coff_set_virtual_address l scs).1) i j c
      d
      (set_addresses-IsOrdered coff_set_virtual_address
        (λ l sc. coff_set_virtual_address-Moved l sc sc.chains refl) l scs f h)
      r e e'
