-- ===== src/Link/Pe/Sizes.antt =====
-- The sizes in the headers that core/link/coff/emit.c writes, and the addresses that
-- core/link/coff/callback.c gives to the sections.
use bin_tools.Base.{ℕ, ◌+◌, ◌*◌, ◌/◌, ◌<◌, ◌^◌, false, List, [], ◌∷◌, ◌≡◌, refl, arith, ap, subst}
use bin_tools.Link.Layout.{
  Placed, Container, Layout, place_chains, size_after, coff_set_virtual_address, set_addresses,
}
use bin_tools.Link.Layout.Ordered.{
  total_size, total, AreFresh, size_after-total, total_size-place_chains,
}
use bin_tools.Link.Emit.Packed.{IsPacked, ArePacked, place_chains-IsPacked}
use bin_tools.Link.Pe.{
  PeConfig, set_coff_default_config, get_header_size, sizes, get_out_size, Named, optional_header,
  a_section,
}

coff_set_virtual_address-IsPacked :
    (l : Layout) (sc : Container) (cs : List Placed)
    → sc.chains ≡ cs
    → sc.size ≡ 0
    → l.virtual_address_offset + total_size sc.chains < 2 ^ 32
    → IsPacked l.virtual_address_offset (coff_set_virtual_address l sc).1.chains
      × ((coff_set_virtual_address l sc).0.virtual_address_offset
          ≡ l.virtual_address_offset + total_size (coff_set_virtual_address l sc).1.chains)
      × (total_size (coff_set_virtual_address l sc).1.chains ≡ total_size sc.chains)
      × ((coff_set_virtual_address l sc).1.size ≡ total_size sc.chains)
unfolding coff_set_virtual_address IsPacked total_size
coff_set_virtual_address-IsPacked l sc [] e z h = rw e (tt, omega arith, refl, z)
coff_set_virtual_address-IsPacked l sc (c ∷ cs) e z h =
    let t : total_size sc.chains ≡ total_size (c ∷ cs) = ap total_size e in
    let n : size_after 0 (c ∷ cs) ≡ 0 + total_size (c ∷ cs) =
      size_after-total 0 (c ∷ cs) (omega arith) in
    let q : IsPacked l.virtual_address_offset (place_chains l.virtual_address_offset 0 (c ∷ cs)) =
      subst (λ (x : ℕ). IsPacked x (place_chains l.virtual_address_offset 0 (c ∷ cs))) (omega arith)
        (place_chains-IsPacked l.virtual_address_offset 0 (c ∷ cs) (omega arith)) in
    let w : total_size (place_chains l.virtual_address_offset 0 (c ∷ cs)) ≡ total_size (c ∷ cs) =
      total_size-place_chains l.virtual_address_offset 0 (c ∷ cs) in
    rw e (rw n (q, omega arith, w, omega arith))

-- The sizes of all sections.
unfoldable pub all_sizes : List Container → ℕ
all_sizes [] = 0
all_sizes (sc ∷ scs) = total_size sc.chains + all_sizes scs

-- All containers, and the sum of their sizes.
pub coff_set_addresses-ArePacked :
    (l : Layout) (scs : List Container)
    → AreFresh scs
    → l.virtual_address_offset + total 0 scs < 2 ^ 32
    → ArePacked l.virtual_address_offset (set_addresses coff_set_virtual_address l scs).1
      × (sizes (set_addresses coff_set_virtual_address l scs).1 ≡ total 0 scs)
      × (all_sizes (set_addresses coff_set_virtual_address l scs).1 ≡ total 0 scs)
unfolding set_addresses total AreFresh ArePacked sizes all_sizes
coff_set_addresses-ArePacked l [] fresh h = (tt, refl, refl)
coff_set_addresses-ArePacked l (sc ∷ scs) (z, fresh) h =
    let first = coff_set_virtual_address l sc in
    let (p, o, t, s) = coff_set_virtual_address-IsPacked l sc sc.chains refl z (omega arith) in
    let (q, r, r') = coff_set_addresses-ArePacked first.0 scs fresh (omega arith) in
    (
      (
        p,
        subst (λ (x : ℕ). ArePacked x (set_addresses coff_set_virtual_address first.0 scs).1) o q,
      ),
      omega arith,
      omega arith,
    )

-- Nothing has been counted for the configuration, and the file is not of 32 bits.
pub record IsUncounted (c : PeConfig) : Type 0 where
  pub not_pe32 : c.pe32 ≡ false
  pub no_header : c.header_size ≡ 0
  pub no_out : c.out_size ≡ 0

-- The section and the sizes of the image, for containers of that size.
pub default_sizes :
    (c : PeConfig) (scs : List Container) (names : List Named)
    → IsUncounted c
    → let o = optional_header (set_coff_default_config c) scs names in
      ((a_section o.1).pointer_to_raw_data ≡ 0x200)
      × ((a_section o.1).virtual_size ≡ sizes scs)
      × (o.0.size_of_image ≡ (sizes scs + 0x200 + 0x1fff) / 0x1000 * 0x1000)
unfolding optional_header a_section set_coff_default_config get_out_size get_header_size
default_sizes c scs names h = rw h.no_out (rw h.no_header (rw h.not_pe32 (refl, omega arith, refl)))
