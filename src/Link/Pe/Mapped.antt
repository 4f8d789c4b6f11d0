-- ===== src/Link/Pe/Mapped.antt =====
-- Where core/link/coff/emit.c writes the sections, next to the one section that its headers describe.
use bin_tools.Base.{ℕ, ◌+◌, ◌-◌, ◌<◌, ◌≤◌, ◌^◌, List, [], ◌∷◌, length, ◌≡◌, sym, arith, ap, subst}
use bin_tools.Link.Layout.{Container, Layout, coff_set_virtual_address, set_addresses}
use bin_tools.Link.Layout.Ordered.{total_size, total, AreFresh}
use bin_tools.Link.Emit.{RawContainer, write_raws}
use bin_tools.Link.Emit.Packed.{ArePacked, Carry, AllAtAddress, write_raws-AtAddress}
use bin_tools.Link.Pe.{
  PeConfig, set_coff_default_config, Named, optional_header, image_file_header, a_section, Formats,
  write_all, emit_dos,
}
use bin_tools.Link.Pe.Sizes.{all_sizes, coff_set_addresses-ArePacked, IsUncounted, default_sizes}

module _ {F : Type 0} (position : F → ℕ) (write : F → List ℕ → F)
    (write-position : (f : F) (bs : List ℕ) → position (write f bs) ≡ position f + length bs) where
  write_all-AllAtAddress :
      (base : ℕ) (f : F) (rcs : List RawContainer) (scs : List Container) (low : ℕ)
      → base + position f ≡ low
      → ArePacked low scs
      → Carry rcs scs
      → AllAtAddress base (write_all position write f rcs).1
        × (base + position (write_all position write f rcs).0 ≡ low + all_sizes scs)
  unfolding write_all ArePacked Carry AllAtAddress all_sizes
  write_all-AllAtAddress base f [] [] low b p h = (tt, omega arith)
  write_all-AllAtAddress base f [] (sc ∷ scs) low b p h = elim h [ ]
  write_all-AllAtAddress base f (rc ∷ rcs) [] low b p h = elim h [ ]
  write_all-AllAtAddress base f (rc ∷ rcs) (sc ∷ scs) low b (p, ps) (q, k, h) =
      let (a, o) =
        write_raws-AtAddress position write write-position base f rc.raws low b (rw q p) k in
      let t = ap total_size q in
      let (r, e) =
        write_all-AllAtAddress base (write_raws position write f rc.raws).0 rcs scs
          (low + total_size sc.chains) (omega arith) ps h in
      ((a, r), omega arith)

  -- With the default configuration, when nothing has been counted and no container has a size yet, for
  -- files that are not of 32 bits and images below 2 ^ 31 bytes: sections that are laid out from
  -- 0x1000 on, and are written with as many bytes as their sizes, have their address where the section
  -- of the image maps their offset; the file ends where this section ends, and so does the image or
  -- behind it.
  pub emit_dos-set_addresses :
      (seek : F → ℕ → F) (seek-position : (f : F) (p : ℕ) → position (seek f p) ≡ p)
      (formats : Formats) (c : PeConfig) (created : F) (l : Layout) (scs : List Container)
      (names : List Named) (rcs : List RawContainer)
      → let img =
          emit_dos position write seek formats
            (set_coff_default_config c)
            created
            (set_addresses coff_set_virtual_address l scs).1
            names
            rcs in
        IsUncounted c
        → l.virtual_address_offset ≡ (set_coff_default_config c).virtual_address_offset
        → AreFresh scs
        → 0x3000 + total 0 scs < 2 ^ 31
        → Carry rcs (set_addresses coff_set_virtual_address l scs).1
        → AllAtAddress (img.section.virtual_address - img.section.pointer_to_raw_data) img.written
          × (position img.file ≡ img.section.pointer_to_raw_data + img.section.size_of_raw_data)
          × (img.section.virtual_address + img.section.virtual_size ≤ img.header.size_of_image)
  unfolding emit_dos set_coff_default_config
  emit_dos-set_addresses seek seek-position formats c created l scs names rcs u o fresh h k =
      let scs' = (set_addresses coff_set_virtual_address l scs).1 in
      let (p, s, s') = coff_set_addresses-ArePacked l scs fresh (omega arith) in
      let (at, size, image) = default_sizes c scs' names u in
      let d = set_coff_default_config c in
      let optional = optional_header d scs' names in
      let signed = write (write created formats.dos_header) formats.signature in
      let filed = write signed (formats.file_header (image_file_header d 0 0)) in
      let headed =
        write (write filed (formats.optional optional.0))
          (formats.section (a_section optional.1)) in
      let f = seek headed 0x200 in
      let q : position f ≡ 0x200 = seek-position headed 0x200 in
      let (a, e) =
        write_all-AllAtAddress (0x1000 - 0x200) f rcs scs' l.virtual_address_offset (omega arith) p
          k in
      (
        subst (λ (x : ℕ). AllAtAddress (0x1000 - x) (write_all position write f rcs).1) (sym at) a,
        omega arith,
        omega arith,
      )
