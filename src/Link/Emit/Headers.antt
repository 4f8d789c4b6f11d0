-- ===== src/Link/Emit/Headers.antt =====
-- The headers that core/link/elf/emit.c writes, against the room that tools/zld.c leaves for them.
use bin_tools.Base.{
  ℕ, ◌+◌, ◌*◌, Bool, true, false, List, [], ◌∷◌, ◌++◌, length, length-append, if◌then◌else◌, ◌≡◌,
  refl, ◌∙◌, arith, ap, inl, inr, Bool-cases,
}
use bin_tools.Link.Emit.{
  EmitConfig, Ehdr, Phdr, set_elf_default_config, elf_header, fixed_program_headers, write_phdrs,
  write_headers, text_of,
}

-- What the default configuration says of the headers.
default_headers :
    (c : EmitConfig) (nodynamic : Bool) (dynamic_offset : ℕ)
    → let d = set_elf_default_config c nodynamic in
      (length (fixed_program_headers d dynamic_offset 0) ≡ d.program_header_num)
      × (d.program_header_num ≡ (elf_header d).e_phnum)
      × (64
            + d.program_header_num * 56
            + (if d.no_interp then 0 else length (text_of d.interp_name) + 1)
          ≡ d.program_header_tail)
unfolding set_elf_default_config fixed_program_headers elf_header
default_headers c nodynamic dynamic_offset = elim (Bool-cases c.no_interp) [
  | inl e ↦ rw e (refl, refl, refl)
  | inr e ↦ rw e (refl, refl, omega arith)
]

module _ {F : Type 0} (position : F → ℕ) (write : F → List ℕ → F)
    (write-position : (f : F) (bs : List ℕ) → position (write f bs) ≡ position f + length bs)
    (ehdr_bytes : Ehdr → List ℕ) (length-ehdr_bytes : (h : Ehdr) → length (ehdr_bytes h) ≡ 64)
    (phdr_bytes : Phdr → List ℕ) (length-phdr_bytes : (h : Phdr) → length (phdr_bytes h) ≡ 56) where
  position-write_phdrs :
      (f : F) (ps : List Phdr)
      → position (write_phdrs position write phdr_bytes f ps) ≡ position f + length ps * 56
  unfolding write_phdrs
  position-write_phdrs f [] = omega arith
  position-write_phdrs f (p ∷ ps) = omega (
    arith,
    position-write_phdrs (write f (phdr_bytes p)) ps,
    write-position f (phdr_bytes p),
    length-phdr_bytes p,
  )

  last_write :
      (b : Bool) (f : F) (name : List ℕ)
      → position (if b then f else write f (name ++ 0 ∷ []))
        ≡ position f + (if b then 0 else length name + 1)
  last_write true f name = omega arith
  last_write false f name =
      omega (arith, write-position f (name ++ 0 ∷ []), length-append name (0 ∷ []))

  position-write_headers :
      (d : EmitConfig) (start : F) (dynamic_offset gnu_property_offset : ℕ)
      → position (
          write_headers position write ehdr_bytes phdr_bytes d start dynamic_offset
            gnu_property_offset)
        ≡ position start
          + 64
          + length (fixed_program_headers d dynamic_offset gnu_property_offset) * 56
          + (if d.no_interp then 0 else length (text_of d.interp_name) + 1)
  unfolding write_headers
  position-write_headers d start dynamic_offset gnu_property_offset =
      let ps = fixed_program_headers d dynamic_offset gnu_property_offset in
      let headed = write start (ehdr_bytes (elf_header d)) in
      let f = write_phdrs position write phdr_bytes headed ps in
      let q : position f ≡ position start + 64 + length ps * 56 = omega (
        arith,
        position-write_phdrs headed ps,
        write-position start (ehdr_bytes (elf_header d)),
        length-ehdr_bytes (elf_header d),
      ) in
      last_write d.no_interp f (text_of d.interp_name)
      ∙ ap (λ (k : ℕ). k + (if d.no_interp then 0 else length (text_of d.interp_name) + 1)) q

  -- With the default configuration and no GNU property, from the beginning of the file on: as many
  -- program headers are written as the configuration and the ELF header count, and the headers and
  -- the name of the interpreter end where the room that is left for them ends, with any name and
  -- without one.
  pub write_headers-tail :
      (c : EmitConfig) (nodynamic : Bool) (start : F) (dynamic_offset : ℕ)
      → position start ≡ 0
      → (position (
            write_headers position write ehdr_bytes phdr_bytes
              (set_elf_default_config c nodynamic)
              start
              dynamic_offset
              0)
          ≡ (set_elf_default_config c nodynamic).program_header_tail)
        × (length (fixed_program_headers (set_elf_default_config c nodynamic) dynamic_offset 0)
            ≡ (elf_header (set_elf_default_config c nodynamic)).e_phnum)
  write_headers-tail c nodynamic start dynamic_offset z =
      let d = set_elf_default_config c nodynamic in
      let (n, m, t) = default_headers c nodynamic dynamic_offset in
      (
        position-write_headers d start dynamic_offset 0
            ∙ ap
                (λ (k : ℕ).
                  k
                  + 64
                  + length (fixed_program_headers d dynamic_offset 0) * 56
                  + (if d.no_interp then 0 else length (text_of d.interp_name) + 1))
                z
            ∙ ap
                (λ (k : ℕ).
                  64 + k * 56 + (if d.no_interp then 0 else length (text_of d.interp_name) + 1))
                n
            ∙ t,
        n ∙ m,
      )
