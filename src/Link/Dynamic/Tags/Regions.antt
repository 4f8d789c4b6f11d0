-- ===== src/Link/Dynamic/Tags/Regions.antt =====
-- The areas that the entries of core/link/elf/dynamic.c describe lie one behind the other.
use bin_tools.Base.{ℕ, ◌+◌, ◌*◌, ◌<◌, ◌^◌, List, [], ◌∷◌, u32, ◌≡◌, refl, arith}
use bin_tools.Link.Dynamic.Tags.{Dyn, Sizes, Headers, set_tags, dynamic_entry_tags}

-- The bytes of all areas behind the dynamic section.
unfoldable pub sum_of : Sizes → ℕ
sum_of d = d.init_array + d.fini_array + d.gnu_hash + d.rela_plt + (1 + d.dynsym) * 24 + d.dynstr

abbrev dyn : ℕ → ℕ → Dyn
dyn tag un = record { d_tag = tag; d_un = un }

-- What the dynamic section should say when the areas begin at `r`.
unfoldable pub described : Sizes → ℕ → List Dyn
described d r =
    let fini = r + d.init_array in
    let hash = fini + d.fini_array in
    let rela = hash + d.gnu_hash in
    let symtab = rela + d.rela_plt in
    let strtab = symtab + (1 + d.dynsym) * 24 in
    dyn 25 r
    ∷ dyn 27 d.init_array
    ∷ dyn 26 fini
    ∷ dyn 28 d.fini_array
    ∷ dyn 0x6fff_fef5 hash
    ∷ dyn 7 rela
    ∷ dyn 8 d.rela_plt
    ∷ dyn 9 24
    ∷ dyn 6 symtab
    ∷ dyn 11 24
    ∷ dyn 5 strtab
    ∷ dyn 10 d.dynstr
    ∷ dyn 0 0
    ∷ []

-- When the areas end below 2 ^ 32, the entries describe them one behind the other from the given
-- offset on, each with the size that the header of its section gets, and the new offset is their
-- end.
pub set_tags-described :
    (d : Sizes) (h : Headers) (r : ℕ)
    → r + sum_of d < 2 ^ 32
    → d.plt_got * 0x10 < 2 ^ 32
    → set_tags d h r dynamic_entry_tags ≡ (
      described d r,
      record h {
        init_array = d.init_array;
        fini_array = d.fini_array;
        gnu_hash = d.gnu_hash;
        rela_plt = d.rela_plt;
        plt_got = d.plt_got * 0x10;
        dynsym = (1 + d.dynsym) * 24;
        dynstr = d.dynstr;
      },
      r + sum_of d,
    )
unfolding set_tags described sum_of
set_tags-described d h r b g =
    let e1 : u32 (r + d.init_array) ≡ r + d.init_array = omega arith in
    let e2 : u32 (r + d.init_array + d.fini_array) ≡ r + d.init_array + d.fini_array =
      omega arith in
    let hash = r + d.init_array + d.fini_array in
    let e3 : u32 (hash + d.gnu_hash) ≡ hash + d.gnu_hash = omega arith in
    let e4 : u32 (hash + d.gnu_hash + d.rela_plt) ≡ hash + d.gnu_hash + d.rela_plt = omega arith in
    let symtab = hash + d.gnu_hash + d.rela_plt in
    let e5 : u32 (symtab + (1 + d.dynsym) * 24) ≡ symtab + (1 + d.dynsym) * 24 = omega arith in
    let strtab = symtab + (1 + d.dynsym) * 24 in
    let e6 : u32 (strtab + d.dynstr) ≡ r + sum_of d = omega arith in
    let e7 : u32 (d.plt_got * 0x10) ≡ d.plt_got * 0x10 = omega arith in
    rw e1 (rw e2 (rw e3 (rw e4 (rw e5 (rw e6 (rw e7 refl))))))
