-- ===== src/Link/Dynamic/Tags.antt =====
-- The entries of the dynamic section that `set_dynanmic` of core/link/elf/dynamic.c writes last.
pub mod Regions
use bin_tools.Base.{
  ℕ, zero, suc, ◌+◌, ◌*◌, ◌^◌, List, [], ◌∷◌, ◌++◌, u32, ◌==◌, if◌then◌else◌, Option, none, some,
  get_or,
}

pub record Dyn : Type 0 where
  pub d_tag : ℕ
  pub d_un : ℕ

-- `D[index].size` or `D[index].num` of each area.
pub record Sizes : Type 0 where
  pub init_array : ℕ
  pub fini_array : ℕ
  pub dt_hash : ℕ
  pub gnu_hash : ℕ
  pub rela_plt : ℕ
  pub plt_got : ℕ
  pub dynsym : ℕ
  pub dynstr : ℕ

-- `sh_size` of the section of each area, which `size_p` points to.
pub record Headers : Type 0 where
  pub init_array : ℕ
  pub fini_array : ℕ
  pub dt_hash : ℕ
  pub gnu_hash : ℕ
  pub rela_plt : ℕ
  pub plt_got : ℕ
  pub dynsym : ℕ
  pub dynstr : ℕ

pub record Written : Type 0 where
  pub entry : Dyn
  pub headers : Headers
  pub offset : ℕ

-- An entry with a value, and the same headers and offset as before.
abbrev pub plain : Headers → (tag offset value : ℕ) → Written
plain h tag offset value = record {
  entry = record { d_tag = tag; d_un = value };
  headers = h;
  offset = offset;
}

-- An entry with the offset, which moves behind the area.
abbrev pub placed : Headers → (tag offset size : ℕ) → Written
placed h tag offset size = record {
  entry = record { d_tag = tag; d_un = offset };
  headers = h;
  offset = u32 (offset + size);
}

-- The switch; a tag without a case leaves `d_un` as it was, which is `un`.
unfoldable pub set_dynamic_entry : Sizes → Headers → (un tag offset : ℕ) → Written
set_dynamic_entry d h un tag offset =
    if tag == 1
    then plain h tag offset offset
    else if tag == 25
    then placed h tag offset d.init_array
    else if tag == 26
    then placed h tag offset d.fini_array
    else if tag == 27
    then plain (record h { init_array = d.init_array }) tag offset d.init_array
    else if tag == 28
    then plain (record h { fini_array = d.fini_array }) tag offset d.fini_array
    else if tag == 4
    then placed (record h { dt_hash = d.dt_hash }) tag offset d.dt_hash
    else if tag == 0x6fff_fef5
    then placed (record h { gnu_hash = d.gnu_hash }) tag offset d.gnu_hash
    else if tag == 7
    then placed (record h { rela_plt = d.rela_plt; plt_got = u32 (d.plt_got * 0x10) }) tag offset
        d.rela_plt
    else if tag == 8
    then plain h tag offset d.rela_plt
    else if tag == 9
    then plain h tag offset 24
    else if tag == 6
    then placed (record h { dynsym = (1 + d.dynsym) * 24 }) tag offset ((1 + d.dynsym) * 24)
    else if tag == 11
    then plain h tag offset 24
    else if tag == 5
    then plain h tag offset offset
    else if tag == 10
    then record {
      entry = record { d_tag = tag; d_un = d.dynstr };
      headers = record h { dynstr = d.dynstr };
      offset = u32 (offset + d.dynstr);
    }
    else plain h tag offset un

-- The loop over `DynamicEntryTag[1]` and those behind it, on a dynamic section of zeros.
unfoldable pub set_tags : Sizes → Headers → ℕ → List ℕ → List Dyn × Headers × ℕ
unfolding set_dynamic_entry
set_tags d h r [] = ([], h, r)
set_tags d h r (tag ∷ tags) =
    let one = set_dynamic_entry d h 0 tag r in
    let rest = set_tags d one.headers one.offset tags in (one.entry ∷ rest.0, rest.1, rest.2)

-- `DynamicEntryTag` behind its first entry, with the GNU hash table.
abbrev pub dynamic_entry_tags : List ℕ
dynamic_entry_tags = 25 ∷ 27 ∷ 26 ∷ 28 ∷ 0x6fff_fef5 ∷ 7 ∷ 8 ∷ 9 ∷ 6 ∷ 11 ∷ 5 ∷ 10 ∷ 0 ∷ []

-- The areas that `alloc_dynamic` allocates for a tag; 0 is none.
unfoldable pub need_allocate : ℕ → ℕ
need_allocate tag =
    if tag == 25
    then 1
    else if tag == 26
    then 2
    else if tag == 0x6fff_fef5
    then 8
    else if tag == 7
    then 4
    else if tag == 6
    then 5
    else if tag == 10
    then 6
    else 0

unfoldable pub alloc_dynamic : List ℕ → List ℕ
unfolding need_allocate
alloc_dynamic [] = []
alloc_dynamic (tag ∷ tags) =
    let res = need_allocate tag in
    let rest = alloc_dynamic tags in if res == 0 then rest else res ∷ rest
