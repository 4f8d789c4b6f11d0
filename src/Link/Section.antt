-- ===== src/Link/Section.antt =====
-- The sections and objects of core/link/section.c and core/link/object.c.
-- A linked list is the list of what it links, in the order of the links; a pointer to a section
-- of an input file is a number. The section that is being filled and the object that is being read
-- are the last ones of their lists.
pub mod Index
pub mod Grow
mod Tests
use bin_tools.Base.{
  ℕ, zero, suc, ◌+◌, Bool, true, false, ◌&&◌, List, [], ◌∷◌, ◌++◌, Option, none, some, u8, u16,
  bit_and, bit_or, ◌<<<◌, ◌>>>◌, ◌==◌, if◌then◌else◌, same_string, length,
}

pub record SectionChain : Type 0 where
  pub p : ℕ
  pub data_p : ℕ
  pub obj : Option ℕ

pub record SectionContainer : Type 0 where
  pub virtual_address : ℕ
  pub name : Option (List ℕ)
  pub chains : List SectionChain

pub record ObjectChain : Type 0 where
  pub symbol_table_p : ℕ
  pub str_table_p : ℕ
  pub symbol_num : ℕ
  pub sections : List SectionChain

pub record Config : Type 0 where
  pub sections : List SectionContainer
  pub objects : List ObjectChain

unfoldable pub alloc_section_container : Config → ℕ → Option (List ℕ) → Config
alloc_section_container conf va name = record {
  sections = conf.sections ++ record { virtual_address = va; name = name; chains = [] } ∷ [];
  objects = conf.objects;
}

unfoldable pub alloc_obj_chain : Config → (sym_begin str_begin sym_num : ℕ) → Config
alloc_obj_chain conf sym_begin str_begin sym_num = record {
  sections = conf.sections;
  objects =
      conf.objects
      ++ record {
        symbol_table_p = sym_begin;
        str_table_p = str_begin;
        symbol_num = sym_num;
        sections = [];
      }
        ∷ [];
}

-- The chain behind those of container `k`.
unfoldable pub add_to_container : List SectionContainer → ℕ → SectionChain → List SectionContainer
add_to_container [] k c = []
add_to_container (s ∷ ss) zero c =
    record { virtual_address = s.virtual_address; name = s.name; chains = s.chains ++ c ∷ [] } ∷ ss
add_to_container (s ∷ ss) (suc k) c = s ∷ add_to_container ss k c

-- The chain behind those of the current object, when there is one.
pub add_to_current : List ObjectChain → SectionChain → List ObjectChain
add_to_current [] c = []
add_to_current (o ∷ []) c =
    record {
      symbol_table_p = o.symbol_table_p;
      str_table_p = o.str_table_p;
      symbol_num = o.symbol_num;
      sections = o.sections ++ c ∷ [];
    }
    ∷ []
add_to_current (o ∷ o' ∷ os) c = o ∷ add_to_current (o' ∷ os) c

-- The number of the current object.
pub current_object : List ObjectChain → Option ℕ
current_object [] = none
current_object (o ∷ os) = some (length os)

pub object_or : Option ℕ → Option ℕ → Option ℕ
object_or none current = current
object_or (some o) current = some o

-- The section is added to container `k`; objects are numbered from 0.
unfoldable pub alloc_section_chain : Config → (s offset k : ℕ) → (obj : Option ℕ) → Config
unfolding add_to_container add_to_current current_object object_or
alloc_section_chain conf s offset k obj =
    let c : SectionChain = record {
      p = s;
      data_p = offset;
      obj = object_or obj (current_object conf.objects);
    } in
    record {
      sections = add_to_container conf.sections k c;
      objects = add_to_current conf.objects c;
    }

-- `sec1->name && !strcmp(sec1->name, name)`
unfoldable pub is_named : List ℕ → SectionContainer → Bool
is_named name s = elim s.name [ none ↦ false | some own ↦ same_string own name ]

unfoldable pub match_section : List SectionContainer → List ℕ → Option SectionContainer
match_section [] name = none
match_section (s ∷ ss) name =
    let rest = match_section ss name in if is_named name s then some s else rest

-- The inner loop of `get_section_index_by_name`.
pub chain_index : ℕ → ℕ → List SectionChain → Option ℕ
chain_index j q [] = none
chain_index j q (c ∷ cs) =
    let rest = chain_index (u8 (j + 1)) q cs in if c.p == q then some j else rest

pub packed_index : ℕ → ℕ → Option ℕ → ℕ
packed_index i rest none = rest
packed_index i rest (some j) = u16 (bit_or (i <<< 8) j)

pub index_from : ℕ → List ℕ → ℕ → List SectionContainer → ℕ
index_from i name q [] = 0
index_from i name q (s ∷ ss) =
    let rest = index_from (u8 (i + 1)) name q ss in
    if is_named name s then packed_index i rest (chain_index 0 q s.chains) else rest

unfoldable pub get_section_index_by_name : List SectionContainer → List ℕ → ℕ → ℕ
get_section_index_by_name ss name q = index_from 0 name q ss

-- The inner loop of `get_section_chain_by_index`.
pub chain_from : (i j index1 index2 : ℕ) → List SectionChain → Option SectionChain
chain_from i j index1 index2 [] = none
chain_from i j index1 index2 (c ∷ cs) =
    let rest = chain_from i (u8 (j + 1)) index1 index2 cs in
    if i == index1 && j == index2 then some c else rest

pub or_else : Option SectionChain → Option SectionChain → Option SectionChain
or_else none rest = rest
or_else (some c) rest = some c

pub container_from : (i index1 index2 : ℕ) → List SectionContainer → Option SectionChain
container_from i index1 index2 [] = none
container_from i index1 index2 (s ∷ ss) =
    let rest = container_from (u8 (i + 1)) index1 index2 ss in
    or_else (chain_from i 0 index1 index2 s.chains) rest

unfoldable pub get_section_chain_by_index : List SectionContainer → ℕ → Option SectionChain
get_section_chain_by_index ss index = container_from 0 (index >>> 8) (bit_and 0xff index) ss

-- `get_sc_from_obj`; objects count their sections from 1.
pub nth_from : ℕ → ℕ → List SectionChain → Option SectionChain
nth_from i index [] = none
nth_from i index (c ∷ cs) =
    let rest = nth_from (i + 1) index cs in if i == index then some c else rest

pub current_sections : List ObjectChain → List SectionChain
current_sections [] = []
current_sections (o ∷ []) = o.sections
current_sections (o ∷ o' ∷ os) = current_sections (o' ∷ os)

unfoldable pub get_sc_from_obj : Config → ℕ → Option SectionChain
unfolding current_sections
get_sc_from_obj conf index = nth_from 1 index (current_sections conf.objects)
