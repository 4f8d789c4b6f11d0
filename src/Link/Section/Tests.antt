-- ===== src/Link/Section/Tests.antt =====
-- A linker with two containers of the same name, and a section in the second one.
use bin_tools.Base.{ℕ, ◌+◌, ◌*◌, true, List, [], ◌∷◌, none, some, ◌≡◌, refl, arith, same_string}
use bin_tools.Link.Section.Index.{
  Place, is_listed, get_section_chain_by_index-get_section_index_by_name,
}
use bin_tools.Link.Section.{
  nth_from, SectionChain, Config, alloc_section_chain, is_named, get_sc_from_obj,
  get_section_index_by_name, get_section_chain_by_index,
}

abbrev text_name : List ℕ
text_name = b'.' ∷ b't' ∷ b'e' ∷ b'x' ∷ b't' ∷ []

abbrev first_chain : SectionChain
first_chain = record { p = 0x40; data_p = 0x1000; obj = some 0 }

abbrev second_chain : SectionChain
second_chain = record { p = 0x80; data_p = 0x2000; obj = some 0 }

abbrev two_containers : Config
two_containers = record {
  sections =
      record { virtual_address = 0x1000; name = some text_name; chains = first_chain ∷ [] }
      ∷ record {
        virtual_address = 0x2000;
        name = some text_name;
        chains = first_chain ∷ second_chain ∷ [];
      }
      ∷ [];
  objects =
      record {
        symbol_table_p = 0;
        str_table_p = 0;
        symbol_num = 0;
        sections = first_chain ∷ second_chain ∷ [];
      }
      ∷ [];
}

second-is_listed : is_listed text_name 0x80 two_containers.sections ≡ true
unfolding is_listed is_named same_string
second-is_listed = refl

get_section_chain_by_index-get_section_index_by_name_example :
    (i : ℕ) × (j : ℕ) × (c : SectionChain) × Place two_containers.sections text_name 0x80 i j c
    × (get_section_index_by_name two_containers.sections text_name 0x80 ≡ i * 256 + j)
    × (get_section_chain_by_index two_containers.sections
          (get_section_index_by_name two_containers.sections text_name 0x80)
        ≡ some c)
get_section_chain_by_index-get_section_index_by_name_example =
    get_section_chain_by_index-get_section_index_by_name two_containers.sections text_name 0x80
      (omega arith) (omega arith, (omega arith, tt)) second-is_listed

new_section_at_three :
    get_sc_from_obj (alloc_section_chain two_containers 0xc0 0x3000 0 none) 3
    ≡ some (record { p = 0xc0; data_p = 0x3000; obj = some 0 })
unfolding get_sc_from_obj alloc_section_chain nth_from
new_section_at_three = refl
