-- ===== src/Link/Read/Tests.antt =====
-- The headers of a small object for core/link/elf/callback.c.
use bin_tools.Base.{ℕ, false, List, [], ◌∷◌, none, some, ◌≡◌, same_string}
use bin_tools.Link.Section.{alloc_obj_chain, is_named}
use bin_tools.Link.Read.{Header, Reading, begin_object, on_sections, is_inserted}
use bin_tools.Link.Read.Containers.{members}
use bin_tools.Link.Read.Merged.{inserted_of, gnu_after, on_sections-members}

-- `.t` of an earlier object is at 0x10.
abbrev before : Reading
before = record {
  conf = record {
    sections =
        record { virtual_address = 0; name = none; chains = [] }
        ∷ record {
          virtual_address = 0;
          name = some (46 ∷ 116 ∷ []);
          chains = record { p = 0x10; data_p = 0; obj = none } ∷ [];
        }
        ∷ [];
    objects = [];
  };
  sh_offset = λ (i : ℕ). 0x40;
  symbol_num = 0;
  symbol_table_p = 0;
  str_table_p = 0;
  relocations = [];
  has_gnu_property = false;
  program_header_num = 3;
  program_header_tail = 232;
  mallocs = 0;
}

-- `.d`, `.t`, a table of strings `.s` and `.t` again.
abbrev headers : List Header
headers =
    record { p = 0x20; number = 1; name = 46 ∷ 100 ∷ []; sh_type = 1; sh_size = 8; sh_link = 0 }
    ∷ record { p = 0x30; number = 2; name = 46 ∷ 116 ∷ []; sh_type = 1; sh_size = 8; sh_link = 0 }
    ∷ record { p = 0x40; number = 3; name = 46 ∷ 115 ∷ []; sh_type = 3; sh_size = 8; sh_link = 0 }
    ∷ record { p = 0x50; number = 4; name = 46 ∷ 116 ∷ []; sh_type = 8; sh_size = 8; sh_link = 0 }
    ∷ []

on_sections-members_example :
    members
      (on_sections (λ (n size : ℕ). 0x9000) 0x7000 (begin_object before) headers).conf.sections
      (46 ∷ 116 ∷ [])
    ≡ 0x10 ∷ 0x30 ∷ 0x50 ∷ []
unfolding members inserted_of gnu_after is_inserted same_string begin_object alloc_obj_chain
    is_named
on_sections-members_example =
    on_sections-members (λ (n size : ℕ). 0x9000) 0x7000 headers (begin_object before)
      (46 ∷ 116 ∷ [])
