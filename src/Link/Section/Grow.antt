-- ===== src/Link/Section/Grow.antt =====
-- What the allocations of sections and objects change for the lookups.
use bin_tools.Base.{
  ℕ, suc, ◌+◌, List, [], ◌∷◌, ◌++◌, Option, none, some, ◌==◌, Bool-cases, if◌then◌else◌, length,
  ◌≡◌, refl, arith, ◌≢◌, inl, inr,
}
use bin_tools.Link.Section.{
  SectionChain, SectionContainer, ObjectChain, Config, alloc_section_container, alloc_section_chain,
  match_section, is_named, nth_from, current_sections, get_sc_from_obj, add_to_current,
  current_object, object_or,
}

nth_from-append :
    (cs : List SectionChain) (c : SectionChain) (i index : ℕ)
    → nth_from i index (cs ++ c ∷ [])
      ≡ (if index == i + length cs then some c else nth_from i index cs)
unfolding nth_from
nth_from-append [] c i index = ground arith
nth_from-append (d ∷ cs) c i index =
    let e : i + 1 + length cs ≡ i + suc (length cs) = omega arith in
    let go = rw e at (nth_from-append cs c (i + 1) index) in ground (arith, go)

current_sections-add :
    (o : ObjectChain) (os : List ObjectChain) (c : SectionChain)
    → current_sections (add_to_current (o ∷ os) c) ≡ current_sections (o ∷ os) ++ c ∷ []
unfolding current_sections add_to_current
current_sections-add o [] c = refl
current_sections-add o (o' ∷ []) c = refl
current_sections-add o (o' ∷ o'' ∷ os) c = current_sections-add o' (o'' ∷ os) c

current_sections-grown :
    (os : List ObjectChain) (c : SectionChain)
    → os ≢ []
    → current_sections (add_to_current os c) ≡ current_sections os ++ c ∷ []
current_sections-grown [] c busy = absurd (busy refl)
current_sections-grown (o ∷ os) c busy = current_sections-add o os c

-- The section that `alloc_section_chain` makes.
abbrev pub new_chain : Config → (s offset : ℕ) → Option ℕ → SectionChain
unfolding object_or current_object
new_chain conf s offset obj = record {
  p = s;
  data_p = offset;
  obj = object_or obj (current_object conf.objects);
}

-- While an object is being read, a new section gets the next number of that object, and all its
-- other numbers lead where they led before.
pub get_sc_from_obj-alloc_section_chain :
    (conf : Config) (s offset k : ℕ) (obj : Option ℕ) (index : ℕ)
    → conf.objects ≢ []
    → get_sc_from_obj (alloc_section_chain conf s offset k obj) index ≡ (
        if index == suc (length (current_sections conf.objects))
        then some (new_chain conf s offset obj)
        else get_sc_from_obj conf index)
unfolding get_sc_from_obj alloc_section_chain
get_sc_from_obj-alloc_section_chain conf s offset k obj index busy =
    let c = new_chain conf s offset obj in
    let grown = current_sections-grown conf.objects c busy in
    let e : 1 + length (current_sections conf.objects)
        ≡ suc (length (current_sections conf.objects)) =
      omega arith in
    rw grown (rw e at (nth_from-append (current_sections conf.objects) c 1 index))

-- The first answer of two.
abbrev pub first_of : Option SectionContainer → Option SectionContainer → Option SectionContainer
first_of none b = b
first_of (some a) b = some a

match_section-append :
    (ss : List SectionContainer) (s : SectionContainer) (name : List ℕ)
    → match_section (ss ++ s ∷ []) name
      ≡ first_of (match_section ss name) (match_section (s ∷ []) name)
unfolding match_section
match_section-append [] s name = refl
match_section-append (d ∷ ss) s name =
    let go = match_section-append ss s name in
    elim (Bool-cases (is_named name d)) [ inl e ↦ rw e refl | inr e ↦ rw e go ]

-- After a container is allocated, a name leads to the container it led to before; only a name that
-- led nowhere leads to the new one, when it is its name.
pub match_section-alloc_section_container :
    (conf : Config) (va : ℕ) (own : Option (List ℕ)) (name : List ℕ)
    → match_section (alloc_section_container conf va own).sections name
      ≡ first_of
          (match_section conf.sections name)
          (match_section (record { virtual_address = va; name = own; chains = [] } ∷ []) name)
unfolding alloc_section_container
match_section-alloc_section_container conf va own name =
    match_section-append conf.sections (record { virtual_address = va; name = own; chains = [] })
      name
