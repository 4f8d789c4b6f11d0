-- ===== src/Link/Read/Containers.antt =====
-- The containers of core/link/section.c when core/link/elf/callback.c inserts a section.
use bin_tools.Base.{
  ℕ, suc, true, false, List, [], ◌∷◌, ◌++◌, length, map, Option, none, some, if◌then◌else◌,
  same_string, same_string_refl, same_string_sound, ◌≡◌, refl, ◌∙◌, ap, inl, inr, Bool-cases,
  Option-cases,
}
use bin_tools.Link.Section.{
  SectionContainer, SectionChain, Config, is_named, alloc_section_container, alloc_section_chain,
  add_to_container,
}
use bin_tools.Link.Read.{Header, container_of, insert, insert_into}

-- The addresses of the headers in the first container of that name.
unfoldable pub members : List SectionContainer → List ℕ → List ℕ
members [] name = []
members (s ∷ ss) name =
    let rest = members ss name in
    if is_named name s then map (λ (c : SectionChain). c.p) s.chains else rest

map-append :
    (cs : List SectionChain) (c : SectionChain)
    → map (λ (c : SectionChain). c.p) (cs ++ c ∷ [])
      ≡ map (λ (c : SectionChain). c.p) cs ++ c.p ∷ []
map-append [] c = refl
map-append (x ∷ xs) c = ap (λ (l : List ℕ). x.p ∷ l) (map-append xs c)

same_string-eq :
    (a b : List ℕ) (name : List ℕ)
    → same_string a b ≡ true
    → same_string a name ≡ same_string b name
same_string-eq a b name h = ap (λ (x : List ℕ). same_string x name) (same_string_sound a b h)

-- A container of one name has no other one.
is_named-own :
    (s : SectionContainer) (o : Option (List ℕ)) (own name : List ℕ)
    → s.name ≡ o
    → is_named own s ≡ true
    → is_named name s ≡ same_string own name
unfolding is_named
is_named-own s none own name e h = let t = rw e at h in cc
is_named-own s (some n) own name e h =
    let t : same_string n own ≡ true = rw e at h in rw e (same_string-eq n own name t)

is_named-new :
    (own name : List ℕ) (va : ℕ) (cs : List SectionChain)
    → is_named name (record { virtual_address = va; name = some own; chains = cs })
      ≡ same_string own name
unfolding is_named
is_named-new own name va cs = refl

is_named-same :
    (s : SectionContainer) (name : List ℕ) (cs : List SectionChain)
    → is_named name (record s { chains = cs }) ≡ is_named name s
unfolding is_named
is_named-same s name cs = refl

-- A chain behind those of a container, and one behind the container.
members-grown :
    (s : SectionContainer) (ss : List SectionContainer) (c : SectionChain) (own name : List ℕ)
    → is_named own s ≡ true
    → members (record s { chains = s.chains ++ c ∷ [] } ∷ ss) name
      ≡ (if same_string own name then members (s ∷ ss) name ++ c.p ∷ [] else members (s ∷ ss) name)
unfolding members
members-grown s ss c own name e =
    let q = is_named-own s s.name own name refl e in
    let q' = is_named-same s name (s.chains ++ c ∷ []) ∙ q in
    elim (Bool-cases (same_string own name)) [
      | inl t ↦ rw q' (rw q (rw t (map-append s.chains c)))
      | inr t ↦ rw q' (rw q (rw t refl))
    ]

members-behind :
    (s : SectionContainer) (ss ss' : List SectionContainer) (c : SectionChain) (own name : List ℕ)
    → is_named own s ≡ false
    → members ss' name
      ≡ (if same_string own name then members ss name ++ c.p ∷ [] else members ss name)
    → members (s ∷ ss') name
      ≡ (if same_string own name then members (s ∷ ss) name ++ c.p ∷ [] else members (s ∷ ss) name)
unfolding members
members-behind s ss ss' c own name e h = elim (Bool-cases (is_named name s)) [
  | inr f ↦ rw f h
  | inl f ↦ elim (Bool-cases (same_string own name)) [
    | inr t ↦ rw f (rw t refl)
    | inl t ↦ let b = ap (λ (x : List ℕ). is_named x s) (same_string_sound own name t) in cc
  ]
]

-- The chain of the first container of its name grows.
members-add_to_container :
    (ss : List SectionContainer) (k : ℕ) (c : SectionChain) (own name : List ℕ)
    → container_of ss own ≡ some k
    → members (add_to_container ss k c) name
      ≡ (if same_string own name then members ss name ++ c.p ∷ [] else members ss name)
unfolding members container_of add_to_container
members-add_to_container [] k c own name h = cc
members-add_to_container (s ∷ ss) k c own name h = elim (Bool-cases (is_named own s)) [
  | inl e ↦
      let z : some 0 ≡ some k = rw e at h in
      let k0 : 0 ≡ k = cc in rw⁻¹ k0 (members-grown s ss c own name e)
  | inr e ↦ elim (Option-cases (container_of ss own)) [
    | inl n ↦ let z = rw (e, n) at h in cc
    | inr (j, n) ↦
        let z : some (suc j) ≡ some k = rw n at (rw e at h) in
        let k' : suc j ≡ k = cc in
        rw⁻¹ k' (
          members-behind s ss (add_to_container ss j c) c own name e
            (members-add_to_container ss j c own name n))
  ]
]

members-container :
    (ss : List SectionContainer) (own name : List ℕ)
    → members (ss ++ record { virtual_address = 0; name = some own; chains = [] } ∷ []) name
      ≡ members ss name
unfolding members
members-container [] own name = elim (Bool-cases (same_string own name)) [
  | inl e ↦ rw (is_named-new own name 0 []) (rw e refl)
  | inr e ↦ rw (is_named-new own name 0 []) (rw e refl)
]
members-container (s ∷ ss) own name =
    ap (λ (l : List ℕ). if is_named name s then map (λ (c : SectionChain). c.p) s.chains else l)
      (members-container ss own name)

container_of-container :
    (ss : List SectionContainer) (own : List ℕ)
    → container_of ss own ≡ none
    → container_of (ss ++ record { virtual_address = 0; name = some own; chains = [] } ∷ []) own
      ≡ some (length ss)
unfolding container_of
container_of-container [] own h = rw (is_named-new own own 0 []) (rw (same_string_refl own) refl)
container_of-container (s ∷ ss) own h = elim (Bool-cases (is_named own s)) [
  | inl e ↦ let z = rw e at h in cc
  | inr e ↦ elim (Option-cases (container_of ss own)) [
    | inl n ↦ rw e (rw (container_of-container ss own n) refl)
    | inr (j, n) ↦ let z = rw (e, n) at h in cc
  ]
]

-- One section: it is behind the others of its name.
pub insert-members :
    (conf : Config) (h : Header) (name : List ℕ)
    → members (insert conf h).sections name ≡ (
        if same_string h.name name
        then members conf.sections name ++ h.p ∷ []
        else members conf.sections name)
unfolding insert_into alloc_section_chain alloc_section_container
insert-members conf h name = elim (Option-cases (container_of conf.sections h.name)) [
  | inl e ↦
      ap (λ (c : Config). members c.sections name) (ap (insert_into conf h) e)
      ∙ members-add_to_container _ (length conf.sections) _ h.name name
          (container_of-container conf.sections h.name e)
      ∙ ap (λ (l : List ℕ). if same_string h.name name then l ++ h.p ∷ [] else l)
          (members-container conf.sections h.name name)
  | inr (k, e) ↦
      ap (λ (c : Config). members c.sections name) (ap (insert_into conf h) e)
      ∙ members-add_to_container conf.sections k _ h.name name e
]
