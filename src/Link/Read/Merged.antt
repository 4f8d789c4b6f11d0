-- ===== src/Link/Read/Merged.antt =====
-- Sections of the same name, which core/link/elf/callback.c puts into one container.
use bin_tools.Base.{
  update, u64, ℕ, ◌+◌, Bool, true, false, not, ◌&&◌, List, [], ◌∷◌, ◌++◌, ◌==◌, if◌then◌else◌,
  same_string, ◌≡◌, refl, sym, ◌∙◌, ap, inl, inr, Bool-cases,
}
use bin_tools.Link.Section.{Config}
use bin_tools.Link.Emit.{gnu_property_name}
use bin_tools.Link.Read.{Header, Reading, insert, is_inserted, switch_type, on_section, on_sections}
use bin_tools.Link.Read.Containers.{members, insert-members}

-- Whether a GNU property has been found, behind a header.
unfoldable pub gnu_after : Bool → Header → Bool
gnu_after g h =
    if h.sh_type == 2
    then g
    else if h.sh_type == 4
    then g
    else if h.sh_type == 8
    then g
    else if h.sh_type == 7 && not g && same_string h.name gnu_property_name
    then true
    else g

-- The addresses of the headers of that name that are inserted, in order.
unfoldable pub inserted_of : Bool → List Header → List ℕ → List ℕ
inserted_of g [] name = []
inserted_of g (h ∷ hs) name =
    let rest = inserted_of (gnu_after g h) hs name in
    if is_inserted g h && same_string h.name name then h.p ∷ rest else rest

append-one : (xs : List ℕ) (p : ℕ) (ys : List ℕ) → (xs ++ p ∷ []) ++ ys ≡ xs ++ (p ∷ ys)
append-one [] p ys = refl
append-one (x ∷ xs) p ys = ap (λ (l : List ℕ). x ∷ l) (append-one xs p ys)

append-nil : (xs : List ℕ) → xs ++ [] ≡ xs
append-nil [] = refl
append-nil (x ∷ xs) = ap (λ (l : List ℕ). x ∷ l) (append-nil xs)

join :
    (b : Bool) (xs : List ℕ) (p : ℕ) (ys : List ℕ)
    → (if b then xs ++ p ∷ [] else xs) ++ ys ≡ xs ++ (if b then p ∷ ys else ys)
join true xs p ys = append-one xs p ys
join false xs p ys = refl

-- What the cases of the switch leave alone.
switch_type-conf :
    (malloc : ℕ → ℕ → ℕ) (map_base : ℕ) (r : Reading) (h : Header)
    → ((switch_type malloc map_base r h).conf ≡ r.conf)
      × ((switch_type malloc map_base r h).has_gnu_property ≡ gnu_after r.has_gnu_property h)
unfolding switch_type gnu_after
switch_type-conf malloc map_base r h = elim (Bool-cases (h.sh_type == 2)) [
  | inl e ↦ rw e (refl, refl)
  | inr e ↦ elim (Bool-cases (h.sh_type == 4)) [
    | inl f ↦ rw e (rw f (refl, refl))
    | inr f ↦ elim (Bool-cases (h.sh_type == 8)) [
      | inl g ↦ rw e (rw f (rw g (refl, refl)))
      | inr g ↦
          elim (Bool-cases
            (h.sh_type == 7 && not r.has_gnu_property && same_string h.name gnu_property_name)) [
              | inl k ↦ rw e (rw f (rw g (rw k (refl, refl))))
              | inr k ↦ rw e (rw f (rw g (rw k (refl, refl))))
            ]
    ]
  ]
]

-- One header: its section is added to the container of its name when it is inserted.
on_section-members :
    (malloc : ℕ → ℕ → ℕ) (map_base : ℕ) (r : Reading) (h : Header) (name : List ℕ)
    → (members (on_section malloc map_base r h).conf.sections name ≡ (
        if is_inserted r.has_gnu_property h && same_string h.name name
        then members r.conf.sections name ++ h.p ∷ []
        else members r.conf.sections name))
      × ((on_section malloc map_base r h).has_gnu_property ≡ gnu_after r.has_gnu_property h)
unfolding on_section
on_section-members malloc map_base r h name =
    let moved = record r {
      sh_offset = update r.sh_offset h.number (u64 (r.sh_offset h.number + map_base));
    } in
    let (c, g) = switch_type-conf malloc map_base moved h in
    elim (Bool-cases (is_inserted r.has_gnu_property h)) [
      | inl e ↦ rw e (
        ap (λ (x : Config). members (insert x h).sections name) c ∙ insert-members r.conf h name,
        g,
      )
      | inr e ↦ rw e (ap (λ (x : Config). members x.sections name) c, g)
    ]

-- After the headers of an object, behind the first one, have been read in order: for every name, the
-- first container of that name has the sections that it had before and behind them, in order, the
-- sections of that name that are inserted, and no other ones.
pub on_sections-members :
    (malloc : ℕ → ℕ → ℕ) (map_base : ℕ) (hs : List Header) (r : Reading) (name : List ℕ)
    → members (on_sections malloc map_base r hs).conf.sections name
      ≡ members r.conf.sections name ++ inserted_of r.has_gnu_property hs name
unfolding on_sections inserted_of
on_sections-members malloc map_base [] r name = sym (append-nil (members r.conf.sections name))
on_sections-members malloc map_base (h ∷ hs) r name =
    let (m, g) = on_section-members malloc map_base r h name in
    let rest = inserted_of (gnu_after r.has_gnu_property h) hs name in
    on_sections-members malloc map_base hs (on_section malloc map_base r h) name
    ∙ ap
        (λ (x : Bool).
          members (on_section malloc map_base r h).conf.sections name ++ inserted_of x hs name)
        g
    ∙ ap (λ (l : List ℕ). l ++ rest) m
    ∙ join (is_inserted r.has_gnu_property h && same_string h.name name)
        (members r.conf.sections name) h.p rest
