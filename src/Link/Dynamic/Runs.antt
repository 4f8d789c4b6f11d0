-- ===== src/Link/Dynamic/Runs.antt =====
-- Whole sequences of imports of core/link/elf/dynamic.c.
use bin_tools.Base.{
  ℕ, suc, List, [], ◌∷◌, ◌++◌, map, length, true, false, ◌||◌, same_string, same_string_refl, ◌≡◌,
  refl, sym, ap₂, ◌∙◌, arith, Bool-cases, inl, inr,
}
use bin_tools.Link.Dynamic.{
  Dynamic, Sym, Rela, add_dynamic_entry, add_new_entry, add_symbol_and_rela,
}
use bin_tools.Link.Dynamic.Entries.{
  Written, HasSpace, HasSpace-less, add_new_entry-Written, add_new_entry-HasSpace,
}
use bin_tools.Link.Dynamic.Imports.{
  is_member, intern, intern_all, address_or, import_all, Holds, HasRoom, address_or-append,
  address_or-member, address_or-absent, address_or-bounds, found-Holds, add_dynamic_entry-old,
  add_dynamic_entry-new, add_new_entry-Holds, add_new_entry-HasRoom, add_new_entry-address,
}

is_member-append :
    (ns ms : List (List ℕ)) (s : List ℕ)
    → is_member (ns ++ ms) s ≡ (is_member ns s || is_member ms s)
unfolding is_member
is_member-append [] ms s = refl
is_member-append (n ∷ ns) ms s = elim (Bool-cases (same_string s n)) [
  | inl t ↦ rw t refl
  | inr t ↦ rw t (is_member-append ns ms s)
]

intern-member : (ns : List (List ℕ)) (s : List ℕ) → is_member (intern ns s) s ≡ true
unfolding intern is_member
intern-member ns s = elim (Bool-cases (is_member ns s)) [
  | inl t ↦ rw t t
  | inr t ↦ rw t (is_member-append ns (s ∷ []) s ∙ rw t (rw (same_string_refl s) refl))
]

intern-keeps :
    (ns : List (List ℕ)) (s t : List ℕ) → is_member ns t ≡ true → is_member (intern ns s) t ≡ true
unfolding intern
intern-keeps ns s t h = elim (Bool-cases (is_member ns s)) [
  | inl e ↦ rw e h
  | inr e ↦ rw e (is_member-append ns (s ∷ []) t ∙ rw h refl)
]

address_or-intern :
    (va : ℕ) (ns : List (List ℕ)) (s t : List ℕ) (e : ℕ)
    → is_member ns t ≡ true
    → address_or va (intern ns s) t e ≡ address_or va ns t e
unfolding intern
address_or-intern va ns s t e h = elim (Bool-cases (is_member ns s)) [
  | inl x ↦ rw x refl
  | inr x ↦ rw x (address_or-append va ns (s ∷ []) t e ∙ address_or-member va ns t _ e h)
]

address_or-intern_all :
    (va : ℕ) (ns ss : List (List ℕ)) (t : List ℕ) (e : ℕ)
    → is_member ns t ≡ true
    → address_or va (intern_all ns ss) t e ≡ address_or va ns t e
unfolding intern_all
address_or-intern_all va ns [] t e h = refl
address_or-intern_all va ns (s ∷ ss) t e h =
    address_or-intern_all va (intern ns s) ss t e (intern-keeps ns s t h)
    ∙ address_or-intern va ns s t e h

-- What one import leaves behind, when `ms` are the names after it.
record Imported (k n : ℕ) (ms : List (List ℕ)) (va : ℕ) (s : List ℕ) (r : ℕ × Dynamic)
    : Type 0 where
  pub holds : Holds k ms r.1
  pub has_room : HasRoom n ms r.1
  pub same_table : r.1.plt_address ≡ va
  pub address : r.0 ≡ address_or va ms s 0

HasRoom-less : (n : ℕ) (ns : List (List ℕ)) (d : Dynamic) → HasRoom (suc n) ns d → HasRoom n ns d
HasRoom-less n ns d r = record {
  positive = r.positive;
  addresses = omega (arith, r.addresses);
  symbols = omega (arith, r.symbols);
  small = omega (arith, r.small);
}

old_name :
    (fresh : ℕ → ℕ) (k : ℕ) (ns : List (List ℕ)) (d : Dynamic) (s : List ℕ) (type n : ℕ)
    → Holds k ns d
    → HasRoom (suc n) ns d
    → is_member ns s ≡ true
    → Imported k n ns d.plt_address s (add_dynamic_entry fresh d s type 1)
old_name fresh k ns d s type n h r t =
    let e = found-Holds k ns d s h in
    let b = address_or-bounds d.plt_address ns s 0 t in
    rw (add_dynamic_entry-old fresh d s type (λ z. omega (arith, z, e, b.0, r.positive))) (record {
      holds = h;
      has_room = HasRoom-less n ns d r;
      same_table = refl;
      address = omega (arith, e, b.1, r.addresses);
    })

plt_address-add_new_entry :
    (fresh : ℕ → ℕ) (d : Dynamic) (s : List ℕ) (type : ℕ)
    → (add_new_entry fresh d s type).1.plt_address ≡ d.plt_address
unfolding add_new_entry add_symbol_and_rela
plt_address-add_new_entry fresh d s type = refl

new_name :
    (fresh : ℕ → ℕ) (k : ℕ) (ns : List (List ℕ)) (d : Dynamic) (s : List ℕ) (type n : ℕ)
    → Holds k ns d
    → HasRoom (suc n) ns d
    → is_member ns s ≡ false
    → Imported k n (ns ++ s ∷ []) d.plt_address s (add_dynamic_entry fresh d s type 1)
unfolding address_or
new_name fresh k ns d s type n h r t =
    rw
      (add_dynamic_entry-new fresh d s type
        (found-Holds k ns d s h ∙ address_or-absent d.plt_address ns s 0 t))
      (record {
        holds = add_new_entry-Holds fresh k ns d s type n h r;
        has_room = add_new_entry-HasRoom fresh ns d s type n r;
        same_table = plt_address-add_new_entry fresh d s type;
        address =
            add_new_entry-address fresh k ns d s type n h r
            ∙ sym (
                address_or-append d.plt_address ns (s ∷ []) s 0
                ∙ address_or-absent d.plt_address ns s _ t
                ∙ rw (same_string_refl s) refl);
      })

add_dynamic_entry-Imported :
    (fresh : ℕ → ℕ) (k : ℕ) (ns : List (List ℕ)) (d : Dynamic) (s : List ℕ) (type n : ℕ)
    → Holds k ns d
    → HasRoom (suc n) ns d
    → Imported k n (intern ns s) d.plt_address s (add_dynamic_entry fresh d s type 1)
unfolding intern
add_dynamic_entry-Imported fresh k ns d s type n h r = elim (Bool-cases (is_member ns s)) [
  | inl t ↦ rw t (old_name fresh k ns d s type n h r t)
  | inr t ↦ rw t (new_name fresh k ns d s type n h r t)
]

module _ (k o type : ℕ) (firsts : List Sym) (before : List Rela) where
  -- What one import writes, for a name that is there and for one that is not.
  add_dynamic_entry-Written :
      (fresh : ℕ → ℕ) (ns ss : List (List ℕ)) (d : Dynamic) (s : List ℕ) (n : ℕ)
      → Holds k ns d
      → HasRoom (suc n) ns d
      → Written k o type firsts before ns d
      → HasSpace (s ∷ ss) d
      → Written k o type firsts before (intern ns s) (add_dynamic_entry fresh d s type 1).1
        × HasSpace ss (add_dynamic_entry fresh d s type 1).1
  unfolding intern
  add_dynamic_entry-Written fresh ns ss d s n h r w p = elim (Bool-cases (is_member ns s)) [
    | inl t ↦
        let e = found-Holds k ns d s h in
        let b = address_or-bounds d.plt_address ns s 0 t in
        rw t (
          rw (add_dynamic_entry-old fresh d s type (λ z. omega (arith, z, e, b.0, r.positive)))
            (w, HasSpace-less s ss d p))
    | inr t ↦
        let e = found-Holds k ns d s h ∙ address_or-absent d.plt_address ns s 0 t in
        rw t (
          rw (add_dynamic_entry-new fresh d s type e) (
            add_new_entry-Written k o type firsts before fresh ns ss d s n h r w p,
            add_new_entry-HasSpace k o type firsts before fresh ns ss d s n h r w p,
          ))
  ]

  -- When the state holds the imports `ns` with what was written for them, and has room for one more
  -- import for each name of a list, then importing the names of the list one after the other keeps one
  -- table of distinct names in the order of their first import. The state then holds that table: for
  -- each of its names, in this order and once, the code, the string in the string table, a symbol
  -- whose name is the offset of that string, and a relocation with the number of that symbol for the
  -- address behind the code; and a lookup of a name finds its code. Each import returned the address
  -- of its name in the table, so that a name that was imported before gets its old address.
  pub import_all-refines :
      (fresh : ℕ → ℕ) (ns : List (List ℕ)) (d : Dynamic) (names : List (List ℕ))
      → Holds k ns d
      → HasRoom (length names) ns d
      → Written k o type firsts before ns d
      → HasSpace names d
      → Holds k (intern_all ns names) (import_all fresh type d names).1
        × Written k o type firsts before (intern_all ns names) (import_all fresh type d names).1
        × ((import_all fresh type d names).0
            ≡ map (λ (s : List ℕ). address_or d.plt_address (intern_all ns names) s 0) names)
  unfolding import_all intern_all
  import_all-refines fresh ns d [] h r w p = (h, w, refl)
  import_all-refines fresh ns d (s ∷ ss) h r w p =
      let one = add_dynamic_entry fresh d s type 1 in
      let i = add_dynamic_entry-Imported fresh k ns d s type (length ss) h r in
      let (w', p') = add_dynamic_entry-Written fresh ns ss d s (length ss) h r w p in
      let (a, b, c) = import_all-refines fresh (intern ns s) one.1 ss i.holds i.has_room w' p' in
      (
        a,
        b,
        ap₂ ◌∷◌
            (i.address
              ∙ sym (address_or-intern_all d.plt_address (intern ns s) ss s 0 (intern-member ns s)))
            (rw i.same_table at c),
      )
