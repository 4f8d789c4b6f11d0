-- ===== src/Link/Dynamic/Imports.antt =====
-- `add_dynamic_entry` of core/link/elf/dynamic.c as a table of the distinct names in the order in
-- which they were first imported: the name at place `k` has its code at `0x10 * k` of the table.
use bin_tools.Base.{
  ℕ, suc, ◌+◌, ◌*◌, ◌<◌, ◌≤◌, ◌^◌, List, [], ◌∷◌, ◌++◌, length, length-append, Bool, true, false,
  ◌||◌, if◌then◌else◌, u32, same_string, ◌≡◌, ◌≢◌, refl, sym, ap, ◌∙◌, arith, Bool-cases, inl, inr,
  ne→==,
}
use bin_tools.Link.Symbols.{bucket_of, lookup_symbol, alloc_dynamic_symbol_chain}
use bin_tools.Link.Symbols.Bindings.{chains_or, lookup_chain-or, chains_or-alloc}
use bin_tools.Link.Dynamic.{
  Dynamic, Area, add_dynamic_entry, add_new_entry, found, add_pltgot_entry, add_dynsym_entry,
  add_symbol_and_rela,
}

unfoldable pub is_member : List (List ℕ) → List ℕ → Bool
is_member [] s = false
is_member (n ∷ ns) s = same_string s n || is_member ns s

-- A name that is new goes behind the others.
unfoldable pub intern : List (List ℕ) → List ℕ → List (List ℕ)
intern ns s = if is_member ns s then ns else ns ++ s ∷ []

unfoldable pub intern_all : List (List ℕ) → List (List ℕ) → List (List ℕ)
unfolding intern
intern_all ns [] = ns
intern_all ns (s ∷ ss) = intern_all (intern ns s) ss

-- The address of a name in the table that begins at `va`, or `d`.
unfoldable pub address_or : ℕ → List (List ℕ) → List ℕ → ℕ → ℕ
address_or va [] s d = d
address_or va (n ∷ ns) s d =
    let rest = address_or (va + 0x10) ns s d in if same_string s n then va else rest

-- The calls of `add_dynamic_entry` with a check, one after the other, and what they return.
unfoldable pub import_all : (ℕ → ℕ) → ℕ → Dynamic → List (List ℕ) → List ℕ × Dynamic
import_all fresh type d [] = ([], d)
import_all fresh type d (s ∷ ss) =
    let one = add_dynamic_entry fresh d s type 1 in
    let rest = import_all fresh type one.1 ss in (one.0 ∷ rest.0, rest.1)

-- The state holds the imports `ns`, behind `k` symbols of another kind.
pub record Holds (k : ℕ) (ns : List (List ℕ)) (d : Dynamic) : Type 0 where
  pub plt_count : d.pltgot.size ≡ length ns
  pub plt_alloc : d.pltgot.alloc_size ≡ 0
  pub sym_count : d.dynsym.size ≡ k + length ns
  pub looked_up :
      (s : List ℕ) (e : ℕ)
      → chains_or (d.tables.dynamic_import.bucket (bucket_of d.tables.dynamic_import s)) s e
        ≡ address_or d.plt_address ns s e

pub address_or-append :
    (va : ℕ) (ns ms : List (List ℕ)) (s : List ℕ) (e : ℕ)
    → address_or va (ns ++ ms) s e ≡ address_or va ns s (address_or (va + 0x10 * length ns) ms s e)
unfolding address_or
address_or-append va [] ms s e = ap (λ (x : ℕ). address_or x ms s e) (omega arith)
address_or-append va (n ∷ ns) ms s e = rw (address_or-append (va + 0x10) ns ms s e) (
    ap
      (λ (x : ℕ). if same_string s n then va else address_or (va + 0x10) ns s (address_or x ms s e))
      (omega arith))

pub address_or-member :
    (va : ℕ) (ns : List (List ℕ)) (s : List ℕ) (e e' : ℕ)
    → is_member ns s ≡ true
    → address_or va ns s e ≡ address_or va ns s e'
unfolding address_or is_member
address_or-member va [] s e e' h = cc
address_or-member va (n ∷ ns) s e e' h = elim (Bool-cases (same_string s n)) [
  | inl t ↦ rw t refl
  | inr t ↦ rw t (address_or-member (va + 0x10) ns s e e' (rw t at h))
]

pub address_or-absent :
    (va : ℕ) (ns : List (List ℕ)) (s : List ℕ) (e : ℕ)
    → is_member ns s ≡ false
    → address_or va ns s e ≡ e
unfolding address_or is_member
address_or-absent va [] s e h = refl
address_or-absent va (n ∷ ns) s e h = elim (Bool-cases (same_string s n)) [
  | inl t ↦ (let x : true ≡ false = rw t at h in cc)
  | inr t ↦ rw t (address_or-absent (va + 0x10) ns s e (rw t at h))
]

pub address_or-bounds :
    (va : ℕ) (ns : List (List ℕ)) (s : List ℕ) (e : ℕ)
    → is_member ns s ≡ true
    → va ≤ address_or va ns s e × address_or va ns s e < va + 0x10 * length ns
unfolding address_or is_member
address_or-bounds va [] s e h = cc
address_or-bounds va (n ∷ ns) s e h = elim (Bool-cases (same_string s n)) [
  | inl t ↦ rw t (omega arith, omega arith)
  | inr t ↦ rw t (omega (arith, address_or-bounds (va + 0x10) ns s e (rw t at h)))
]

pub found-Holds :
    (k : ℕ) (ns : List (List ℕ)) (d : Dynamic) (s : List ℕ)
    → Holds k ns d
    → found d.tables s ≡ address_or d.plt_address ns s 0
unfolding found lookup_symbol
found-Holds k ns d s h = lookup_chain-or s _ ∙ h.looked_up s 0

-- There is room for `n` more imports behind `ns`.
pub record HasRoom (n : ℕ) (ns : List (List ℕ)) (d : Dynamic) : Type 0 where
  pub positive : 0 < d.plt_address
  pub addresses : d.plt_address + 0x10 * (length ns + n) < 2 ^ 32
  pub symbols : 24 * (d.dynsym.size + n) < d.dynsym.alloc_size
  pub small : d.dynsym.size + n < 2 ^ 32

pub add_dynamic_entry-old :
    (fresh : ℕ → ℕ) (d : Dynamic) (s : List ℕ) (type : ℕ)
    → found d.tables s ≢ 0
    → add_dynamic_entry fresh d s type 1 ≡ (u32 (found d.tables s), d)
unfolding add_dynamic_entry
add_dynamic_entry-old fresh d s type h = rw (ne→== (found d.tables s) 0 h) refl

pub add_dynamic_entry-new :
    (fresh : ℕ → ℕ) (d : Dynamic) (s : List ℕ) (type : ℕ)
    → found d.tables s ≡ 0
    → add_dynamic_entry fresh d s type 1 ≡ add_new_entry fresh d s type
unfolding add_dynamic_entry
add_dynamic_entry-new fresh d s type h = rw h refl

pub add_new_entry-address :
    (fresh : ℕ → ℕ) (k : ℕ) (ns : List (List ℕ)) (d : Dynamic) (s : List ℕ) (type n : ℕ)
    → Holds k ns d
    → HasRoom (suc n) ns d
    → (add_new_entry fresh d s type).0 ≡ d.plt_address + 0x10 * length ns
unfolding add_new_entry add_pltgot_entry
add_new_entry-address fresh k ns d s type n h r = omega (arith, h.plt_count, r.addresses)

size-add_pltgot_entry :
    (va : ℕ) (a : Area (List ℕ))
    → a.alloc_size ≡ 0
    → 0x10 * suc a.size < 2 ^ 32
    → (add_pltgot_entry va a).1.size ≡ suc a.size
unfolding add_pltgot_entry
size-add_pltgot_entry va a z r = rw z (ground arith)

pub size-add_dynsym_entry :
    (a : Area _) (off shndx value : ℕ)
    → 24 * suc a.size < a.alloc_size
    → suc a.size < 2 ^ 32
    → (add_dynsym_entry a off shndx value).size ≡ suc a.size
unfolding add_dynsym_entry
size-add_dynsym_entry a off shndx value z r = ground arith

alloc_size-add_dynsym_entry :
    (a : Area _) (off shndx value : ℕ)
    → 24 * suc a.size < a.alloc_size
    → suc a.size < 2 ^ 32
    → (add_dynsym_entry a off shndx value).alloc_size ≡ a.alloc_size
unfolding add_dynsym_entry
alloc_size-add_dynsym_entry a off shndx value z r = ground arith

alloc_size-add_pltgot_entry :
    (va : ℕ) (a : Area (List ℕ)) → (add_pltgot_entry va a).1.alloc_size ≡ a.alloc_size
unfolding add_pltgot_entry
alloc_size-add_pltgot_entry va a = ground arith

length-snoc : (ns : List (List ℕ)) (s : List ℕ) → length (ns ++ s ∷ []) ≡ suc (length ns)
length-snoc ns s = omega (arith, length-append ns (s ∷ []))

pub add_new_entry-Holds :
    (fresh : ℕ → ℕ) (k : ℕ) (ns : List (List ℕ)) (d : Dynamic) (s : List ℕ) (type n : ℕ)
    → Holds k ns d
    → HasRoom (suc n) ns d
    → Holds k (ns ++ s ∷ []) (add_new_entry fresh d s type).1
unfolding add_new_entry add_symbol_and_rela alloc_dynamic_symbol_chain bucket_of address_or
add_new_entry-Holds fresh k ns d s type n h r = record {
  plt_count =
      size-add_pltgot_entry d.plt_address d.pltgot h.plt_alloc
        (omega (arith, h.plt_count, r.addresses, r.positive))
      ∙ omega (arith, h.plt_count, length-snoc ns s);
  plt_alloc = alloc_size-add_pltgot_entry d.plt_address d.pltgot ∙ h.plt_alloc;
  sym_count =
      size-add_dynsym_entry d.dynsym _ 0 0 (omega (arith, r.symbols)) (omega (arith, r.small))
      ∙ omega (arith, h.sym_count, length-snoc ns s);
  looked_up = λ t e.
      chains_or-alloc d.tables.dynamic_import
        (record { is = (add_new_entry fresh d s type).0; name = s; schain = 0 }) t e
      ∙ h.looked_up t (if same_string t s then (add_new_entry fresh d s type).0 else e)
      ∙ ap (λ (x : ℕ). address_or d.plt_address ns t (if same_string t s then x else e))
          (add_new_entry-address fresh k ns d s type n h r)
      ∙ sym (address_or-append d.plt_address ns (s ∷ []) t e);
}

pub add_new_entry-HasRoom :
    (fresh : ℕ → ℕ) (ns : List (List ℕ)) (d : Dynamic) (s : List ℕ) (type n : ℕ)
    → HasRoom (suc n) ns d
    → HasRoom n (ns ++ s ∷ []) (add_new_entry fresh d s type).1
unfolding add_new_entry add_symbol_and_rela
add_new_entry-HasRoom fresh ns d s type n r =
    let size =
      size-add_dynsym_entry d.dynsym d.dynstr.size 0 0 (omega (arith, r.symbols))
        (omega (arith, r.small)) in
    let room =
      alloc_size-add_dynsym_entry d.dynsym d.dynstr.size 0 0 (omega (arith, r.symbols))
        (omega (arith, r.small)) in
    record {
      positive = r.positive;
      addresses = omega (arith, r.addresses, length-snoc ns s);
      symbols = omega (arith, r.symbols, size, room);
      small = omega (arith, r.small, size);
    }
