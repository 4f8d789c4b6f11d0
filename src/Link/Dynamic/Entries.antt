-- ===== src/Link/Dynamic/Entries.antt =====
-- What `add_dynamic_entry` of core/link/elf/dynamic.c writes for the imported names: the code, the
-- strings, the symbols and the relocations.
use mathlib.Core.List.{append_assoc}
use bin_tools.Base.{
  ℕ, suc, ◌+◌, ◌-◌, ◌*◌, ◌<◌, ◌≤◌, ◌^◌, List, [], ◌∷◌, ◌++◌, map, length, false, u32, u64, ◌==◌,
  ne→==, ◌≡◌, refl, sym, ap, subst, ◌∙◌, arith,
}
use bin_tools.Link.Dynamic.{
  Dynamic, Area, Sym, Rela, plt_code, r_info, add_rela, add_dynsym_entry, add_pltgot_entry,
  add_dynstr_entry, add_rela_plt_entry, add_symbol_and_rela, add_new_entry,
}
use bin_tools.Link.Dynamic.Imports.{Holds, HasRoom, size-add_dynsym_entry}
use bin_tools.Link.Dynamic.Needed.{total_length}
use bin_tools.Link.Dynamic.Strings.{IsStringAt, IsStringAt-eq, IsBlankFrom, add_dynstr_entry-Added}

-- The strings stand one behind the other, each with its zero.
unfoldable pub StringsAt : (ℕ → ℕ) → ℕ → List (List ℕ) → Type 0
StringsAt bytes o [] = Unit
StringsAt bytes o (s ∷ ss) = IsStringAt bytes o s × StringsAt bytes (o + length s + 1) ss

-- An undefined global function with its name at an offset.
abbrev pub imported : ℕ → Sym
imported o = record {
  st_name = o;
  st_info = 18;
  st_other = 0;
  st_shndx = 0;
  st_value = 0;
  st_size = 0;
}

unfoldable pub symbols_of : ℕ → List (List ℕ) → List Sym
symbols_of o [] = []
symbols_of o (s ∷ ss) = imported o ∷ symbols_of (o + length s + 1) ss

-- The relocation of the address behind the code at `va`, for the symbol with number `k`.
abbrev pub jump_slot : (base va k type : ℕ) → Rela
jump_slot base va k type = record {
  r_offset = u64 (va + 8 + (2 ^ 64 - base));
  r_info = r_info k type;
  r_addend = u64 (0 + (2 ^ 64 - base));
}

unfoldable pub relas_of : (base va k type : ℕ) → List (List ℕ) → List Rela
relas_of base va k type [] = []
relas_of base va k type (s ∷ ss) =
    jump_slot base va k type ∷ relas_of base (va + 0x10) (k + 1) type ss

StringsAt-append :
    (bytes : ℕ → ℕ) (o : ℕ) (ns : List (List ℕ)) (s : List ℕ)
    → StringsAt bytes o ns
    → IsStringAt bytes (o + total_length ns) s
    → StringsAt bytes o (ns ++ s ∷ [])
unfolding StringsAt total_length
StringsAt-append bytes o [] s h i = let e : o + 0 ≡ o = omega arith in (rw e at i, tt)
StringsAt-append bytes o (n ∷ ns) s (a, h) i =
    let e : o + (length n + 1 + total_length ns) ≡ o + length n + 1 + total_length ns =
      omega arith in
    (a, StringsAt-append bytes (o + length n + 1) ns s h (rw e at i))

StringsAt-eq :
    (f g : ℕ → ℕ) (o : ℕ) (ns : List (List ℕ))
    → ((q : ℕ) → q < o + total_length ns → f q ≡ g q)
    → StringsAt g o ns
    → StringsAt f o ns
unfolding StringsAt total_length
StringsAt-eq f g o [] h i = tt
StringsAt-eq f g o (n ∷ ns) h (a, i) = (
  IsStringAt-eq f g o n (λ q l r. h q (omega arith)) a,
  StringsAt-eq f g (o + length n + 1) ns (λ q l. h q (omega arith)) i,
)

symbols_of-append :
    (o : ℕ) (ns : List (List ℕ)) (s : List ℕ)
    → symbols_of o (ns ++ s ∷ []) ≡ symbols_of o ns ++ imported (o + total_length ns) ∷ []
unfolding symbols_of total_length
symbols_of-append o [] s = ap (λ (x : ℕ). imported x ∷ []) (omega arith)
symbols_of-append o (n ∷ ns) s =
    ap (λ (x : List Sym). imported o ∷ x)
      (symbols_of-append (o + length n + 1) ns s
        ∙ ap (λ (x : ℕ). symbols_of (o + length n + 1) ns ++ imported x ∷ []) (omega arith))

relas_of-append :
    (base va k type : ℕ) (ns : List (List ℕ)) (s : List ℕ)
    → relas_of base va k type (ns ++ s ∷ [])
      ≡ relas_of base va k type ns
        ++ jump_slot base (va + 0x10 * length ns) (k + length ns) type ∷ []
unfolding relas_of
relas_of-append base va k type [] s =
    let e : va + 0x10 * 0 ≡ va = omega arith in
    let e' : k + 0 ≡ k = omega arith in
    ap (λ (x : ℕ). jump_slot base x k type ∷ []) (sym e)
    ∙ ap (λ (x : ℕ). jump_slot base (va + 0x10 * 0) x type ∷ []) (sym e')
relas_of-append base va k type (n ∷ ns) s =
    let e : va + 0x10 + 0x10 * length ns ≡ va + 0x10 * length (n ∷ ns) = omega arith in
    let e' : k + 1 + length ns ≡ k + length (n ∷ ns) = omega arith in
    let rest = relas_of base (va + 0x10) (k + 1) type ns in
    ap (λ (x : List Rela). jump_slot base va k type ∷ x)
      (relas_of-append base (va + 0x10) (k + 1) type ns s
        ∙ ap (λ (x : ℕ). rest ++ jump_slot base x (k + 1 + length ns) type ∷ []) e
        ∙ ap (λ (x : ℕ). rest ++ jump_slot base (va + 0x10 * length (n ∷ ns)) x type ∷ []) e')

total_length-append :
    (ns : List (List ℕ)) (s : List ℕ)
    → total_length (ns ++ s ∷ []) ≡ total_length ns + (length s + 1)
unfolding total_length
total_length-append [] s = omega arith
total_length-append (n ∷ ns) s = omega (arith, total_length-append ns s)

map-append :
    (ns : List (List ℕ)) (s : List ℕ)
    → map (λ (x : List ℕ). plt_code) ns ++ plt_code ∷ []
      ≡ map (λ (x : List ℕ). plt_code) (ns ++ s ∷ [])
map-append [] s = refl
map-append (n ∷ ns) s = ap (λ (x : List (List ℕ)). plt_code ∷ x) (map-append ns s)

entries-add_pltgot_entry :
    (va : ℕ) (a : Area (List ℕ))
    → a.alloc_size ≡ 0
    → 0x10 * suc a.size < 2 ^ 32
    → (add_pltgot_entry va a).1.entries ≡ a.entries ++ plt_code ∷ []
unfolding add_pltgot_entry
entries-add_pltgot_entry va a z r =
    let t : (u32 (u32 (a.size + 1) * 0x10) == a.alloc_size) ≡ false =
      ne→== _ _ (λ e. omega (arith, e)) in
    rw t refl

entries-add_dynsym_entry :
    (a : Area Sym) (o : ℕ)
    → 24 * suc a.size < a.alloc_size
    → suc a.size < 2 ^ 32
    → (add_dynsym_entry a o 0 0).entries ≡ a.entries ++ imported o ∷ []
unfolding add_dynsym_entry
entries-add_dynsym_entry a o z r =
    let t : (u32 (a.size + 1) * 24 == a.alloc_size) ≡ false = ne→== _ _ (λ e. omega (arith, e)) in
    rw t refl

-- A relocation that does not fill its block.
record Grown (a a' : Area Rela) (rela : Rela) : Type 0 where
  entries : a'.entries ≡ a.entries ++ rela ∷ []
  size : a'.size ≡ a.size + 24
  alloc_size : a'.alloc_size ≡ a.alloc_size

add_rela-Grown :
    (a : Area Rela) (rela : Rela)
    → a.size + 24 < a.alloc_size
    → a.alloc_size < 2 ^ 32
    → Grown a (add_rela a rela) rela
unfolding add_rela
add_rela-Grown a rela l s =
    let t : (u32 (a.size + 24) == a.alloc_size) ≡ false = ne→== _ _ (λ e. omega (arith, e)) in
    rw t (record { entries = refl; size = omega arith; alloc_size = refl })

-- The relocation that is added behind the entries of a state, for its base address.
abbrev stored_rela : Dynamic → (type base : ℕ) → Rela
stored_rela d type base = record {
  r_offset = u64 (u32 (u32 (d.plt_address + d.pltgot.size * 0x10) + 8) + (2 ^ 64 - base));
  r_info = r_info (u32 ((add_dynsym_entry d.dynsym d.dynstr.size 0 0).size + (2 ^ 32 - 1))) type;
  r_addend = u64 (0 + (2 ^ 64 - base));
}

-- The room for the strings and relocations of names.
pub record HasSpace (names : List (List ℕ)) (d : Dynamic) : Type 0 where
  pub relas : d.rela_plt.size + 24 * length names < d.rela_plt.alloc_size
  pub relas_small : d.rela_plt.alloc_size < 2 ^ 32
  pub strings : d.dynstr.size + total_length names ≤ d.dynstr.alloc_size
  pub strings_small : d.dynstr.alloc_size + 1 < 2 ^ 32
  pub blank : IsBlankFrom d.dynstr.bytes d.dynstr.size d.dynstr.alloc_size

-- Fewer names need no more.
pub HasSpace-less :
    (s : List ℕ) (ss : List (List ℕ)) (d : Dynamic) → HasSpace (s ∷ ss) d → HasSpace ss d
unfolding total_length
HasSpace-less s ss d p = record {
  relas = omega (arith, p.relas);
  relas_small = p.relas_small;
  strings = omega (arith, p.strings);
  strings_small = p.strings_small;
  blank = p.blank;
}

-- Behind the symbols `firsts` and the relocations `before`, the tables hold the entries of the names:
-- the strings from offset `o` on, and symbols with the numbers from `k` on.
module _ (k o type : ℕ) (firsts : List Sym) (before : List Rela) where
  pub record Written (ns : List (List ℕ)) (d : Dynamic) : Type 0 where
    pub codes : d.pltgot.entries ≡ map (λ (s : List ℕ). plt_code) ns
    pub string_size : d.dynstr.size ≡ o + total_length ns
    pub strings : StringsAt d.dynstr.bytes o ns
    pub symbols : d.dynsym.entries ≡ firsts ++ symbols_of o ns
    pub relas : d.rela_plt.entries ≡ before ++ relas_of d.base_address d.plt_address k type ns

  module _ (fresh : ℕ → ℕ) (ns ss : List (List ℕ)) (d : Dynamic) (s : List ℕ) (n : ℕ)
      (h : Holds k ns d) (r : HasRoom (suc n) ns d) (w : Written ns d)
      (p : HasSpace (s ∷ ss) d) where
    fits : d.dynstr.size + length s < d.dynstr.alloc_size
    unfolding total_length
    fits = omega (arith, p.strings)

    pub add_new_entry-HasSpace : HasSpace ss (add_new_entry fresh d s type).1
    unfolding add_new_entry add_symbol_and_rela add_rela_plt_entry add_dynstr_entry add_pltgot_entry
        total_length
    add_new_entry-HasSpace =
        let a = add_dynstr_entry-Added fresh d.dynstr s p.blank fits p.strings_small in
        let g =
          add_rela-Grown d.rela_plt (stored_rela d type d.base_address) (omega (arith, p.relas))
            p.relas_small in
        record {
          relas = omega (arith, g.size, g.alloc_size, p.relas);
          relas_small = omega (arith, g.alloc_size, p.relas_small);
          strings = omega (arith, a.size, a.alloc_size, p.strings);
          strings_small = omega (arith, a.alloc_size, p.strings_small);
          blank = a.blank;
        }

    new_codes :
        (add_new_entry fresh d s type).1.pltgot.entries
        ≡ map (λ (x : List ℕ). plt_code) (ns ++ s ∷ [])
    unfolding add_new_entry add_symbol_and_rela
    new_codes =
        entries-add_pltgot_entry d.plt_address d.pltgot h.plt_alloc
          (omega (arith, h.plt_count, r.addresses, r.positive))
        ∙ ap (λ (x : List (List ℕ)). x ++ plt_code ∷ []) w.codes
        ∙ map-append ns s

    new_symbols :
        (add_new_entry fresh d s type).1.dynsym.entries ≡ firsts ++ symbols_of o (ns ++ s ∷ [])
    unfolding add_new_entry add_symbol_and_rela add_dynstr_entry
    new_symbols =
        entries-add_dynsym_entry d.dynsym d.dynstr.size (omega (arith, r.symbols))
          (omega (arith, r.small))
        ∙ ap (λ (x : List Sym). x ++ imported d.dynstr.size ∷ []) w.symbols
        ∙ append_assoc firsts (symbols_of o ns) (imported d.dynstr.size ∷ [])
        ∙ ap (λ (x : ℕ). firsts ++ (symbols_of o ns ++ imported x ∷ [])) w.string_size
        ∙ ap (λ (x : List Sym). firsts ++ x) (sym (symbols_of-append o ns s))

    -- The relocation that is added.
    new_slot :
        (base : ℕ)
        → jump_slot base (d.plt_address + 0x10 * length ns) (k + length ns) type
          ≡ stored_rela d type base
    new_slot base =
        let size =
          size-add_dynsym_entry d.dynsym d.dynstr.size 0 0 (omega (arith, r.symbols))
            (omega (arith, r.small)) in
        let place : d.plt_address + 0x10 * length ns + 8
            ≡ u32 (u32 (d.plt_address + d.pltgot.size * 0x10) + 8) =
          omega (arith, h.plt_count, r.addresses) in
        let number : k + length ns
            ≡ u32 ((add_dynsym_entry d.dynsym d.dynstr.size 0 0).size + (2 ^ 32 - 1)) =
          omega (arith, size, h.sym_count, r.small) in
        ap
          (λ (x : ℕ). record {
            r_offset = u64 (x + (2 ^ 64 - base));
            r_info = r_info (k + length ns) type;
            r_addend = u64 (0 + (2 ^ 64 - base));
          })
          place
        ∙ ap
            (λ (x : ℕ). record {
              r_offset =
                  u64 (u32 (u32 (d.plt_address + d.pltgot.size * 0x10) + 8) + (2 ^ 64 - base));
              r_info = r_info x type;
              r_addend = u64 (0 + (2 ^ 64 - base));
            })
            number

    new_relas :
        (add_new_entry fresh d s type).1.rela_plt.entries
        ≡ before ++ relas_of d.base_address d.plt_address k type (ns ++ s ∷ [])
    unfolding add_new_entry add_symbol_and_rela add_rela_plt_entry add_dynstr_entry add_pltgot_entry
    new_relas =
        let g =
          add_rela-Grown d.rela_plt (stored_rela d type d.base_address) (omega (arith, p.relas))
            p.relas_small in
        g.entries
        ∙ ap (λ (x : List Rela). x ++ stored_rela d type d.base_address ∷ []) w.relas
        ∙ ap (λ (x : Rela). before ++ relas_of d.base_address d.plt_address k type ns ++ x ∷ [])
            (sym (new_slot d.base_address))
        ∙ append_assoc before (relas_of d.base_address d.plt_address k type ns)
            (jump_slot d.base_address (d.plt_address + 0x10 * length ns) (k + length ns) type ∷ [])
        ∙ ap (λ (x : List Rela). before ++ x)
            (sym (relas_of-append d.base_address d.plt_address k type ns s))

    pub add_new_entry-Written : Written (ns ++ s ∷ []) (add_new_entry fresh d s type).1
    unfolding add_new_entry add_symbol_and_rela
    add_new_entry-Written =
        let a = add_dynstr_entry-Added fresh d.dynstr s p.blank fits p.strings_small in
        let size = w.string_size in
        record {
          codes = new_codes;
          string_size = omega (arith, a.size, size, total_length-append ns s);
          strings =
              StringsAt-append _ o ns s
                (StringsAt-eq _ _ o ns (λ q l. a.below q (omega (arith, size))) w.strings)
                (subst (λ (x : ℕ). IsStringAt (add_dynstr_entry fresh d.dynstr s).1.bytes x s)
                  (a.offset ∙ size) a.found);
          symbols = new_symbols;
          relas = new_relas;
        }
