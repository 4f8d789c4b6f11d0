-- ===== src/Link/Dynamic/Needed.antt =====
-- The names of needed libraries of core/link/elf/dynamic.c, which `add_dt_needed` writes into the
-- string table and `set_dynanmic` finds again.
use bin_tools.Base.{
  ℕ, zero, suc, ◌+◌, ◌<◌, ◌≤◌, ◌^◌, List, [], ◌∷◌, length, Option, none, some, ◌>>=◌, Bool, true,
  ◌==◌, if◌then◌else◌, u32, ◌≡◌, ◌≢◌, refl, sym, ap, ◌∙◌, arith, ne→==,
}
use bin_tools.Link.Dynamic.{StringArea, add_dynstr_entry}
use bin_tools.Link.Dynamic.Strings.{add_dynstr_entry-Added, IsStringAt, IsStringAt-eq, IsBlankFrom}

pub record Needed : Type 0 where
  pub dynstr : StringArea
  pub num : ℕ

-- The loop over the given libraries, which ends at the first one without `.so`, and the offsets
-- at which their names were put. `has_so` is the test by `memmem`.
unfoldable pub add_dt_needed : (ℕ → ℕ) → (List ℕ → Bool) → Needed → List (List ℕ) → List ℕ × Needed
add_dt_needed fresh has_so d [] = ([], d)
add_dt_needed fresh has_so d (p ∷ ps) =
    let string = add_dynstr_entry fresh d.dynstr p in
    let rest =
      add_dt_needed fresh has_so (record { dynstr = string.1; num = u32 (d.num + 1) }) ps in
    (if has_so p then string.0 ∷ rest.0 else [], if has_so p then rest.1 else d)

-- `for (p++; *q; q++, p++);`
unfoldable pub skip_string : ℕ → (ℕ → ℕ) → (q p : ℕ) → Option ℕ
skip_string zero bytes q p = none
skip_string (suc fuel) bytes q p =
    let rest = skip_string fuel bytes (q + 1) (u32 (p + 1)) in if bytes q == 0 then some p else rest

-- The values of the `DT_NEEDED` entries of `set_dynanmic`; the fuel is for one string.
unfoldable pub needed_values : (fuel : ℕ) → (ℕ → ℕ) → (num p : ℕ) → Option (List ℕ)
unfolding skip_string
needed_values fuel bytes zero p = some []
needed_values fuel bytes (suc num) p = skip_string fuel bytes p (u32 (p + 1)) >>= λ next.
    needed_values fuel bytes num next >>= λ rest. some (p ∷ rest)

-- Strings of C have no zero inside.
unfoldable pub HasNoZero : List ℕ → Type 0
HasNoZero [] = Unit
HasNoZero (c ∷ cs) = (c ≢ 0) × HasNoZero cs

skip_string-IsStringAt :
    (fuel : ℕ) (bytes : ℕ → ℕ) (q p : ℕ) (name : List ℕ)
    → HasNoZero name
    → IsStringAt bytes q name
    → length name < fuel
    → p + length name < 2 ^ 32
    → skip_string fuel bytes q p ≡ some (p + length name)
unfolding skip_string HasNoZero IsStringAt
skip_string-IsStringAt zero bytes q p name z i f h = elim f [ ]
skip_string-IsStringAt (suc fuel) bytes q p [] z i f h = rw i (ap some (omega arith))
skip_string-IsStringAt (suc fuel) bytes q p (c ∷ cs) (nz, z) (e, i) f h =
    let one : u32 (p + 1) ≡ p + 1 = omega arith in
    rw e (
      rw (ne→== c 0 nz) (
        rw one (
          skip_string-IsStringAt fuel bytes (q + 1) (p + 1) cs z i (omega arith) (omega arith)
          ∙ ap some (omega arith))))

-- Each library passes the test for a name and has a name shorter than the fuel.
unfoldable pub AreNeeded : (List ℕ → Bool) → ℕ → List (List ℕ) → Type 0
AreNeeded has_so fuel [] = Unit
AreNeeded has_so fuel (n ∷ ns) =
    (has_so n ≡ true) × HasNoZero n × (length n < fuel) × AreNeeded has_so fuel ns

unfoldable pub total_length : List (List ℕ) → ℕ
total_length [] = 0
total_length (n ∷ ns) = length n + 1 + total_length ns

add_dt_needed-below :
    (fresh : ℕ → ℕ) (has_so : List ℕ → Bool) (fuel : ℕ) (d : Needed) (names : List (List ℕ)) (q : ℕ)
    → AreNeeded has_so fuel names
    → IsBlankFrom d.dynstr.bytes d.dynstr.size d.dynstr.alloc_size
    → d.dynstr.size + total_length names ≤ d.dynstr.alloc_size
    → d.dynstr.alloc_size + 1 < 2 ^ 32
    → q < d.dynstr.size
    → (add_dt_needed fresh has_so d names).1.dynstr.bytes q ≡ d.dynstr.bytes q
unfolding add_dt_needed AreNeeded total_length
add_dt_needed-below fresh has_so fuel d [] q a b f s h = refl
add_dt_needed-below fresh has_so fuel d (n ∷ ns) q (so, z, l, a) b f s h =
    let i = add_dynstr_entry-Added fresh d.dynstr n b (omega arith) s in
    rw so (
      add_dt_needed-below fresh has_so fuel
        (record { dynstr = (add_dynstr_entry fresh d.dynstr n).1; num = u32 (d.num + 1) }) ns q a
        i.blank (omega (arith, i.size, i.alloc_size)) (omega (arith, i.alloc_size))
        (omega (arith, i.size))
      ∙ i.below q h)

needed_values-step :
    (fuel : ℕ) (bytes : ℕ → ℕ) (num p next : ℕ) (rest : List ℕ)
    → skip_string fuel bytes p (u32 (p + 1)) ≡ some next
    → needed_values fuel bytes num next ≡ some rest
    → needed_values fuel bytes (suc num) p ≡ some (p ∷ rest)
unfolding needed_values
needed_values-step fuel bytes num p next rest e e' = rw e (rw e' refl)

-- The offsets of no library are none.
needed_values-nil :
    (fresh : ℕ → ℕ) (has_so : List ℕ → Bool) (fuel : ℕ) (d : Needed)
    → needed_values fuel (add_dt_needed fresh has_so d []).1.dynstr.bytes 0 d.dynstr.size
      ≡ some (add_dt_needed fresh has_so d []).0
unfolding add_dt_needed needed_values
needed_values-nil fresh has_so fuel d = refl

add_dt_needed-cons :
    (fresh : ℕ → ℕ) (has_so : List ℕ → Bool) (d : Needed) (n : List ℕ) (ns : List (List ℕ))
    → has_so n ≡ true
    → add_dt_needed fresh has_so d (n ∷ ns) ≡ (
        let first = add_dynstr_entry fresh d.dynstr n in
        let rest =
          add_dt_needed fresh has_so (record { dynstr = first.1; num = u32 (d.num + 1) }) ns in
        (first.0 ∷ rest.0, rest.1))
unfolding add_dt_needed
add_dt_needed-cons fresh has_so d n ns so = rw so refl

-- When the libraries have room in a table that is blank behind its size, walking over as many
-- strings from there on gives exactly the offsets at which their names were put, and the walks end.
pub needed_values-add_dt_needed :
    (fresh : ℕ → ℕ) (has_so : List ℕ → Bool) (fuel : ℕ) (d : Needed) (names : List (List ℕ))
    → AreNeeded has_so fuel names
    → IsBlankFrom d.dynstr.bytes d.dynstr.size d.dynstr.alloc_size
    → d.dynstr.size + total_length names ≤ d.dynstr.alloc_size
    → d.dynstr.alloc_size + 1 < 2 ^ 32
    → needed_values fuel
        (add_dt_needed fresh has_so d names).1.dynstr.bytes
        (length names)
        d.dynstr.size
      ≡ some (add_dt_needed fresh has_so d names).0
unfolding AreNeeded total_length
needed_values-add_dt_needed fresh has_so fuel d [] a b f s = needed_values-nil fresh has_so fuel d
needed_values-add_dt_needed fresh has_so fuel d (n ∷ ns) (so, z, l, a) b f s =
    let i = add_dynstr_entry-Added fresh d.dynstr n b (omega arith) s in
    let first = add_dynstr_entry fresh d.dynstr n in
    let d' : Needed = record { dynstr = first.1; num = u32 (d.num + 1) } in
    let rest = add_dt_needed fresh has_so d' ns in
    let fits : d'.dynstr.size + total_length ns ≤ d'.dynstr.alloc_size =
      omega (arith, i.size, i.alloc_size) in
    let small : d'.dynstr.alloc_size + 1 < 2 ^ 32 = omega (arith, i.alloc_size) in
    let kept : IsStringAt rest.1.dynstr.bytes d.dynstr.size n =
      IsStringAt-eq _ first.1.bytes d.dynstr.size n
        (λ q lo hi.
          add_dt_needed-below fresh has_so fuel d' ns q a i.blank fits small
            (omega (arith, i.size)))
        (rw i.offset at i.found) in
    let skipped : skip_string fuel rest.1.dynstr.bytes d.dynstr.size (u32 (d.dynstr.size + 1))
        ≡ some (u32 (d.dynstr.size + 1) + length n) =
      skip_string-IsStringAt fuel rest.1.dynstr.bytes d.dynstr.size _ n z kept l (omega arith) in
    let next : u32 (d.dynstr.size + 1) + length n ≡ first.1.size = omega (arith, i.size) in
    let values : needed_values fuel rest.1.dynstr.bytes (length ns) first.1.size ≡ some rest.0 =
      needed_values-add_dt_needed fresh has_so fuel d' ns a i.blank fits small in
    let whole = add_dt_needed-cons fresh has_so d n ns so in
    ap
      (λ (r : List ℕ × Needed). needed_values fuel r.1.dynstr.bytes (suc (length ns)) d.dynstr.size)
      whole
    ∙ needed_values-step fuel rest.1.dynstr.bytes (length ns) d.dynstr.size first.1.size rest.0
        (skipped ∙ ap some next) values
    ∙ ap (λ (r : ℕ). some (r ∷ rest.0)) (sym i.offset)
    ∙ ap (λ (r : List ℕ × Needed). some r.0) (sym whole)
