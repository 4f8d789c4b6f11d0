-- ===== src/Link/Coff/Stubs.antt =====
-- Every imported function of core/link/coff/reloc.c gets one stub.
use bin_tools.Base.{
  ℕ, ◌==◌, ◌%◌, true, List, [], ◌∷◌, none, some, if◌then◌else◌, update, same_string, ◌≡◌, ◌≢◌, refl,
  sym, ap, ◌∙◌, Bool-cases, inl, inr, ne→==, ==_refl, ==_iff, Option-cases,
}
use bin_tools.Link.Hash.{elf_hash}
use bin_tools.Link.Coff.{
  DllFunction, DllTable, Found, lookup_in, Coff, CallbackArg, resolve_dynamic, coff_resolve,
}

-- What a second lookup finds after a first one.
record Again (p : ℕ) (first second : Found) : Type 0 where
  pub same_dll : second.dllname ≡ first.dllname
  pub same_chain : second.chain ≡ first.chain
  pub stub :
      (d : List ℕ)
      → first.dllname ≡ some d
      → second.ever ≡ (if first.ever == 0 then p else first.ever)

abbrev stub_of : ℕ → ℕ → ℕ
stub_of p v = if v == 0 then p else v

stub_of-ne-zero : (p v : ℕ) → p ≢ 0 → stub_of p v ≢ 0
stub_of-ne-zero p v h = elim (Bool-cases (v == 0)) [
  | inl e ↦ rw e h
  | inr e ↦ rw e (λ z. (let y : (v == 0) ≡ true = (==_iff v 0).1 z in cc))
]

stub_of-again : (p q v : ℕ) → p ≢ 0 → stub_of q (stub_of p v) ≡ stub_of p v
stub_of-again p q v h = rw (ne→== (stub_of p v) 0 (stub_of-ne-zero p v h)) refl

lookup_in-Again :
    (p q : ℕ) (s : List ℕ) (cs : List DllFunction)
    → p ≢ 0
    → Again p (lookup_in p s cs) (lookup_in q s (lookup_in p s cs).chain)
unfolding lookup_in
lookup_in-Again p q s [] h = record { same_dll = refl; same_chain = refl; stub = λ d e. cc }
lookup_in-Again p q s (x ∷ xs) h = elim (Bool-cases (same_string s x.name)) [
  | inl e ↦ rw e (
      rw e (record {
        same_dll = refl;
        same_chain =
            ap (λ (y : ℕ). record { name = x.name; dllname = x.dllname; ever = y } ∷ xs)
              (stub_of-again p q x.ever h);
        stub = λ d i. refl;
      }))
  | inr e ↦
      let a = lookup_in-Again p q s xs h in
      rw e (
        rw e (record {
          same_dll = a.same_dll;
          same_chain = ap (λ (cs : List DllFunction). x ∷ cs) a.same_chain;
          stub = a.stub;
        }))
]

-- The lookup of a relocation.
abbrev found_for : Coff → CallbackArg → Found
found_for c arg =
    lookup_in c.imports.plt_offset arg.name (c.dlls.bucket (elf_hash arg.name % c.dlls.nbucket))

resolve_dynamic-none :
    (c : Coff) (arg : CallbackArg) → (found_for c arg).dllname ≡ none → resolve_dynamic c arg ≡ c
unfolding resolve_dynamic
resolve_dynamic-none c arg e = rw e refl

-- A function that has its stub needs no import.
resolve_dynamic-known :
    (c : Coff) (arg : CallbackArg) (d : List ℕ)
    → (found_for c arg).dllname ≡ some d
    → (found_for c arg).ever ≢ 0
    → (resolve_dynamic c arg).imports ≡ c.imports
unfolding resolve_dynamic
resolve_dynamic-known c arg d e n = rw e (rw (ne→== (found_for c arg).ever 0 n) refl)

-- The table after a relocation for a function of a DLL.
resolve_dynamic-table :
    (c : Coff) (arg : CallbackArg) (d : List ℕ)
    → (found_for c arg).dllname ≡ some d
    → (resolve_dynamic c arg).dlls ≡ record c.dlls {
      bucket = update c.dlls.bucket (elf_hash arg.name % c.dlls.nbucket) (found_for c arg).chain;
    }
unfolding resolve_dynamic
resolve_dynamic-table c arg d e = rw e refl

resolve_dynamic-again :
    (c : Coff) (a b : CallbackArg)
    → b.name ≡ a.name
    → c.imports.plt_offset ≢ 0
    → (resolve_dynamic (resolve_dynamic c a) b).imports ≡ (resolve_dynamic c a).imports
resolve_dynamic-again c a b same h = elim (Option-cases (found_for c a).dllname) [
  | inl e ↦ rw (resolve_dynamic-none c a e) (
      ap (λ (x : Coff). x.imports)
        (resolve_dynamic-none c b (
          ap
            (λ (n : List ℕ).
              (lookup_in c.imports.plt_offset n
                (c.dlls.bucket (elf_hash n % c.dlls.nbucket))).dllname)
            same
          ∙ e)))
  | inr (d, e) ↦
      let c' = resolve_dynamic c a in
      let q = c'.imports.plt_offset in
      let first = found_for c a in
      let again =
        lookup_in-Again c.imports.plt_offset q a.name
          (c.dlls.bucket (elf_hash a.name % c.dlls.nbucket)) h in
      let at_ : found_for c' b ≡ lookup_in q a.name first.chain =
        ap (λ (n : List ℕ). lookup_in q n (c'.dlls.bucket (elf_hash n % c'.dlls.nbucket))) same
        ∙ ap (λ (t : DllTable). lookup_in q a.name (t.bucket (elf_hash a.name % t.nbucket)))
            (resolve_dynamic-table c a d e)
        ∙ rw (==_refl (elf_hash a.name % c.dlls.nbucket)) refl in
      resolve_dynamic-known c' b d (ap (λ (f : Found). f.dllname) at_ ∙ again.same_dll ∙ e) (λ z.
        stub_of-ne-zero c.imports.plt_offset first.ever h
          (sym (again.stub d e) ∙ ap (λ (f : Found). f.ever) (sym at_) ∙ z))
]

external :
    (exported : List ℕ → ℕ) (c : Coff) (arg : CallbackArg)
    → arg.storage_class ≡ 2
    → exported arg.name ≡ 0
    → coff_resolve exported c arg ≡ resolve_dynamic c arg
unfolding coff_resolve
external exported c arg s e = rw s (rw e refl)

-- When the stubs do not begin at address 0, two relocations one after the other for the same
-- external name, which the program does not export itself, import the function at most once: the
-- second one leaves the imports, the length of their directory and the end of the stubs as the
-- first one left them.
pub coff_resolve-once :
    (exported : List ℕ → ℕ) (c : Coff) (a b : CallbackArg)
    → a.storage_class ≡ 2
    → b.storage_class ≡ 2
    → b.name ≡ a.name
    → exported a.name ≡ 0
    → c.imports.plt_offset ≢ 0
    → (coff_resolve exported (coff_resolve exported c a) b).imports
      ≡ (coff_resolve exported c a).imports
coff_resolve-once exported c a b sa sb same e h = rw (external exported c a sa e) (
    ap (λ (x : Coff). x.imports)
      (external exported (resolve_dynamic c a) b sb (ap exported same ∙ e))
    ∙ resolve_dynamic-again c a b same h)
