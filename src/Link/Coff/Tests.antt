-- ===== src/Link/Coff/Tests.antt =====
-- A concrete relocation for core/link/coff/reloc.c.
use bin_tools.Base.{ℕ, List, [], ◌∷◌, none, ◌≡◌, refl, arith, same_string}
use bin_tools.Link.Import.Written.{no_imports}
use bin_tools.Link.Reloc.{read_word}
use bin_tools.Link.Hash.{elf_hash}
use bin_tools.Link.Coff.{DllTable, Coff, CallbackArg, alloc_dynamic_symbol, coff_resolve}
use bin_tools.Link.Coff.Stubs.{coff_resolve-once}

-- `ExitProcess`, shortened to `Ex`.
abbrev exit_name : List ℕ
exit_name = 69 ∷ 120 ∷ []

abbrev with_exit : DllTable
with_exit = alloc_dynamic_symbol (record { nbucket = 10; bucket = λ i. [] }) exit_name (107 ∷ [])

abbrev start : Coff
start = record {
  memory = λ q. 0;
  base_address = 0x400000;
  dlls = with_exit;
  imports = no_imports 0x3000;
}

abbrev call_at : ℕ → CallbackArg
call_at addr = record {
  src_vaddr = addr;
  dst_vaddr = 0;
  filled_addr = addr;
  name = exit_name;
  type = 4;
  storage_class = 2;
  section_vaddr = none;
}

coff_resolve-once_example :
    (coff_resolve (λ s. 0) (coff_resolve (λ s. 0) start (call_at 0x1001)) (call_at 0x1010)).imports
    ≡ (coff_resolve (λ s. 0) start (call_at 0x1001)).imports
coff_resolve-once_example =
    coff_resolve-once (λ s. 0) start (call_at 0x1001) (call_at 0x1010) refl refl refl refl
      (λ e. omega (arith, e))

-- The call jumps to the stub at 0x3000.
first_call : read_word (coff_resolve (λ s. 0) start (call_at 0x1001)).memory 0x1001 ≡ 0x1ffb
unfolding coff_resolve read_word alloc_dynamic_symbol same_string elf_hash
first_call = refl
