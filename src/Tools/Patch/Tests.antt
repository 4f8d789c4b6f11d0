-- ===== src/Tools/Patch/Tests.antt =====
-- A patch for tools/bipatch.c that inserts two bytes and removes one.
use bin_tools.Base.{ℕ, List, [], ◌∷◌, ◌≡◌, refl, arith, inl, inr}
use bin_tools.Tools.Patch.{Edit, done, failed, and_then, read_patch, apply_patch}
use bin_tools.Tools.Patch.Apply.{patched, IsValid, take, drop}
use bin_tools.Tools.Patch.Whole.{inserted}
use bin_tools.Tools.Patch.Parse.{patch_text, IsWritable, AreBytes}
use bin_tools.Tools.Patch.Lines.{apply_patch-read_patch}

abbrev edits : List Edit
edits =
    record { cmd = 1; addr = 1; length = 2; elem = 0x90 ∷ 0x91 ∷ [] }
    ∷ record { cmd = 0; addr = 2; length = 1; elem = [] }
    ∷ []

abbrev input : List ℕ
input = 10 ∷ 20 ∷ 30 ∷ 40 ∷ []

apply_patch-read_patch_example :
    and_then (read_patch (patch_text edits)) (apply_patch input)
    ≡ done (10 ∷ 0x90 ∷ 0x91 ∷ 20 ∷ 40 ∷ [], 5)
unfolding patched IsWritable AreBytes IsValid inserted take drop
apply_patch-read_patch_example =
    apply_patch-read_patch input edits (omega arith) (omega arith) (omega arith)
      (
        omega arith,
        inl (refl, refl, omega arith, (omega arith, (omega arith, tt))),
        (omega arith, inr (refl, refl, omega arith), tt),
      )
      (
        omega arith,
        omega arith,
        inl (refl, refl, (omega arith, omega arith, inr (refl, omega arith, omega arith))),
      )
      (omega arith)

no_command : read_patch (120 ∷ 10 ∷ []) ≡ failed
unfolding read_patch
no_command = refl
