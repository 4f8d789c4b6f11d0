-- ===== src/Tools/Patch.antt =====
-- Patches of binary files: `read_patch`, `apply` and `apply_patch` of tools/bipatch.c.
-- A text or a file is the list of its bytes, and a pointer into it is what is left from there on. The
-- mapping for the edits holds 128 of 32 bytes, and the one for their bytes 4096. `outside` is a
-- pointer that leaves its text, file or mapping, or a loop that has not ended after as many rounds as the
-- fuel.
pub mod Apply
pub mod Whole
pub mod Parse
pub mod Lines
mod Tests
use bin_tools.Base.{
  ℕ, zero, suc, ◌+◌, ◌-◌, ◌*◌, ◌/◌, ◌%◌, ◌^◌, List, [], ◌∷◌, ◌++◌, length, u8, u16, u32, u64, ◌==◌,
  if◌then◌else◌,
}
use bin_tools.Tools.Hex.{ascii_to_bin, parse_error, shifted_int}

-- An entry of a patch: command 1 inserts `length` bytes of `elem`, command 0 removes `length` bytes.
pub record Edit : Type 0 where
  pub cmd : ℕ
  pub addr : ℕ
  pub length : ℕ
  pub elem : List ℕ

-- `size_updown` is an `int`, written as an unsigned number.
pub record PatchInfo : Type 0 where
  pub edits : List Edit
  pub size_updown : ℕ

pub data Outcome (A : Type 0) : Type 0 where
  failed : Outcome A
  outside : Outcome A
  done : A → Outcome A

unfoldable pub and_then : {A B : Type 0} → Outcome A → (A → Outcome B) → Outcome B
and_then failed f = failed
and_then outside f = outside
and_then (done a) f = f a

-- `for (p++; *p != ' '; p++);` behind the command, and the step over the space.
unfoldable pub skip_to_space : List ℕ → Outcome (List ℕ)
skip_to_space [] = outside
skip_to_space (x ∷ xs) = let rest = skip_to_space xs in if x == 32 then done xs else rest

-- `for (; *p == ' '; p++);`
unfoldable pub skip_spaces : List ℕ → List ℕ
skip_spaces [] = []
skip_spaces (x ∷ xs) = let rest = skip_spaces xs in if x == 32 then rest else x ∷ xs

-- The first `n` bytes and what is left.
unfoldable pub split_at : ℕ → List ℕ → Outcome (List ℕ × List ℕ)
split_at zero xs = done ([], xs)
split_at (suc n) [] = outside
split_at (suc n) (x ∷ xs) = and_then (split_at n xs) (λ (p : List ℕ × List ℕ). done (x ∷ p.0, p.1))

-- A number in `n` bytes of the text.
unfoldable pub read_number : ℕ → List ℕ → Outcome (ℕ × List ℕ)
unfolding and_then split_at
read_number n text = and_then (split_at n text) (λ (p : List ℕ × List ℕ).
    let d = ascii_to_bin p.0 in if d == parse_error then failed else done (d, p.1))

-- The bytes of an insertion, up to the end of the line, with `left` bytes left for them.
unfoldable pub read_elem : (left : ℕ) → List ℕ → Outcome (List ℕ × List ℕ)
unfolding and_then read_number skip_spaces
read_elem left [] = outside
read_elem zero (x ∷ xs) =
    if x == 10
    then done ([], x ∷ xs)
    else and_then (read_number 4 (x ∷ xs)) (λ (d : ℕ × List ℕ). outside)
read_elem (suc left) (x ∷ xs) =
    if x == 10
    then done ([], x ∷ xs)
    else and_then (read_number 4 (x ∷ xs)) (λ (d : ℕ × List ℕ).
      and_then (read_elem left (skip_spaces d.1))
        (λ (e : List ℕ × List ℕ). done (u8 d.0 ∷ e.0, e.1)))

-- One edit, up to the end of its line.
unfoldable pub read_edit : (left cmd : ℕ) → List ℕ → Outcome (Edit × List ℕ)
unfolding and_then skip_to_space read_number skip_spaces read_elem
read_edit left cmd text = and_then (skip_to_space text) (λ (behind : List ℕ).
    and_then (read_number 10 behind) (λ (a : ℕ × List ℕ).
      let body = skip_spaces a.1 in
      if cmd == 0
      then and_then (read_number 4 body) (λ (d : ℕ × List ℕ).
        done (record { cmd = cmd; addr = a.0; length = u16 d.0; elem = [] }, d.1))
      else and_then (read_elem left body) (λ (e : List ℕ × List ℕ).
        done (record { cmd = cmd; addr = a.0; length = u16 (length e.0); elem = e.0 }, e.1))))

-- `size_updown` after an edit; the length of a removal has two digits.
unfoldable pub updown : ℕ → Edit → ℕ
updown s e = if e.cmd == 0 then u32 (s + (2 ^ 32 - e.length)) else u32 (s + e.length)

unfoldable pub skip_one : List ℕ → Outcome (List ℕ)
skip_one [] = outside
skip_one (x ∷ xs) = done xs

-- The loop over the lines of a patch, with room for `room` edits and for `left` bytes of theirs.
unfoldable pub read_edits : (room left size_updown : ℕ) → List ℕ → Outcome PatchInfo
unfolding and_then read_edit updown skip_one
read_edits room left s [] = done (record { edits = []; size_updown = s })
read_edits zero left s (x ∷ xs) =
    if x == 10
    then done (record { edits = []; size_updown = s })
    else if x == b'1'
    then outside
    else if x == b'0'
    then outside
    else failed
read_edits (suc room) left s (x ∷ xs) =
    if x == 10
    then done (record { edits = []; size_updown = s })
    else let line = λ (cmd : ℕ). and_then (read_edit left cmd xs) (λ (e : Edit × List ℕ).
      and_then (skip_one e.1) (λ (rest : List ℕ).
        and_then (read_edits room (left - length e.0.elem) (updown s e.0) rest)
          (λ (info : PatchInfo). done (record info { edits = e.0 ∷ info.edits })))) in
      if x == b'1' then line 1 else if x == b'0' then line 0 else failed

-- The pointer behind the last edit is unmapped at the end, which has an effect when it is the
-- beginning of a page: without an edit it takes the page of the edits away, and with 128 of them the
-- one that is read behind them.
unfoldable pub read_patch : List ℕ → Outcome PatchInfo
unfolding and_then read_edits
read_patch text =
    and_then (read_edits 128 4096 0 text)
      (λ (info : PatchInfo). if length info.edits % 128 == 0 then outside else done info)

-- `p++` for as many times.
unfoldable pub skip : ℕ → List ℕ → Outcome (List ℕ)
skip zero rest = done rest
skip (suc n) [] = outside
skip (suc n) (x ∷ xs) = skip n xs

-- The edit that `_pf` points to, and the ones behind it.
abbrev pub blank : Edit
blank = record { cmd = 0; addr = 0; length = 0; elem = [] }

abbrev pub current : List Edit → Edit
current [] = blank
current (e ∷ es) = e

abbrev pub behind : List Edit → List Edit
behind [] = []
behind (e ∷ es) = es

-- The bytes that are written from `q` on, in front of `more`.
unfoldable pub prepend : List ℕ → Outcome (List ℕ) → Outcome (List ℕ)
unfolding and_then
prepend bs more = and_then more (λ (out : List ℕ). done (bs ++ out))

-- The loop of `apply` at offset `p` of the input, of which `rest` is left, and offset `q` of the output,
-- which has room for `room` bytes; the result is what is written from there on.
unfoldable pub apply_loop :
    (fuel room p : ℕ) → (rest : List ℕ) → (q : ℕ) → List Edit → Outcome (List ℕ)
unfolding and_then skip prepend
apply_loop fuel room p [] q edits = done []
apply_loop zero room p (x ∷ xs) q edits = outside
apply_loop (suc fuel) room p (x ∷ xs) q edits =
    let e = current edits in
    if q == room
    then done []
    else if p == e.addr
    then if e.cmd == 1
      then elim (split_at e.length (e.elem)) [
        | done b ↦ prepend b.0 (apply_loop fuel room p (x ∷ xs) (q + e.length) (behind edits))
        | _ ↦ outside
      ]
      else if e.cmd == 0
      then and_then (skip e.length (x ∷ xs))
          (λ (rest : List ℕ). apply_loop fuel room (p + e.length) rest q (behind edits))
      else apply_loop fuel room p (x ∷ xs) q (behind edits)
    else prepend (x ∷ []) (apply_loop fuel room (p + 1) xs (q + 1) edits)

-- The size of the file that is created, and the size of its mapping.
unfoldable pub output_file_size : (input : ℕ) → (size_updown : ℕ) → ℕ
output_file_size input size_updown = u64 (u64 (input + (2 ^ 64 - 1)) + shifted_int size_updown 0)

unfoldable pub mapped_size : ℕ → ℕ
mapped_size map_size = u64 (map_size + 0x1000) / 0x1000 * 0x1000 % 2 ^ 32

-- What `apply_patch` writes to the output: the bytes in its mapping and the size of the file.
unfoldable pub apply_patch : List ℕ → PatchInfo → Outcome (List ℕ × ℕ)
unfolding and_then apply_loop output_file_size mapped_size
apply_patch input info =
    let size = output_file_size (length input) info.size_updown in
    and_then
      (apply_loop (suc (length input + length info.edits)) (mapped_size size) 0 input 0 info.edits)
      (λ (out : List ℕ). done (out, u64 (size + 1)))
