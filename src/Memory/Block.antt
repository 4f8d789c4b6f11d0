-- ===== src/Memory/Block.antt =====
-- `__malloc` within one page: search and mark together.
use bin_tools.Base.{
  ℕ, ◌+◌, ◌-◌, ◌≤◌, ◌<◌, true, some, ◌==◌, ◌≡◌, refl, ◌⊎◌, inl, inr, arith, Bool-cases,
}
use bin_tools.Memory.Find.{IsClear, IsTaken, slowest_find_consecutive_bin-Answer}
use bin_tools.Memory.Mark.{Marked, set_bin-Marked}
use bin_tools.Memory.{Bits, block_in_page}

-- The outcome `a` with the new bits: no room, or a block that was free and is now taken.
abbrev pub Outcome : Bits → ℕ → ℕ → Bits → Type 0
Outcome bits q a bits' =
    ((a ≡ 0) × (bits' ≡ bits) × ((k : ℕ) → k + q ≤ 256 → IsTaken bits k q))
    ⊎ ((0 < a) × (a + q ≤ 256) × IsClear bits a q × Marked bits true a (a + q - 1) bits')

-- On a page whose first block is reserved, a request of 1 to 255 blocks always ends. Either the page
-- has no run of that many free blocks, and nothing changes; or the answer is a run inside the page,
-- behind the reserved block, that was free and is now taken, and no other block changes.
pub block_in_page-Outcome :
    (bits : Bits) (q : ℕ)
    → bits 0 ≡ true
    → 0 < q
    → q < 256
    → (a : ℕ) × (bits' : Bits) × (block_in_page bits q ≡ some (a, bits')) × Outcome bits q a bits'
unfolding block_in_page
block_in_page-Outcome bits q reserved pos lt =
    let (a, found, answer) = slowest_find_consecutive_bin-Answer bits q pos lt in
    elim answer [
      | inr none_left ↦
          let zero_answer : (a == 0) ≡ true = ground (arith, none_left.0) in
          (0, bits, rw found (rw zero_answer), inl (refl, refl, none_left.1))
      | inl room ↦ elim (Bool-cases (a == 0)) [
        | inl e ↦ cc (room.1 0 (ground arith) (omega arith), reserved)
        | inr e ↦
            let (bits', marked, marks) = set_bin-Marked bits a q pos room.0 in
            (a, bits', rw found (rw e (rw marked)), inr (ground arith, room.0, room.1, marks))
      ]
    ]
