-- ===== src/Memory/Tests.antt =====
-- Pages with a few blocks, and the theorems of the allocator at them.
use bin_tools.Base.{
  ℕ, ◌+◌, ◌-◌, ◌%◌, true, false, some, leb, ◌==◌, ◌&&◌, ◌||◌, ◌≡◌, refl, arith, ◌>>=◌,
}
use bin_tools.Memory.Block.{Outcome, block_in_page-Outcome}
use bin_tools.Memory.Find.{Answer, slowest_find_consecutive_bin-Answer}
use bin_tools.Memory.Mark.{Marked, set_bin-Marked, unset_bin-Marked}
use bin_tools.Memory.{
  Bits, find_loop, slowest_find_consecutive_bin, set_loop, set_bin, unset_loop, unset_bin,
  block_in_page,
}

-- A page as `mem_init` leaves it.
abbrev new_page : Bits
new_page x = x == 0

-- Blocks 0 to 4 and 7 to 99 are taken.
abbrev used_page : Bits
used_page x = leb x 4 || (leb 7 x && leb x 99)

slowest_find_consecutive_bin-Answer_example :
    (r : ℕ) × (slowest_find_consecutive_bin used_page 3 ≡ some r) × Answer used_page 3 r
slowest_find_consecutive_bin-Answer_example =
    slowest_find_consecutive_bin-Answer used_page 3 (omega arith) (omega arith)

find_small : slowest_find_consecutive_bin used_page 2 ≡ some 5
unfolding slowest_find_consecutive_bin find_loop
find_small = refl

find_large : slowest_find_consecutive_bin used_page 3 ≡ some 100
unfolding slowest_find_consecutive_bin find_loop
find_large = refl

find_too_large : slowest_find_consecutive_bin used_page 200 ≡ some 0
unfolding slowest_find_consecutive_bin find_loop
find_too_large = refl

set_bin-Marked_example :
    (bits' : Bits) × (set_bin new_page 60 10 ≡ some bits')
    × Marked new_page true 60 (60 + 10 - 1) bits'
set_bin-Marked_example = set_bin-Marked new_page 60 10 (omega arith) (omega arith)

-- Freeing block 70 of size 1 clears bits 6 and 7.
unset_bin-Marked_example :
    (bits' : Bits) × (unset_bin used_page 70 1 ≡ some bits')
    × Marked used_page false (70 % 64) ((70 + 1) % 64) bits'
unset_bin-Marked_example = unset_bin-Marked used_page 70 1 (omega arith) refl

block_in_page-Outcome_example :
    (a : ℕ) × (bits' : Bits) × (block_in_page used_page 2 ≡ some (a, bits'))
    × Outcome used_page 2 a bits'
block_in_page-Outcome_example = block_in_page-Outcome used_page 2 refl (omega arith) (omega arith)

-- A block that is marked and freed takes its neighbour with it.
freed_neighbour :
    (do
      marked ← set_bin new_page 1 2
      both ← set_bin marked 3 2
      freed ← unset_bin both 1 2
      some (freed 3))
    ≡ some false
unfolding set_bin set_loop unset_bin unset_loop
freed_neighbour = refl
