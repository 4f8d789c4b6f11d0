-- ===== src/Memory.antt =====
-- The page allocator of core/memory/__alloc.c: a page of 256 blocks of 16 bytes, and one bit for
-- each block in the 32 bytes `bin` of its `Bin`.
-- The bits are numbered as the processor stores them: bit `k` of byte `p` is number `8 * p + k`,
-- and bit `k` of the 64-bit word `p` is number `64 * p + k`. A mask `v` that starts at 1 and is
-- shifted by one bit at a time is its exponent; the width stands for the mask that is shifted out
-- to 0. `none` is a loop that has not ended after 256 rounds.
pub mod Find
pub mod Mark
pub mod Block
pub mod Heap
mod Tests
use bin_tools.Base.{
  ℕ, zero, suc, ◌+◌, ◌-◌, ◌*◌, ◌/◌, ◌%◌, Bool, true, false, not, ◌&&◌, Option, none, some, ◌>>=◌,
  u8, ltb, leb, ◌==◌, if◌then◌else◌, update,
}

abbrev pub Bits : Type 0
Bits = ℕ → Bool

-- The loop of `slowest_find_consecutive_bin` at byte `p` with its variables `v i j c`; `q` is the
-- wanted number of clear bits.
pub find_loop : ℕ → Bits → (p v i j c q : ℕ) → Option ℕ
find_loop zero bits p v i j c q = none
find_loop (suc fuel) bits p v i j c q =
    let v1 = if v == 8 then 0 else v in
    let clear = not (bits (8 * p + v1)) in
    let c1 = if clear then u8 (c + 1) else 0 in
    let wraps = i % 8 == 7 in
    let rest =
      find_loop fuel bits (if wraps then p + 1 else p) (v1 + 1) (if wraps then 0 else u8 (i + 1))
        (if wraps then u8 (j + 1) else j) c1 q in
    if ltb j 32
    then (if clear && c1 == q then some (u8 (i + 1 + j * 8 + 256 - q)) else rest)
    else some 0

unfoldable pub slowest_find_consecutive_bin : Bits → ℕ → Option ℕ
slowest_find_consecutive_bin bits q = find_loop 257 bits 0 0 0 0 0 q

-- The loop of `set_bin`; `up` asks for the next word.
pub set_loop : ℕ → Bits → (p v i : ℕ) → (up : Bool) → (s e : ℕ) → Option Bits
set_loop zero bits p v i up s e = none
set_loop (suc fuel) bits p v i up s e =
    let v1 = if v == 64 then 0 else v in
    let p1 = if up then p + 1 else p in
    let up1 = i % 64 == 63 in
    let marked = update bits (64 * p1 + v1) true in
    let skipped = set_loop fuel bits p1 (v1 + 1) (u8 (i + 1)) up1 s e in
    let rest = set_loop fuel marked p1 (v1 + 1) (u8 (i + 1)) up1 s e in
    if leb i e
    then (if ltb i s then skipped else if i == 255 then some marked else rest)
    else some bits

unfoldable pub set_bin : Bits → ℕ → ℕ → Option Bits
set_bin bits s q = set_loop 257 bits 0 0 0 false s (u8 (s + q + 255))

-- The loop of `unset_bin`; the `continue` also skips the step to the next word.
pub unset_loop : ℕ → Bits → (p v i : ℕ) → (s e : ℕ) → Option Bits
unset_loop zero bits p v i s e = none
unset_loop (suc fuel) bits p v i s e =
    let v1 = if v == 64 then 0 else v in
    let cleared = update bits (64 * p + v1) false in
    let p1 = if i % 64 == 63 then p + 1 else p in
    let skipped = unset_loop fuel bits p (v1 + 1) (u8 (i + 1)) s e in
    let rest = unset_loop fuel cleared p1 (v1 + 1) (u8 (i + 1)) s e in
    if leb i e then (if ltb i s then skipped else rest) else some bits

unfoldable pub unset_bin : Bits → ℕ → ℕ → Option Bits
unset_bin bits s q = unset_loop 257 bits 0 0 0 s (u8 (s + q))

-- The part of `__malloc` that looks for room in one page: the index of the block and the new bits,
-- or index 0 when the page has no room.
pub block_in_page : Bits → ℕ → Option (ℕ × Bits)
block_in_page bits bins_size = do
  a ← slowest_find_consecutive_bin bits bins_size
  if a == 0 then some (0, bits) else do bits' ← set_bin bits a bins_size; some (a, bits')
