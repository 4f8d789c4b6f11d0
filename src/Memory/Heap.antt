-- ===== src/Memory/Heap.antt =====
-- The pages of core/memory/__alloc.c: `mem_init`, `__malloc`, `expand_heap` and `__free`. The array of
-- `Bin`s is a function of the index, in memory that is zero before it is used, with room for the 85
-- that the one page holds which the code has for them; `mmap` gives the address of the page of each
-- call for data. Sizes are not negative. `none` is a `Bin` that is written behind that page, which the
-- code does not check, a walk along the list that has not ended after all pages, a loop of the bitmap
-- that has not ended, or a new page without room, for which the code maps pages without end.
pub mod Pages
pub mod Malloc
pub mod Disjoint
mod Tests
use bin_tools.Base.{
  ℕ, zero, suc, ◌+◌, ◌-◌, ◌*◌, ◌/◌, ◌%◌, ◌^◌, Bool, true, false, ◌&&◌, Option, none, some, ◌>>=◌,
  u8, u32, u64, ltb, leb, ◌==◌, if◌then◌else◌, update, List, [], ◌∷◌,
}
use bin_tools.Memory.{Bits, block_in_page, unset_bin}

-- A `Bin` has 48 bytes, and all of them lie in one page.
abbrev pub bins_in_page : ℕ
bins_in_page = 0x1000 / 48

pub record Bin : Type 0 where
  pub bits : Bits
  pub next : Option ℕ
  pub page_addr : ℕ

-- `HeapMeta` with the `Bin`s, of which the one with index 0 is the head; `maps` counts the pages.
pub record Heap : Type 0 where
  pub bins : ℕ → Bin
  pub bin_tail : ℕ
  pub maps : ℕ
  pub memory : ℕ → ℕ

-- What `__malloc` returns: the address, and where it lies.
pub record Allocation : Type 0 where
  pub page : ℕ
  pub index : ℕ
  pub address : ℕ

-- `c->bin[0] = 1`, of 32 bits.
abbrev pub reserve_first : Bits → Bits
reserve_first bits k = if ltb k 32 then k == 0 else bits k

abbrev pub untouched : Bin
untouched = record { bits = λ (k : ℕ). false; next = none; page_addr = 0 }

-- What a search along the list finds: a page with a block and its new bits, or the last page.
pub data Search : Type 0 where
  room : ℕ → ℕ → Bits → Search
  full : ℕ → Search

-- `for (;c;c=c->next)`
unfoldable pub find_room : ℕ → (ℕ → Bin) → (c bins_size : ℕ) → Option Search
find_room zero bins c bins_size = none
find_room (suc fuel) bins c bins_size =
    block_in_page (bins c).bits bins_size >>= (λ (found : ℕ × Bits).
      if found.0 == 0
      then elim (bins c).next [ none ↦ some (full c) | some n ↦ find_room fuel bins n bins_size ]
      else some (room c found.0 found.1))

-- The block is taken, and the byte in front of it says how long it is.
unfoldable pub take_block : Heap → (c a bins_size : ℕ) → Bits → Allocation × Heap
take_block h c a bins_size bits' =
    let bin = h.bins c in
    let r = bin.page_addr + 16 * a in
    (
      record { page = c; index = a; address = r },
      record h {
        bins = update h.bins c (record bin { bits = bits' });
        memory = update h.memory (r - 1) bins_size;
      },
    )

-- The last `Bin` of the list.
unfoldable pub chain_last : ℕ → (ℕ → Bin) → ℕ → Option ℕ
chain_last zero bins c = none
chain_last (suc fuel) bins c = elim (bins c).next [
  | none ↦ some c
  | some n ↦ chain_last fuel bins n
]

module _ (mmap : ℕ → ℕ) where
  unfoldable pub mem_init : (memory : ℕ → ℕ) → Heap
  mem_init memory = record {
    bins =
        update (λ (i : ℕ). untouched) 0
          (record { bits = reserve_first (λ (k : ℕ). false); next = none; page_addr = mmap 0 });
    bin_tail = 0;
    maps = 1;
    memory = memory;
  }

  -- Pages of their own, which are not the tail of the list.
  unfoldable pub expand_heap : Heap → Option (Allocation × Heap)
  unfolding chain_last
  expand_heap h = chain_last (suc h.maps) h.bins 0 >>= (λ (pre : ℕ).
      let c = suc pre in
      let last = h.bins pre in
      if ltb c bins_in_page
      then some (
        record { page = c; index = 0; address = mmap h.maps },
        record h {
          bins =
              update (update h.bins pre (record last { next = some c })) c
                (record { bits = λ (k : ℕ). true; next = none; page_addr = mmap h.maps });
          maps = h.maps + 1;
        },
      )
      else none)

  -- A new page at index `c` becomes the tail.
  unfoldable pub new_page : Heap → ℕ → Heap
  new_page h c =
      let tail = h.bins h.bin_tail in
      record h {
        bins =
            update (update h.bins h.bin_tail (record tail { next = some c })) c (record {
              bits = reserve_first (h.bins c).bits;
              next = none;
              page_addr = mmap h.maps;
            });
        bin_tail = c;
        maps = h.maps + 1;
      }

  -- `b1` for the new page.
  unfoldable pub malloc_in_new : Heap → (c bins_size : ℕ) → Option (Allocation × Heap)
  unfolding new_page take_block
  malloc_in_new h c bins_size =
      let h' = new_page h c in
      if ltb c bins_in_page
      then block_in_page (h'.bins c).bits bins_size >>= (λ (found : ℕ × Bits).
        if found.0 == 0 then none else some (take_block h' c found.0 bins_size found.1))
      else none

  -- The loop over the pages, from the tail on, and a new page behind them.
  unfoldable pub malloc_bins : Heap → (bins_size : ℕ) → Option (Allocation × Heap)
  unfolding find_room take_block malloc_in_new
  malloc_bins h bins_size = find_room (suc h.maps) h.bins h.bin_tail bins_size >>= (λ (s : Search).
      elim s [
        | room c a bits' ↦ some (take_block h c a bins_size bits')
        | full pre ↦ malloc_in_new h (suc pre) bins_size
      ])

  unfoldable pub malloc : Heap → (size : ℕ) → Option (Allocation × Heap)
  unfolding expand_heap malloc_bins
  malloc h size =
      if leb (0x1000 - 0x10) size then expand_heap h else malloc_bins h (u8 (size / 0x10 + 1))

-- The page that an address lies in, from the head of the list on; 0 is the end of the list.
unfoldable pub find_page : ℕ → (ℕ → Bin) → (c p : ℕ) → Option (Option ℕ)
find_page zero bins c p = none
find_page (suc fuel) bins c p =
    if ltb (u64 (p + (2 ^ 64 - (bins c).page_addr))) 0x1000
    then some (some c)
    else elim (bins c).next [ none ↦ some none | some n ↦ find_page fuel bins n p ]

unfoldable pub free : Heap → (p : ℕ) → Option Heap
unfolding find_page
free h p =
    let bins_size = if p % 0x1000 == 0 then 255 else u8 (h.memory (p - 1)) in
    find_page (suc h.maps) h.bins 0 p >>= (λ (found : Option ℕ). elim found [
      | none ↦ some h
      | some c ↦
          let bin = h.bins c in
          unset_bin bin.bits (u8 (u32 (p - bin.page_addr) / 0x10)) bins_size >>= (λ (bits' : Bits).
            some (record h {
              bins = update h.bins c (record bin { bits = bits' });
              memory = λ (x : ℕ). if leb p x && ltb x (p + 0x10 * bins_size) then 0 else h.memory x;
            }))
    ])

-- The calls of `__malloc` for a list of sizes, one after the other.
unfoldable pub malloc_all : (mmap : ℕ → ℕ) → Heap → List ℕ → Option (List (Allocation × ℕ) × Heap)
malloc_all mmap h [] = some ([], h)
malloc_all mmap h (size ∷ sizes) = malloc mmap h size >>= (λ (one : Allocation × Heap).
    malloc_all mmap one.1 sizes
    >>= (λ (rest : List (Allocation × ℕ) × Heap). some ((one.0, size) ∷ rest.0, rest.1)))
