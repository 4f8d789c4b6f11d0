-- ===== src/Memory/Heap/Malloc.antt =====
-- One call of `__malloc` in core/memory/__alloc.c for less than a page.
use bin_tools.Base.{
  ℕ, suc, ◌+◌, ◌-◌, ◌/◌, ◌<◌, true, false, some, u8, ◌==◌, ◌≡◌, refl, ◌∙◌, ap, arith, inl, inr,
  ==_iff, ne→==, leb, lt→ltb,
}
use bin_tools.Memory.Block.{block_in_page-Outcome}
use bin_tools.Memory.Heap.{
  Heap, Allocation, bins_in_page, find_room, take_block, new_page, malloc_in_new, malloc_bins,
  malloc,
}
use bin_tools.Memory.Heap.Pages.{
  IsHeap, Taken, take_block-Taken, new_page-IsHeap, new_page-kept, new_page-clear,
  bin_tail-take_block,
}

module _ (mmap : ℕ → ℕ) where
  malloc_in_new-Taken :
      (h : Heap) (q : ℕ)
      → IsHeap mmap h
      → 0 < q
      → q < 256
      → suc h.bin_tail < bins_in_page
      → (b : Allocation) × (h' : Heap) × (malloc_in_new mmap h (suc h.bin_tail) q ≡ some (b, h'))
        × Taken mmap h q b h'
  unfolding malloc_in_new new_page
  malloc_in_new-Taken h q i z l below =
      let c = suc h.bin_tail in
      let n = new_page mmap h c in
      let j = new_page-IsHeap mmap h i in
      let (a, bits', found, o) =
        block_in_page-Outcome (n.bins c).bits q (j.reserved c (omega arith)) z l in
      elim o [
        | inl (e, same, none_left) ↦
            let (x, l', r', t) = none_left 1 (omega arith) in
            let f = new_page-clear mmap h x i (omega arith) in cc (t, f)
        | inr (pos, r, clear, marks) ↦
            let nt : (a == 0) ≡ false = ne→== a 0 (omega arith) in
            let t = take_block-Taken mmap n a q bits' j z pos r clear marks in
            let room = lt→ltb c bins_in_page below in
            (
              (take_block n c a q bits').0,
              (take_block n c a q bits').1,
              rw room (rw found (rw nt refl)),
              record {
                heap = t.heap;
                kept = λ p k u. t.kept p k (new_page-kept mmap h p k i u);
                clear = λ k l r. i.unused c (omega arith) k;
                taken = t.taken;
                behind_first = t.behind_first;
                inside = t.inside;
                address = t.address;
                grown = omega (arith, bin_tail-take_block mmap n c a q bits');
              },
            )
      ]

  malloc_bins-Taken :
      (h : Heap) (q : ℕ)
      → IsHeap mmap h
      → 0 < q
      → q < 256
      → suc h.bin_tail < bins_in_page
      → (b : Allocation) × (h' : Heap) × (malloc_bins mmap h q ≡ some (b, h')) × Taken mmap h q b h'
  unfolding malloc_bins find_room
  malloc_bins-Taken h q i p l below =
      let tail = h.bins h.bin_tail in
      let (a, bits', found, o) =
        block_in_page-Outcome tail.bits q (i.reserved h.bin_tail (omega arith)) p l in
      elim o [
        | inl (e, same, none_left) ↦
            let (b, h', m, t) = malloc_in_new-Taken h q i p l below in
            let z : (a == 0) ≡ true = (==_iff a 0).1 e in (b, h', rw found (rw z (rw i.last m)), t)
        | inr (pos, r, clear, marks) ↦
            let nt : (a == 0) ≡ false = ne→== a 0 (omega arith) in
            (
              (take_block h h.bin_tail a q bits').0,
              (take_block h h.bin_tail a q bits').1,
              rw found (rw nt refl),
              take_block-Taken mmap h a q bits' i p pos r clear marks,
            )
      ]

  malloc-small :
      (h : Heap) (size : ℕ)
      → size < 0xff0
      → malloc mmap h size ≡ malloc_bins mmap h (u8 (size / 16 + 1))
  unfolding malloc
  malloc-small h size l =
      let small : leb (0x1000 - 0x10) size ≡ false = ground arith in rw small refl

  -- A request for less than a page without its first block ends in the tail, or in a new page while
  -- there is a `Bin` for it.
  pub malloc-Taken :
      (h : Heap) (size : ℕ)
      → IsHeap mmap h
      → size < 0xff0
      → suc h.bin_tail < bins_in_page
      → (b : Allocation) × (h' : Heap) × (malloc mmap h size ≡ some (b, h'))
        × Taken mmap h (size / 16 + 1) b h'
  malloc-Taken h size i l below =
      let u : u8 (size / 16 + 1) ≡ size / 16 + 1 = omega arith in
      let (b, h', m, t) = malloc_bins-Taken h (size / 16 + 1) i (omega arith) (omega arith) below in
      (b, h', malloc-small h size l ∙ ap (malloc_bins mmap h) u ∙ m, t)
