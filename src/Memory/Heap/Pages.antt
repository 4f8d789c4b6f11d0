-- ===== src/Memory/Heap/Pages.antt =====
-- The pages of core/memory/__alloc.c: what holds of them, for a block that is taken and a new page.
use bin_tools.Base.{
  ℕ, suc, ◌+◌, ◌-◌, ◌*◌, ◌≤◌, ◌<◌, Bool, true, false, none, some, ◌==◌, if◌then◌else◌, update, ◌≡◌,
  ◌≢◌, refl, ◌∙◌, ap, arith, inl, inr, Bool-cases, ==_iff, ne→==, leb, ltb, ◌&&◌,
}
use bin_tools.Memory.{Bits}
use bin_tools.Memory.Find.{IsClear}
use bin_tools.Memory.Mark.{Marked}
use bin_tools.Memory.Heap.{
  Bin, Heap, Allocation, reserve_first, untouched, take_block, mem_init, new_page,
}

-- What holds of an updated entry.
update_elim {ℓ} :
    {A : Type ℓ} (P : A → Type 0) (f : ℕ → A) (c : ℕ) (v : A) (p : ℕ)
    → (c ≡ p → P v)
    → (c ≢ p → P (f p))
    → P (update f c v p)
update_elim P f c v p h g = elim (Bool-cases (c == p)) [
  | inl e ↦ rw e (h ((==_iff c p).0 e))
  | inr e ↦ rw e (g (λ k. let t = (==_iff c p).1 k in cc))
]

Marked-kept :
    (bits bits' : Bits) (a b k : ℕ) → Marked bits true a b bits' → bits k ≡ true → bits' k ≡ true
Marked-kept bits bits' a b k m h =
    m k ∙ ap (λ (x : Bool). if leb a k && leb k b then true else x) h ∙ ground arith

Marked-taken :
    (bits bits' : Bits) (a q k : ℕ)
    → Marked bits true a (a + q - 1) bits'
    → a ≤ k
    → k < a + q
    → bits' k ≡ true
Marked-taken bits bits' a q k m l r =
    let t : (leb a k && leb k (a + q - 1)) ≡ true = ground arith in
    m k ∙ ap (λ (x : Bool). if x then true else bits k) t

reserve_first-clear : (bits : Bits) (k : ℕ) → 0 < k → bits k ≡ false → reserve_first bits k ≡ false
reserve_first-clear bits k pos f = elim (Bool-cases (ltb k 32)) [
  | inl e ↦ rw e (ne→== k 0 (omega arith))
  | inr e ↦ rw e f
]

module _ (mmap : ℕ → ℕ) where
  -- The tail is the last page of the list, every page up to it has its first block reserved, and the
  -- memory behind it has not been used.
  pub record IsHeap (h : Heap) : Type 0 where
    pub last : (h.bins h.bin_tail).next ≡ none
    pub reserved : (p : ℕ) → p ≤ h.bin_tail → (h.bins p).bits 0 ≡ true
    pub unused : (p : ℕ) → h.bin_tail < p → (k : ℕ) → (h.bins p).bits k ≡ false
    pub placed : (p : ℕ) → p ≤ h.bin_tail → (h.bins p).page_addr ≡ mmap p
    pub counted : h.maps ≡ suc h.bin_tail

  -- A call for `q` blocks: they were clear and are taken, and nothing that was taken is clear.
  pub record Taken (h : Heap) (q : ℕ) (b : Allocation) (h' : Heap) : Type 0 where
    pub heap : IsHeap h'
    pub kept : (p k : ℕ) → (h.bins p).bits k ≡ true → (h'.bins p).bits k ≡ true
    pub clear : IsClear (h.bins b.page).bits b.index q
    pub taken : (k : ℕ) → b.index ≤ k → k < b.index + q → (h'.bins b.page).bits k ≡ true
    pub behind_first : 0 < b.index
    pub inside : b.index + q ≤ 256
    pub address : b.address ≡ mmap b.page + 16 * b.index
    pub grown : h'.bin_tail ≤ suc h.bin_tail

  pub bin_tail-mem_init : (memory : ℕ → ℕ) → (mem_init mmap memory).bin_tail ≡ 0
  unfolding mem_init
  bin_tail-mem_init memory = refl

  pub mem_init-IsHeap : (memory : ℕ → ℕ) → IsHeap (mem_init mmap memory)
  unfolding mem_init
  mem_init-IsHeap memory = record {
    last = refl;
    reserved = λ p l.
        update_elim (λ (b : Bin). b.bits 0 ≡ true) (λ (x : ℕ). untouched) 0 _ p (λ e. refl)
          (λ n. let b : ⊥ = n (omega arith) in elim b [ ]);
    unused = λ p l k.
        update_elim (λ (b : Bin). b.bits k ≡ false) (λ (x : ℕ). untouched) 0 _ p
          (λ e. let b : ⊥ = omega arith in elim b [ ]) (λ n. refl);
    placed = λ p l.
        update_elim (λ (b : Bin). b.page_addr ≡ mmap p) (λ (x : ℕ). untouched) 0 _ p
          (λ e. ap mmap e) (λ n. let b : ⊥ = n (omega arith) in elim b [ ]);
    counted = refl;
  }

  pub bin_tail-take_block :
      (h : Heap) (c a q : ℕ) (bits' : Bits) → (take_block h c a q bits').1.bin_tail ≡ h.bin_tail
  unfolding take_block
  bin_tail-take_block h c a q bits' = refl

  -- The block is in the tail.
  pub take_block-Taken :
      (h : Heap) (a q : ℕ) (bits' : Bits)
      → IsHeap h
      → 0 < q
      → 0 < a
      → a + q ≤ 256
      → IsClear (h.bins h.bin_tail).bits a q
      → Marked (h.bins h.bin_tail).bits true a (a + q - 1) bits'
      → Taken h q (take_block h h.bin_tail a q bits').0 (take_block h h.bin_tail a q bits').1
  unfolding take_block
  take_block-Taken h a q bits' i z pos r c m = record {
    heap = record {
      last =
          update_elim (λ (b : Bin). b.next ≡ none) h.bins h.bin_tail _ h.bin_tail (λ e. i.last)
            (λ n. i.last);
      reserved = λ p l.
          update_elim (λ (b : Bin). b.bits 0 ≡ true) h.bins h.bin_tail _ p
            (λ e.
              Marked-kept (h.bins h.bin_tail).bits bits' a (a + q - 1) 0 m
                (i.reserved h.bin_tail (omega arith)))
            (λ n. i.reserved p l);
      unused = λ p l k.
          update_elim (λ (b : Bin). b.bits k ≡ false) h.bins h.bin_tail _ p
            (λ e. let b : ⊥ = omega arith in elim b [ ]) (λ n. i.unused p l k);
      placed = λ p l.
          update_elim (λ (b : Bin). b.page_addr ≡ mmap p) h.bins h.bin_tail _ p
            (λ e. i.placed h.bin_tail (omega arith) ∙ ap mmap e) (λ n. i.placed p l);
      counted = i.counted;
    };
    kept = λ p k t.
        update_elim (λ (b : Bin). b.bits k ≡ true) h.bins h.bin_tail _ p
          (λ e.
            Marked-kept (h.bins h.bin_tail).bits bits' a (a + q - 1) k m
              (ap (λ (x : ℕ). (h.bins x).bits k) e ∙ t))
          (λ n. t);
    clear = c;
    taken = λ k l u.
        update_elim (λ (b : Bin). b.bits k ≡ true) h.bins h.bin_tail _ h.bin_tail
          (λ e. Marked-taken (h.bins h.bin_tail).bits bits' a q k m l u)
          (λ n. let b : ⊥ = n refl in elim b [ ]);
    behind_first = pos;
    inside = r;
    address = ap (λ (x : ℕ). x + 16 * a) (i.placed h.bin_tail (omega arith));
    grown = omega arith;
  }

  -- A new page behind the tail, which stays as it was.
  pub new_page-IsHeap : (h : Heap) → IsHeap h → IsHeap (new_page mmap h (suc h.bin_tail))
  unfolding new_page
  new_page-IsHeap h i =
      let c = suc h.bin_tail in
      let tail = h.bins h.bin_tail in
      let linked = update h.bins h.bin_tail (record tail { next = some c }) in
      record {
        last =
            update_elim (λ (b : Bin). b.next ≡ none) linked c _ c (λ e. refl)
              (λ n. let b : ⊥ = n refl in elim b [ ]);
        reserved = λ p l.
            update_elim (λ (b : Bin). b.bits 0 ≡ true) linked c _ p (λ e. refl)
              (λ n.
                update_elim (λ (b : Bin). b.bits 0 ≡ true) h.bins h.bin_tail _ p
                  (λ e. i.reserved h.bin_tail (omega arith)) (λ m. i.reserved p (omega arith)));
        unused = λ p l k.
            update_elim (λ (b : Bin). b.bits k ≡ false) linked c _ p
              (λ e. let b : ⊥ = omega arith in elim b [ ])
              (λ n.
                update_elim (λ (b : Bin). b.bits k ≡ false) h.bins h.bin_tail _ p
                  (λ e. let b : ⊥ = omega arith in elim b [ ]) (λ m. i.unused p (omega arith) k));
        placed = λ p l.
            update_elim (λ (b : Bin). b.page_addr ≡ mmap p) linked c _ p
              (λ e. ap mmap (i.counted ∙ e))
              (λ n.
                update_elim (λ (b : Bin). b.page_addr ≡ mmap p) h.bins h.bin_tail _ p
                  (λ e. i.placed h.bin_tail (omega arith) ∙ ap mmap e)
                  (λ m. i.placed p (omega arith)));
        counted = omega arith;
      }

  pub new_page-kept :
      (h : Heap) (p k : ℕ)
      → IsHeap h
      → (h.bins p).bits k ≡ true
      → ((new_page mmap h (suc h.bin_tail)).bins p).bits k ≡ true
  unfolding new_page
  new_page-kept h p k i t =
      let c = suc h.bin_tail in
      let tail = h.bins h.bin_tail in
      let linked = update h.bins h.bin_tail (record tail { next = some c }) in
      update_elim (λ (b : Bin). b.bits k ≡ true) linked c _ p
        (λ e. let f = i.unused p (omega arith) k in cc)
        (λ n.
          update_elim (λ (b : Bin). b.bits k ≡ true) h.bins h.bin_tail _ p
            (λ e. ap (λ (x : ℕ). (h.bins x).bits k) e ∙ t) (λ m. t))

  -- Behind its first block a new page is clear.
  pub new_page-clear :
      (h : Heap) (k : ℕ)
      → IsHeap h
      → 0 < k
      → ((new_page mmap h (suc h.bin_tail)).bins (suc h.bin_tail)).bits k ≡ false
  unfolding new_page
  new_page-clear h k i pos =
      let c = suc h.bin_tail in
      let tail = h.bins h.bin_tail in
      let linked = update h.bins h.bin_tail (record tail { next = some c }) in
      let f = i.unused c (omega arith) k in
      update_elim (λ (b : Bin). b.bits k ≡ false) linked c _ c
        (λ e. reserve_first-clear (h.bins c).bits k pos f) (λ n. let b : ⊥ = n refl in elim b [ ])
