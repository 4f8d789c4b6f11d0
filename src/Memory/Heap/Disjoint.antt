-- ===== src/Memory/Heap/Disjoint.antt =====
-- Blocks that `__malloc` of core/memory/__alloc.c gives one after the other.
use bin_tools.Base.{
  ℕ, ◌+◌, ◌-◌, ◌*◌, ◌/◌, ◌≤◌, ◌<◌, true, false, some, List, [], ◌∷◌, length, ◌≡◌, ◌≢◌, refl, sym,
  ◌∙◌, ap, arith, map, ◌⊎◌, inl, inr, Bool-cases, ==_iff, ◌==◌, ltb, ltb→lt,
}
use bin_tools.Memory.Heap.{Heap, Allocation, bins_in_page, mem_init, malloc_all}
use bin_tools.Memory.Heap.Pages.{IsHeap, Taken, mem_init-IsHeap, bin_tail-mem_init}
use bin_tools.Memory.Heap.Malloc.{malloc-Taken}

-- Neither allocation reaches into the other one, with the byte in front of each.
abbrev pub AreApart : Allocation × ℕ → Allocation × ℕ → Type 0
AreApart (b, s) (b', s') = (b.address + s ≤ b'.address - 1) ⊎ (b'.address + s' ≤ b.address - 1)

unfoldable pub ApartFromAll : Allocation × ℕ → List (Allocation × ℕ) → Type 0
ApartFromAll b [] = Unit
ApartFromAll b (c ∷ cs) = AreApart b c × ApartFromAll b cs

-- All allocations of the list.
unfoldable pub AllApart : List (Allocation × ℕ) → Type 0
AllApart [] = Unit
AllApart (b ∷ bs) = ApartFromAll b bs × AllApart bs

unfoldable pub AreSmall : List ℕ → Type 0
AreSmall [] = Unit
AreSmall (s ∷ ss) = (s < 0xff0) × AreSmall ss

-- Two runs of blocks lie one behind the other, or have a block in common.
overlap :
    (a q a' q' : ℕ)
    → 0 < q
    → 0 < q'
    → (a + q ≤ a') ⊎ (a' + q' ≤ a) ⊎ ((k : ℕ) × (a ≤ k) × (k < a + q) × (a' ≤ k) × (k < a' + q'))
overlap a q a' q' z z' = elim (Bool-cases (ltb a a')) [
  | inl e ↦
      let l : a < a' = ltb→lt a a' e in
      elim (Bool-cases (ltb a' (a + q))) [
        | inl f ↦ inr (inr (a', omega arith, ltb→lt a' (a + q) f, omega arith, omega arith))
        | inr f ↦ inl (ground arith)
      ]
  | inr e ↦
      let l : a' ≤ a = ground arith in
      elim (Bool-cases (ltb a (a' + q'))) [
        | inl f ↦ inr (inr (a, omega arith, omega arith, l, ltb→lt a (a' + q') f))
        | inr f ↦ inr (inl (ground arith))
      ]
]

module _ (mmap : ℕ → ℕ)
    (pages-apart : (p q : ℕ)
      → p ≢ q
      → (mmap p + 0x1000 ≤ mmap q) ⊎ (mmap q + 0x1000 ≤ mmap p)) where
  -- An allocation that lies in blocks which were clear before.
  record FreeIn (h : Heap) (b : Allocation) (s : ℕ) : Type 0 where
    clear : (k : ℕ) → b.index ≤ k → k < b.index + (s / 16 + 1) → (h.bins b.page).bits k ≡ false
    behind_first : 0 < b.index
    inside : b.index + (s / 16 + 1) ≤ 256
    address : b.address ≡ mmap b.page + 16 * b.index

  unfoldable AllFreeIn : Heap → List (Allocation × ℕ) → Type 0
  AllFreeIn h [] = Unit
  AllFreeIn h ((b, s) ∷ bs) = FreeIn h b s × AllFreeIn h bs

  FreeIn-before :
      (h h' : Heap) (b : Allocation) (s : ℕ)
      → ((p k : ℕ) → (h.bins p).bits k ≡ true → (h'.bins p).bits k ≡ true)
      → FreeIn h' b s
      → FreeIn h b s
  FreeIn-before h h' b s kept f = record {
    clear = λ k l r. elim (Bool-cases ((h.bins b.page).bits k)) [
      | inl t ↦ cc (kept b.page k t, f.clear k l r)
      | inr t ↦ t
    ];
    behind_first = f.behind_first;
    inside = f.inside;
    address = f.address;
  }

  AllFreeIn-before :
      (h h' : Heap) (bs : List (Allocation × ℕ))
      → ((p k : ℕ) → (h.bins p).bits k ≡ true → (h'.bins p).bits k ≡ true)
      → AllFreeIn h' bs
      → AllFreeIn h bs
  unfolding AllFreeIn
  AllFreeIn-before h h' [] kept f = tt
  AllFreeIn-before h h' ((b, s) ∷ bs) kept (f, fs) =
      (FreeIn-before h h' b s kept f, AllFreeIn-before h h' bs kept fs)

  -- A block that is taken and one that is free.
  Taken-FreeIn :
      (h h' : Heap) (b c : Allocation) (s t : ℕ)
      → Taken mmap h (s / 16 + 1) b h'
      → FreeIn h' c t
      → AreApart (b, s) (c, t)
  Taken-FreeIn h h' b c s t k f = elim (Bool-cases (b.page == c.page)) [
    | inr e ↦
        let n : b.page ≢ c.page = (λ x. let y = (==_iff b.page c.page).1 x in cc) in
        let m = k.address in
        let m' = f.address in
        let r = k.inside in
        let r' = f.inside in
        let z = k.behind_first in
        let z' = f.behind_first in
        elim (pages-apart b.page c.page n) [ inl l ↦ inl (omega arith) | inr l ↦ inr (omega arith) ]
    | inl e ↦
        let x : b.page ≡ c.page = (==_iff b.page c.page).0 e in
        let y : mmap b.page ≡ mmap c.page = ap mmap x in
        let m = k.address in
        let m' = f.address in
        let z = k.behind_first in
        let z' = f.behind_first in
        elim (overlap b.index (s / 16 + 1) c.index (t / 16 + 1) (omega arith) (omega arith)) [
          | inl l ↦ inl (omega arith)
          | inr (inl l) ↦ inr (omega arith)
          | inr (inr (j, l, r, l', r')) ↦
              let u : (h'.bins c.page).bits j ≡ true =
                ap (λ (p : ℕ). (h'.bins p).bits j) (sym x) ∙ k.taken j l r in
              cc (u, f.clear j l' r')
        ]
  ]

  Taken-AllFreeIn :
      (h h' : Heap) (b : Allocation) (s : ℕ) (cs : List (Allocation × ℕ))
      → Taken mmap h (s / 16 + 1) b h'
      → AllFreeIn h' cs
      → ApartFromAll (b, s) cs
  unfolding AllFreeIn ApartFromAll
  Taken-AllFreeIn h h' b s [] k f = tt
  Taken-AllFreeIn h h' b s ((c, t) ∷ cs) k (f, fs) =
      (Taken-FreeIn h h' b c s t k f, Taken-AllFreeIn h h' b s cs k fs)

  malloc_all-FreeIn :
      (h : Heap) (sizes : List ℕ)
      → IsHeap mmap h
      → AreSmall sizes
      → h.bin_tail + length sizes < bins_in_page
      → (bs : List (Allocation × ℕ)) × (h' : Heap) × (malloc_all mmap h sizes ≡ some (bs, h'))
        × (map (λ (b : Allocation × ℕ). b.1) bs ≡ sizes)
        × AllFreeIn h bs
        × AllApart bs
  unfolding malloc_all AreSmall AllFreeIn AllApart
  malloc_all-FreeIn h [] i small below = ([], h, refl, refl, tt, tt)
  malloc_all-FreeIn h (s ∷ sizes) i (l, small) below =
      let (b, h', m, k) = malloc-Taken mmap h s i l (omega arith) in
      let (bs, h'', r, e, f, a) =
        malloc_all-FreeIn h' sizes k.heap small (omega (arith, k.grown)) in
      (
        (b, s) ∷ bs,
        h'',
        rw m (rw r refl),
        ap (λ (x : List ℕ). s ∷ x) e,
        (
          record {
            clear = k.clear;
            behind_first = k.behind_first;
            inside = k.inside;
            address = k.address;
          },
          AllFreeIn-before h h' bs k.kept f,
        ),
        (Taken-AllFreeIn h h' b s bs k f, a),
      )

  -- When the pages that the system gives do not overlap, every size is less than a page without its
  -- first block, and there are at most 84 requests, so that the page for the `Bin`s is not left: from
  -- the initialised allocator on, every request of the sequence ends with a block of its size, and no
  -- two of the blocks overlap, with the byte in front of each, over all the pages that are mapped.
  pub malloc_all-AllApart :
      (memory : ℕ → ℕ) (sizes : List ℕ)
      → AreSmall sizes
      → length sizes ≤ 84
      → (bs : List (Allocation × ℕ)) × (h : Heap) × (malloc_all mmap (mem_init mmap memory) sizes
          ≡ some (bs, h))
        × (map (λ (b : Allocation × ℕ). b.1) bs ≡ sizes)
        × AllApart bs
  malloc_all-AllApart memory sizes small few =
      let (bs, h, r, e, f, a) =
        malloc_all-FreeIn (mem_init mmap memory) sizes (mem_init-IsHeap mmap memory) small
          (omega (arith, bin_tail-mem_init mmap memory)) in
      (bs, h, r, e, a)
