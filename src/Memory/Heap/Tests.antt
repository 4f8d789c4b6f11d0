-- ===== src/Memory/Heap/Tests.antt =====
-- A few requests to core/memory/__alloc.c, of which the last ones need more pages.
use bin_tools.Base.{
  ℕ, ◌+◌, ◌*◌, ◌≤◌, ◌<◌, List, [], ◌∷◌, map, some, ◌≡◌, ◌≢◌, arith, ◌⊎◌, inl, inr, Bool-cases, ltb,
  ltb→lt,
}
use bin_tools.Memory.Heap.{Heap, Allocation, mem_init, malloc_all}
use bin_tools.Memory.Heap.Disjoint.{AllApart, AreSmall, malloc_all-AllApart}

abbrev pages : ℕ → ℕ
pages n = 0x10000 + 0x1000 * n

pages-apart : (p q : ℕ) → p ≢ q → (pages p + 0x1000 ≤ pages q) ⊎ (pages q + 0x1000 ≤ pages p)
pages-apart p q n = elim (Bool-cases (ltb p q)) [
  | inl e ↦ let l = ltb→lt p q e in inl (omega arith)
  | inr e ↦ let l : q < p = ground arith in inr (omega arith)
]

abbrev requests : List ℕ
requests = 0x20 ∷ 0xfef ∷ 15 ∷ 0 ∷ 0xf00 ∷ []

malloc_all-AllApart_example :
    (bs : List (Allocation × ℕ)) × (h : Heap) × (malloc_all pages
        (mem_init pages (λ (x : ℕ). 0))
        requests
      ≡ some (bs, h))
    × (map (λ (b : Allocation × ℕ). b.1) bs ≡ requests)
    × AllApart bs
unfolding AreSmall
malloc_all-AllApart_example =
    malloc_all-AllApart pages pages-apart (λ (x : ℕ). 0) requests
      (omega arith, (omega arith, (omega arith, (omega arith, (omega arith, tt))))) (omega arith)
