-- ===== src/Link/Section/Index.antt =====
-- Section indices that are packed and unpacked: `get_section_index_by_name` and
-- `get_section_chain_by_index`.
use bin_tools.Base.Bits.{bit_or_split, bit_and_ones, bit_or-zero, zero-bit_or, bit_and_comm}
use bin_tools.Base.{
  ℕ, zero, suc, ◌+◌, ◌*◌, ◌^◌, ◌≤◌, ◌<◌, ◌≢◌, ◌⊎◌, inl, inr, Bool, true, false, ◌&&◌, ◌||◌, List,
  [], ◌∷◌, none, some, u8, u16, bit_and, bit_or, ◌<<<◌, ◌>>>◌, ◌==◌, ==_refl, ==_iff, ne→==,
  Bool-cases, length, get_elem?, ◌≡◌, refl, ap, ◌∙◌, arith,
}
use bin_tools.Link.Section.{
  SectionChain, SectionContainer, is_named, chain_index, packed_index, index_from,
  get_section_index_by_name, chain_from, container_from, or_else, get_section_chain_by_index,
}

-- Every section number of the lists fits 8 bits.
abbrev pub Fits : List SectionContainer → Type 0
Fits [] = Unit
Fits (s ∷ ss) = (length s.chains ≤ 256) × Fits ss

-- Some container of that name has the section `q`.
pub has_chain : ℕ → List SectionChain → Bool
has_chain q [] = false
has_chain q (c ∷ cs) = c.p == q || has_chain q cs

unfoldable pub is_listed : List ℕ → ℕ → List SectionContainer → Bool
unfolding has_chain
is_listed name q [] = false
is_listed name q (s ∷ ss) = is_named name s && has_chain q s.chains || is_listed name q ss

-- The section `c` of container `s`, at places `j` and `i`.
abbrev pub At : List SectionContainer → ℕ → ℕ → SectionContainer → SectionChain → Type 0
At ss i j s c = (get_elem? ss i ≡ some s) × (get_elem? s.chains j ≡ some c)

u8-suc : (n : ℕ) → u8 (u8 n + 1) ≡ u8 (suc n)
u8-suc n = omega arith

-- What a search from place `n` gives: nothing, or a place behind it.
abbrev Search : ℕ → ℕ → List SectionChain → Type 0
Search n q cs =
    ((chain_index (u8 n) q cs ≡ none) × (has_chain q cs ≡ false))
    ⊎ ((k : ℕ) × (c : SectionChain) × (chain_index (u8 n) q cs ≡ some (n + k))
        × (get_elem? cs k ≡ some c)
        × (c.p ≡ q)
        × (n + k < 256))

chain_index-At : (q : ℕ) (cs : List SectionChain) (n : ℕ) → n + length cs ≤ 256 → Search n q cs
unfolding chain_index has_chain
chain_index-At q [] n fits = inl (refl, refl)
chain_index-At q (c ∷ cs) n fits = elim (Bool-cases (c.p == q)) [
  | inl e ↦ inr (0, c, rw e (ap some (omega arith)), refl, (==_iff c.p q).0 e, omega arith)
  | inr e ↦ elim (chain_index-At q cs (suc n) (omega arith)) [
    | inl (h, g) ↦ inl (rw (e, u8-suc n) h, rw e g)
    | inr (k, c', h, g, p, lt) ↦
        inr (suc k, c', rw (e, u8-suc n) (h ∙ ap some (omega arith)), g, p, omega arith)
  ]
]

chain_from-here :
    (i1 : ℕ) (cs : List SectionChain) (n k : ℕ) (c : SectionChain)
    → get_elem? cs k ≡ some c
    → n + k < 256
    → chain_from i1 (u8 n) i1 (n + k) cs ≡ some c
unfolding chain_from
chain_from-here i1 [] n k c h lt = cc
chain_from-here i1 (d ∷ cs) n zero c h lt = ground (arith, h)
chain_from-here i1 (d ∷ cs) n (suc k) c h lt =
    let go = chain_from-here i1 cs (suc n) k c h (omega arith) in
    let ne : (u8 n == n + suc k) ≡ false = ground arith in
    let e : suc n + k ≡ n + suc k = omega arith in rw (==_refl i1, ne, u8-suc n) (rw e at go)

chain_from-other :
    (i i1 i2 : ℕ) (cs : List SectionChain) (j : ℕ) → i ≢ i1 → chain_from i j i1 i2 cs ≡ none
unfolding chain_from
chain_from-other i i1 i2 [] j ne = refl
chain_from-other i i1 i2 (c ∷ cs) j ne =
    rw (ne→== i i1 ne) (chain_from-other i i1 i2 cs (u8 (j + 1)) ne)

container_from-At :
    (ss : List SectionContainer) (n i j : ℕ) {s : SectionContainer} {c : SectionChain}
    → At ss i j s c
    → n + i < 256
    → j < 256
    → container_from (u8 n) (n + i) j ss ≡ some c
unfolding container_from or_else
container_from-At [] n i j at lt lj = cc
container_from-At (d ∷ ss) n zero j {c = c} at lt lj =
    let own : get_elem? d.chains j ≡ some c = cc in
    let e : n + 0 ≡ u8 n = omega arith in
    let z : 0 + j ≡ j = omega arith in
    let here = chain_from-here (u8 n) d.chains 0 j c own (omega arith) in
    rw e (rw (rw z at here) refl)
container_from-At (d ∷ ss) n (suc i) j at lt lj =
    let go = container_from-At ss (suc n) i j at (omega arith) lj in
    let e : suc n + i ≡ n + suc i = omega arith in
    rw (chain_from-other (u8 n) (n + suc i) j d.chains 0 (omega arith), u8-suc n) (rw e at go)

pack_index : (i j : ℕ) → i < 256 → j < 256 → u16 (bit_or (i <<< 8) j) ≡ i * 256 + j
pack_index i j li lj =
    let split = bit_or_split 8 i 0 0 j (omega arith) lj in
    let e : 0 * 2 ^ 8 + j ≡ j = omega arith in
    let e' : i * 2 ^ 8 + 0 ≡ i * 2 ^ 8 = omega arith in
    omega (arith, rw (e, e') at split, bit_or-zero i, zero-bit_or j)

-- The place of a section `q` in a container of that name, among the first 256 of 256.
abbrev pub Place : List SectionContainer → List ℕ → ℕ → (i j : ℕ) → SectionChain → Type 0
Place ss name q i j c =
    (s : SectionContainer) × At ss i j s c × (is_named name s ≡ true) × (c.p ≡ q) × (j < 256)

abbrev Found : List SectionContainer → ℕ → List ℕ → ℕ → Type 0
Found ss n name q =
    (i : ℕ) × (j : ℕ) × (c : SectionChain) × Place ss name q i j c
    × (n + i < 256)
    × (index_from (u8 n) name q ss ≡ (n + i) * 256 + j)

Found-later :
    (s : SectionContainer) (ss : List SectionContainer) (n : ℕ) (name : List ℕ) (q : ℕ)
    → Found ss (suc n) name q
    → index_from (u8 n) name q (s ∷ ss) ≡ index_from (u8 (suc n)) name q ss
    → Found (s ∷ ss) n name q
Found-later s ss n name q (i, j, c, at, lt, e) skip =
    (suc i, j, c, at, omega arith, skip ∙ e ∙ omega arith)

index_from-Place :
    (ss : List SectionContainer) (n : ℕ) (name : List ℕ) (q : ℕ)
    → n + length ss ≤ 256
    → Fits ss
    → is_listed name q ss ≡ true
    → Found ss n name q
unfolding index_from is_listed packed_index
index_from-Place [] n name q fits small h = cc
index_from-Place (s ∷ ss) n name q fits small h =
    let later : (is_listed name q ss ≡ true) → Found ss (suc n) name q =
      index_from-Place ss (suc n) name q (omega arith) small.1 in
    elim (Bool-cases (is_named name s)) [
      | inl e ↦ elim (chain_index-At q s.chains 0 (omega (arith, small.0))) [
        | inl (none_e, absent) ↦
            Found-later s ss n name q (later (rw (e, absent) at h)) (rw (e, none_e, u8-suc n) refl)
        | inr (k, c, found, at, p, lt) ↦
            let z : 0 + k ≡ k = omega arith in
            let m : u8 n ≡ n + 0 = omega arith in
            let packed = pack_index (n + 0) k (omega arith) (omega arith) in
            (0, k, c, (s, (refl, at), e, p, omega arith), omega arith, rw (e, found, z, m) packed)
      ]
      | inr e ↦ Found-later s ss n name q (later (rw e at h)) (rw (e, u8-suc n) refl)
    ]

unpack_index :
    (ss : List SectionContainer) (i j : ℕ) {s : SectionContainer} {c : SectionChain}
    → At ss i j s c
    → i < 256
    → j < 256
    → get_section_chain_by_index ss (i * 256 + j) ≡ some c
unfolding get_section_chain_by_index
unpack_index ss i j at li lj =
    let high : (i * 256 + j) >>> 8 ≡ 0 + i = omega arith in
    let low : bit_and 0xff (i * 256 + j) ≡ j =
      bit_and_comm 0xff (i * 256 + j) ∙ bit_and_ones 8 (i * 256 + j) ∙ omega arith in
    rw (high, low) (container_from-At ss 0 i j at (omega arith) lj)

-- With at most 256 containers of at most 256 sections each, the index of a listed section leads
-- back to it: to a section `q` of a container of that name, whose places the index holds.
pub get_section_chain_by_index-get_section_index_by_name :
    (ss : List SectionContainer) (name : List ℕ) (q : ℕ)
    → length ss ≤ 256
    → Fits ss
    → is_listed name q ss ≡ true
    → (i : ℕ) × (j : ℕ) × (c : SectionChain) × Place ss name q i j c
      × (get_section_index_by_name ss name q ≡ i * 256 + j)
      × (get_section_chain_by_index ss (get_section_index_by_name ss name q) ≡ some c)
unfolding get_section_index_by_name
get_section_chain_by_index-get_section_index_by_name ss name q fits small h =
    let (i, j, c, (s, at, own, p, lj), lt, e) =
      index_from-Place ss 0 name q (omega arith) small h in
    let z : 0 + i ≡ i = omega arith in
    let e' = rw z at e in
    (
      i,
      j,
      c,
      (s, at, own, p, lj),
      e',
      ap (get_section_chain_by_index ss) e' ∙ unpack_index ss i j at (omega arith) lj,
    )
