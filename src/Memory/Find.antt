-- ===== src/Memory/Find.antt =====
-- The search for a run of clear bits in a page.
use native.Mathlib.Decide.{dec_le}
use bin_tools.Base.{
  ℕ, zero, suc, ◌+◌, ◌-◌, ◌*◌, ◌%◌, ◌≤◌, ◌<◌, true, false, some, u8, ltb, ◌==◌, if◌then◌else◌, ◌≡◌,
  refl, ◌⊎◌, inl, inr, arith, Bool-cases, ==_iff,
}
use bin_tools.Memory.{Bits, find_loop, slowest_find_consecutive_bin}

-- The `n` blocks from `a` on are free.
abbrev pub IsClear : Bits → ℕ → ℕ → Type 0
IsClear bits a n = (x : ℕ) → a ≤ x → x < a + n → bits x ≡ false

-- Some block among the `n` from `a` on is taken.
abbrev pub IsTaken : Bits → ℕ → ℕ → Type 0
IsTaken bits a n = (x : ℕ) × (a ≤ x) × (x < a + n) × (bits x ≡ true)

-- The search before bit `k`, of which the last `c` are clear.
record IsSearched (bits : Bits) (q k c : ℕ) : Type 0 where
  short : c < q
  within : c ≤ k
  run : (x : ℕ) → k ≤ x + c → x < k → bits x ≡ false
  edge : (k ≡ c) ⊎ (bits (k - c - 1) ≡ true)
  full : (a : ℕ) → a + q ≤ k → IsTaken bits a q

-- What the search answers.
abbrev pub Answer : Bits → ℕ → ℕ → Type 0
Answer bits q r =
    ((r + q ≤ 256) × IsClear bits r q) ⊎ ((r ≡ 0) × ((a : ℕ) → a + q ≤ 256 → IsTaken bits a q))

module _ (bits : Bits) (q : ℕ) where
  IsSearched-clear :
      (k c : ℕ)
      → IsSearched bits q k c
      → bits k ≡ false
      → c + 1 < q
      → IsSearched bits q (k + 1) (c + 1)
  IsSearched-clear k c h e lt = record {
    short = lt;
    within = omega (arith, h.within);
    run = λ x p below. ground (arith, h.run x);
    edge = ground arith;
    full = λ a le. elim (dec_le (a + q) k) [
      | yes old ↦ h.full a old
      | no new ↦ elim h.edge [
        | inl all ↦ absurd (omega arith)
        | inr wall ↦ (k - c - 1, omega arith, omega arith, wall)
      ]
    ];
  }

  IsSearched-taken : (k c : ℕ) → IsSearched bits q k c → bits k ≡ true → IsSearched bits q (k + 1) 0
  IsSearched-taken k c h e = record {
    short = omega (arith, h.short);
    within = omega arith;
    run = λ x p lt. absurd (omega arith);
    edge = inr (let same : k + 1 - 0 - 1 ≡ k = omega arith in rw same e);
    full = λ a le. elim (dec_le (a + q) k) [
      | yes old ↦ h.full a old
      | no new ↦ (k, omega arith, omega arith, e)
    ];
  }

  find_loop-Answer :
      (fuel i j c : ℕ)
      → i < 8
      → j ≤ 32
      → (j ≡ 32 → i ≡ 0)
      → q < 256
      → 256 < fuel + 8 * j + i
      → IsSearched bits q (8 * j + i) c
      → (v : ℕ) → ((v ≡ i) ⊎ ((v ≡ 8) × (i ≡ 0)))
      → (r : ℕ) × (find_loop fuel bits j v i j c q ≡ some r) × Answer bits q r
  unfolding find_loop
  find_loop-Answer zero i j c hi hj last hq enough h v mask = absurd (omega arith)
  find_loop-Answer (suc fuel) i j c hi hj last hq enough h v mask =
      let k = 8 * j + i in
      let bit : (if v == 8 then 0 else v) ≡ i = ground arith in
      let low : i % 8 ≡ i = omega arith in
      let go : j < 32
          → (c' : ℕ) → IsSearched bits q (k + 1) c'
          → (r : ℕ) × (find_loop fuel bits (if i == 7 then j + 1 else j) (i + 1)
                (if i == 7 then 0 else u8 (i + 1)) (if i == 7 then u8 (j + 1) else j) c' q
              ≡ some r)
            × Answer bits q r =
        λ below c' g. elim (Bool-cases (i == 7)) [
          | inl e ↦
              let seven : i ≡ 7 = (==_iff i 7).0 e in
              let at : k + 1 ≡ 8 * (j + 1) + 0 = omega arith in
              let byte : u8 (j + 1) ≡ j + 1 = omega arith in
              rw (e, byte)
                (find_loop-Answer fuel 0 (j + 1) c' (omega arith) (omega arith) (λ _. refl) hq
                  (omega arith) (rw at at g) (i + 1) (inr (omega arith, refl)))
          | inr e ↦
              let at : k + 1 ≡ 8 * j + (i + 1) = omega arith in
              let byte : u8 (i + 1) ≡ i + 1 = omega arith in
              rw (e, byte)
                (find_loop-Answer fuel (i + 1) j c' (ground arith) hj (λ f. absurd (omega arith)) hq
                  (omega arith) (rw at at g) (i + 1) (inl refl))
        ] in
      elim (Bool-cases (ltb j 32)) [
        | inr out ↦ (0, rw out, inr (refl, λ a le. h.full a (ground arith)))
        | inl more ↦ elim (Bool-cases (bits k)) [
          | inl taken ↦
              rw (more, bit, taken, low) (go (ground arith) 0 (IsSearched-taken k c h taken))
          | inr free ↦ elim (Bool-cases (c + 1 == q)) [
            | inl found ↦
                (k + 1 - q, ground arith, inl (ground arith, λ x p lt. ground (arith, h.run x)))
            | inr short ↦
                let byte : u8 (c + 1) ≡ c + 1 = omega arith in
                rw (more, bit, free, low, byte, short)
                  (go (ground arith) (c + 1) (IsSearched-clear k c h free (ground arith)))
          ]
        ]
      ]

-- For a size from 1 to 255 the search always ends. Its answer is the start of that many free blocks
-- inside the page; or it is 0, and then every run of that many blocks of the page has a taken one.
pub slowest_find_consecutive_bin-Answer :
    (bits : Bits) (q : ℕ)
    → 0 < q
    → q < 256
    → (r : ℕ) × (slowest_find_consecutive_bin bits q ≡ some r) × Answer bits q r
unfolding slowest_find_consecutive_bin
slowest_find_consecutive_bin-Answer bits q pos lt =
    find_loop-Answer bits q 257 0 0 0 (omega arith) (omega arith) (λ _. refl) lt (omega arith) start
      0 (inl refl)
  where
    start : IsSearched bits q (8 * 0 + 0) 0
    start = record {
      short = pos;
      within = omega arith;
      run = λ x p below. absurd (omega arith);
      edge = inl (omega arith);
      full = λ a le. absurd (omega arith);
    }
