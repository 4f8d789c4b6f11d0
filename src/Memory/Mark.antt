-- ===== src/Memory/Mark.antt =====
-- What `set_bin` and `unset_bin` do to the bits of a page.
use bin_tools.Base.{
  ℕ, zero, suc, ◌+◌, ◌-◌, ◌*◌, ◌/◌, ◌%◌, ◌≤◌, ◌<◌, Bool, true, false, some, u8, ltb, leb, ◌==◌,
  ◌&&◌, if◌then◌else◌, update, max, ◌≡◌, refl, inl, inr, arith, ◌∙◌, Bool-cases,
}
use bin_tools.Memory.{Bits, set_loop, set_bin, unset_loop, unset_bin}

-- The bits of `before`, with the blocks from `lo` to `hi` given the value `b`.
abbrev pub Marked : Bits → Bool → ℕ → ℕ → Bits → Type 0
Marked before b lo hi after = (x : ℕ) → after x ≡ (if leb lo x && leb x hi then b else before x)

-- Word and mask of the next bit.
word_step :
    (p v i : ℕ)
    → 64 * p + v ≡ i
    → v ≡ i % 64
    → (64 * (if i % 64 == 63 then p + 1 else p) + (if v + 1 == 64 then 0 else v + 1) ≡ i + 1)
      × ((if v + 1 == 64 then 0 else v + 1) ≡ (i + 1) % 64)
word_step p v i at low = (ground arith, ground arith)

-- The loop of `set_bin` at round `i`, in word `w` with `up` when `i` is the first bit of the next.
set_loop-Marked :
    (fuel : ℕ) (bits : Bits) (p v i : ℕ) (up : Bool) (s e : ℕ)
    → s ≤ e
    → e < 256
    → i ≤ e + 1
    → e + 1 < fuel + i
    → 64 * (if up then p + 1 else p) + (if v == 64 then 0 else v) ≡ i
    → (if v == 64 then 0 else v) ≡ i % 64
    → (bits' : Bits) × (set_loop fuel bits p v i up s e ≡ some bits')
      × ((x : ℕ) → bits' x ≡ (if leb s x && (leb i x && leb x e) then true else bits x))
unfolding set_loop
set_loop-Marked zero bits p v i up s e hs he hi enough at low = absurd (omega arith)
set_loop-Marked (suc fuel) bits p v i up s e hs he hi enough at low =
    let p1 = if up then p + 1 else p in
    let v1 = if v == 64 then 0 else v in
    elim (Bool-cases (leb i e)) [
      | inr out ↦ (bits, rw out, ground arith)
      | inl more ↦ elim (Bool-cases (ltb i s)) [
        | inl early ↦
            let byte : u8 (i + 1) ≡ i + 1 = ground arith in
            let (bits', run, marks) =
              set_loop-Marked fuel bits p1 (v1 + 1) (i + 1) (i % 64 == 63) s e hs he (ground arith)
                (omega arith) (word_step p1 v1 i at low).0 (word_step p1 v1 i at low).1 in
            let step : set_loop (suc fuel) bits p v i up s e
                ≡ set_loop fuel bits p1 (v1 + 1) (i + 1) (i % 64 == 63) s e =
              rw (more, early, byte) in
            (bits', step ∙ run, λ x. ground (arith, marks x))
        | inr late ↦ elim (Bool-cases (i == 255)) [
          | inl last ↦
              (update bits (64 * p1 + v1) true, rw (more, late, last), λ x. rw at (ground arith))
          | inr next ↦
              let byte : u8 (i + 1) ≡ i + 1 = ground arith in
              let (bits', run, marks) =
                set_loop-Marked fuel (update bits (64 * p1 + v1) true) p1 (v1 + 1) (i + 1)
                  (i % 64 == 63) s e hs he (ground arith) (omega arith) (word_step p1 v1 i at low).0
                  (word_step p1 v1 i at low).1 in
              let step : set_loop (suc fuel) bits p v i up s e
                  ≡ set_loop fuel (update bits (64 * p1 + v1) true) p1 (v1 + 1) (i + 1)
                      (i % 64 == 63) s e =
                rw (more, late, next, byte) in
              (bits', step ∙ run, λ x. marks x ∙ rw at (ground arith))
        ]
      ]
    ]

-- Marking `q` blocks from `s` on, inside the page, ends, takes exactly these blocks and leaves all
-- other bits alone.
pub set_bin-Marked :
    (bits : Bits) (s q : ℕ)
    → 0 < q
    → s + q ≤ 256
    → (bits' : Bits) × (set_bin bits s q ≡ some bits') × Marked bits true s (s + q - 1) bits'
unfolding set_bin
set_bin-Marked bits s q pos fits =
    let last : u8 (s + q + 255) ≡ s + q - 1 = omega arith in
    let (bits', run, marks) =
      set_loop-Marked 257 bits 0 0 0 false s (s + q - 1) (omega arith) (omega arith) (omega arith)
        (omega arith) refl refl in
    let start : set_bin bits s q ≡ set_loop 257 bits 0 0 0 false s (s + q - 1) = rw last in
    (bits', start ∙ run, λ x. ground (arith, marks x))

unset_loop-stop :
    (fuel : ℕ) (bits : Bits) (p v i s e : ℕ)
    → 0 < fuel
    → leb i e ≡ false
    → unset_loop fuel bits p v i s e ≡ some bits
unfolding unset_loop
unset_loop-stop zero bits p v i s e pos over = elim pos [ ]
unset_loop-stop (suc fuel) bits p v i s e pos over = rw over

-- The loop of `unset_bin` from round `i` on, as long as the rounds stay in one word: word `p` is
-- still the first one, whatever the number of the block.
unset_loop-Marked :
    (fuel : ℕ) (bits : Bits) (v i s e : ℕ)
    → e < 255
    → s / 64 ≡ e / 64
    → s ≤ e
    → i ≤ e + 1
    → e + 1 < fuel + i
    → (if v == 64 then 0 else v) ≡ i % 64
    → (bits' : Bits) × (unset_loop fuel bits 0 v i s e ≡ some bits')
      × ((x : ℕ)
          → bits' x
            ≡ (if leb (max s i % 64) x && (leb x (e % 64) && leb i e) then false else bits x))
unfolding unset_loop
unset_loop-Marked zero bits v i s e he word le hi enough low = absurd (omega arith)
unset_loop-Marked (suc fuel) bits v i s e he word le hi enough low =
    let v1 = if v == 64 then 0 else v in
    elim (Bool-cases (leb i e)) [
      | inr out ↦ (bits, rw out, λ x. ground arith)
      | inl more ↦ elim (Bool-cases (ltb i s)) [
        | inl early ↦
            let byte : u8 (i + 1) ≡ i + 1 = ground arith in
            let (bits', run, marks) =
              unset_loop-Marked fuel bits (v1 + 1) (i + 1) s e he word le (ground arith)
                (omega arith) (ground arith) in
            let step : unset_loop (suc fuel) bits 0 v i s e
                ≡ unset_loop fuel bits 0 (v1 + 1) (i + 1) s e =
              rw (more, early, byte) in
            (bits', step ∙ run, λ x. ground (arith, marks x))
        | inr late ↦
            let byte : u8 (i + 1) ≡ i + 1 = ground arith in
            let cleared = update bits (64 * 0 + v1) false in
            let at : 64 * 0 + v1 ≡ i % 64 = omega arith in
            elim (Bool-cases (i == e)) [
              | inl end ↦
                  let over : leb (i + 1) e ≡ false = ground arith in
                  let step : unset_loop (suc fuel) bits 0 v i s e
                      ≡ unset_loop fuel cleared (if i % 64 == 63 then 0 + 1 else 0) (v1 + 1) (i + 1)
                          s e =
                    rw (more, late, byte) in
                  (
                    cleared,
                    step ∙ unset_loop-stop fuel cleared _ (v1 + 1) (i + 1) s e (ground arith) over,
                    λ x. rw at (ground arith),
                  )
              | inr inside ↦
                  let same_word : (i % 64 == 63) ≡ false = ground arith in
                  let (bits', run, marks) =
                    unset_loop-Marked fuel cleared (v1 + 1) (i + 1) s e he word le (ground arith)
                      (omega arith) (ground arith) in
                  let step : unset_loop (suc fuel) bits 0 v i s e
                      ≡ unset_loop fuel cleared 0 (v1 + 1) (i + 1) s e =
                    rw (more, late, byte, same_word) in
                  (bits', step ∙ run, λ x. marks x ∙ rw at (ground arith))
            ]
      ]
    ]

-- Freeing with block number `s` and size `q`, where `s` and `s + q` share a 64-bit word, ends and
-- clears the `q + 1` bits from `s % 64` to `(s + q) % 64` of the first word, whatever word `s` is in;
-- all other bits stay.
pub unset_bin-Marked :
    (bits : Bits) (s q : ℕ)
    → s + q < 255
    → s / 64 ≡ (s + q) / 64
    → (bits' : Bits) × (unset_bin bits s q ≡ some bits')
      × Marked bits false (s % 64) ((s + q) % 64) bits'
unfolding unset_bin
unset_bin-Marked bits s q fits word =
    let last : u8 (s + q) ≡ s + q = omega arith in
    let (bits', run, marks) =
      unset_loop-Marked 257 bits 0 0 s (s + q) fits word (omega arith) (omega arith) (omega arith)
        refl in
    let start : unset_bin bits s q ≡ unset_loop 257 bits 0 0 0 s (s + q) = rw last in
    (bits', start ∙ run, λ x. ground (arith, marks x))
