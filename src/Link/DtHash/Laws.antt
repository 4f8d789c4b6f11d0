-- ===== src/Link/DtHash/Laws.antt =====
-- The DT_HASH table against a list of the symbols that were added, in order.
use native.Mathlib.Decide.{ℕ_discrete}
use bin_tools.Base.{
  ℕ, zero, suc, ◌+◌, ◌%◌, ◌^◌, ◌≤◌, ◌<◌, List, [], ◌∷◌, ◌++◌, some, ◌==◌, if◌then◌else◌, ◌≡◌, refl,
  sym, ap, ◌∙◌, subst, ◌≢◌, inl, inr, Bool-cases, update, u32, length, length-append, same_string,
  same_string_sound, arith,
}
use bin_tools.Link.DtHash.{Words, add_dt_hash_entry, lookup_from, sysv_lookup}
use bin_tools.Link.DtHash.Seg.{
  Seg, end_of, end_of-cases, le-end_of, Seg-frame, Seg-extend, check_dt_hash_collision-Seg,
}
use bin_tools.Link.Hash.{sysv_hash}

module _ (name_of : ℕ → List ℕ) (nb : ℕ) where
  abbrev pub home : ℕ → ℕ
  home i = sysv_hash (name_of i) % nb

  abbrev pub in_bucket : ℕ → List ℕ → List ℕ
  in_bucket b [] = []
  in_bucket b (i ∷ is) = if home i == b then i ∷ in_bucket b is else in_bucket b is

  length-in_bucket-le : (b : ℕ) (is : List ℕ) → length (in_bucket b is) ≤ length is
  length-in_bucket-le b [] = omega arith
  length-in_bucket-le b (i ∷ is) = ground (arith, length-in_bucket-le b is)

  in_bucket-append_same :
      (b i : ℕ) (is : List ℕ) → home i ≡ b → in_bucket b (is ++ i ∷ []) ≡ in_bucket b is ++ i ∷ []
  in_bucket-append_same b i [] e = ground arith
  in_bucket-append_same b i (j ∷ is) e = ground (arith, in_bucket-append_same b i is)

  in_bucket-append_other :
      (b i : ℕ) (is : List ℕ) → home i ≢ b → in_bucket b (is ++ i ∷ []) ≡ in_bucket b is
  in_bucket-append_other b i [] e = ground arith
  in_bucket-append_other b i (j ∷ is) e = ground (arith, in_bucket-append_other b i is)

  -- The table `t` has `nb` buckets and holds the symbols `entries`, all below `next`.
  pub record Holds (t : Words) (next : ℕ) (entries : List ℕ) : Type 0 where
    pub nbucket : t 0 ≡ nb
    pub pos : 0 < nb
    pub counted : t 1 ≡ length entries
    pub room : length entries < next
    pub small : next ≤ 2 ^ 32
    pub chains : (b : ℕ) → b < nb → Seg home (2 + nb) t next b (2 + b) (in_bucket b entries)
    pub blank : (i : ℕ) → next ≤ i → t (2 + nb + i) ≡ 0

  module _ {t : Words} {next : ℕ} {entries : List ℕ} (h : Holds t next entries) (i : ℕ)
      (above : next ≤ i) where
    slot-lt : home i < nb
    slot-lt = omega (arith, h.pos)

    counted_table : Words
    counted_table = update t 1 (length entries + 1)

    abbrev slot_end : ℕ
    slot_end = end_of home (2 + nb) (2 + home i) (in_bucket (home i) entries)

    -- Writing the counter touches no chain.
    counted-Seg :
        (b : ℕ) → b < nb → Seg home (2 + nb) counted_table next b (2 + b) (in_bucket b entries)
    unfolding counted_table
    counted-Seg b lt =
        Seg-frame home (2 + nb) t next next b (2 + b) 1 (length entries + 1) (in_bucket b entries)
          (h.chains b lt) (omega arith) (omega arith) (λ k p q. omega arith)

    abbrev added : Words
    added = update counted_table slot_end i

    same_bucket :
        Seg home
          (2 + nb)
          added
          (suc i)
          (home i)
          (2 + home i)
          (in_bucket (home i) (entries ++ i ∷ []))
    same_bucket = rw (in_bucket-append_same (home i) i entries refl) (
        Seg-extend home (2 + nb) counted_table next (home i) (2 + home i) i
          (in_bucket (home i) entries) (counted-Seg (home i) slot-lt) (omega (arith, h.room)) above
          (omega (arith, slot-lt)) refl (unfold counted_table in ground (arith, h.blank i above)))

    end_outside :
        (b : ℕ)
        → home i ≢ b
        → b < nb
        → (slot_end ≢ 2 + b) × ((k : ℕ) → k < next → home k ≡ b → slot_end ≢ 2 + nb + k)
    end_outside b ne b-lt =
        elim (end_of-cases home (2 + nb) counted_table next (home i) (2 + home i)
          (in_bucket (home i) entries) (counted-Seg (home i) slot-lt)) [
            | inl e ↦ (λ q. ne (omega arith), λ k p q r. absurd (omega (arith, slot-lt)))
            | inr (k, e, at, lt) ↦ (
              λ q. absurd (omega arith),
              λ j p q r. let same : k ≡ j = omega arith in ne (sym at ∙ ap home same ∙ q),
            )
          ]

    other_bucket :
        (b : ℕ)
        → b < nb
        → home i ≢ b
        → Seg home (2 + nb) added (suc i) b (2 + b) (in_bucket b (entries ++ i ∷ []))
    other_bucket b lt ne = rw (in_bucket-append_other b i entries ne) (
        Seg-frame home (2 + nb) counted_table next (suc i) b (2 + b) slot_end i
          (in_bucket b entries) (counted-Seg b lt) (omega arith) (end_outside b ne lt).0
          (end_outside b ne lt).1)

    -- The write lands in front of the words that later symbols use.
    slot_end-lt : slot_end < 2 + nb + next
    slot_end-lt =
        elim (end_of-cases home (2 + nb) counted_table next (home i) (2 + home i)
          (in_bucket (home i) entries) (counted-Seg (home i) slot-lt)) [
            | inl e ↦ omega (arith, slot-lt)
            | inr c ↦ omega (arith, c.1, c.3)
          ]

    le-slot_end : 2 ≤ slot_end
    le-slot_end = omega (
      arith,
      le-end_of home (2 + nb) counted_table next (home i) (2 + home i) (in_bucket (home i) entries)
          (counted-Seg (home i) slot-lt),
    )

    added-Holds : i < 2 ^ 32 → Holds added (suc i) (entries ++ i ∷ [])
    added-Holds fits = record {
      nbucket = unfold counted_table in ground (arith, le-slot_end, h.nbucket);
      pos = h.pos;
      counted = unfold counted_table in ground (arith, le-slot_end, length-append entries (i ∷ []));
      room = omega (arith, length-append entries (i ∷ []), h.room);
      small = omega arith;
      chains = λ b lt. elim (ℕ_discrete (home i) b) [
        | yes e ↦
            subst (λ c. Seg home (2 + nb) added (suc i) c (2 + c) (in_bucket c (entries ++ i ∷ [])))
              e same_bucket
        | no ne ↦ other_bucket b lt ne
      ];
      blank = λ j le. unfold counted_table in ground (arith, slot_end-lt, h.blank j (omega arith));
    }

    -- Adding a symbol above all others of the table succeeds: the walk ends within its fuel, and
    -- the table then holds the symbol behind the others.
    pub add_dt_hash_entry-Holds :
        (name : List ℕ)
        → name ≡ name_of i
        → i < 2 ^ 32
        → (t' : Words) × (add_dt_hash_entry t name i ≡ some t')
          × Holds t' (suc i) (entries ++ i ∷ [])
    unfolding add_dt_hash_entry counted_table
    add_dt_hash_entry-Holds name named fits =
        let uncut : u32 (length entries + 1) ≡ length entries + 1 =
          omega (arith, h.room, h.small) in
        (
          added,
          rw (h.nbucket, h.counted, named, uncut)
              (check_dt_hash_collision-Seg home (2 + nb) (suc (length entries)) counted_table next
                (home i) 2 i (in_bucket (home i) entries) (counted-Seg (home i) slot-lt)
                (omega (arith, length-in_bucket-le (home i) entries))),
          added-Holds fits,
        )

  -- The first symbol of a list with a given name, and 0 if there is none.
  abbrev pub first_named : List ℕ → List ℕ → ℕ
  first_named s [] = 0
  first_named s (i ∷ is) = if same_string s (name_of i) then i else first_named s is

  first_named-in_bucket :
      (s : List ℕ) (is : List ℕ)
      → first_named s (in_bucket (sysv_hash s % nb) is) ≡ first_named s is
  first_named-in_bucket s [] = refl
  first_named-in_bucket s (i ∷ is) = elim (Bool-cases (same_string s (name_of i))) [
    | inl e ↦
        let same : home i ≡ sysv_hash s % nb =
          ap (λ n. sysv_hash n % nb) (sym (same_string_sound s (name_of i) e)) in
        ground arith
    | inr e ↦ ground (arith, first_named-in_bucket s is)
  ]

  lookup_from-Seg :
      (fuel : ℕ) (t : Words) (next b p : ℕ) (s is : List ℕ)
      → t 0 ≡ nb
      → Seg home (2 + nb) t next b p is
      → length is < fuel
      → lookup_from fuel name_of t s (t p) ≡ some (first_named s is)
  unfolding lookup_from
  lookup_from-Seg zero t next b p s is e g h = elim h [ ]
  lookup_from-Seg (suc fuel) t next b p s [] e g h = ground arith
  lookup_from-Seg (suc fuel) t next b p s (i ∷ is) e g h =
      ground (arith, lookup_from-Seg fuel t next b (2 + nb + i) s is e g.5)

  -- `sysv_lookup` always ends, and returns the symbol of that name that was added first, or 0
  -- when no symbol of the table has the name.
  pub sysv_lookup-first_named :
      {t : Words} {next : ℕ} {entries : List ℕ} (h : Holds t next entries) (s : List ℕ)
      → sysv_lookup name_of t s (sysv_hash s) ≡ some (first_named s entries)
  unfolding sysv_lookup
  sysv_lookup-first_named {t} {next} {entries} h s =
      let b = sysv_hash s % nb in
      let lt : b < nb = omega (arith, h.pos) in
      rw (h.nbucket) (
        lookup_from-Seg (suc (t 1)) t next b (2 + b) s (in_bucket b entries) h.nbucket
          (h.chains b lt) (omega (arith, h.counted, length-in_bucket-le b entries))
        ∙ ap some (first_named-in_bucket s entries))
