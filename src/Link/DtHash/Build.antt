-- ===== src/Link/DtHash/Build.antt =====
-- A DT_HASH table that is filled from nothing.
use mathlib.Core.List.{append-nil, append_assoc}
use bin_tools.Base.{
  ℕ, suc, ◌+◌, ◌^◌, ◌≤◌, ◌<◌, List, [], ◌∷◌, ◌++◌, Option, some, ◌>>=◌, ◌≡◌, refl, arith,
}
use bin_tools.Link.DtHash.Laws.{
  Holds, first_named, add_dt_hash_entry-Holds, sysv_lookup-first_named,
}
use bin_tools.Link.DtHash.{Words, add_dt_hash_entry, sysv_lookup}
use bin_tools.Link.Hash.{sysv_hash}

module _ (name_of : ℕ → List ℕ) (nb : ℕ) where
  -- The caller's loop: the symbols of an object are added one after the other.
  abbrev pub add_all : Words → List ℕ → Option Words
  add_all t [] = some t
  add_all t (i ∷ is) = do t' ← add_dt_hash_entry t (name_of i) i; add_all t' is

  -- Symbol numbers that go up from `next` and fit a word.
  abbrev pub Ascending : ℕ → List ℕ → Type 0
  Ascending next [] = Unit
  Ascending next (i ∷ is) = (next ≤ i) × (i < 2 ^ 32) × Ascending (suc i) is

  add_all-Holds :
      (is : List ℕ) {t : Words} {next : ℕ} {entries : List ℕ} (h : Holds name_of nb t next entries)
      → Ascending next is
      → (t' : Words) × (last : ℕ) × (add_all t is ≡ some t')
        × Holds name_of nb t' last (entries ++ is)
  add_all-Holds [] {t} {next} {entries} h up = (t, next, refl, rw append-nil h)
  add_all-Holds (i ∷ is) {t} {next} {entries} h up =
      let (t1, e, h1) = add_dt_hash_entry-Holds name_of nb h i up.0 (name_of i) refl up.1 in
      let (t2, last, e2, h2) = add_all-Holds is h1 up.2 in
      (t2, last, rw e e2, rw append_assoc at h2)

  -- A zeroed table with `nb` buckets.
  pub record IsFresh (t : Words) : Type 0 where
    pub nbucket : t 0 ≡ nb
    pub pos : 0 < nb
    pub zeroed : (i : ℕ) → 1 ≤ i → t i ≡ 0

  in_bucket-IsFresh : {t : Words} → IsFresh t → Holds name_of nb t 1 []
  in_bucket-IsFresh f = record {
    nbucket = f.nbucket;
    pos = f.pos;
    counted = f.zeroed 1 (omega arith);
    room = omega arith;
    small = omega arith;
    chains = λ b lt. f.zeroed (2 + b) (omega arith);
    blank = λ i le. f.zeroed (2 + nb + i) (omega arith);
  }

  -- Adding symbols with ascending numbers from 1 to a zeroed table always succeeds, and then every
  -- lookup ends: it gives the first added symbol of the name, or 0 when there is none.
  pub sysv_lookup-add_all :
      {t : Words} (is : List ℕ)
      → IsFresh t
      → Ascending 1 is
      → (t' : Words) × (add_all t is ≡ some t')
        × ((s : List ℕ)
            → sysv_lookup name_of t' s (sysv_hash s) ≡ some (first_named name_of nb s is))
  sysv_lookup-add_all is f up =
      let (t', last, e, h) = add_all-Holds is (in_bucket-IsFresh f) up in
      (t', e, sysv_lookup-first_named name_of nb h)
