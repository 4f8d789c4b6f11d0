-- ===== src/Std/HashTable/Laws.antt =====
-- What `hash_set` changes for `hash_find`.
use bin_tools.Base.{
  ℕ, Bool, true, false, List, [], ◌∷◌, ◌++◌, Option, none, some, ◌==◌, ==_refl, Bool-cases,
  if◌then◌else◌, ◌≡◌, ◌≢◌, refl, ap, inl, inr, arith, ==_iff,
}
use bin_tools.Std.HashTable.{
  Value, text, node, Chain, HashTable, Mode, col_nostrcmp, col_override, col_add, col_raise_error,
  slot, is_hit, find_in, hash_find, set_in, hash_set,
}
use bin_tools.Std.Text.Laws.{strcmp_refl}
use bin_tools.Std.Text.{strcmp}

-- The first answer of two.
abbrev pub first_of : Option Value → Option Value → Option Value
first_of none b = b
first_of (some a) b = some a

-- The modes that only ever append.
abbrev pub appends : Mode → Bool
appends col_nostrcmp = true
appends col_override = false
appends col_add = false
appends col_raise_error = true

set_in-append :
    (cs : List Chain) (key value : List ℕ) (mode : Mode)
    → appends mode ≡ true
    → set_in cs key value mode ≡ cs ++ record { key = key; value = text value } ∷ []
unfolding set_in
set_in-append [] key value mode m = refl
set_in-append (c ∷ cs) key value col_nostrcmp m =
    let go = set_in-append cs key value col_nostrcmp refl in ground (arith, go)
set_in-append (c ∷ cs) key value col_override m = cc
set_in-append (c ∷ cs) key value col_add m = cc
set_in-append (c ∷ cs) key value col_raise_error m =
    let go = set_in-append cs key value col_raise_error refl in ground (arith, go)

find_in-append :
    (cs : List Chain) (c : Chain) (key : List ℕ)
    → find_in (cs ++ c ∷ []) key ≡ first_of (find_in cs key) (find_in (c ∷ []) key)
unfolding find_in
find_in-append [] c key = refl
find_in-append (d ∷ cs) c key =
    let go = find_in-append cs c key in
    elim (Bool-cases (is_hit key d)) [ inl e ↦ rw e refl | inr e ↦ rw e go ]

slot_unchanged :
    (t : HashTable) (key value k : List ℕ) (mode : Mode)
    → slot (hash_set t key value mode) k ≡ slot t k
unfolding slot hash_set
slot_unchanged t key value k mode = refl

-- Setting a key in an appending mode: a lookup in the same bucket answers what it answered before,
-- and only where it found nothing the new entry, if the comparison accepts it; the lookups in the
-- other buckets do not change.
pub hash_find-hash_set :
    (t : HashTable) (key value k : List ℕ) (mode : Mode)
    → appends mode ≡ true
    → hash_find (hash_set t key value mode) k ≡ (
        if slot t key == slot t k
        then first_of (hash_find t k) (find_in (record { key = key; value = text value } ∷ []) k)
        else hash_find t k)
unfolding hash_find hash_set
hash_find-hash_set t key value k mode m =
    let slot-hash_set : slot (hash_set t key value mode) k ≡ slot t k =
      slot_unchanged t key value k mode in
    elim (Bool-cases (slot t key == slot t k)) [
      | inl e ↦
          let same : slot t key ≡ slot t k = (==_iff (slot t key) (slot t k)).0 e in
          let grown = set_in-append (t.bucket (slot t k)) key value mode m in
          rw (slot-hash_set, e, same, grown)
            (find_in-append (t.bucket (slot t k)) (record { key = key; value = text value }) k)
      | inr e ↦ rw (slot-hash_set, e) refl
    ]

some-none : (v : Value) → some v ≢ none
some-none v h = cc

-- A key that no lookup finds is found with its value right after it is set, in whatever mode.
set_in-absent :
    (cs : List Chain) (key value : List ℕ) (mode : Mode)
    → find_in cs key ≡ none
    → find_in (set_in cs key value mode) key ≡ some (text value)
unfolding find_in set_in is_hit
set_in-absent [] key value mode h = rw (strcmp_refl key) refl
set_in-absent (c ∷ cs) key value mode h = elim (Bool-cases (strcmp c.key key == 0)) [
  | inl e ↦ absurd (some-none c.value (rw e at h))
  | inr e ↦ elim (Bool-cases (strcmp c.key key == 0x25)) [
    | inl f ↦ absurd (some-none c.value (rw (e, f) at h))
    | inr f ↦ rw (e, e, f) (set_in-absent cs key value mode (rw (e, f) at h))
  ]
]

pub hash_find-hash_set-absent :
    (t : HashTable) (key value : List ℕ) (mode : Mode)
    → hash_find t key ≡ none
    → hash_find (hash_set t key value mode) key ≡ some (text value)
unfolding hash_find hash_set
hash_find-hash_set-absent t key value mode h =
    rw (slot_unchanged t key value key mode, ==_refl (slot t key))
      (set_in-absent (t.bucket (slot t key)) key value mode h)

-- The first entry of the chain that the comparison accepts has the very key.
unfoldable pub is_stored : List Chain → List ℕ → Bool
is_stored [] key = false
is_stored (c ∷ cs) key =
    let rest = is_stored cs key in
    if strcmp c.key key == 0 then true else if strcmp c.key key == 0x25 then false else rest

set_in-stored :
    (cs : List Chain) (key value : List ℕ)
    → is_stored cs key ≡ true
    → (find_in (set_in cs key value col_override) key ≡ some (node key value))
      × (set_in cs key value col_add ≡ cs)
unfolding find_in set_in is_hit is_stored
set_in-stored [] key value h = cc
set_in-stored (c ∷ cs) key value h = elim (Bool-cases (strcmp c.key key == 0)) [
  | inl e ↦ (rw (e, e) refl, rw e refl)
  | inr e ↦ elim (Bool-cases (strcmp c.key key == 0x25)) [
    | inl f ↦ cc (rw (e, f) at h)
    | inr f ↦
        let (over, add) = set_in-stored cs key value (rw (e, f) at h) in
        (rw (e, e, f) over, rw e (ap (λ (x : List Chain). c ∷ x) add))
  ]
]

-- Setting a stored key again: `col_override` makes its value the address of the new chain node, no
-- string, and `col_add` changes nothing, so the text that it appends is lost.
pub hash_find-hash_set-stored :
    (t : HashTable) (key value : List ℕ)
    → is_stored (t.bucket (slot t key)) key ≡ true
    → (hash_find (hash_set t key value col_override) key ≡ some (node key value))
      × ((k : List ℕ) → hash_find (hash_set t key value col_add) k ≡ hash_find t k)
unfolding hash_find hash_set
hash_find-hash_set-stored t key value h =
    let (over, add) = set_in-stored (t.bucket (slot t key)) key value h in
    (
      rw (slot_unchanged t key value key col_override, ==_refl (slot t key)) over,
      λ k. rw (slot_unchanged t key value k col_add) (elim (Bool-cases (slot t key == slot t k)) [
        | inl e ↦ rw (e, add) (rw ((==_iff (slot t key) (slot t k)).0 e) refl)
        | inr e ↦ rw e refl
      ]),
    )
