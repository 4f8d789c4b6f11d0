-- ===== src/Std/HashTable.antt =====
-- The hash table of core/std/hash_table.c. A bucket is the list of its chain; the hash function is
-- a field of the table, as in `hash_table`, and takes the key, the direction and the number of
-- bytes to read, `(0, 0)` for a null pointer. The values are strings.
pub mod Laws
pub mod Escape
mod Tests
use bin_tools.Base.{
  ℕ, zero, suc, ◌+◌, ◌-◌, ◌%◌, ◌^◌, Bool, true, false, not, ◌&&◌, ◌||◌, List, [], ◌∷◌, ◌++◌, Option,
  none, some, u32, u8, u64, bit_and, ltb, ◌==◌, if◌then◌else◌, update,
}
use bin_tools.Std.Text.{strcmp, strlen, strncmp}

-- A value is a string, or the address of a chain node, which `COL_OVERRIDE` stores.
pub data Value : Type 0 where
  text : List ℕ → Value
  node : List ℕ → List ℕ → Value

pub record Chain : Type 0 where
  pub key : List ℕ
  pub value : Value

pub record HashTable : Type 0 where
  pub nbucket : ℕ
  pub bucket : ℕ → List Chain
  pub hash_f : List ℕ → Bool → ℕ → ℕ

pub data Mode : Type 0 where
  col_nostrcmp : Mode
  col_override : Mode
  col_add : Mode
  col_raise_error : Mode

-- The bytes that `with_escape_hash` meets, in the order of reading; `num` is 0 for no limit.
pub escape_rounds : ℕ → List ℕ → ℕ → ℕ
escape_rounds h [] num = h
escape_rounds h (c ∷ s) num =
    let h1 = if c == b'%' then h else u64 (h + c) in
    let rest = escape_rounds h1 s (num - 1) in if num == 1 then h1 else rest

pub reversed : List ℕ → List ℕ → List ℕ
reversed [] acc = acc
reversed (c ∷ s) acc = reversed s (c ∷ acc)

-- With `rev` the key is read from its last byte; the callers read no further than its first.
unfoldable pub with_escape_hash : List ℕ → Bool → ℕ → ℕ
unfolding escape_rounds reversed
with_escape_hash s rev num =
    u32 (bit_and (escape_rounds 0 (if rev then reversed s [] else s) num) 0xfff_ffff)

pub slot : HashTable → List ℕ → ℕ
slot t key = t.hash_f key false 0 % t.nbucket

-- `!r || r == 0x25`
pub is_hit : List ℕ → Chain → Bool
is_hit key c = strcmp c.key key == 0 || strcmp c.key key == 0x25

pub find_in : List Chain → List ℕ → Option Value
find_in [] key = none
find_in (c ∷ cs) key = let rest = find_in cs key in if is_hit key c then some c.value else rest

unfoldable pub hash_find : HashTable → List ℕ → Option Value
hash_find t key = find_in (t.bucket (slot t key)) key

-- The walk of `hash_set` along a chain; `col_add` builds a string that nothing keeps.
pub set_in : List Chain → (key value : List ℕ) → Mode → List Chain
set_in [] key value mode = record { key = key; value = text value } ∷ []
set_in (c ∷ cs) key value mode =
    let next = c ∷ set_in cs key value mode in
    if strcmp c.key key == 0
    then elim mode [
      | col_override ↦ record { key = c.key; value = node key value } ∷ cs
      | col_add ↦ c ∷ cs
      | _ ↦ next
    ]
    else next

unfoldable pub hash_set : HashTable → (key value : List ℕ) → Mode → HashTable
hash_set t key value mode = record {
  nbucket = t.nbucket;
  bucket = update t.bucket (slot t key) (set_in (t.bucket (slot t key)) key value mode);
  hash_f = t.hash_f;
}

-- The walk of `hash_partial_find` along a chain.
pub partial_in : List Chain → List ℕ → ℕ → Option Value
partial_in [] key begin = none
partial_in (c ∷ cs) key begin =
    let rest = partial_in cs key begin in
    if strncmp c.key key begin == 0 then some c.value else rest

-- The sum of the hashes of both ends of the key; their lengths have 8 bits.
unfoldable pub ends_hash : HashTable → List ℕ → (begin end : ℕ) → ℕ
ends_hash t key begin' end' =
    let begin = u8 begin' in
    let end = u8 end' in
    let ss = if not (begin == 0) && ltb begin (strlen key) then t.hash_f key false begin else 0 in
    if not (end == 0) && ltb end (strlen key) then u32 (ss + t.hash_f key true end) else ss

unfoldable pub hash_partial_find : HashTable → List ℕ → (begin end : ℕ) → Option Value
hash_partial_find t key begin end =
    partial_in (t.bucket (ends_hash t key begin end % t.nbucket)) key (u8 begin)
