-- ===== src/Std/HashTable/Tests.antt =====
-- A table with the pattern `a%.o` and the rule `main`.
use bin_tools.Base.{
  ℕ, ◌<◌, ◌∷◌, [], ◌++◌, List, true, false, none, some, ◌==◌, if◌then◌else◌, ◌≡◌, refl, arith,
}
use bin_tools.Std.HashTable.Escape.{ends_hash-pattern}
use bin_tools.Std.HashTable.Laws.{
  first_of, is_stored, hash_find-hash_set, hash_find-hash_set-stored,
}
use bin_tools.Std.HashTable.{
  text, node, HashTable, col_nostrcmp, col_override, col_add, col_raise_error, with_escape_hash,
  slot, find_in, hash_find, set_in, hash_set, ends_hash,
}
use bin_tools.Std.Text.{strcmp, strlen}

abbrev main_key : List ℕ
main_key = b'm' ∷ b'a' ∷ b'i' ∷ b'n' ∷ []

abbrev dot_o : List ℕ
dot_o = b'.' ∷ b'o' ∷ []

abbrev gcc : List ℕ
gcc = b'g' ∷ b'c' ∷ b'c' ∷ []

abbrev empty_table : HashTable
empty_table = record { nbucket = 100; bucket = λ i. []; hash_f = with_escape_hash }

abbrev one_rule : HashTable
one_rule = hash_set empty_table main_key gcc col_raise_error

empty_table-finds : (k : List ℕ) → hash_find empty_table k ≡ none
unfolding hash_find find_in
empty_table-finds k = refl

one_rule-is_stored : is_stored (one_rule.bucket (slot one_rule main_key)) main_key ≡ true
unfolding hash_set set_in slot is_stored with_escape_hash strcmp
one_rule-is_stored = refl

hash_find-hash_set_example : hash_find (hash_set one_rule dot_o gcc col_nostrcmp) main_key ≡ (
    if slot one_rule dot_o == slot one_rule main_key
    then first_of
        (hash_find one_rule main_key)
        (find_in (record { key = dot_o; value = text gcc } ∷ []) main_key)
    else hash_find one_rule main_key)
hash_find-hash_set_example = hash_find-hash_set one_rule dot_o gcc main_key col_nostrcmp refl

hash_find-hash_set-stored_example :
    (hash_find (hash_set one_rule main_key dot_o col_override) main_key
      ≡ some (node main_key dot_o))
    × ((k : List ℕ) → hash_find (hash_set one_rule main_key dot_o col_add) k ≡ hash_find one_rule k)
hash_find-hash_set-stored_example =
    hash_find-hash_set-stored one_rule main_key dot_o one_rule-is_stored

main_key-long : 0 < strlen main_key × strlen main_key < 255
unfolding strlen
main_key-long = (omega arith, omega arith)

dot_o-long : 0 < strlen dot_o × strlen dot_o < 255
unfolding strlen
dot_o-long = (omega arith, omega arith)

ends_hash-pattern_example :
    ends_hash empty_table (main_key ++ gcc ++ dot_o) (strlen main_key) (strlen dot_o)
    ≡ empty_table.hash_f (main_key ++ b'%' ∷ dot_o) false 0
ends_hash-pattern_example =
    ends_hash-pattern empty_table main_key gcc dot_o refl main_key-long.0 dot_o-long.0
      main_key-long.1 dot_o-long.1 (omega arith)
