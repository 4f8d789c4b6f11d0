-- ===== src/Link/Files.antt =====
-- A file to write on: what is written behind the place of the last seek.
use bin_tools.Base.{ℕ, ◌+◌, List, [], ◌++◌, length, length-append, ◌≡◌, arith}

abbrev pub Written : Type 0
Written = ℕ × List ℕ

abbrev pub place : Written → ℕ
place f = f.0 + length f.1

abbrev pub add : Written → List ℕ → Written
add f bs = (f.0, f.1 ++ bs)

abbrev pub place_at : Written → ℕ → Written
place_at f p = (p, [])

pub place-add : (f : Written) (bs : List ℕ) → place (add f bs) ≡ place f + length bs
place-add f bs = omega (arith, length-append f.1 bs)

pub seek-place_at : (f : Written) (p : ℕ) → place (place_at f p) ≡ p
seek-place_at f p = omega arith
