-- ===== src/Base/Tried.antt =====
-- Facts about all numbers under a small bound, by trying each of them.
use Prim.Native.Nat.{ℕ, zero, suc, ◌<◌}
use mathlib.Core.Bool.{Bool, true, ◌&&◌}
use mathlib.Core.Path.{◌≡◌}
use native.Mathlib.Omega.{arith}

-- A predicate that is tried at every number under a bound.
module _ (p : ℕ → Bool) where
  unfoldable pub tried : ℕ → Bool
  tried zero = true
  tried (suc n) = tried n && p n

  pub tried_sound : {x : ℕ} (n : ℕ) → x < n → tried n ≡ true → p x ≡ true
  unfolding tried
  tried_sound zero lt h = absurd (omega arith)
  tried_sound {x = x} (suc n) lt h = ground (arith, tried_sound {x = x} n)
