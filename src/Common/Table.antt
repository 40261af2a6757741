-- ===== src/Common/Table.antt =====
-- Facts about all values of a small range, by evaluation.
use Prim.Native.Nat.{ℕ, zero, suc, ◌<◌}
use mathlib.Core.Path.{◌≡◌}
use mathlib.Core.Bool.{Bool, true, ◌&&◌}
use native.Mathlib.Omega.{arith}

unfoldable pub all_below : ℕ → (ℕ → Bool) → Bool
all_below zero test = true
all_below (suc bound) test = all_below bound test && test bound

pub all_below_sound :
    (bound x : ℕ) (test : ℕ → Bool) → all_below bound test ≡ true → x < bound → test x ≡ true
unfolding all_below
all_below_sound zero x test passed lt = absurd (omega arith)
all_below_sound (suc bound) x test passed lt = ground (arith, all_below_sound bound x test)
