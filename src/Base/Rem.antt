-- ===== src/Base/Rem.antt =====
-- Laws of products and of the remainder at variables.
use Prim.Native.Nat.{ℕ, ◌+◌, ◌*◌, ◌%◌, ◌<◌, ◌≤◌}
use mathlib.Core.Logic.{◌≢◌}
use native.Mathlib.Nat.{div-add-mod}
use native.Mathlib.Omega.{arith}

-- Two numbers less than `n` apart have different remainders by `n`.
pub mod-ne : (a d n : ℕ) → 0 < d → d < n → (a + d) % n ≢ a % n
mod-ne a d n p q e = grind (arith, div-add-mod (a + d) n, div-add-mod a n)

pub times_≤ : (a b k : ℕ) → a ≤ b → a * k ≤ b * k
times_≤ a b k h = grind (arith, h)

pub times_step : (a b k : ℕ) → a < b → a * k + k ≤ b * k
times_step a b k h = grind (arith, h)
