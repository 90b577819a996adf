-- ===== src/Base/Table.antt =====
-- Statements about the numbers below a bound, by evaluation.
use Prim.Native.Nat.{ℕ, zero, suc, ◌<◌}
use mathlib.Core.Path.{◌≡◌}
use mathlib.Core.Bool.{Bool, true, ◌&&◌}
use native.Mathlib.Omega.{arith}
use intel_ipsec_mb.Base.Tests.{◌==◌}

-- Two functions have the same values below a number.
unfoldable pub agrees : (ℕ → ℕ) → (ℕ → ℕ) → ℕ → Bool
agrees f g zero = true
agrees f g (suc n) = (f n == g n) && agrees f g n

pub agrees-below : (f g : ℕ → ℕ) (n : ℕ) → agrees f g n ≡ true → (x : ℕ) → x < n → f x ≡ g x
unfolding agrees
agrees-below f g zero e x l = absurd (omega arith)
agrees-below f g (suc n) e x l = ground (arith, agrees-below f g n (ground arith) x)
