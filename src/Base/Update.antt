-- ===== src/Base/Update.antt =====
-- Stores as functions of an address, and the sum of a measure over the addresses below a bound.
use Prim.Native.Nat.{ℕ, zero, suc, ◌+◌, ◌*◌, ◌≤◌, ◌<◌}
use mathlib.Core.Path.{◌≡◌}
use mathlib.Core.Logic.{◌≢◌}
use native.Mathlib.Omega.{arith}
use native.Mathlib.Decide.{ℕ_discrete}
use intel_ipsec_mb.Base.Tests.{◌==◌, if◌then◌else◌}

-- `f` with the value at `a` replaced.
abbrev pub update {ℓ} : {A : Type ℓ} → (ℕ → A) → ℕ → A → ℕ → A
update f a v x = if x == a then v else f x

module _ {ℓ} {A : Type ℓ} where
  pub update_self : (f : ℕ → A) (a : ℕ) (v : A) → update f a v a ≡ v
  update_self f a v = ground arith

  pub update-ne : (f : ℕ → A) (a x : ℕ) (v : A) → x ≢ a → update f a v x ≡ f x
  update-ne f a x v h = ground arith

-- The sum of `f x` over `x < n`.
pub total : ℕ → (ℕ → ℕ) → ℕ
total zero f = 0
total (suc n) f = total n f + f n

pub total-le : (n : ℕ) (f g : ℕ → ℕ) → ((x : ℕ) → g x ≤ f x) → total n g ≤ total n f
unfolding total
total-le zero f g h = omega arith
total-le (suc n) f g h = omega (arith, total-le n f g h, h n)

-- A sum falls where one summand falls and none grows.
pub total-lt :
    (n : ℕ) (f g : ℕ → ℕ) (a : ℕ)
    → ((x : ℕ) → g x ≤ f x)
    → a < n
    → g a < f a
    → total n g < total n f
unfolding total
total-lt zero f g a h l p = absurd (omega arith)
total-lt (suc n) f g a h l p = elim (ℕ_discrete a n) [
  | yes e ↦ omega (arith, total-le n f g h, subst_lt f g a n e p)
  | no ne ↦ omega (arith, total-lt n f g a h (omega arith) p, h n)
]
  where
    subst_lt : (f g : ℕ → ℕ) (a n : ℕ) → a ≡ n → g a < f a → g n < f n
    subst_lt f g a n e p = rw e at p

pub total-bound : (n b : ℕ) (f : ℕ → ℕ) → ((x : ℕ) → f x ≤ b) → total n f ≤ n * b
unfolding total
total-bound zero b f h = omega arith
total-bound (suc n) b f h = grind (arith, total-bound n b f h, h n)
