-- ===== src/Base/Digit.antt =====
-- The binary digits of a number, and the bit operations digit by digit.
use Prim.Native.Nat.{
  ℕ, zero, suc, ◌+◌, ◌*◌, ◌/◌, ◌%◌, ◌≤◌, ◌<◌, min, max, bit_and, bit_or, bit_xor, differ,
  bit_xor-bitwise,
}
use mathlib.Core.Path.{◌≡◌, refl}
use native.Mathlib.Omega.{arith}
use intel_ipsec_mb.Base.Bits.{lowest, and_lowest, or_lowest, no_mask}

-- The digit of weight 2 ^ i
abbrev pub digit : ℕ → ℕ → ℕ
digit zero x = x % 2
digit (suc i) x = digit i (x / 2)

pub digit-lt : (i x : ℕ) → digit i x < 2
digit-lt zero x = omega arith
digit-lt (suc i) x = digit-lt i (x / 2)

differ_lem : (a b : ℕ) → a < 2 → b < 2 → differ a b ≡ (a + b) % 2
differ_lem zero b _ h = omega arith
differ_lem (suc zero) zero _ _ = refl
differ_lem (suc zero) (suc zero) _ _ = refl
differ_lem (suc zero) (suc (suc b)) _ h = absurd (omega arith)
differ_lem (suc (suc a)) b h _ = absurd (omega arith)

pub xor_lowest : (x y : ℕ) → bit_xor x y ≡ (x + y) % 2 + 2 * bit_xor (x / 2) (y / 2)
xor_lowest zero y = simp bit_xor-bitwise (omega arith)
xor_lowest (suc x) y = omega (
  arith,
  bit_xor-bitwise (suc x) y,
  bit_xor-bitwise (suc x / 2) (y / 2),
  lowest (λ d. d) differ x y,
  differ_lem (suc x % 2) (y % 2) (omega arith) (omega arith),
)

pub half-bit_xor : (x y : ℕ) → bit_xor x y / 2 ≡ bit_xor (x / 2) (y / 2)
half-bit_xor x y = omega (arith, xor_lowest x y)

half-bit_and : (x y : ℕ) → bit_and x y / 2 ≡ bit_and (x / 2) (y / 2)
half-bit_and x y = omega (arith, and_lowest x y)

half-bit_or : (x y : ℕ) → bit_or x y / 2 ≡ bit_or (x / 2) (y / 2)
half-bit_or x y = omega (arith, or_lowest x y)

pub digit-bit_or : (i x y : ℕ) → digit i (bit_or x y) ≡ max (digit i x) (digit i y)
digit-bit_or zero x y = omega (arith, or_lowest x y)
digit-bit_or (suc i) x y = rw (half-bit_or x y) (digit-bit_or i (x / 2) (y / 2))

pub digit-bit_xor : (i x y : ℕ) → digit i (bit_xor x y) ≡ (digit i x + digit i y) % 2
digit-bit_xor zero x y = omega (arith, xor_lowest x y)
digit-bit_xor (suc i) x y = rw (half-bit_xor x y) (digit-bit_xor i (x / 2) (y / 2))

pub digit-bit_and : (i x y : ℕ) → digit i (bit_and x y) ≡ min (digit i x) (digit i y)
digit-bit_and zero x y = omega (arith, and_lowest x y)
digit-bit_and (suc i) x y = rw (half-bit_and x y) (digit-bit_and i (x / 2) (y / 2))

-- Numbers with the same digits are equal.
below : (bound x y : ℕ) → x ≤ bound → y ≤ bound → ((i : ℕ) → digit i x ≡ digit i y) → x ≡ y
below zero zero zero _ _ _ = refl
below zero (suc x) y h _ _ = absurd (omega arith)
below zero zero (suc y) _ h _ = absurd (omega arith)
below (suc bound) x y h h' e =
    omega (arith, e 0, below bound (x / 2) (y / 2) (omega arith) (omega arith) (λ i. e (suc i)))

pub digit_ext : (x y : ℕ) → ((i : ℕ) → digit i x ≡ digit i y) → x ≡ y
digit_ext x y e = below (x + y) x y (omega arith) (omega arith) e

-- The laws of exclusive or
pub xor_assoc : (x y z : ℕ) → bit_xor (bit_xor x y) z ≡ bit_xor x (bit_xor y z)
xor_assoc x y z = digit_ext _ _ (λ i. omega (
  arith,
  digit-bit_xor i (bit_xor x y) z,
  digit-bit_xor i x y,
  digit-bit_xor i x (bit_xor y z),
  digit-bit_xor i y z,
  digit-lt i x,
  digit-lt i y,
  digit-lt i z,
))

pub xor_comm : (x y : ℕ) → bit_xor x y ≡ bit_xor y x
xor_comm x y = digit_ext _ _ (λ i. omega (arith, digit-bit_xor i x y, digit-bit_xor i y x))

pub digit-zero : (i : ℕ) → digit i 0 ≡ 0
digit-zero zero = refl
digit-zero (suc i) = digit-zero i

-- Exclusive or with the same number twice
pub xor_twice : (x y : ℕ) → bit_xor (bit_xor x y) y ≡ x
xor_twice x y = digit_ext _ _ (λ i.
    omega (arith, digit-bit_xor i (bit_xor x y) y, digit-bit_xor i x y, digit-lt i x, digit-lt i y))

pub xor_self : (x : ℕ) → bit_xor x x ≡ 0
xor_self x = digit_ext _ _ (λ i. omega (arith, digit-bit_xor i x x, digit-zero i, digit-lt i x))

-- A mask gives no more than itself.
masked : (bound x y : ℕ) → y ≤ bound → bit_and x y ≤ y
masked zero x zero h = omega (arith, no_mask x x (omega arith))
masked zero x (suc y) h = absurd (omega arith)
masked (suc bound) x y h = omega (arith, and_lowest x y, masked bound (x / 2) (y / 2) (omega arith))

pub and_le : (x y : ℕ) → bit_and x y ≤ y
and_le x y = masked y x y (omega arith)

-- A number that both sides have is lost.
pub xor_cancel : (x y z : ℕ) → bit_xor (bit_xor x z) (bit_xor y z) ≡ bit_xor x y
xor_cancel x y z = digit_ext _ _ (λ i. omega (
  arith,
  digit-bit_xor i (bit_xor x z) (bit_xor y z),
  digit-bit_xor i x z,
  digit-bit_xor i y z,
  digit-bit_xor i x y,
  digit-lt i x,
  digit-lt i y,
  digit-lt i z,
))

pub or_comm : (x y : ℕ) → bit_or x y ≡ bit_or y x
or_comm x y = digit_ext _ _ (λ i. omega (arith, digit-bit_or i x y, digit-bit_or i y x))
