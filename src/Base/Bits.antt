-- ===== src/Base/Bits.antt =====
-- Masks of low bits as remainders, and the lowest digit of a number with bits set.
use Prim.Native.Nat.{
  ℕ, zero, suc, ◌+◌, ◌*◌, ◌/◌, ◌%◌, ◌≤◌, min, max, digits, bitwise, bit_and, bit_or,
  bit_and-bitwise, bit_or-bitwise,
}
use mathlib.Core.Path.{◌≡◌, refl}
use native.Mathlib.Omega.{arith}

module _ (rest : ℕ → ℕ) (op : ℕ → ℕ → ℕ) where
  -- A count of digits that covers the first number does as well as that number.
  settled :
      (bound count x y : ℕ)
      → count ≤ bound
      → x ≤ count
      → digits rest op count x y ≡ bitwise rest op x y
  settled bound zero zero y _ _ = refl
  settled bound zero (suc x) y _ h = absurd (omega arith)
  settled bound (suc count) zero y _ _ = refl
  settled zero (suc count) (suc x) y h _ = absurd (omega arith)
  settled (suc bound) (suc count) (suc x) y h h' =
      let half = suc x / 2 in
      omega (
        arith,
        settled bound count half (y / 2) (omega arith) (omega arith),
        settled bound x half (y / 2) (omega arith) (omega arith),
      )

  pub lowest :
      (x y : ℕ)
      → bitwise rest op (suc x) y ≡ op (suc x % 2) (y % 2) + 2 * bitwise rest op (suc x / 2) (y / 2)
  lowest x y = omega (arith, settled x x (suc x / 2) (y / 2) (omega arith) (omega arith))

pub and_lowest : (x y : ℕ) → bit_and x y ≡ min (x % 2) (y % 2) + 2 * bit_and (x / 2) (y / 2)
and_lowest zero y = simp bit_and-bitwise (omega arith)
and_lowest (suc x) y = simp bit_and-bitwise (lowest (λ d. 0) min x y)

pub or_lowest : (x y : ℕ) → bit_or x y ≡ max (x % 2) (y % 2) + 2 * bit_or (x / 2) (y / 2)
or_lowest zero y = simp bit_or-bitwise (omega arith)
or_lowest (suc x) y = simp bit_or-bitwise (lowest (λ d. d) max x y)

pub no_mask : (bound x : ℕ) → x ≤ bound → bit_and x 0 ≡ 0
no_mask bound zero _ = refl
no_mask zero (suc x) h = absurd (omega arith)
no_mask (suc bound) (suc x) h =
    omega (arith, and_lowest (suc x) 0, no_mask bound (suc x / 2) (omega arith))

pub low_bit : (x : ℕ) → bit_and x 1 ≡ x % 2
low_bit x = omega (arith, no_mask x (x / 2) (omega arith), and_lowest x 1)

pub two_low_bits : (x : ℕ) → bit_and x 3 ≡ x % 4
two_low_bits x = omega (arith, low_bit (x / 2), and_lowest x 3)

pub three_low_bits : (x : ℕ) → bit_and x 7 ≡ x % 8
three_low_bits x = omega (arith, two_low_bits (x / 2), and_lowest x 7)

pub four_low_bits : (x : ℕ) → bit_and x 15 ≡ x % 16
four_low_bits x = omega (arith, three_low_bits (x / 2), and_lowest x 15)

pub six_low_bits : (x : ℕ) → bit_and x 63 ≡ x % 64
six_low_bits x = omega (arith, four_low_bits (x / 2 / 2), and_lowest x 63, and_lowest (x / 2) 31)
