-- ===== src/Base/Shift.antt =====
-- The bit operations with bounds and shifts.
use Prim.Native.Nat.{ℕ, zero, suc, ◌+◌, ◌*◌, ◌/◌, ◌%◌, ◌^◌, ◌<◌, bit_or, bit_xor, bit_or-bitwise}
use mathlib.Core.Path.{◌≡◌, ap}
use native.Mathlib.Nat.{div-div-eq-div-mul}
use native.Mathlib.Omega.{arith, pow_step}
use intel_ipsec_mb.Base.Bits.{or_lowest}
use intel_ipsec_mb.Base.Digit.{xor_lowest, half-bit_xor}

pub xor-lt : (n x y : ℕ) → x < 2 ^ n → y < 2 ^ n → bit_xor x y < 2 ^ n
xor-lt zero zero zero h h' = h
xor-lt zero zero (suc y) h h' = absurd (omega arith)
xor-lt zero (suc x) y h h' = absurd (omega arith)
xor-lt (suc n) x y h h' =
    let power = pow_step 2 n in
    omega (
      arith,
      power,
      xor_lowest x y,
      xor-lt n (x / 2) (y / 2) (omega (arith, power)) (omega (arith, power)),
    )

pub or-lt : (n x y : ℕ) → x < 2 ^ n → y < 2 ^ n → bit_or x y < 2 ^ n
or-lt zero zero zero h h' = h
or-lt zero zero (suc y) h h' = absurd (omega arith)
or-lt zero (suc x) y h h' = absurd (omega arith)
or-lt (suc n) x y h h' =
    let power = pow_step 2 n in
    omega (
      arith,
      power,
      or_lowest x y,
      or-lt n (x / 2) (y / 2) (omega (arith, power)) (omega (arith, power)),
    )

pub double : (n y : ℕ) → y * 2 ^ suc n ≡ 2 * (y * 2 ^ n)
double n y = grind (arith, pow_step 2 n)

or_even : (x z : ℕ) → bit_or x (2 * z) ≡ x % 2 + 2 * bit_or (x / 2) z
or_even x z =
    let half : 2 * z / 2 ≡ z = omega arith in omega (arith, (rw half at (or_lowest x (2 * z))))

-- Numbers without a common digit
pub or_add : (n x y : ℕ) → x < 2 ^ n → bit_or x (y * 2 ^ n) ≡ x + y * 2 ^ n
or_add zero zero y h = omega (arith, bit_or-bitwise 0 (y * 1))
or_add zero (suc x) y h = absurd (omega arith)
or_add (suc n) x y h =
    let rest = or_add n (x / 2) y (omega (arith, pow_step 2 n)) in
    rw (double n y) (omega (arith, or_even x (y * 2 ^ n), rest))

half_power : (n x : ℕ) → x / 2 ^ suc n ≡ x / 2 / 2 ^ n
half_power n x = rw (div-div-eq-div-mul x 2 (2 ^ n)) (ap (λ p. x / p) (pow_step 2 n))

div_one : (x : ℕ) → x / 1 ≡ x
div_one x = omega arith

pub shift-bit_xor : (n x y : ℕ) → bit_xor x y / 2 ^ n ≡ bit_xor (x / 2 ^ n) (y / 2 ^ n)
shift-bit_xor zero x y = rw (div_one x, div_one y) (div_one (bit_xor x y))
shift-bit_xor (suc n) x y =
    rw (half_power n x, half_power n y, half_power n (bit_xor x y), half-bit_xor x y)
      (shift-bit_xor n (x / 2) (y / 2))

-- Numbers cut at the same digit
pub xor_split :
    (n a b u v : ℕ)
    → a < 2 ^ n
    → b < 2 ^ n
    → bit_xor (a + u * 2 ^ n) (b + v * 2 ^ n) ≡ bit_xor a b + bit_xor u v * 2 ^ n
xor_split zero zero zero u v h h' = xor_split_none u v
  where
    xor_split_none : (u v : ℕ) → bit_xor (0 + u * 1) (0 + v * 1) ≡ bit_xor 0 0 + bit_xor u v * 1
    xor_split_none u v =
        let left : 0 + u * 1 ≡ u = omega arith in
        let right : 0 + v * 1 ≡ v = omega arith in rw (left, right) (omega arith)
xor_split zero (suc a) b u v h h' = absurd (omega arith)
xor_split zero zero (suc b) u v h h' = absurd (omega arith)
xor_split (suc n) a b u v h h' =
    let power = pow_step 2 n in
    let left : (a + 2 * (u * 2 ^ n)) / 2 ≡ a / 2 + u * 2 ^ n = omega arith in
    let right : (b + 2 * (v * 2 ^ n)) / 2 ≡ b / 2 + v * 2 ^ n = omega arith in
    let rest = xor_split n (a / 2) (b / 2) u v (omega (arith, power)) (omega (arith, power)) in
    rw (double n u, double n v, double n (bit_xor u v))
      (omega (
        arith,
        (rw (left, right) at (xor_lowest (a + 2 * (u * 2 ^ n)) (b + 2 * (v * 2 ^ n)))),
        xor_lowest a b,
        rest,
      ))
