-- ===== src/Cpu/Bits.antt =====
-- About the bits of the features: cpu_feature_detect and cpu_feature_adjust of lib/cpu_feature.c.
use intel_ipsec_mb.Base.{
  ℕ, zero, suc, ◌-◌, ◌*◌, ◌/◌, ◌%◌, ◌^◌, ◌≤◌, ◌<◌, bit_and, Bool, true, false, ◌&&◌, ◌≡◌, refl, ◌∙◌,
  ◌==◌, ◌!=◌, ltb, if◌then◌else◌, arith,
}
use native.Mathlib.Omega.{pow_step}
use intel_ipsec_mb.Base.Bits.{and_lowest, low_bit}
use intel_ipsec_mb.Base.Digit.{digit, digit-lt, digit-bit_and}
use intel_ipsec_mb.Base.Table.{agrees, agrees-below}
use intel_ipsec_mb.Cpu.{cpu_feature_adjust}

and_bit : (b x : ℕ) → bit_and x (2 ^ b) ≡ digit b x * 2 ^ b
and_bit zero x = omega (arith, low_bit x)
and_bit (suc b) x =
    let power = pow_step 2 b in
    let half : 2 ^ suc b / 2 ≡ 2 ^ b = omega (arith, power) in
    let even : 2 ^ suc b % 2 ≡ 0 = omega (arith, power) in
    rw power (
      twice (digit b (x / 2)) (2 ^ b) (
        omega (
          arith,
          (rw power at (rw (half, even) at (and_lowest x (2 ^ suc b)))),
          and_bit b (x / 2),
        )))
  where
    twice : {y : ℕ} (d p : ℕ) → y ≡ 2 * (d * p) → y ≡ d * (2 * p)
    twice d p e = grind arith

tested : (d p : ℕ) → d < 2 → 1 ≤ p → (d * p != 0) ≡ (d == 1)
tested zero p h h' = ground arith
tested (suc zero) p h h' = ground arith
tested (suc (suc d)) p h h' = absurd (omega arith)

one_le : (b : ℕ) → 1 ≤ 2 ^ b
one_le zero = omega arith
one_le (suc b) = omega (arith, pow_step 2 b, one_le b)

-- `x & (1 << b)` is not 0 where the bit b of x is set.
pub bit_test : (b x : ℕ) → (bit_and x (2 ^ b) != 0) ≡ (digit b x == 1)
bit_test b x = rw (and_bit b x) (tested (digit b x) (2 ^ b) (digit-lt b x) (one_le b))

shani_mask : (k : ℕ) → k < 64 → digit k (2 ^ 64 - 1 - 2 ^ 0) ≡ (if k == 0 then 0 else 1)
unfolding agrees
shani_mask = agrees-below (λ k. digit k (2 ^ 64 - 1 - 2 ^ 0)) (λ k. if k == 0 then 0 else 1) 64 refl

aesni_mask : (k : ℕ) → k < 64 → digit k (2 ^ 64 - 1 - 2 ^ 1) ≡ (if k == 1 then 0 else 1)
unfolding agrees
aesni_mask = agrees-below (λ k. digit k (2 ^ 64 - 1 - 2 ^ 1)) (λ k. if k == 1 then 0 else 1) 64 refl

-- One of the two steps of cpu_feature_adjust
cleared :
    (flags features mask b k : ℕ)
    → digit k mask ≡ (if k == b then 0 else 1)
    → digit k (if bit_and flags (2 ^ b) != 0 then bit_and features mask else features)
      ≡ (if (k == b) && (digit b flags == 1) then 0 else digit k features)
cleared flags features mask b k h = rw (bit_test b flags) (in_case (digit b flags == 1))
  where
    in_case :
        (set : Bool)
        → digit k (if set then bit_and features mask else features)
          ≡ (if (k == b) && set then 0 else digit k features)
    in_case true = ground (arith, h, digit-bit_and k features mask, digit-lt k features)
    in_case false = ground arith

-- Each of the 64 bits after cpu_feature_adjust is the bit before it, but for bit 0 (SHANI) where bit 0 of the
-- flags (IMB_FLAG_SHANI_OFF) is set, and bit 1 (AESNI) where bit 1 of the flags (IMB_FLAG_AESNI_OFF) is set,
-- which are cleared.
pub digit-cpu_feature_adjust :
    (flags features k : ℕ)
    → k < 64
    → digit k (cpu_feature_adjust flags features)
      ≡ (if ltb k 2 && (digit k flags == 1) then 0 else digit k features)
unfolding cpu_feature_adjust
digit-cpu_feature_adjust flags features k h =
    let shani = 2 ^ 64 - 1 - 2 ^ 0 in
    let aesni = 2 ^ 64 - 1 - 2 ^ 1 in
    let first = if bit_and flags (2 ^ 0) != 0 then bit_and features shani else features in
    cleared flags first aesni 1 k (aesni_mask k h)
    ∙ rw (cleared flags features shani 0 k (shani_mask k h)) (both k)
  where
    both :
        (k : ℕ)
        → (if (k == 1) && (digit 1 flags == 1)
            then 0
            else if (k == 0) && (digit 0 flags == 1)
            then 0
            else digit k features)
          ≡ (if ltb k 2 && (digit k flags == 1) then 0 else digit k features)
    both zero = ground arith
    both (suc zero) = ground arith
    both (suc (suc k)) = ground arith
