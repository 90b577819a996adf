-- ===== src/Des/Select.antt =====
-- About the key schedule: permute_64b, rotate28 and expand_8x6_to_8x8 against positions of bits.
use intel_ipsec_mb.Base.{
  ℕ, zero, suc, ◌+◌, ◌-◌, ◌*◌, ◌/◌, ◌%◌, ◌^◌, ◌≤◌, ◌<◌, bit_and, ◌≡◌, ap, ◌∙◌, List, [], ◌∷◌, arith,
  length,
}
use native.Mathlib.Omega.{pow_step}
use Prim.Native.Nat.{bit_and-bitwise}
use native.Mathlib.Nat.{pow-le-pow_right}
use intel_ipsec_mb.Base.Bits.{low_bit, and_lowest}
use intel_ipsec_mb.Base.Shift.{or_add, double}
use intel_ipsec_mb.Des.Schedule.{bit_get64b, bit_set64b, permute_from, permute_64b}

-- The bits of a number at the positions of a pattern, where positions count from 1
unfoldable pub select : List ℕ → ℕ → ℕ
select [] x = 0
select (p ∷ pattern) x = x / 2 ^ (p - 1) % 2 + 2 * select pattern x

pub select-lt : (pattern : List ℕ) (x : ℕ) → select pattern x < 2 ^ length pattern
unfolding select
select-lt [] x = omega arith
select-lt (p ∷ pattern) x = omega (arith, select-lt pattern x, pow_step 2 (length pattern))

pub one_le : (n : ℕ) → 1 ≤ 2 ^ n
one_le zero = omega arith
one_le (suc n) = omega (arith, pow_step 2 n, one_le n)

-- A mask that has the lower digits
and_keeps : (n v q : ℕ) → v < 2 ^ n → bit_and v (2 ^ n - 1 + q * 2 ^ n) ≡ v
and_keeps zero zero q h = zero_and (2 ^ 0 - 1 + q * 2 ^ 0)
  where
    zero_and : (x : ℕ) → bit_and 0 x ≡ 0
    zero_and x = bit_and-bitwise 0 x
and_keeps zero (suc v) q h = absurd (omega arith)
and_keeps (suc n) v q h =
    let power = pow_step 2 n in
    let mask = 2 ^ suc n - 1 + q * 2 ^ suc n in
    let half : mask / 2 ≡ 2 ^ n - 1 + q * 2 ^ n = omega (arith, power, double n q, one_le n) in
    let odd : mask % 2 ≡ 1 = omega (arith, power, double n q, one_le n) in
    omega
      (arith, (rw (half, odd) at (and_lowest v mask)), and_keeps n (v / 2) q (omega (arith, power)))

power_add : (a b : ℕ) → 2 ^ (a + b) ≡ 2 ^ a * 2 ^ b
power_add zero b = let none_added : 0 + b ≡ b = omega arith in rw none_added (omega arith)
power_add (suc a) b =
    let further : suc a + b ≡ suc (a + b) = omega arith in
    rw further (grind (arith, pow_step 2 (a + b), pow_step 2 a, power_add a b))

mask_split : (h p : ℕ) → 1 ≤ h → 1 ≤ p → 2 * h * p - 1 - p ≡ p - 1 + (2 * h - 2) * p
mask_split zero p l l' = absurd (omega arith)
mask_split (suc h) p l l' =
    let less : 2 * suc h - 2 ≡ 2 * h = omega arith in
    let more : 2 * suc h * p ≡ 2 * h * p + 2 * p = grind arith in rw (less, more) (omega arith)

times_bit : (b p : ℕ) → b < 2 → b * p ≤ p
times_bit zero p l = omega arith
times_bit (suc zero) p l = omega arith
times_bit (suc (suc b)) p l = absurd (omega arith)

bit_set64b_lem : (out n b : ℕ) → out < 2 ^ n → n < 64 → b < 2 → bit_set64b out n b ≡ out + b * 2 ^ n
unfolding bit_set64b
bit_set64b_lem out n b h l h' =
    let high = 63 - n in
    let width : 64 ≡ suc high + n = omega arith in
    let rest = 2 * 2 ^ high - 2 in
    let power : 2 ^ 64 ≡ 2 * 2 ^ high * 2 ^ n =
      ap (λ w. 2 ^ w) width ∙ (power_add (suc high) n ∙ ap (λ p. p * 2 ^ n) (pow_step 2 high)) in
    let below : 2 ^ n ≤ 2 ^ 63 =
      pow-le-pow_right {n = 2} (omega arith) {i = n} {j = 63} (omega arith) in
    let within : b * 2 ^ n % 2 ^ 64 ≡ b * 2 ^ n = omega (arith, below, times_bit b (2 ^ n) h') in
    let small : 2 ^ n % 2 ^ 64 ≡ 2 ^ n = omega (arith, below) in
    let mask : 2 ^ 64 - 1 - 2 ^ n ≡ 2 ^ n - 1 + rest * 2 ^ n =
      ap (λ w. w - 1 - 2 ^ n) power ∙ mask_split (2 ^ high) (2 ^ n) (one_le high) (one_le n) in
    rw (within, small, mask, and_keeps n out rest h) (or_add n out b h)

next_digit : (out b s p : ℕ) → out + b * p + s * (2 * p) ≡ out + (b + 2 * s) * p
next_digit out b s p = grind arith

permute_from_lem :
    (x : ℕ) (pattern : List ℕ) (n out : ℕ)
    → out < 2 ^ n
    → n + length pattern ≤ 64
    → permute_from x pattern n out ≡ out + select pattern x * 2 ^ n
unfolding permute_from select bit_get64b
permute_from_lem x [] n out h l = omega arith
permute_from_lem x (p ∷ pattern) n out h l =
    let b = bit_get64b x (p - 1) in
    let bit : b ≡ x / 2 ^ (p - 1) % 2 = low_bit (x / 2 ^ (p - 1)) in
    let power = pow_step 2 n in
    let next = bit_set64b_lem out n b h (omega arith) (omega arith) in
    let bound : out + b * 2 ^ n < 2 ^ suc n = grind (arith, power) in
    rw next (
      permute_from_lem x pattern (suc n) (out + b * 2 ^ n) bound (omega arith)
      ∙ (ap (λ q. out + b * 2 ^ n + select pattern x * q) power
          ∙ (next_digit out b (select pattern x) (2 ^ n)
              ∙ ap (λ d. out + (d + 2 * select pattern x) * 2 ^ n) bit)))

pub permute_64b_lem :
    (x : ℕ) (pattern : List ℕ) → length pattern ≤ 64 → permute_64b x pattern ≡ select pattern x
unfolding permute_64b
permute_64b_lem x pattern l =
    omega (arith, permute_from_lem x pattern 0 0 (omega arith) (omega arith))
