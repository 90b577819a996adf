-- ===== src/Des/SixBits.antt =====
-- About expand_8x6_to_8x8 of lib/des_key.c and the bytes of the subkeys.
use intel_ipsec_mb.Base.{
  ℕ, zero, suc, ◌+◌, ◌*◌, ◌/◌, ◌%◌, ◌^◌, ◌<◌, bit_or, ◌≡◌, ap, List, [], ◌∷◌, arith, nth, map,
}
use native.Mathlib.Nat.{zero-div}
use intel_ipsec_mb.Base.Bits.{six_low_bits}
use intel_ipsec_mb.Base.Shift.{or_add}
use intel_ipsec_mb.Des.Select.{select}
use intel_ipsec_mb.Des.Subkeys.{subkey, rotated, totals, des_key_schedule_lem}
use intel_ipsec_mb.Des.Schedule.{
  group, expand_8x6_to_8x8, des_key_schedule, load64_reflect, pc1c_table_fips46_3,
  pc1d_table_fips46_3, pc2_table_fips46_3,
}

-- The group of 6 bits with the weight 64 ^ i
abbrev six : ℕ → ℕ → ℕ
six x i = x / 2 ^ (6 * i) % 64

group_lem : (x i : ℕ) → group x i ≡ six x i * 2 ^ (8 * i)
group_lem x i = ap (λ y. y * 2 ^ (8 * i)) (six_low_bits (x / 2 ^ (6 * i)))

six-lt : (x i : ℕ) → six x i < 64
six-lt x i = omega arith

-- The groups joined one after the other
joined :
    (a b c d e f g h : ℕ)
    → a < 64
    → b < 64
    → c < 64
    → d < 64
    → e < 64
    → f < 64
    → g < 64
    → let ab = bit_or a (b * 2 ^ 8) in
      let abc = bit_or ab (c * 2 ^ 16) in
      let abcd = bit_or abc (d * 2 ^ 24) in
      let abcde = bit_or abcd (e * 2 ^ 32) in
      let abcdef = bit_or abcde (f * 2 ^ 40) in
      let abcdefg = bit_or abcdef (g * 2 ^ 48) in
      bit_or abcdefg (h * 2 ^ 56)
      ≡ a + b * 2 ^ 8 + c * 2 ^ 16 + d * 2 ^ 24 + e * 2 ^ 32 + f * 2 ^ 40 + g * 2 ^ 48 + h * 2 ^ 56
joined a b c d e f g h la lb lc ld le lf lg =
    let s1 = a + b * 2 ^ 8 in
    let s2 = s1 + c * 2 ^ 16 in
    let s3 = s2 + d * 2 ^ 24 in
    let s4 = s3 + e * 2 ^ 32 in
    let s5 = s4 + f * 2 ^ 40 in
    let s6 = s5 + g * 2 ^ 48 in
    rw
      (
        or_add 8 a b (omega arith),
        or_add 16 s1 c (omega arith),
        or_add 24 s2 d (omega arith),
        or_add 32 s3 e (omega arith),
        or_add 40 s4 f (omega arith),
        or_add 48 s5 g (omega arith),
      )
      (or_add 56 s6 h (omega arith))

expand_lem :
    (x : ℕ)
    → expand_8x6_to_8x8 x
      ≡ six x 0 * 2 ^ 0
        + six x 1 * 2 ^ 8
        + six x 2 * 2 ^ 16
        + six x 3 * 2 ^ 24
        + six x 4 * 2 ^ 32
        + six x 5 * 2 ^ 40
        + six x 6 * 2 ^ 48
        + six x 7 * 2 ^ 56
unfolding expand_8x6_to_8x8
expand_lem x =
    rw
      (
        group_lem x 0,
        group_lem x 1,
        group_lem x 2,
        group_lem x 3,
        group_lem x 4,
        group_lem x 5,
        group_lem x 6,
        group_lem x 7,
      )
      (joined (six x 0 * 2 ^ 0) (six x 1) (six x 2) (six x 3) (six x 4) (six x 5) (six x 6)
        (six x 7) (omega (arith, six-lt x 0)) (six-lt x 1) (six-lt x 2) (six-lt x 3) (six-lt x 4)
        (six-lt x 5) (six-lt x 6))

-- The byte `i` of expand_8x6_to_8x8 is the group `i` of 6 bits.
pub expand_byte : (x i : ℕ) → i < 8 → expand_8x6_to_8x8 x / 256 ^ i % 256 ≡ six x i
expand_byte x zero h = omega (arith, expand_lem x)
expand_byte x (suc zero) h = omega (arith, expand_lem x)
expand_byte x (suc (suc zero)) h = omega (arith, expand_lem x)
expand_byte x (suc (suc (suc zero))) h = omega (arith, expand_lem x)
expand_byte x (suc (suc (suc (suc zero)))) h = omega (arith, expand_lem x)
expand_byte x (suc (suc (suc (suc (suc zero))))) h = omega (arith, expand_lem x)
expand_byte x (suc (suc (suc (suc (suc (suc zero)))))) h = omega (arith, expand_lem x)
expand_byte x (suc (suc (suc (suc (suc (suc (suc zero))))))) h = omega (arith, expand_lem x)
expand_byte x (suc (suc (suc (suc (suc (suc (suc (suc i)))))))) h = absurd (omega arith)

-- What holds of the default and of each image holds of every element.
nth-map :
    (P : ℕ → Type 0) (f : ℕ → ℕ) (xs : List ℕ) (n : ℕ)
    → P 0
    → ((x : ℕ) → P (f x))
    → P (nth 0 (map f xs) n)
nth-map P f [] n h h' = h
nth-map P f (x ∷ xs) zero h h' = h' x
nth-map P f (x ∷ xs) (suc n) h h' = nth-map P f xs n h h'

-- Every byte of every subkey of des_key_schedule is below 64, for any key.
pub des_key_schedule_bound :
    (key : List ℕ) (n i : ℕ) → i < 8 → nth 0 (des_key_schedule key) n / 256 ^ i % 256 < 64
unfolding subkey
des_key_schedule_bound key n i h =
    let t = load64_reflect key in
    let c = select pc1c_table_fips46_3 t in
    let d = select pc1d_table_fips46_3 t in
    let chosen =
      (λ (total : ℕ). select pc2_table_fips46_3 (rotated total c + rotated total d * 2 ^ 28)) in
    rw (des_key_schedule_lem key) (
      nth-map (λ w. w / 256 ^ i % 256 < 64) (subkey c d) totals n
        (rw (zero-div (256 ^ i)) (omega arith))
        (λ total. rw (expand_byte (chosen total) i h) (six-lt (chosen total) i)))
