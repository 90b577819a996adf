-- ===== src/Des/Subkeys.antt =====
-- About des_key_schedule of lib/des_key.c: each subkey from the key, without the rotations before it.
use intel_ipsec_mb.Base.{
  ℕ, zero, suc, ◌+◌, ◌-◌, ◌*◌, ◌/◌, ◌%◌, ◌^◌, ◌≤◌, ◌<◌, bit_and, ◌≡◌, refl, ap, ap₂, ◌∙◌, sym, List,
  [], ◌∷◌, arith, map,
}
use native.Mathlib.Omega.{pow_step}
use native.Mathlib.Nat.{add-mul-mod_self_left, mod-eq_of_lt, mod-lt, mod-add-div}
use intel_ipsec_mb.Base.Bits.{and_lowest, no_mask}
use intel_ipsec_mb.Base.Shift.{or_add}
use intel_ipsec_mb.Des.Select.{select, select-lt, permute_64b_lem, one_le}
use intel_ipsec_mb.Des.Schedule.{
  rotate28, expand_8x6_to_8x8, ks_rounds, des_key_schedule, load64_reflect, pc1c_table_fips46_3,
  pc1d_table_fips46_3, pc2_table_fips46_3, shift_tab_fips46_3,
}

mod_twice : (p x : ℕ) → 1 ≤ p → x % (2 * p) ≡ x % 2 + 2 * (x / 2 % p)
mod_twice p x h =
    let rest = x % 2 + 2 * (x / 2 % p) in
    let bound = mod-lt (x / 2) h in
    let parts : x ≡ rest + 2 * p * (x / 2 / p) = grind (arith, mod-add-div (x / 2) p) in
    ap (λ y. y % (2 * p)) parts
    ∙ (add-mul-mod_self_left rest (2 * p) (x / 2 / p) ∙ mod-eq_of_lt (omega arith))

mod_step : (n x : ℕ) → x % 2 ^ suc n ≡ x % 2 + 2 * (x / 2 % 2 ^ n)
mod_step n x = ap (λ p. x % p) (pow_step 2 n) ∙ mod_twice (2 ^ n) x (one_le n)

-- A mask of the lowest digits
low_bits : (n x : ℕ) → bit_and x (2 ^ n - 1) ≡ x % 2 ^ n
low_bits zero x = omega (arith, no_mask x x (omega arith), mod_one x)
  where
    mod_one : (x : ℕ) → x % 1 ≡ 0
    mod_one x = omega arith
low_bits (suc n) x =
    let power = pow_step 2 n in
    let half : (2 ^ suc n - 1) / 2 ≡ 2 ^ n - 1 = omega (arith, power, one_le n) in
    let odd : (2 ^ suc n - 1) % 2 ≡ 1 = omega (arith, power, one_le n) in
    omega
      (arith, mod_step n x, (rw (half, odd) at (and_lowest x (2 ^ suc n - 1))), low_bits n (x / 2))

-- A word of 28 bits, rotated to the right
abbrev pub rotated : ℕ → ℕ → ℕ
rotated s v = v / 2 ^ s + v % 2 ^ s * 2 ^ (28 - s)

-- The two parts of a rotation have no digit in common.
rotate28_one : (v : ℕ) → v < 2 ^ 28 → rotate28 v 1 ≡ rotated 1 v
unfolding rotate28
rotate28_one v h =
    let low : v / 2 ^ 1 % 2 ^ 28 ≡ v / 2 ^ 1 = omega arith in
    let high : v * 2 ^ 27 % 2 ^ 32 % 2 ^ 28 ≡ v % 2 ^ 1 * 2 ^ 27 = omega arith in
    rw (low_bits 28 (v / 2 ^ 1), low_bits 28 (v * 2 ^ 27 % 2 ^ 32), low, high)
      (or_add 27 (v / 2 ^ 1) (v % 2 ^ 1) (omega arith))

rotate28_two : (v : ℕ) → v < 2 ^ 28 → rotate28 v 2 ≡ rotated 2 v
unfolding rotate28
rotate28_two v h =
    let low : v / 2 ^ 2 % 2 ^ 28 ≡ v / 2 ^ 2 = omega arith in
    let high : v * 2 ^ 26 % 2 ^ 32 % 2 ^ 28 ≡ v % 2 ^ 2 * 2 ^ 26 = omega arith in
    rw (low_bits 28 (v / 2 ^ 2), low_bits 28 (v * 2 ^ 26 % 2 ^ 32), low, high)
      (or_add 26 (v / 2 ^ 2) (v % 2 ^ 2) (omega arith))

-- A subkey from the words C and D of the key and the number of places they have been rotated
unfoldable pub subkey : ℕ → ℕ → ℕ → ℕ
subkey c d total =
    expand_8x6_to_8x8 (select pc2_table_fips46_3 (rotated total c + rotated total d * 2 ^ 28))

-- One turn of the loop
Turns : ℕ → ℕ → ℕ → Type 0
Turns s t t' =
    (v : ℕ)
    → v < 2 ^ 28
    → (rotate28 (rotated t v % 2 ^ 32) s ≡ rotated t' v) × (rotated t' v < 2 ^ 28)

turn :
    (s t t' : ℕ) (shifts : List ℕ) (c d : ℕ)
    → Turns s t t'
    → c < 2 ^ 28
    → d < 2 ^ 28
    → ks_rounds (s ∷ shifts) (rotated t c) (rotated t d)
      ≡ subkey c d t' ∷ ks_rounds shifts (rotated t' c) (rotated t' d)
unfolding Turns ks_rounds subkey
turn s t t' shifts c d h hc hd =
    rw
      (
        (h c hc).0,
        (h d hd).0,
        or_add 28 (rotated t' c) (rotated t' d) (h c hc).1,
        permute_64b_lem (rotated t' c + rotated t' d * 2 ^ 28) pc2_table_fips46_3 (omega arith),
      )
      refl

-- A rotation of a rotated word that is a word, by one or two places
one_place :
    (t t' : ℕ)
    → ((v : ℕ)
        → v < 2 ^ 28
        → (rotated t v < 2 ^ 28)
          × (rotated t' v < 2 ^ 28)
          × (rotated 1 (rotated t v) ≡ rotated t' v))
    → Turns 1 t t'
unfolding Turns
one_place t t' h v l =
    let word : rotated t v % 2 ^ 32 ≡ rotated t v = omega (arith, (h v l).0) in
    (rw word (rotate28_one (rotated t v) (h v l).0 ∙ (h v l).2), (h v l).1)

two_places :
    (t t' : ℕ)
    → ((v : ℕ)
        → v < 2 ^ 28
        → (rotated t v < 2 ^ 28)
          × (rotated t' v < 2 ^ 28)
          × (rotated 2 (rotated t v) ≡ rotated t' v))
    → Turns 2 t t'
unfolding Turns
two_places t t' h v l =
    let word : rotated t v % 2 ^ 32 ≡ rotated t v = omega (arith, (h v l).0) in
    (rw word (rotate28_two (rotated t v) (h v l).0 ∙ (h v l).2), (h v l).1)

-- The number of places that the words are rotated for each subkey
abbrev pub totals : List ℕ
totals = 1 ∷ 2 ∷ 4 ∷ 6 ∷ 8 ∷ 10 ∷ 12 ∷ 14 ∷ 15 ∷ 17 ∷ 19 ∷ 21 ∷ 23 ∷ 25 ∷ 27 ∷ 28 ∷ []

rotated_none : (v : ℕ) → rotated 0 v ≡ v
rotated_none v = omega arith

-- The turns from a number of places, for some shifts, with the numbers of places after each
data AreTurns : ℕ → List ℕ → List ℕ → Type 0 where
  done : (t : ℕ) → AreTurns t [] []
  next :
      (s t t' : ℕ) (shifts tail : List ℕ)
      → Turns s t t'
      → AreTurns t' shifts tail
      → AreTurns t (s ∷ shifts) (t' ∷ tail)

turns : AreTurns 0 shift_tab_fips46_3 totals
turns =
    (next 1 0 1 _ _ (one_place 0 1 (λ v l. (omega arith, omega arith, omega arith))) (
      next 1 1 2 _ _ (one_place 1 2 (λ v l. (omega arith, omega arith, omega arith))) (
        next 2 2 4 _ _ (two_places 2 4 (λ v l. (omega arith, omega arith, omega arith))) (
          next 2 4 6 _ _ (two_places 4 6 (λ v l. (omega arith, omega arith, omega arith))) (
            next 2 6 8 _ _ (two_places 6 8 (λ v l. (omega arith, omega arith, omega arith))) (
              next 2 8 10 _ _ (two_places 8 10 (λ v l. (omega arith, omega arith, omega arith))) (
                next 2 10 12 _ _ (two_places 10 12 (λ v l. (omega arith, omega arith, omega arith)))
                  (next 2 12 14 _ _
                    (two_places 12 14 (λ v l. (omega arith, omega arith, omega arith)))
                    (next 1 14 15 _ _
                      (one_place 14 15 (λ v l. (omega arith, omega arith, omega arith)))
                      (next 2 15 17 _ _
                        (two_places 15 17 (λ v l. (omega arith, omega arith, omega arith)))
                        (next 2 17 19 _ _
                          (two_places 17 19 (λ v l. (omega arith, omega arith, omega arith)))
                          (next 2 19 21 _ _
                            (two_places 19 21 (λ v l. (omega arith, omega arith, omega arith)))
                            (next 2 21 23 _ _
                              (two_places 21 23 (λ v l. (omega arith, omega arith, omega arith)))
                              (next 2 23 25 _ _
                                (two_places 23 25 (λ v l. (omega arith, omega arith, omega arith)))
                                (next 2 25 27 _ _
                                  (two_places 25 27
                                    (λ v l. (omega arith, omega arith, omega arith)))
                                  (next 1 27 28 _ _
                                    (one_place 27 28
                                      (λ v l. (omega arith, omega arith, omega arith)))
                                    (done 28)))))))))))))))))

all_turns :
    (c d : ℕ) {t : ℕ} {shifts tail : List ℕ}
    → c < 2 ^ 28
    → d < 2 ^ 28
    → AreTurns t shifts tail
    → ks_rounds shifts (rotated t c) (rotated t d) ≡ map (subkey c d) tail
unfolding ks_rounds
all_turns c d hc hd (done t) = refl
all_turns c d hc hd (next s t t' shifts tail h rest) =
    turn s t t' shifts c d h hc hd ∙ ap (λ ks. subkey c d t' ∷ ks) (all_turns c d hc hd rest)

-- des_key_schedule makes 16 subkeys: each is the selection PC2 of the words C and D of the key, rotated by the
-- sum of the shifts so far and spread out to 6 bits in each byte. C and D are the selections PC1 of the key.
pub des_key_schedule_lem :
    (key : List ℕ)
    → let t = load64_reflect key in
      des_key_schedule key
      ≡ map (subkey (select pc1c_table_fips46_3 t) (select pc1d_table_fips46_3 t)) totals
unfolding des_key_schedule
des_key_schedule_lem key =
    let t = load64_reflect key in
    let c = select pc1c_table_fips46_3 t in
    let d = select pc1d_table_fips46_3 t in
    rw
      (
        permute_64b_lem t pc1c_table_fips46_3 (omega arith),
        permute_64b_lem t pc1d_table_fips46_3 (omega arith),
      )
      (ap₂ (ks_rounds shift_tab_fips46_3) (sym (rotated_none c)) (sym (rotated_none d))
        ∙ all_turns c d (select-lt pc1c_table_fips46_3 t) (select-lt pc1d_table_fips46_3 t) turns)
