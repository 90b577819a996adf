-- ===== src/Des/Schedule.antt =====
-- The key schedule: lib/des_key.c and the functions of lib/include/des_utils.h.
use intel_ipsec_mb.Base.{ℕ, suc, ◌-◌, ◌*◌, ◌/◌, ◌%◌, ◌^◌, bit_and, bit_or, List, [], ◌∷◌, nth}

-- bit_get64b
unfoldable pub bit_get64b : ℕ → ℕ → ℕ
bit_get64b val n = bit_and (val / 2 ^ n) 1

-- bit_set64b; `~m` is 2 ^ 64 - 1 less m
unfoldable pub bit_set64b : ℕ → ℕ → ℕ → ℕ
bit_set64b val n b = bit_or (bit_and val (2 ^ 64 - 1 - 2 ^ n % 2 ^ 64)) (b * 2 ^ n % 2 ^ 64)

-- The loop of permute_64b, from the index `n` with the rest of the pattern
unfoldable pub permute_from : ℕ → List ℕ → ℕ → ℕ → ℕ
permute_from x [] n out = out
permute_from x (p ∷ pattern) n out =
    permute_from x pattern (suc n) (bit_set64b out n (bit_get64b x (p - 1)))

-- permute_64b
unfoldable pub permute_64b : ℕ → List ℕ → ℕ
permute_64b x pattern = permute_from x pattern 0 0

abbrev pub reflect_tab : List ℕ
reflect_tab = 0 ∷ 8 ∷ 4 ∷ 12 ∷ 2 ∷ 10 ∷ 6 ∷ 14 ∷ 1 ∷ 9 ∷ 5 ∷ 13 ∷ 3 ∷ 11 ∷ 7 ∷ 15 ∷ []

-- reflect_8b
unfoldable pub reflect_8b : ℕ → ℕ
reflect_8b pb =
    bit_or (nth 0 reflect_tab (pb / 2 ^ 4)) (nth 0 reflect_tab (bit_and pb 15) * 2 ^ 4) % 2 ^ 8

-- load64_reflect, from the bytes of a key
unfoldable pub load64_reflect : List ℕ → ℕ
load64_reflect kb =
    let a = bit_or (reflect_8b (nth 0 kb 0)) (reflect_8b (nth 0 kb 1) * 2 ^ 8) in
    let b = bit_or a (reflect_8b (nth 0 kb 2) * 2 ^ 16) in
    let c = bit_or b (reflect_8b (nth 0 kb 3) * 2 ^ 24) in
    let d = bit_or c (reflect_8b (nth 0 kb 4) * 2 ^ 32) in
    let e = bit_or d (reflect_8b (nth 0 kb 5) * 2 ^ 40) in
    let f = bit_or e (reflect_8b (nth 0 kb 6) * 2 ^ 48) in
    bit_or f (reflect_8b (nth 0 kb 7) * 2 ^ 56)

-- rotate28, of 32-bit words
unfoldable pub rotate28 : ℕ → ℕ → ℕ
rotate28 val nshift =
    let mask = 2 ^ 28 - 1 in
    bit_or (bit_and (val / 2 ^ nshift) mask) (bit_and (val * 2 ^ (28 - nshift) % 2 ^ 32) mask)

-- A term of expand_8x6_to_8x8
abbrev pub group : ℕ → ℕ → ℕ
group x i = bit_and (x / 2 ^ (6 * i)) 63 * 2 ^ (8 * i)

-- expand_8x6_to_8x8
unfoldable pub expand_8x6_to_8x8 : ℕ → ℕ
expand_8x6_to_8x8 x =
    let a = bit_or (group x 0) (group x 1) in
    let b = bit_or a (group x 2) in
    let c = bit_or b (group x 3) in
    let d = bit_or c (group x 4) in
    let e = bit_or d (group x 5) in let f = bit_or e (group x 6) in bit_or f (group x 7)

abbrev pub pc1c_table_fips46_3 : List ℕ
pc1c_table_fips46_3 =
    57 ∷ 49 ∷ 41 ∷ 33 ∷ 25 ∷ 17 ∷ 9 ∷ 1 ∷ 58 ∷ 50 ∷ 42 ∷ 34 ∷ 26 ∷ 18 ∷ 10 ∷ 2 ∷ 59 ∷ 51 ∷ 43 ∷ 35
    ∷ 27 ∷ 19 ∷ 11 ∷ 3 ∷ 60 ∷ 52 ∷ 44 ∷ 36 ∷ []

abbrev pub pc1d_table_fips46_3 : List ℕ
pc1d_table_fips46_3 =
    63 ∷ 55 ∷ 47 ∷ 39 ∷ 31 ∷ 23 ∷ 15 ∷ 7 ∷ 62 ∷ 54 ∷ 46 ∷ 38 ∷ 30 ∷ 22 ∷ 14 ∷ 6 ∷ 61 ∷ 53 ∷ 45 ∷ 37
    ∷ 29 ∷ 21 ∷ 13 ∷ 5 ∷ 28 ∷ 20 ∷ 12 ∷ 4 ∷ []

abbrev pub pc2_table_fips46_3 : List ℕ
pc2_table_fips46_3 =
    14 ∷ 17 ∷ 11 ∷ 24 ∷ 1 ∷ 5 ∷ 3 ∷ 28 ∷ 15 ∷ 6 ∷ 21 ∷ 10 ∷ 23 ∷ 19 ∷ 12 ∷ 4 ∷ 26 ∷ 8 ∷ 16 ∷ 7 ∷ 27
    ∷ 20 ∷ 13 ∷ 2 ∷ 41 ∷ 52 ∷ 31 ∷ 37 ∷ 47 ∷ 55 ∷ 30 ∷ 40 ∷ 51 ∷ 45 ∷ 33 ∷ 48 ∷ 44 ∷ 49 ∷ 39 ∷ 56
    ∷ 34 ∷ 53 ∷ 46 ∷ 42 ∷ 50 ∷ 36 ∷ 29 ∷ 32 ∷ []

abbrev pub shift_tab_fips46_3 : List ℕ
shift_tab_fips46_3 = 1 ∷ 1 ∷ 2 ∷ 2 ∷ 2 ∷ 2 ∷ 2 ∷ 2 ∷ 1 ∷ 2 ∷ 2 ∷ 2 ∷ 2 ∷ 2 ∷ 2 ∷ 1 ∷ []

-- The loop of des_key_schedule, with the values of `ks` that it writes
unfoldable pub ks_rounds : List ℕ → ℕ → ℕ → List ℕ
ks_rounds [] c d = []
ks_rounds (shift ∷ shifts) c d =
    let c = rotate28 (c % 2 ^ 32) shift in
    let d = rotate28 (d % 2 ^ 32) shift in
    let t = permute_64b (bit_or c (d * 2 ^ 28)) pc2_table_fips46_3 in
    expand_8x6_to_8x8 t ∷ ks_rounds shifts c d

-- des_key_schedule, of the 8 bytes of a key
unfoldable pub des_key_schedule : List ℕ → List ℕ
des_key_schedule key =
    let t = load64_reflect key in
    let c = permute_64b t pc1c_table_fips46_3 in
    let d = permute_64b t pc1d_table_fips46_3 in ks_rounds shift_tab_fips46_3 c d
