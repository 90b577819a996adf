-- ===== src/Iv/Decode.antt =====
-- About reading the vectors that lib/zuc_iv.c and lib/kasumi_iv.c make.
use intel_ipsec_mb.Base.{
  ℕ, zero, suc, ◌+◌, ◌*◌, ◌/◌, ◌%◌, ◌^◌, ◌<◌, bit_xor, ◌≡◌, ◌≢◌, refl, ap₂, some, List, [], ◌∷◌,
  ◌++◌, arith,
}
use intel_ipsec_mb.Base.Table.{agrees, agrees-below}
use intel_ipsec_mb.Iv.{byte, bswap4, store32, zuc_eea3_iv_gen, zuc_eia3_iv_gen}

-- A big-endian number
abbrev pub number : List ℕ → ℕ
number (a ∷ b ∷ c ∷ d ∷ []) = a * 2 ^ 24 + b * 2 ^ 16 + c * 2 ^ 8 + d
number _ = 0

pub bswap4-byte : (v : ℕ) → v < 2 ^ 32 → number (store32 (bswap4 v)) ≡ v
bswap4-byte v l = omega arith

-- What can be read from a vector of EEA3: the count, the bearer and the direction.
abbrev pub IsEea3 : ℕ → ℕ → ℕ → List ℕ → Type 0
IsEea3 count bearer dir (a ∷ b ∷ c ∷ d ∷ e ∷ rest) =
    (number (a ∷ b ∷ c ∷ d ∷ []) ≡ count)
    × (e / 8 ≡ bearer)
    × (e / 4 % 2 ≡ dir)
    × (rest ≡ 0 ∷ 0 ∷ 0 ∷ a ∷ b ∷ c ∷ d ∷ e ∷ 0 ∷ 0 ∷ 0 ∷ [])
IsEea3 count bearer dir _ = ⊥

-- zuc_eea3_iv_gen with a bearer of 5 bits, a direction of 1 bit and a buffer makes a vector from which the
-- count, the bearer and the direction can be read, and whose second half repeats the first.
pub zuc_eea3_iv_gen-IsEea3 :
    (count bearer dir iv : ℕ)
    → count < 2 ^ 32
    → bearer < 32
    → dir < 2
    → iv ≢ 0
    → (bytes : List ℕ) × (zuc_eea3_iv_gen count bearer dir iv ≡ some bytes)
      × IsEea3 count bearer dir bytes
unfolding zuc_eea3_iv_gen
zuc_eea3_iv_gen-IsEea3 count bearer dir iv lc lb ld ne =
    let w = bswap4 count in
    (
      (store32 w ++ ((bearer * 8 + dir * 4) % 256 ∷ 0 ∷ 0 ∷ 0 ∷ []))
          ++ (store32 w ++ ((bearer * 8 + dir * 4) % 256 ∷ 0 ∷ 0 ∷ 0 ∷ [])),
      ground arith,
      (bswap4-byte count lc, omega arith, omega arith, refl),
    )

-- Exclusive or with a top bit, for each byte
flip_top : (b : ℕ) → b < 256 → bit_xor b 128 ≡ (b + 128) % 256
unfolding agrees
flip_top = agrees-below (λ b. bit_xor b 128) (λ b. (b + 128) % 256) 256 refl

keep_top : (b : ℕ) → b < 256 → bit_xor b 0 ≡ b
unfolding agrees
keep_top = agrees-below (λ b. bit_xor b 0) (λ b. b) 256 refl

xor_top : (b dir : ℕ) → b < 256 → dir < 2 → bit_xor b (dir * 128 % 256) ≡ (b + dir * 128) % 256
xor_top b zero lb ld = ground (arith, keep_top b lb)
xor_top b (suc zero) lb ld = flip_top b lb
xor_top b (suc (suc dir)) lb ld = absurd (omega arith)

-- What can be read from a vector of EIA3: the direction is added to the top bits of two bytes.
abbrev pub IsEia3 : ℕ → ℕ → ℕ → List ℕ → Type 0
IsEia3 count bearer dir (a ∷ b ∷ c ∷ d ∷ e ∷ rest) =
    (number (a ∷ b ∷ c ∷ d ∷ []) ≡ count)
    × (e / 8 ≡ bearer)
    × (rest ≡ 0 ∷ 0 ∷ 0 ∷ (a + dir * 128) % 256 ∷ b ∷ c ∷ d ∷ e ∷ 0 ∷ dir * 128 ∷ 0 ∷ [])
IsEia3 count bearer dir _ = ⊥

-- zuc_eia3_iv_gen with a bearer of 5 bits, a direction of 1 bit and a buffer makes a vector from which the
-- count and the bearer can be read. Its second half is the first with the direction in the top bits of the
-- bytes 8 and 14.
pub zuc_eia3_iv_gen-IsEia3 :
    (count bearer dir iv : ℕ)
    → count < 2 ^ 32
    → bearer < 32
    → dir < 2
    → iv ≢ 0
    → (bytes : List ℕ) × (zuc_eia3_iv_gen count bearer dir iv ≡ some bytes)
      × IsEia3 count bearer dir bytes
unfolding zuc_eia3_iv_gen
zuc_eia3_iv_gen-IsEia3 count bearer dir iv lc lb ld ne =
    let w = bswap4 count in
    let b = bearer * 8 % 256 in
    let d = dir * 128 % 256 in
    (
      byte 0 w
          ∷ byte 1 w
          ∷ byte 2 w
          ∷ byte 3 w
          ∷ b
          ∷ 0
          ∷ 0
          ∷ 0
          ∷ bit_xor (byte 0 w) d
          ∷ byte 1 w
          ∷ byte 2 w
          ∷ byte 3 w
          ∷ b
          ∷ 0
          ∷ bit_xor 0 d
          ∷ 0
          ∷ [],
      ground arith,
      (
        bswap4-byte count lc,
        omega arith,
        ap₂ (λ s t. 0 ∷ 0 ∷ 0 ∷ s ∷ byte 1 w ∷ byte 2 w ∷ byte 3 w ∷ b ∷ 0 ∷ t ∷ 0 ∷ [])
            (xor_top (byte 0 w) dir (omega arith) ld)
            (omega (arith, xor_top 0 dir (omega arith) ld)),
      ),
    )

-- What can be read from a vector of the KASUMI F8 function.
abbrev pub IsF8 : ℕ → ℕ → ℕ → List ℕ → Type 0
IsF8 count bearer dir (a ∷ b ∷ c ∷ d ∷ e ∷ rest) =
    (number (a ∷ b ∷ c ∷ d ∷ []) ≡ count)
    × (e / 8 ≡ bearer)
    × (e / 4 % 2 ≡ dir)
    × (rest ≡ 0 ∷ 0 ∷ 0 ∷ [])
IsF8 count bearer dir _ = ⊥

-- What can be read from a vector of the KASUMI F9 function.
abbrev pub IsF9 : ℕ → ℕ → List ℕ → Type 0
IsF9 count fresh (a ∷ b ∷ c ∷ d ∷ rest) =
    (number (a ∷ b ∷ c ∷ d ∷ []) ≡ count) × (number rest ≡ fresh)
IsF9 count fresh _ = ⊥
