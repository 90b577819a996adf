-- ===== src/Iv/Snow3g.antt =====
-- About reading the vectors that lib/snow3g_iv.c makes.
use intel_ipsec_mb.Base.{
  ℕ, ◌+◌, ◌*◌, ◌%◌, ◌^◌, ◌<◌, bit_or, bit_xor, ◌≡◌, ◌≢◌, refl, ap, none, some, List, [], ◌∷◌, ◌++◌,
  arith, ◌∙◌, Bool, true, false, if◌then◌else◌,
}
use intel_ipsec_mb.Base.Digit.{xor_twice, or_comm}
use intel_ipsec_mb.Base.Shift.{or_add, xor-lt}
use intel_ipsec_mb.Iv.{
  byte, is_refused, bswap4, store32, snow3g_f8_iv_gen, snow3g_f9_iv_gen, zuc_eea3_iv_gen,
}
use intel_ipsec_mb.Iv.Decode.{number, bswap4-byte}

-- The word with the bearer and the direction, in memory
bearer_dir :
    (bearer dir : ℕ)
    → bearer < 32
    → dir < 2
    → store32 (bswap4 (bit_or (bearer * 2 ^ 27 % 2 ^ 32) (dir * 2 ^ 26)))
      ≡ (bearer * 8 + dir * 4) % 256 ∷ 0 ∷ 0 ∷ 0 ∷ []
bearer_dir bearer dir lb ld =
    let inside : bearer * 2 ^ 27 % 2 ^ 32 ≡ bearer * 2 ^ 27 = omega arith in
    let w = dir * 2 ^ 26 + bearer * 2 ^ 27 in
    let joined : bit_or (bearer * 2 ^ 27 % 2 ^ 32) (dir * 2 ^ 26) ≡ w =
      rw inside (
        or_comm (bearer * 2 ^ 27) (dir * 2 ^ 26) ∙ or_add 27 (dir * 2 ^ 26) bearer (omega arith)) in
    let first : byte 0 (bswap4 w) ≡ (bearer * 8 + dir * 4) % 256 = omega arith in
    let second : byte 1 (bswap4 w) ≡ 0 = omega arith in
    let third : byte 2 (bswap4 w) ≡ 0 = omega arith in
    let fourth : byte 3 (bswap4 w) ≡ 0 = omega arith in
    rw (joined, first, second, third, fourth) refl

-- snow3g_f8_iv_gen writes the same vector as zuc_eea3_iv_gen, and refuses the same parameters.
pub snow3g_f8-zuc_eea3 :
    (count bearer dir iv : ℕ)
    → snow3g_f8_iv_gen count bearer dir iv ≡ zuc_eea3_iv_gen count bearer dir iv
unfolding snow3g_f8_iv_gen zuc_eea3_iv_gen
snow3g_f8-zuc_eea3 count bearer dir iv = unless (is_refused bearer dir iv) (λ allowed.
    ap (λ tail. store32 (bswap4 count) ++ (tail ++ (store32 (bswap4 count) ++ tail)))
      (bearer_dir bearer dir (ground arith) (ground arith)))
  where
    unless :
        (refused : Bool) {x y : List ℕ}
        → (refused ≡ false → x ≡ y)
        → (if refused then none else some x) ≡ (if refused then none else some y)
    unless true h = refl
    unless false h = ap some (h refl)

-- What can be read from a vector of the SNOW3G F9 function.
abbrev pub IsSnow3gF9 : ℕ → ℕ → ℕ → List ℕ → Type 0
IsSnow3gF9 count fresh dir (a ∷ b ∷ c ∷ d ∷ e ∷ f ∷ g ∷ h ∷ i ∷ j ∷ k ∷ l ∷ rest) =
    (number (a ∷ b ∷ c ∷ d ∷ []) ≡ count)
    × (number (e ∷ f ∷ g ∷ h ∷ []) ≡ fresh)
    × (bit_xor (number (i ∷ j ∷ k ∷ l ∷ [])) (dir * 2 ^ 31) ≡ count)
    × (bit_xor (number rest) (dir * 2 ^ 15) ≡ fresh)
IsSnow3gF9 count fresh dir _ = ⊥

-- snow3g_f9_iv_gen with a direction of 1 bit and a buffer makes a vector from which the count and the fresh
-- value can be read, and again from its second half by exclusive or with the direction: at bit 31 of the count
-- and bit 15 of the fresh value.
pub snow3g_f9_iv_gen-IsSnow3gF9 :
    (count fresh dir iv : ℕ)
    → count < 2 ^ 32
    → fresh < 2 ^ 32
    → dir < 2
    → iv ≢ 0
    → (bytes : List ℕ) × (snow3g_f9_iv_gen count fresh dir iv ≡ some bytes)
      × IsSnow3gF9 count fresh dir bytes
unfolding snow3g_f9_iv_gen
snow3g_f9_iv_gen-IsSnow3gF9 count fresh dir iv lc lf ld ne =
    let x = bit_xor count (dir * 2 ^ 31 % 2 ^ 32) in
    let y = bit_xor fresh (dir * 2 ^ 15) in
    let inside : dir * 2 ^ 31 % 2 ^ 32 ≡ dir * 2 ^ 31 = omega arith in
    (
      store32 (bswap4 count)
          ++ (store32 (bswap4 fresh) ++ (store32 (bswap4 x) ++ store32 (bswap4 y))),
      ground arith,
      (
        bswap4-byte count lc,
        bswap4-byte fresh lf,
        ap (λ n. bit_xor n (dir * 2 ^ 31))
              (bswap4-byte x (xor-lt 32 count _ lc (omega arith)) ∙ ap (bit_xor count) inside)
            ∙ xor_twice count (dir * 2 ^ 31),
        ap (λ n. bit_xor n (dir * 2 ^ 15)) (bswap4-byte y (xor-lt 32 fresh _ lf (omega arith)))
            ∙ xor_twice fresh (dir * 2 ^ 15),
      ),
    )
