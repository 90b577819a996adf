-- ===== src/Iv.antt =====
-- The initialization vectors of the 3GPP ciphers: lib/zuc_iv.c, lib/kasumi_iv.c and lib/snow3g_iv.c. A function gives the bytes
-- that it writes, or `none` where it returns -1. Parameters are of the width of their C types.
use intel_ipsec_mb.Base.{
  ℕ, Bool, ◌+◌, ◌*◌, ◌/◌, ◌%◌, ◌^◌, bit_or, bit_xor, ◌==◌, leb, ltb, ◌||◌, if◌then◌else◌, Option,
  none, some, List, [], ◌∷◌, ◌++◌,
}
pub mod Decode
pub mod Snow3g
mod Tests

-- The byte of a number with the weight 256 ^ i
abbrev pub byte : ℕ → ℕ → ℕ
byte i v = v / 256 ^ i % 256

-- bswap4 of lib/include/wireless_common.h: __builtin_bswap32
abbrev pub bswap4 : ℕ → ℕ
bswap4 v = byte 0 v * 2 ^ 24 + byte 1 v * 2 ^ 16 + byte 2 v * 2 ^ 8 + byte 3 v

-- A 32-bit store on a little-endian machine
abbrev pub store32 : ℕ → List ℕ
store32 v = byte 0 v ∷ byte 1 v ∷ byte 2 v ∷ byte 3 v ∷ []

-- The tests that all but kasumi_f9_iv_gen start with
abbrev pub is_refused : ℕ → ℕ → ℕ → Bool
is_refused bearer dir iv = iv == 0 || leb 32 bearer || ltb 1 dir

-- zuc_eea3_iv_gen
unfoldable pub zuc_eea3_iv_gen : ℕ → ℕ → ℕ → ℕ → Option (List ℕ)
zuc_eea3_iv_gen count bearer dir iv =
    let half = store32 (bswap4 count) ++ ((bearer * 8 + dir * 4) % 256 ∷ 0 ∷ 0 ∷ 0 ∷ []) in
    if is_refused bearer dir iv then none else some (half ++ half)

-- zuc_eia3_iv_gen
unfoldable pub zuc_eia3_iv_gen : ℕ → ℕ → ℕ → ℕ → Option (List ℕ)
zuc_eia3_iv_gen count bearer dir iv =
    let w = bswap4 count in
    let b = bearer * 8 % 256 in
    let d = dir * 128 % 256 in
    if is_refused bearer dir iv
    then none
    else some (
        byte 0 w
        ∷ byte 1 w
        ∷ byte 2 w
        ∷ byte 3 w
        ∷ b
        ∷ 0
        ∷ 0
        ∷ 0
        ∷ bit_xor (byte 0 w) d
        ∷ byte 1 w
        ∷ byte 2 w
        ∷ byte 3 w
        ∷ b
        ∷ 0
        ∷ bit_xor 0 d
        ∷ 0
        ∷ [])

-- kasumi_f8_iv_gen
unfoldable pub kasumi_f8_iv_gen : ℕ → ℕ → ℕ → ℕ → Option (List ℕ)
kasumi_f8_iv_gen count bearer dir iv =
    if is_refused bearer dir iv
    then none
    else some (store32 (bswap4 count) ++ ((bearer * 8 + dir * 4) % 256 ∷ 0 ∷ 0 ∷ 0 ∷ []))

-- kasumi_f9_iv_gen
unfoldable pub kasumi_f9_iv_gen : ℕ → ℕ → ℕ → Option (List ℕ)
kasumi_f9_iv_gen count fresh iv =
    if iv == 0 then none else some (store32 (bswap4 count) ++ store32 (bswap4 fresh))

-- snow3g_f8_iv_gen; the shifts by 27 and 26 of the promoted parameters, in 32 bits
unfoldable pub snow3g_f8_iv_gen : ℕ → ℕ → ℕ → ℕ → Option (List ℕ)
snow3g_f8_iv_gen count bearer dir iv =
    let iv32_3 = bswap4 (bit_or (bearer * 2 ^ 27 % 2 ^ 32) (dir * 2 ^ 26)) in
    let iv32_2 = bswap4 count in
    if is_refused bearer dir iv
    then none
    else some (store32 iv32_2 ++ (store32 iv32_3 ++ (store32 iv32_2 ++ store32 iv32_3)))

-- snow3g_f9_iv_gen
unfoldable pub snow3g_f9_iv_gen : ℕ → ℕ → ℕ → ℕ → Option (List ℕ)
snow3g_f9_iv_gen count fresh dir iv =
    let iv32_3 = bswap4 (bit_xor fresh (dir * 2 ^ 15)) in
    let iv32_2 = bswap4 (bit_xor count (dir * 2 ^ 31 % 2 ^ 32)) in
    if iv == 0 || ltb 1 dir
    then none
    else some
        (store32 (bswap4 count) ++ (store32 (bswap4 fresh) ++ (store32 iv32_2 ++ store32 iv32_3)))
