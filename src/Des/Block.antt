-- ===== src/Des/Block.antt =====
-- One block of DES: the functions of lib/des_basic.c up to enc_dec_1. The variables `pl` and `pr` of a
-- permutation, and `r` and `l` of the rounds, are a pair of 32-bit words.
use intel_ipsec_mb.Base.{
  ℕ, ◌*◌, ◌/◌, ◌%◌, ◌^◌, bit_and, bit_or, bit_xor, Bool, if◌then◌else◌, List, nth,
}
use intel_ipsec_mb.Des.Boxes.{sbox0p, sbox1p, sbox2p, sbox3p, sbox4p, sbox5p, sbox6p, sbox7p}

-- permute_operation, with the new values of `*pa` and `*pb`
abbrev pub permute_operation : ℕ → ℕ → ℕ → ℕ → ℕ × ℕ
permute_operation pa pb n m =
    let t = bit_and (bit_xor pb (pa / 2 ^ n)) m in (bit_xor pa (t * 2 ^ n % 2 ^ 32), bit_xor pb t)

-- permute_operation(pl, pr, n, m) and permute_operation(pr, pl, n, m)
unfoldable pub left_first : ℕ → ℕ → ℕ × ℕ → ℕ × ℕ
left_first n m p = permute_operation p.0 p.1 n m

unfoldable pub right_first : ℕ → ℕ → ℕ × ℕ → ℕ × ℕ
right_first n m p = let q = permute_operation p.1 p.0 n m in (q.1, q.0)

-- ip_z
unfoldable pub ip_z : ℕ × ℕ → ℕ × ℕ
ip_z p =
    let p = right_first 4 0x0f0f0f0f p in
    let p = left_first 16 0x0000ffff p in
    let p = right_first 2 0x33333333 p in
    let p = left_first 8 0x00ff00ff p in right_first 1 0x55555555 p

-- fp_z
unfoldable pub fp_z : ℕ × ℕ → ℕ × ℕ
fp_z p =
    let p = left_first 1 0x55555555 p in
    let p = right_first 8 0x00ff00ff p in
    let p = left_first 2 0x33333333 p in
    let p = right_first 16 0x0000ffff p in left_first 4 0x0f0f0f0f p

abbrev shl64 : ℕ → ℕ → ℕ
shl64 x n = x * 2 ^ n % 2 ^ 64

-- e_phase
unfoldable pub e_phase : ℕ → ℕ
e_phase R =
    let a = bit_or (bit_and (shl64 R 1) 0x3e) (bit_and (R / 2 ^ 31) 1) in
    let b = bit_or a (bit_and (shl64 R 5) 0x3f00) in
    let c = bit_or b (bit_and (shl64 R 9) 0x3f0000) in
    let d = bit_or c (bit_and (shl64 R 13) 0x3f000000) in
    let e = bit_or d (bit_and (shl64 R 17) 0x3f00000000) in
    let f = bit_or e (bit_and (shl64 R 21) 0x3f0000000000) in
    let g = bit_or f (bit_and (shl64 R 25) 0x3f000000000000) in
    let h = bit_or g (bit_and (shl64 R 29) 0x1f00000000000000) in bit_or h (shl64 (bit_and R 1) 61)

-- LOOKUP32_SSE(table, (x >> (8 * i)) & 0x3f, sizeof(table)): the element of the table
abbrev pub lookup : List ℕ → ℕ → ℕ → ℕ
lookup table x i = nth 0 table (bit_and (x / 2 ^ (8 * i)) 0x3f)

-- fRK
unfoldable pub f_rk : ℕ → ℕ → ℕ
f_rk R K =
    let x = bit_xor (e_phase R) K in
    let a = bit_or (lookup sbox0p x 0) (lookup sbox1p x 1) in
    let b = bit_or a (lookup sbox2p x 2) in
    let c = bit_or b (lookup sbox3p x 3) in
    let d = bit_or c (lookup sbox4p x 4) in
    let e = bit_or d (lookup sbox5p x 5) in
    let f = bit_or e (lookup sbox6p x 6) in bit_or f (lookup sbox7p x 7)

-- l ^= f_rk(r, ks[i]), on a pair of `r` and `l`
unfoldable pub round_l : List ℕ → ℕ → ℕ × ℕ → ℕ × ℕ
round_l ks i p = (p.0, bit_xor p.1 (f_rk p.0 (nth 0 ks i)))

-- r ^= f_rk(l, ks[i])
unfoldable pub round_r : List ℕ → ℕ → ℕ × ℕ → ℕ × ℕ
round_r ks i p = (bit_xor p.0 (f_rk p.1 (nth 0 ks i)), p.1)

-- Two lines of enc_dec_1
unfoldable pub two_rounds : List ℕ → ℕ → ℕ → ℕ × ℕ → ℕ × ℕ
two_rounds ks i j p = round_r ks j (round_l ks i p)

-- The rounds where `enc` holds
unfoldable pub enc_rounds : List ℕ → ℕ × ℕ → ℕ × ℕ
enc_rounds ks p =
    let p = two_rounds ks 0 1 p in
    let p = two_rounds ks 2 3 p in
    let p = two_rounds ks 4 5 p in
    let p = two_rounds ks 6 7 p in
    let p = two_rounds ks 8 9 p in
    let p = two_rounds ks 10 11 p in let p = two_rounds ks 12 13 p in two_rounds ks 14 15 p

-- The rounds where it does not
unfoldable pub dec_rounds : List ℕ → ℕ × ℕ → ℕ × ℕ
dec_rounds ks p =
    let p = two_rounds ks 15 14 p in
    let p = two_rounds ks 13 12 p in
    let p = two_rounds ks 11 10 p in
    let p = two_rounds ks 9 8 p in
    let p = two_rounds ks 7 6 p in
    let p = two_rounds ks 5 4 p in let p = two_rounds ks 3 2 p in two_rounds ks 1 0 p

-- enc_dec_1
unfoldable pub enc_dec_1 : ℕ → List ℕ → Bool → ℕ
enc_dec_1 block ks enc =
    let p = ip_z (block % 2 ^ 32, block / 2 ^ 32 % 2 ^ 32) in
    let q = fp_z (if enc then enc_rounds ks p else dec_rounds ks p) in
    bit_or q.1 (q.0 * 2 ^ 32 % 2 ^ 64)
