-- ===== src/Des/Bounds.antt =====
-- About the widths of the words and the indices of one block.
use intel_ipsec_mb.Base.{
  ℕ, zero, suc, ◌*◌, ◌/◌, ◌%◌, ◌^◌, ◌<◌, bit_and, bit_xor, Bool, true, ◌&&◌, if◌then◌else◌, ltb,
  ltb→lt, ◌≡◌, refl, List, [], ◌∷◌, arith, nth, both_branches,
}
use intel_ipsec_mb.Base.Digit.{and_le}
use intel_ipsec_mb.Base.Shift.{xor-lt, or-lt}
use intel_ipsec_mb.Des.Boxes.{sbox0p, sbox1p, sbox2p, sbox3p, sbox4p, sbox5p, sbox6p, sbox7p}
use intel_ipsec_mb.Des.Block.{
  permute_operation, left_first, right_first, ip_z, fp_z, lookup, f_rk, round_l, round_r,
  two_rounds, enc_rounds, dec_rounds, e_phase,
}

-- Two words of 32 bits
abbrev pub AreWords : ℕ × ℕ → Type 0
AreWords p = (p.0 < 2 ^ 32) × (p.1 < 2 ^ 32)

permute_operation-AreWords :
    (pa pb n m : ℕ)
    → m < 2 ^ 32
    → pa < 2 ^ 32
    → pb < 2 ^ 32
    → AreWords (permute_operation pa pb n m)
permute_operation-AreWords pa pb n m h ha hb =
    let t = bit_and (bit_xor pb (pa / 2 ^ n)) m in
    (
      xor-lt 32 pa (t * 2 ^ n % 2 ^ 32) ha (omega arith),
      xor-lt 32 pb t hb (omega (arith, and_le (bit_xor pb (pa / 2 ^ n)) m)),
    )

left_first-AreWords : (n m : ℕ) (p : ℕ × ℕ) → m < 2 ^ 32 → AreWords p → AreWords (left_first n m p)
unfolding left_first
left_first-AreWords n m p h w = permute_operation-AreWords p.0 p.1 n m h w.0 w.1

right_first-AreWords :
    (n m : ℕ) (p : ℕ × ℕ) → m < 2 ^ 32 → AreWords p → AreWords (right_first n m p)
unfolding right_first
right_first-AreWords n m p h w =
    let q = permute_operation-AreWords p.1 p.0 n m h w.1 w.0 in (q.1, q.0)

pub ip_z-AreWords : (p : ℕ × ℕ) → AreWords p → AreWords (ip_z p)
unfolding ip_z
ip_z-AreWords p w =
    let a = right_first-AreWords 4 0x0f0f0f0f p (omega arith) w in
    let b = left_first-AreWords 16 0x0000ffff _ (omega arith) a in
    let c = right_first-AreWords 2 0x33333333 _ (omega arith) b in
    let d = left_first-AreWords 8 0x00ff00ff _ (omega arith) c in
    right_first-AreWords 1 0x55555555 _ (omega arith) d

pub fp_z-AreWords : (p : ℕ × ℕ) → AreWords p → AreWords (fp_z p)
unfolding fp_z
fp_z-AreWords p w =
    let a = left_first-AreWords 1 0x55555555 p (omega arith) w in
    let b = right_first-AreWords 8 0x00ff00ff _ (omega arith) a in
    let c = left_first-AreWords 2 0x33333333 _ (omega arith) b in
    let d = right_first-AreWords 16 0x0000ffff _ (omega arith) c in
    left_first-AreWords 4 0x0f0f0f0f _ (omega arith) d

-- Every element of a table is a word.
all_words : List ℕ → Bool
all_words [] = true
all_words (x ∷ xs) = ltb x (2 ^ 32) && all_words xs

nth-word : (table : List ℕ) (i : ℕ) → all_words table ≡ true → nth 0 table i < 2 ^ 32
unfolding all_words
nth-word [] i h = omega arith
nth-word (x ∷ xs) zero h = ltb→lt x (2 ^ 32) (ground arith)
nth-word (x ∷ xs) (suc i) h = nth-word xs i (ground arith)

lookup-word : (table : List ℕ) (x i : ℕ) → all_words table ≡ true → lookup table x i < 2 ^ 32
lookup-word table x i h = nth-word table (bit_and (x / 2 ^ (8 * i)) 0x3f) h

-- The index of a lookup is one of the table's.
lookup_index : (x i : ℕ) → bit_and (x / 2 ^ (8 * i)) 0x3f < 64
lookup_index x i = omega (arith, and_le (x / 2 ^ (8 * i)) 0x3f)

pub f_rk-lt : (R K : ℕ) → f_rk R K < 2 ^ 32
unfolding f_rk all_words
f_rk-lt R K =
    let x = bit_xor (e_phase R) K in
    let a = or-lt 32 _ _ (lookup-word sbox0p x 0 refl) (lookup-word sbox1p x 1 refl) in
    let b = or-lt 32 _ _ a (lookup-word sbox2p x 2 refl) in
    let c = or-lt 32 _ _ b (lookup-word sbox3p x 3 refl) in
    let d = or-lt 32 _ _ c (lookup-word sbox4p x 4 refl) in
    let e = or-lt 32 _ _ d (lookup-word sbox5p x 5 refl) in
    let f = or-lt 32 _ _ e (lookup-word sbox6p x 6 refl) in
    or-lt 32 _ _ f (lookup-word sbox7p x 7 refl)

two_rounds-AreWords :
    (ks : List ℕ) (i j : ℕ) (p : ℕ × ℕ) → AreWords p → AreWords (two_rounds ks i j p)
unfolding two_rounds round_l round_r
two_rounds-AreWords ks i j p w =
    let l = xor-lt 32 p.1 (f_rk p.0 (nth 0 ks i)) w.1 (f_rk-lt p.0 (nth 0 ks i)) in
    (xor-lt 32 p.0 _ w.0 (f_rk-lt _ (nth 0 ks j)), l)

enc_rounds-AreWords : (ks : List ℕ) (p : ℕ × ℕ) → AreWords p → AreWords (enc_rounds ks p)
unfolding enc_rounds
enc_rounds-AreWords ks p w =
    let a = two_rounds-AreWords ks 0 1 p w in
    let b = two_rounds-AreWords ks 2 3 _ a in
    let c = two_rounds-AreWords ks 4 5 _ b in
    let d = two_rounds-AreWords ks 6 7 _ c in
    let e = two_rounds-AreWords ks 8 9 _ d in
    let f = two_rounds-AreWords ks 10 11 _ e in
    let g = two_rounds-AreWords ks 12 13 _ f in two_rounds-AreWords ks 14 15 _ g

dec_rounds-AreWords : (ks : List ℕ) (p : ℕ × ℕ) → AreWords p → AreWords (dec_rounds ks p)
unfolding dec_rounds
dec_rounds-AreWords ks p w =
    let a = two_rounds-AreWords ks 15 14 p w in
    let b = two_rounds-AreWords ks 13 12 _ a in
    let c = two_rounds-AreWords ks 11 10 _ b in
    let d = two_rounds-AreWords ks 9 8 _ c in
    let e = two_rounds-AreWords ks 7 6 _ d in
    let f = two_rounds-AreWords ks 5 4 _ e in
    let g = two_rounds-AreWords ks 3 2 _ f in two_rounds-AreWords ks 1 0 _ g

pub rounds-AreWords :
    (ks : List ℕ) (p : ℕ × ℕ) (enc : Bool)
    → AreWords p
    → AreWords (if enc then enc_rounds ks p else dec_rounds ks p)
rounds-AreWords ks p enc w =
    both_branches AreWords enc _ _ (λ _. enc_rounds-AreWords ks p w)
      (λ _. dec_rounds-AreWords ks p w)
