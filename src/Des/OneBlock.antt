-- ===== src/Des/OneBlock.antt =====
-- About enc_dec_1 in both directions.
use intel_ipsec_mb.Base.{
  ℕ, ◌+◌, ◌*◌, ◌/◌, ◌%◌, ◌^◌, ◌<◌, bit_or, Bool, true, false, not, if◌then◌else◌, ◌≡◌, ap₂, List,
  arith,
}
use intel_ipsec_mb.Base.Shift.{or_add, or-lt}
use intel_ipsec_mb.Des.Block.{ip_z, fp_z, enc_rounds, dec_rounds, enc_dec_1}
use intel_ipsec_mb.Des.Inverse.{swap, ip_z-fp_z, dec-enc_rounds, enc-dec_rounds, fp_z-ip_z}
use intel_ipsec_mb.Des.Bounds.{AreWords, ip_z-AreWords, fp_z-AreWords, rounds-AreWords}

-- The two words of a block, the lower one first
abbrev halves : ℕ → ℕ × ℕ
halves block = (block % 2 ^ 32, block / 2 ^ 32 % 2 ^ 32)

halves-AreWords : (block : ℕ) → AreWords (halves block)
halves-AreWords block = (omega arith, omega arith)

-- The block of two words, the upper one first
abbrev joined : ℕ × ℕ → ℕ
joined q = bit_or q.1 (q.0 * 2 ^ 32 % 2 ^ 64)

joined_sum : (q : ℕ × ℕ) → AreWords q → joined q ≡ q.1 + q.0 * 2 ^ 32
joined_sum q w =
    let whole : q.0 * 2 ^ 32 % 2 ^ 64 ≡ q.0 * 2 ^ 32 = omega arith in
    rw whole (or_add 32 q.1 q.0 w.1)

halves-joined : (q : ℕ × ℕ) → AreWords q → halves (joined q) ≡ swap q
halves-joined q w = rw (joined_sum q w) (ap₂ (λ a b. (a, b)) (omega arith) (omega arith))

joined-halves : (block : ℕ) → block < 2 ^ 64 → joined (swap (halves block)) ≡ block
joined-halves block h =
    rw (joined_sum (swap (halves block)) ((halves-AreWords block).1, (halves-AreWords block).0))
      (omega arith)

abbrev middle : List ℕ → Bool → ℕ × ℕ → ℕ × ℕ
middle ks enc p = if enc then enc_rounds ks p else dec_rounds ks p

opposite :
    (ks : List ℕ) (enc : Bool) (p : ℕ × ℕ) → middle ks (not enc) (swap (middle ks enc p)) ≡ swap p
opposite ks true p = dec-enc_rounds ks p
opposite ks false p = enc-dec_rounds ks p

pub enc_dec_1-lt : (block : ℕ) (ks : List ℕ) (enc : Bool) → enc_dec_1 block ks enc < 2 ^ 64
unfolding enc_dec_1
enc_dec_1-lt block ks enc =
    let p = ip_z (halves block) in
    let w = rounds-AreWords ks p enc (ip_z-AreWords _ (halves-AreWords block)) in
    let w' = fp_z-AreWords _ w in or-lt 64 _ _ (omega arith) (omega arith)

-- For any key schedule, enc_dec_1 in one direction and then in the other gives back every 64-bit block.
pub enc_dec_1_round_trip :
    (block : ℕ) (ks : List ℕ) (enc : Bool)
    → block < 2 ^ 64
    → enc_dec_1 (enc_dec_1 block ks enc) ks (not enc) ≡ block
unfolding enc_dec_1
enc_dec_1_round_trip block ks enc h =
    let p = ip_z (halves block) in
    let q = middle ks enc p in
    let words = rounds-AreWords ks p enc (ip_z-AreWords _ (halves-AreWords block)) in
    rw
      (
        halves-joined (fp_z q) (fp_z-AreWords q words),
        ip_z-fp_z q,
        opposite ks enc p,
        fp_z-ip_z (halves block),
      )
      (joined-halves block h)
