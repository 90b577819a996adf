-- ===== src/Des/Inverse.antt =====
-- About one block: the permutations and the rounds in opposite directions.
use intel_ipsec_mb.Base.{
  ℕ, ◌*◌, ◌/◌, ◌%◌, ◌^◌, ◌≤◌, bit_and, bit_xor, ◌≡◌, refl, ap, ap₂, List, arith, nth,
}
use intel_ipsec_mb.Base.Digit.{xor_twice, xor_cancel, and_le}
use intel_ipsec_mb.Base.Shift.{shift-bit_xor}
use intel_ipsec_mb.Des.Block.{
  permute_operation, left_first, right_first, ip_z, fp_z, f_rk, round_l, round_r, two_rounds,
  enc_rounds, dec_rounds,
}

abbrev pub swap : ℕ × ℕ → ℕ × ℕ
swap p = (p.1, p.0)

-- A word that stays below 2 ^ 32 when it is shifted
abbrev Fits : ℕ → ℕ → Type 0
Fits n m = (t : ℕ) → t ≤ m → t * 2 ^ n % 2 ^ 32 / 2 ^ n ≡ t

-- The word that permute_operation adds is the same when it runs again.
same_word :
    (pa pb n m : ℕ)
    → Fits n m
    → let q = permute_operation pa pb n m in
      bit_and (bit_xor q.1 (q.0 / 2 ^ n)) m ≡ bit_and (bit_xor pb (pa / 2 ^ n)) m
same_word pa pb n m h =
    let t = bit_and (bit_xor pb (pa / 2 ^ n)) m in
    let back = h t (and_le (bit_xor pb (pa / 2 ^ n)) m) in
    rw (shift-bit_xor n pa (t * 2 ^ n % 2 ^ 32), back, xor_cancel pb (pa / 2 ^ n) t) refl

permute_twice :
    (pa pb n m : ℕ)
    → Fits n m
    → let q = permute_operation pa pb n m in permute_operation q.0 q.1 n m ≡ (pa, pb)
permute_twice pa pb n m h =
    let t = bit_and (bit_xor pb (pa / 2 ^ n)) m in
    rw (same_word pa pb n m h)
      (ap₂ (λ a b. (a, b)) (xor_twice pa (t * 2 ^ n % 2 ^ 32)) (xor_twice pb t))

left_twice : (n m : ℕ) (p : ℕ × ℕ) → Fits n m → left_first n m (left_first n m p) ≡ p
unfolding left_first
left_twice n m p h = permute_twice p.0 p.1 n m h

right_twice : (n m : ℕ) (p : ℕ × ℕ) → Fits n m → right_first n m (right_first n m p) ≡ p
unfolding right_first
right_twice n m p h = ap swap (permute_twice p.1 p.0 n m h)

swap-left : (n m : ℕ) (p : ℕ × ℕ) → left_first n m (swap p) ≡ swap (right_first n m p)
unfolding left_first right_first
swap-left n m p = refl

swap-right : (n m : ℕ) (p : ℕ × ℕ) → right_first n m (swap p) ≡ swap (left_first n m p)
unfolding left_first right_first
swap-right n m p = refl

Fits-1 : Fits 1 0x55555555
Fits-1 t h = omega arith

Fits-2 : Fits 2 0x33333333
Fits-2 t h = omega arith

Fits-4 : Fits 4 0x0f0f0f0f
Fits-4 t h = omega arith

Fits-8 : Fits 8 0x00ff00ff
Fits-8 t h = omega arith

Fits-16 : Fits 16 0x0000ffff
Fits-16 t h = omega arith

-- ip_z after fp_z, with the words swapped in between as enc_dec_1 does, swaps the words.
pub ip_z-fp_z : (p : ℕ × ℕ) → ip_z (swap (fp_z p)) ≡ swap p
unfolding ip_z fp_z
ip_z-fp_z p =
    let a = left_first 1 0x55555555 p in
    let b = right_first 8 0x00ff00ff a in
    let c = left_first 2 0x33333333 b in
    let d = right_first 16 0x0000ffff c in
    let e = left_first 4 0x0f0f0f0f d in
    rw
      (
        swap-right 4 0x0f0f0f0f e,
        left_twice 4 0x0f0f0f0f d Fits-4,
        swap-left 16 0x0000ffff d,
        right_twice 16 0x0000ffff c Fits-16,
        swap-right 2 0x33333333 c,
        left_twice 2 0x33333333 b Fits-2,
        swap-left 8 0x00ff00ff b,
        right_twice 8 0x00ff00ff a Fits-8,
        swap-right 1 0x55555555 a,
        left_twice 1 0x55555555 p Fits-1,
      )
      refl

pub fp_z-ip_z : (p : ℕ × ℕ) → fp_z (swap (ip_z p)) ≡ swap p
unfolding ip_z fp_z
fp_z-ip_z p =
    let a = right_first 4 0x0f0f0f0f p in
    let b = left_first 16 0x0000ffff a in
    let c = right_first 2 0x33333333 b in
    let d = left_first 8 0x00ff00ff c in
    let e = right_first 1 0x55555555 d in
    rw
      (
        swap-left 1 0x55555555 e,
        right_twice 1 0x55555555 d Fits-1,
        swap-right 8 0x00ff00ff d,
        left_twice 8 0x00ff00ff c Fits-8,
        swap-left 2 0x33333333 c,
        right_twice 2 0x33333333 b Fits-2,
        swap-right 16 0x0000ffff b,
        left_twice 16 0x0000ffff a Fits-16,
        swap-left 4 0x0f0f0f0f a,
        right_twice 4 0x0f0f0f0f p Fits-4,
      )
      refl

undo_l : (ks : List ℕ) (i : ℕ) (p : ℕ × ℕ) → round_l ks i (swap (round_r ks i p)) ≡ swap p
unfolding round_l round_r
undo_l ks i p = ap (λ x. (p.1, x)) (xor_twice p.0 (f_rk p.1 (nth 0 ks i)))

undo_r : (ks : List ℕ) (i : ℕ) (p : ℕ × ℕ) → round_r ks i (swap (round_l ks i p)) ≡ swap p
unfolding round_l round_r
undo_r ks i p = ap (λ x. (x, p.0)) (xor_twice p.1 (f_rk p.0 (nth 0 ks i)))

undo_two :
    (ks : List ℕ) (i j : ℕ) (p : ℕ × ℕ) → two_rounds ks j i (swap (two_rounds ks i j p)) ≡ swap p
unfolding two_rounds
undo_two ks i j p = rw (undo_l ks j (round_l ks i p)) (undo_r ks i p)

pub dec-enc_rounds : (ks : List ℕ) (p : ℕ × ℕ) → dec_rounds ks (swap (enc_rounds ks p)) ≡ swap p
unfolding enc_rounds dec_rounds
dec-enc_rounds ks p =
    let a = two_rounds ks 0 1 p in
    let b = two_rounds ks 2 3 a in
    let c = two_rounds ks 4 5 b in
    let d = two_rounds ks 6 7 c in
    let e = two_rounds ks 8 9 d in
    let f = two_rounds ks 10 11 e in
    let g = two_rounds ks 12 13 f in
    rw
      (
        undo_two ks 14 15 g,
        undo_two ks 12 13 f,
        undo_two ks 10 11 e,
        undo_two ks 8 9 d,
        undo_two ks 6 7 c,
        undo_two ks 4 5 b,
        undo_two ks 2 3 a,
      )
      (undo_two ks 0 1 p)

pub enc-dec_rounds : (ks : List ℕ) (p : ℕ × ℕ) → enc_rounds ks (swap (dec_rounds ks p)) ≡ swap p
unfolding enc_rounds dec_rounds
enc-dec_rounds ks p =
    let a = two_rounds ks 15 14 p in
    let b = two_rounds ks 13 12 a in
    let c = two_rounds ks 11 10 b in
    let d = two_rounds ks 9 8 c in
    let e = two_rounds ks 7 6 d in
    let f = two_rounds ks 5 4 e in
    let g = two_rounds ks 3 2 f in
    rw
      (
        undo_two ks 1 0 g,
        undo_two ks 3 2 f,
        undo_two ks 5 4 e,
        undo_two ks 7 6 d,
        undo_two ks 9 8 c,
        undo_two ks 11 10 b,
        undo_two ks 13 12 a,
      )
      (undo_two ks 15 14 p)
