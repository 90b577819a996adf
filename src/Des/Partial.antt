-- ===== src/Des/Partial.antt =====
-- About the partial block of DOCSIS DES: the three copies of cfb_one_basic of lib/des_basic.c as one.
use intel_ipsec_mb.Base.{
  ℕ, zero, suc, ◌+◌, ◌-◌, ◌*◌, ◌/◌, ◌%◌, ◌^◌, ◌≤◌, ◌<◌, ◌⊎◌, bit_xor, bit_and, ◌==◌, ◌≢◌, subst,
  inl, inr, ◌≡◌, refl, ap, ◌∙◌, sym, true, false, List, fun_ext, if◌then◌else◌, arith,
}
use native.Mathlib.Decide.{dec_le}
use intel_ipsec_mb.Base.Memory.{Memory, load, AreBytes}
use intel_ipsec_mb.Base.Bits.{low_bit, and_lowest}
use intel_ipsec_mb.Base.Digit.{xor_twice}
use intel_ipsec_mb.Base.Shift.{xor-lt}
use intel_ipsec_mb.Des.Cfb.{
  xor_bytes, no_shift, next_shift, xor_copy-xor_bytes, KeepsBytes, one_byte, two_bytes, four_bytes,
}
use intel_ipsec_mb.Des.Block.{enc_dec_1}
use intel_ipsec_mb.Des.Modes.{not_null, xor_copy, cfb_one_basic, cfb_xor}
use intel_ipsec_mb.Des.Chaining.{AreClear}

-- Two runs of bytes one after the other
join_shift : (a k t : ℕ) → t / 256 ^ a / 256 ^ k ≡ t / 256 ^ (a + k)
join_shift zero k t = let here : 0 + k ≡ k = omega arith in rw (no_shift t, here) refl
join_shift (suc a) k t =
    let further : suc a + k ≡ suc (a + k) = omega arith in
    rw (further, sym (next_shift a t), sym (next_shift (a + k) t)) (join_shift a k (t / 256))

-- An address of the second run
second_run :
    (mem : Memory) (src dst a b t x : ℕ)
    → AreClear src dst (a + b)
    → dst + a ≤ x
    → x < dst + a + b
    → bit_xor
        (xor_bytes mem src dst a t (src + a + (x - (dst + a))))
        (t / 256 ^ a / 256 ^ (x - (dst + a)) % 256)
      ≡ bit_xor (mem (src + (x - dst))) (t / 256 ^ (x - dst) % 256)
second_run mem src dst a b t x c l l' =
    let address : src + a + (x - (dst + a)) ≡ src + (x - dst) = omega arith in
    let index : a + (x - (dst + a)) ≡ x - dst = omega arith in
    let unread : xor_bytes mem src dst a t (src + (x - dst)) ≡ mem (src + (x - dst)) =
      ground arith in
    rw (join_shift a (x - (dst + a)) t, index, address, unread) refl

xor_bytes_join :
    (mem : Memory) (src dst a b t : ℕ)
    → AreClear src dst (a + b)
    → xor_bytes (xor_bytes mem src dst a t) (src + a) (dst + a) b (t / 256 ^ a)
      ≡ xor_bytes mem src dst (a + b) t
xor_bytes_join mem src dst a b t c = fun_ext (λ x. elim (dec_le (dst + a) x) [
  | no low ↦ ground arith
  | yes high ↦ elim (dec_le (dst + a + b) x) [
    | yes after ↦ ground arith
    | no within ↦ ground (arith, second_run mem src dst a b t x c high (omega arith))
  ]
])

pub xor_bytes-AreBytes :
    (mem : Memory) (src dst n t : ℕ) → AreBytes mem → AreBytes (xor_bytes mem src dst n t)
xor_bytes-AreBytes mem src dst n t h x = ground (
  arith,
  xor-lt 8 (mem (src + (x - dst))) (t / 256 ^ (x - dst) % 256) (h (src + (x - dst))) (omega arith),
  h x,
)

xor_bytes_none : (mem : Memory) (src dst t : ℕ) → xor_bytes mem src dst 0 t ≡ mem
xor_bytes_none mem src dst t = fun_ext (λ x. ground arith)

-- A copy that is left out where the bit of the size is not set
copy_or_none :
    (mem : Memory) (src dst n k t : ℕ)
    → AreBytes mem
    → KeepsBytes n
    → (k ≡ 0) ⊎ (k ≡ n)
    → (if k == 0 then mem else xor_copy mem src dst n t) ≡ xor_bytes mem src dst k t
copy_or_none mem src dst n zero t h keeps c = sym (xor_bytes_none mem src dst t)
copy_or_none mem src dst n (suc k) t h keeps (inl e) = absurd (omega arith)
copy_or_none mem src dst n (suc k) t h keeps (inr e) =
    let nonzero : (suc k == 0) ≡ false = ground arith in
    rw nonzero (
      subst (λ m. xor_copy mem src dst n t ≡ xor_bytes mem src dst m t) (sym e)
        (xor_copy-xor_bytes mem src dst n t h keeps))

second_bit : (size : ℕ) → bit_and size 2 ≡ 2 * (size / 2 % 2)
second_bit size = omega (arith, and_lowest size 2, low_bit (size / 2))

third_bit : (size : ℕ) → bit_and size 4 ≡ 4 * (size / 4 % 2)
third_bit size = omega (arith, and_lowest size 4, second_bit (size / 2))

-- For less than 8 bytes, the copies of 1, 2 and 4 bytes are together the exclusive or with the bytes of `t`.
pub cfb_xor-xor_bytes :
    (mem : Memory) (src dst size t : ℕ)
    → AreBytes mem
    → size < 8
    → AreClear src dst size
    → cfb_xor mem src dst size t ≡ xor_bytes mem src dst size t
unfolding cfb_xor
cfb_xor-xor_bytes mem src dst size t h l c =
    let one = bit_and size 1 in
    let two = bit_and size 2 in
    let four = bit_and size 4 in
    let low = low_bit size in
    let mid = second_bit size in
    let high = third_bit size in
    let whole : one + two + four ≡ size = omega arith in
    let t1 = t / 256 ^ one in
    let first = copy_or_none mem src dst 1 one t h one_byte (ground arith) in
    let m1 = xor_bytes mem src dst one t in
    let h1 = xor_bytes-AreBytes mem src dst one t h in
    let second =
      copy_or_none m1 (src + one) (dst + one) 2 two t1 h1 two_bytes (ground arith)
      ∙ xor_bytes_join mem src dst one two t (ground arith) in
    let m2 = xor_bytes mem src dst (one + two) t in
    let h2 = xor_bytes-AreBytes mem src dst (one + two) t h in
    let place : src + one + two ≡ src + (one + two) = omega arith in
    let place' : dst + one + two ≡ dst + (one + two) = omega arith in
    let third =
      copy_or_none m2 (src + (one + two)) (dst + (one + two)) 4 four (t / 256 ^ (one + two)) h2
        four_bytes (ground arith)
      ∙ xor_bytes_join mem src dst (one + two) four t (ground arith) in
    rw (first, second, join_shift one two t, place, place')
      (third ∙ ap (λ n. xor_bytes mem src dst n t) whole)

-- cfb_one_basic writes the exclusive or of `size` bytes with the bytes of the encrypted block at `ivec`, lowest
-- byte first, and nothing else, for less than 8 bytes, addresses that are not null, and an output that is apart
-- from the input or does not start after it.
pub cfb_one_basic-xor_bytes :
    (mem : Memory) (src dst size ivec : ℕ) (ks : List ℕ)
    → AreBytes mem
    → size < 8
    → src ≢ 0
    → dst ≢ 0
    → ivec ≢ 0
    → AreClear src dst size
    → cfb_one_basic mem src dst size ks ivec
      ≡ xor_bytes mem src dst size (enc_dec_1 (load mem ivec 8) ks true)
unfolding cfb_one_basic
cfb_one_basic-xor_bytes mem src dst size ivec ks h l ne ne' ne'' c =
    rw (not_null src dst ivec ne ne' ne'')
      (cfb_xor-xor_bytes mem src dst size (enc_dec_1 (load mem ivec 8) ks true) h l c)

-- Done twice in place, the exclusive or is undone.
pub xor_bytes_twice :
    (mem : Memory) (p size t : ℕ) → xor_bytes (xor_bytes mem p p size t) p p size t ≡ mem
xor_bytes_twice mem p size t =
    fun_ext (λ x. ground (arith, same_place p x, xor_twice (mem x) (t / 256 ^ (x - p) % 256)))
  where
    same_place : (p x : ℕ) → p ≤ x → p + (x - p) ≡ x
    same_place p x l = omega arith
