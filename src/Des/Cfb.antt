-- ===== src/Des/Cfb.antt =====
-- About the partial block of DOCSIS DES: cfb_one_basic of lib/des_basic.c against exclusive or byte by byte.
use intel_ipsec_mb.Base.{
  ℕ, zero, suc, ◌+◌, ◌-◌, ◌*◌, ◌/◌, ◌%◌, ◌^◌, ◌<◌, bit_xor, ◌≡◌, refl, ap₂, ap, ◌∙◌, sym, Bool,
  true, false, fun_ext, ◌&&◌, if◌then◌else◌, leb, ltb, arith,
}
use native.Mathlib.Omega.{pow_step}
use native.Mathlib.Nat.{div-div-eq-div-mul}
use intel_ipsec_mb.Base.Memory.{Memory, load, AreBytes}
use intel_ipsec_mb.Base.Shift.{xor_split, xor-lt}
use intel_ipsec_mb.Des.Modes.{xor_copy}

-- The first `size` bytes with the bytes of `t`
abbrev pub xor_bytes : Memory → ℕ → ℕ → ℕ → ℕ → Memory
xor_bytes mem src dst size t x =
    if leb dst x && ltb x (dst + size)
    then bit_xor (mem (src + (x - dst))) (t / 256 ^ (x - dst) % 256)
    else mem x

pub xor_low_byte :
    (m rest t : ℕ)
    → m < 256
    → bit_xor (m + 256 * rest) t ≡ bit_xor m (t % 256) + 256 * bit_xor rest (t / 256)
xor_low_byte m rest t h =
    let left : m + 256 * rest ≡ m + rest * 2 ^ 8 = omega arith in
    let right : t ≡ t % 256 + t / 256 * 2 ^ 8 = omega arith in
    ap₂ bit_xor left right ∙ omega (arith, xor_split 8 m (t % 256) rest (t / 256) h (omega arith))

pub next_shift : (k t : ℕ) → t / 256 / 256 ^ k ≡ t / 256 ^ suc k
next_shift k t = rw (div-div-eq-div-mul t 256 (256 ^ k)) (ap (λ p. t / p) (sym (pow_step 256 k)))

pub no_shift : (t : ℕ) → t / 256 ^ 0 ≡ t
no_shift t = div_one t
  where
    div_one : (t : ℕ) → t / 1 ≡ t
    div_one t = omega arith

-- A byte of an exclusive or with what is in memory
pub xor_byte :
    (mem : Memory) (n k a t : ℕ)
    → AreBytes mem
    → k < n
    → bit_xor (load mem a n) t / 256 ^ k % 256 ≡ bit_xor (mem (a + k)) (t / 256 ^ k % 256)
unfolding load
xor_byte mem zero k a t h l = absurd (omega arith)
xor_byte mem (suc n) zero a t h l =
    let here : a + 0 ≡ a = omega arith in
    let low = xor-lt 8 (mem a) (t % 256) (h a) (omega arith) in
    rw (no_shift (bit_xor (mem a + 256 * load mem (suc a) n) t), no_shift t, here)
      (omega (arith, low, xor_low_byte (mem a) (load mem (suc a) n) t (h a)))
xor_byte mem (suc n) (suc k) a t h l =
    let low = xor-lt 8 (mem a) (t % 256) (h a) (omega arith) in
    let rest = load mem (suc a) n in
    let next : bit_xor (mem a + 256 * rest) t / 256 ≡ bit_xor rest (t / 256) =
      omega (arith, low, xor_low_byte (mem a) rest t (h a)) in
    let there : a + suc k ≡ suc a + k = omega arith in
    rw (sym (next_shift k (bit_xor (mem a + 256 * rest) t)), next, sym (next_shift k t), there)
      (xor_byte mem n k (suc a) (t / 256) h (omega arith))

-- The bytes below the width of a type are the same after a conversion to it.
abbrev pub KeepsBytes : ℕ → Type 0
KeepsBytes n = (k t : ℕ) → k < n → t % 256 ^ n / 256 ^ k % 256 ≡ t / 256 ^ k % 256

pub one_byte : KeepsBytes 1
one_byte zero t l = ap (λ x. x % 256) (no_shift (t % 256)) ∙ omega (arith, no_shift t)
one_byte (suc k) t l = absurd (omega arith)

pub two_bytes : KeepsBytes 2
two_bytes zero t l = omega (arith, no_shift (t % 256 ^ 2), no_shift t)
two_bytes (suc zero) t l = omega arith
two_bytes (suc (suc k)) t l = absurd (omega arith)

pub four_bytes : KeepsBytes 4
four_bytes zero t l = omega (arith, no_shift (t % 256 ^ 4), no_shift t)
four_bytes (suc zero) t l = omega arith
four_bytes (suc (suc zero)) t l = omega arith
four_bytes (suc (suc (suc zero))) t l = omega arith
four_bytes (suc (suc (suc (suc k)))) t l = absurd (omega arith)

pub xor_copy-xor_bytes :
    (mem : Memory) (src dst n t : ℕ)
    → AreBytes mem
    → KeepsBytes n
    → xor_copy mem src dst n t ≡ xor_bytes mem src dst n t
xor_copy-xor_bytes mem src dst n t h keeps = fun_ext (λ x.
    both_agree (leb dst x && ltb x (dst + n)) _ _ (mem x) (λ e.
      xor_byte mem n (x - dst) src (t % 256 ^ n) h (ground arith)
      ∙ ap (bit_xor (mem (src + (x - dst)))) (keeps (x - dst) t (ground arith))))
  where
    both_agree :
        (b : Bool) (x y z : ℕ) → (b ≡ true → x ≡ y) → (if b then x else z) ≡ (if b then y else z)
    both_agree true x y z h = h refl
    both_agree false x y z h = refl
