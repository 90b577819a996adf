-- ===== src/Base/Memory.antt =====
-- A memory of bytes, with little-endian loads and stores.
use Prim.Native.Nat.{ℕ, zero, suc, ◌+◌, ◌-◌, ◌*◌, ◌/◌, ◌%◌, ◌^◌, ◌≤◌, ◌<◌}
use mathlib.Core.Path.{◌≡◌, refl, sym, ap, subst}
use mathlib.Core.Logic.{◌⊎◌}
use mathlib.Core.Bool.{◌&&◌}
use native.Mathlib.Omega.{arith, pow_step}
use native.Mathlib.Nat.{div-div-eq-div-mul}
use native.Mathlib.Decide.{ℕ_discrete}
use intel_ipsec_mb.Base.Tests.{leb, ltb, if◌then◌else◌}

abbrev pub Memory : Type 0
Memory = ℕ → ℕ

-- The number in the `n` bytes from an address
unfoldable pub load : Memory → ℕ → ℕ → ℕ
load mem a zero = 0
load mem a (suc n) = mem a + 256 * load mem (suc a) n

-- The memory after a store of `n` bytes
abbrev pub store : Memory → ℕ → ℕ → ℕ → Memory
store mem a n v x = if leb a x && ltb x (a + n) then v / 256 ^ (x - a) % 256 else mem x

abbrev pub AreBytes : Memory → Type 0
AreBytes mem = (x : ℕ) → mem x < 256

pub store-AreBytes : (mem : Memory) (a n v : ℕ) → AreBytes mem → AreBytes (store mem a n v)
store-AreBytes mem a n v h x = ground (arith, h x)

-- An address outside of the `n` bytes from `a`
abbrev pub IsOutside : ℕ → ℕ → ℕ → Type 0
IsOutside a n x = (x < a) ⊎ (a + n ≤ x)

pub store_outside : (mem : Memory) (a n v x : ℕ) → IsOutside a n x → store mem a n v x ≡ mem x
store_outside mem a n v x h = ground arith

pub load_ext :
    (mem mem' : Memory) (a n : ℕ)
    → ((x : ℕ) → a ≤ x → x < a + n → mem x ≡ mem' x)
    → load mem a n ≡ load mem' a n
unfolding load
load_ext mem mem' a zero h = refl
load_ext mem mem' a (suc n) h = omega (
  arith,
  h a (omega arith) (omega arith),
  load_ext mem mem' (suc a) n (λ x l l'. h x (omega arith) (omega arith)),
)

pub load-lt : (mem : Memory) (a n : ℕ) → AreBytes mem → load mem a n < 256 ^ n
unfolding load
load-lt mem a zero h = omega arith
load-lt mem a (suc n) h = omega (arith, h a, load-lt mem (suc a) n h, pow_step 256 n)

-- A load of what is apart from a store
pub load-store_apart :
    (mem : Memory) (a n v b k : ℕ)
    → (b + k ≤ a) ⊎ (a + n ≤ b)
    → load (store mem a n v) b k ≡ load mem b k
load-store_apart mem a n v b k h =
    load_ext (store mem a n v) mem b k (λ x l l'. store_outside mem a n v x (ground arith))

next_byte : (v a x : ℕ) → suc a ≤ x → v / 256 / 256 ^ (x - suc a) ≡ v / 256 ^ (x - a)
next_byte v a x h =
    let step : x - a ≡ suc (x - suc a) = omega arith in
    rw (step, div-div-eq-div-mul v 256 (256 ^ (x - suc a)))
      (ap (λ p. v / p) (sym (pow_step 256 (x - suc a))))

store_next :
    (mem : Memory) (a n v x : ℕ)
    → suc a ≤ x
    → x < suc a + n
    → store mem a (suc n) v x ≡ store mem (suc a) n (v / 256) x
store_next mem a n v x l l' = ground (arith, next_byte v a x l)

first_byte : (v a : ℕ) → v / 256 ^ (a - a) ≡ v
first_byte v a = let none_left : a - a ≡ 0 = omega arith in rw none_left (div_one v)
  where
    div_one : (x : ℕ) → x / 1 ≡ x
    div_one x = omega arith

store_first : (mem : Memory) (a n v : ℕ) → store mem a (suc n) v a ≡ v % 256
store_first mem a n v = ground (arith, first_byte v a)

-- The bytes of a number give the number back.
pub load-store : (mem : Memory) (a n v : ℕ) → v < 256 ^ n → load (store mem a n v) a n ≡ v
unfolding load
load-store mem a zero v h = omega arith
load-store mem a (suc n) v h =
    let rest =
      load_ext (store mem a (suc n) v) (store mem (suc a) n (v / 256)) (suc a) n
        (λ x l l'. store_next mem a n v x l l') in
    omega (
      arith,
      store_first mem a n v,
      rest,
      load-store mem (suc a) n (v / 256) (omega (arith, pow_step 256 n)),
    )

-- Loads that agree are of bytes that agree.
pub load_bytes :
    (mem mem' : Memory) (a n : ℕ)
    → AreBytes mem
    → AreBytes mem'
    → load mem a n ≡ load mem' a n
    → (x : ℕ) → a ≤ x
    → x < a + n
    → mem x ≡ mem' x
unfolding load
load_bytes mem mem' a zero h h' e x l l' = absurd (omega arith)
load_bytes mem mem' a (suc n) h h' e x l l' =
    let first : mem a ≡ mem' a = omega (arith, h a, h' a) in
    let rest : load mem (suc a) n ≡ load mem' (suc a) n = omega (arith, h a, h' a) in
    elim (ℕ_discrete a x) [
      | yes same ↦ subst (λ b. mem b ≡ mem' b) same first
      | no other ↦ load_bytes mem mem' (suc a) n h h' rest x (omega arith) (omega arith)
    ]
