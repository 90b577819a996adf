-- ===== src/Validate/Outcome.antt =====
-- The result of a check of lib/include/mb_mgr_code.h `is_job_invalid`, and arrays that it reads.
use intel_ipsec_mb.Base.{
  ℕ, ◌+◌, ◌*◌, Bool, true, false, ◌==◌, if◌then◌else◌, none, some, List, get_elem?,
}

-- `rejected e`: the error number is set to `e` and the function returns 1. `fault`: C's behaviour is
-- undefined (a read out of an array, or through a null pointer).
pub data Outcome {ℓ} (A : Type ℓ) : Type ℓ where
  ok : A → Outcome A
  rejected : ℕ → Outcome A
  fault : Outcome A

infixl 5 ◌>>=◌ ◌>>◌
abbrev pub ◌>>=◌ {ℓ κ} : {A : Type ℓ} {B : Type κ} → Outcome A → (A → Outcome B) → Outcome B
ok a >>= f = f a
rejected e >>= f = rejected e
fault >>= f = fault

abbrev pub ◌>>◌ {ℓ} : {B : Type ℓ} → Outcome (Unit {0}) → Outcome B → Outcome B
m >> k = m >>= λ _. k

abbrev pub Check : Type 0
Check = Outcome (Unit {0})

abbrev pub accept : Check
accept = ok tt

-- `if (b) { imb_set_errno(state, e); return 1; }`
abbrev pub reject : Bool → ℕ → Check
reject true e = rejected e
reject false e = ok tt

-- `if (b) { ... }` around further checks
abbrev pub guarded : Bool → Check → Check
guarded true c = c
guarded false c = ok tt

-- `table[i]`
abbrev pub read_table : List ℕ → ℕ → Outcome ℕ
read_table t i = elim (get_elem? t i) [ some v ↦ ok v | none ↦ fault ]

-- `((const void * const *) p)[i]`, in the memory `load`
abbrev pub read_pointer : (ℕ → ℕ) → ℕ → ℕ → Outcome ℕ
read_pointer load p i = if p == 0 then fault else ok (load (p + 8 * i))
