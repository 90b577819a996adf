-- ===== src/Mgr/Sound.antt =====
-- The invariant of the job level of lib/include/mb_mgr_code.h: where each job of the ring is, and what its
-- status says of it.
use intel_ipsec_mb.Base.{
  ℕ, ◌*◌, ◌≤◌, ◌<◌, ◌≡◌, ◌≢◌, ◌⊎◌, Bool, false, if◌then◌else◌, ◌==◌, ◌||◌, Option, none, some,
  total,
}
use intel_ipsec_mb.Mgr.Kernels.{Kernels, Manager, stage}
use intel_ipsec_mb.Mgr.State.{Mgr, sizeof_job, max_jobs}
use intel_ipsec_mb.Mgr.Steps.{Step}
use intel_ipsec_mb.Mgr.Contract.{Contract}
use intel_ipsec_mb.Mgr.Home.{Routing, cipher_home, hash_home, is_custom}
use intel_ipsec_mb.Mgr.Effect.{Keeps, status_of, routing_of, at_of}

-- The stages are numbered by their bits: 1 for the cipher, 2 for the hash.
abbrev pub home_at : Routing → ℕ → Option Manager
home_at r bit = if bit == 1 then cipher_home r else hash_home r

-- The status of a job that is due for a stage: what the stage before it has set.
abbrev pub due : Bool → ℕ → ℕ
due cipher_first bit =
    if bit == 1 then (if cipher_first then 0 else 2) else if cipher_first then 1 else 0

-- A job between two calls: finished, or done with its first stage.
abbrev pub IsReady : Bool → ℕ → Type 0
IsReady cipher_first s = (3 ≤ s) ⊎ (s ≡ due cipher_first (if cipher_first then 2 else 1))

-- The stages that are not done.
abbrev pub missing : ℕ → ℕ
missing s = if s == 0 then 2 else if s == 1 || s == 2 then 1 else 0

module _ {O : Type 0} {k : Kernels O} (c : Contract k) where
  -- Of the job at `x`, where `ring` says which jobs are submitted and not yet returned, and `hand` is the
  -- job that the last call gave back.
  pub data Slot (ring : ℕ → Type 0) (m : Mgr O) (hand : Option ℕ) (x : ℕ) : Type 0 where
    waits :
        (g : Manager)
        → at_of c m x ≡ some g
        → ring x
        → home_at (routing_of m x) (stage g) ≡ some g
        → status_of m x ≡ due (routing_of m x).cipher_first (stage g)
        → hand ≢ some x
        → Slot ring m hand x
    in_hand : at_of c m x ≡ none → ring x → hand ≡ some x → Slot ring m hand x
    done : at_of c m x ≡ none → ring x → 3 ≤ status_of m x → hand ≢ some x → Slot ring m hand x
    outside : at_of c m x ≡ none → (ring x → ⊥) → hand ≢ some x → Slot ring m hand x

  abbrev pub Sound : (ℕ → Type 0) → Mgr O → Option ℕ → Type 0
  Sound ring m hand = (x : ℕ) → Slot ring m hand x

module _ {O : Type 0} where
  -- No job of the ring has a custom cipher or a custom hash.
  abbrev pub IsUsual : (ℕ → Type 0) → Mgr O → Type 0
  IsUsual ring m = (x : ℕ) → ring x → is_custom (routing_of m x) ≡ false

  -- The stages that are not done, over all slots: what falls with every job that is returned.
  abbrev pub measure : Mgr O → ℕ
  measure m = total max_jobs (λ i. missing (status_of m (sizeof_job * i)))

-- The ring holds slots only.
abbrev pub IsAligned : (ℕ → Type 0) → Type 0
IsAligned ring = (x : ℕ) → ring x → (i : ℕ) × (x ≡ sizeof_job * i) × i < max_jobs

module _ {O : Type 0} {k : Kernels O} (c : Contract k) where
  -- A call that keeps the invariant, and after which a returned job has less to do.
  pub record Progress (ring : ℕ → Type 0) (m : Mgr O) (s : Step O) : Type 0 where
    pub keeps : Keeps m s.0
    pub sound : Sound c ring s.0 s.1
    pub ready : (q : ℕ) → s.1 ≡ some q → IsReady (routing_of s.0 q).cipher_first (status_of s.0 q)
    pub le : (x : ℕ) → missing (status_of s.0 x) ≤ missing (status_of m x)
    pub lt : (q : ℕ) → s.1 ≡ some q → missing (status_of s.0 q) < missing (status_of m q)
