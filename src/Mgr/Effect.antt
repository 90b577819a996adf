-- ===== src/Mgr/Effect.antt =====
-- What a call of a submit or a flush function of lib/include/mb_mgr_code.h may do to the jobs: the cases
-- that the manager's loops have to deal with.
use intel_ipsec_mb.Base.{ℕ, ◌≤◌, ◌≡◌, ◌≢◌, ◌⊎◌, bit_or, Option, none, some, update}
use intel_ipsec_mb.Mgr.Kernels.{Kernels, Manager, stage}
use intel_ipsec_mb.Mgr.State.{Mgr}
use intel_ipsec_mb.Mgr.Steps.{Step}
use intel_ipsec_mb.Mgr.Contract.{Contract}
use intel_ipsec_mb.Mgr.Home.{Routing, routing}

module _ {O : Type 0} where
  abbrev pub status_of : Mgr O → ℕ → ℕ
  status_of m x = (m.jobs x).status

  abbrev pub routing_of : Mgr O → ℕ → Routing
  routing_of m x = routing (m.jobs x)

  -- The ring and how the jobs are dispatched stay as they are.
  pub record Keeps (m m' : Mgr O) : Type 0 where
    pub earliest : m'.earliest_job ≡ m.earliest_job
    pub next : m'.next_job ≡ m.next_job
    pub routings : (x : ℕ) → routing_of m' x ≡ routing_of m x

-- A job has a stage's bit, or is finished.
abbrev pub Gains : ℕ → ℕ → ℕ → Type 0
Gains bit s s' = (s' ≡ bit_or s bit) ⊎ (3 ≤ s')

module _ {O : Type 0} {k : Kernels O} (c : Contract k) where
  abbrev pub at_of : Mgr O → ℕ → Option Manager
  at_of m x = c.at m.world x

  -- Of a submit of the job `p` for the stage of `bit`, with the manager `home` for jobs that wait: the job
  -- is done with the stage and returned, or it waits and nothing is returned, or it waits in place of
  -- another, which is done with the stage and returned.
  pub data Submitted (home : Option Manager) (bit : ℕ) (m : Mgr O) (p : ℕ) (s : Step O)
      : Type 0 where
    own :
        s.1 ≡ some p
        → ((x : ℕ) → at_of s.0 x ≡ at_of m x)
        → ((x : ℕ) → x ≢ p → status_of s.0 x ≡ status_of m x)
        → Gains bit (status_of m p) (status_of s.0 p)
        → Submitted home bit m p s
    queued :
        (g : Manager)
        → home ≡ some g
        → stage g ≡ bit
        → s.1 ≡ none
        → ((x : ℕ) → at_of s.0 x ≡ update (at_of m) p (some g) x)
        → ((x : ℕ) → status_of s.0 x ≡ status_of m x)
        → Submitted home bit m p s
    swapped :
        (g : Manager) (q : ℕ)
        → home ≡ some g
        → stage g ≡ bit
        → s.1 ≡ some q
        → q ≢ p
        → at_of m q ≡ some g
        → ((x : ℕ) → at_of s.0 x ≡ update (update (at_of m) p (some g)) q none x)
        → ((x : ℕ) → x ≢ q → status_of s.0 x ≡ status_of m x)
        → status_of s.0 q ≡ bit_or (status_of m q) bit
        → Submitted home bit m p s

  -- Of a flush for a job whose manager is `home`: a job that waits there is done with the stage and
  -- returned, or none waits there.
  pub data Flushed (home : Option Manager) (bit : ℕ) (m : Mgr O) (s : Step O) : Type 0 where
    nobody :
        ((g : Manager) → home ≡ some g → (x : ℕ) → at_of m x ≢ some g)
        → s.1 ≡ none
        → ((x : ℕ) → at_of s.0 x ≡ at_of m x)
        → ((x : ℕ) → status_of s.0 x ≡ status_of m x)
        → Flushed home bit m s
    taken :
        (g : Manager) (q : ℕ)
        → home ≡ some g
        → stage g ≡ bit
        → s.1 ≡ some q
        → at_of m q ≡ some g
        → ((x : ℕ) → at_of s.0 x ≡ update (at_of m) q none x)
        → ((x : ℕ) → x ≢ q → status_of s.0 x ≡ status_of m x)
        → status_of s.0 q ≡ bit_or (status_of m q) bit
        → Flushed home bit m s

  abbrev pub Submits : Option Manager → ℕ → Mgr O → ℕ → Step O → Type 0
  Submits home bit m p s = Keeps m s.0 × Submitted home bit m p s

  abbrev pub Flushes : Option Manager → ℕ → Mgr O → Step O → Type 0
  Flushes home bit m s = Keeps m s.0 × Flushed home bit m s

  -- Where nothing happened that the loops depend on.
  pub record Alike (m m' : Mgr O) : Type 0 where
    pub statuses : (x : ℕ) → status_of m' x ≡ status_of m x
    pub routings : (x : ℕ) → routing_of m' x ≡ routing_of m x
    pub earliest : m'.earliest_job ≡ m.earliest_job
    pub next : m'.next_job ≡ m.next_job
    pub at : (x : ℕ) → at_of m' x ≡ at_of m x
