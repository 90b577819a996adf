-- ===== src/Mgr/Contract.antt =====
-- What the manager relies on of the out-of-order schedulers and of the routines, which are assembly.
-- A manager is a set of jobs that wait in its lanes. SUBMIT_JOB_x adds a job and may take one out,
-- FLUSH_JOB_x takes one out if there is any; a job that is taken out is the one returned. Nothing else
-- touches the lanes.
use intel_ipsec_mb.Base.{ℕ, ◌≡◌, ◌≢◌, Option, none, some, List, update}
use intel_ipsec_mb.Job.{Job}
use intel_ipsec_mb.Mgr.Kernels.{Kernels, Scheduler, Routine, Manager, manager}

-- Where each job waits: the lanes' jobs by their addresses.
abbrev pub Lanes : Type 0
Lanes = ℕ → Option Manager

-- The lanes after a returned job is taken out.
abbrev pub take_out : Option ℕ → Lanes → Lanes
take_out none at = at
take_out (some q) at = update at q none

pub record Contract {O : Type 0} (k : Kernels O) : Type 0 where
  pub at : O → Lanes
  pub at_submit :
      (sch : Scheduler) (w : O) (job : Job) (p : ℕ)
      → at w p ≡ none
      → (x : ℕ)
      → at (k.submit sch w job p).0 x
        ≡ take_out (k.submit sch w job p).1 (update (at w) p (some (manager sch))) x
  pub submit_returns :
      (sch : Scheduler) (w : O) (job : Job) (p q : ℕ)
      → at w p ≡ none
      → (k.submit sch w job p).1 ≡ some q
      → update (at w) p (some (manager sch)) q ≡ some (manager sch)
  pub at_flush :
      (sch : Scheduler) (w : O) (x : ℕ)
      → at (k.flush sch w).0 x ≡ take_out (k.flush sch w).1 (at w) x
  pub flush_returns :
      (sch : Scheduler) (w : O) (q : ℕ) → (k.flush sch w).1 ≡ some q → at w q ≡ some (manager sch)
  pub flush_empty :
      (sch : Scheduler) (w : O) (x : ℕ) → (k.flush sch w).1 ≡ none → at w x ≢ some (manager sch)
  pub at_run : (r : Routine) (args : List ℕ) (w : O) (x : ℕ) → at (k.run r args w) x ≡ at w x
