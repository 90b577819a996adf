-- ===== src/Mgr/OneLane.antt =====
-- A scheduler for the tests: all managers share one lane. A submit to a free lane waits; a submit to the
-- manager that has the lane takes it over and returns the job that waited; any other submit is done at once.
use intel_ipsec_mb.Base.{
  ℕ, Bool, true, false, if◌then◌else◌, ◌==◌, inl, inr, refl, Bool-cases, ◌≡◌, ◌≢◌, Option, none,
  some, update, arith,
}
use intel_ipsec_mb.Job.{Job}
use intel_ipsec_mb.Mgr.Kernels.{Kernels, Scheduler, Manager, manager}
use intel_ipsec_mb.Mgr.Contract.{Contract, Lanes, take_out}

pub Manager-discrete : Discrete Manager
Manager-discrete = hlevel

pub same_manager : Manager → Manager → Bool
same_manager g h = elim (Manager-discrete g h) [ yes e ↦ true | no ne ↦ false ]

same-eq : (g h : Manager) → same_manager g h ≡ true → g ≡ h
unfolding same_manager
same-eq g h = decided (Manager-discrete g h)
  where
    decided : (d : Dec (g ≡ h)) → elim d [ yes e ↦ true | no ne ↦ false ] ≡ true → g ≡ h
    decided (yes e) s = e
    decided (no ne) s = absurd (ground arith)

same-ne : (g h : Manager) → same_manager g h ≡ false → g ≢ h
unfolding same_manager
same-ne g h = decided (Manager-discrete g h)
  where
    decided : (d : Dec (g ≡ h)) → elim d [ yes e ↦ true | no ne ↦ false ] ≡ false → g ≢ h
    decided (yes e) s = absurd (ground arith)
    decided (no ne) s = ne

abbrev pub Lane : Type 0
Lane = Option (ℕ × Manager)

abbrev pub lane_submit : Scheduler → Lane → Job → ℕ → Lane × Option ℕ
lane_submit sch none job p = (some (p, manager sch), none)
lane_submit sch (some (q, g)) job p =
    if same_manager g (manager sch) then (some (p, manager sch), some q) else (some (q, g), some p)

abbrev pub lane_flush : Scheduler → Lane → Lane × Option ℕ
lane_flush sch none = (none, none)
lane_flush sch (some (q, g)) =
    if same_manager g (manager sch) then (none, some q) else (some (q, g), none)

abbrev pub one_lane : Kernels Lane
one_lane = record {
  submit = lane_submit;
  flush = lane_flush;
  run = λ r args w. w;
  cipher_func = λ job w. (w, job, 0);
  hash_func = λ job w. (w, job, 0);
  load = λ w a. a;
}

abbrev pub lane_at : Lane → Lanes
lane_at none x = none
lane_at (some (q, g)) x = if x == q then some g else none

pub at_submit_lem :
    (sch : Scheduler) (w : Lane) (job : Job) (p : ℕ)
    → lane_at w p ≡ none
    → (x : ℕ)
    → lane_at (lane_submit sch w job p).0 x
      ≡ take_out (lane_submit sch w job p).1 (update (lane_at w) p (some (manager sch))) x
at_submit_lem sch none job p free x = ground arith
at_submit_lem sch (some (q, g)) job p free x = elim (Bool-cases (same_manager g (manager sch))) [
  | inl e ↦ ground (arith, same-eq g (manager sch) e)
  | inr e ↦ ground arith
]

pub submit_returns_lem :
    (sch : Scheduler) (w : Lane) (job : Job) (p q : ℕ)
    → lane_at w p ≡ none
    → (lane_submit sch w job p).1 ≡ some q
    → update (lane_at w) p (some (manager sch)) q ≡ some (manager sch)
submit_returns_lem sch none job p q free h = absurd (ground arith)
submit_returns_lem sch (some (q', g)) job p q free h =
    elim (Bool-cases (same_manager g (manager sch))) [
      | inl e ↦ ground (arith, same-eq g (manager sch) e)
      | inr e ↦ ground arith
    ]

pub at_flush_lem :
    (sch : Scheduler) (w : Lane) (x : ℕ)
    → lane_at (lane_flush sch w).0 x ≡ take_out (lane_flush sch w).1 (lane_at w) x
at_flush_lem sch none x = refl
at_flush_lem sch (some (q, g)) x = ground arith

pub flush_returns_lem :
    (sch : Scheduler) (w : Lane) (q : ℕ)
    → (lane_flush sch w).1 ≡ some q
    → lane_at w q ≡ some (manager sch)
flush_returns_lem sch none q h = absurd (ground arith)
flush_returns_lem sch (some (q', g)) q h = elim (Bool-cases (same_manager g (manager sch))) [
  | inl e ↦ ground (arith, same-eq g (manager sch) e)
  | inr e ↦ absurd (ground arith)
]

pub flush_empty_lem :
    (sch : Scheduler) (w : Lane) (x : ℕ)
    → (lane_flush sch w).1 ≡ none
    → lane_at w x ≢ some (manager sch)
flush_empty_lem sch none x h z = ground arith
flush_empty_lem sch (some (q, g)) x h z = elim (Bool-cases (same_manager g (manager sch))) [
  | inl e ↦ ground arith
  | inr e ↦ ground (arith, same-ne g (manager sch) e)
]

abbrev pub one_lane_contract : Contract one_lane
one_lane_contract = record {
  at = lane_at;
  at_submit = at_submit_lem;
  submit_returns = submit_returns_lem;
  at_flush = at_flush_lem;
  flush_returns = flush_returns_lem;
  flush_empty = flush_empty_lem;
  at_run = λ r args w x. refl;
}
