-- ===== src/Mgr/StepLaws.antt =====
-- About the calls of Mgr.Steps, in the terms of Mgr.Effect.
use intel_ipsec_mb.Base.{
  ℕ, ◌≡◌, inl, inr, refl, ◌∙◌, bit_or, Option, none, some, Option-cases, arith, List, [], ◌∷◌,
}
use native.Mathlib.Decide.{ℕ_discrete}
use intel_ipsec_mb.Mgr.Kernels.{Kernels, Scheduler, Manager, manager, stage}
use intel_ipsec_mb.Mgr.State.{Mgr, RoutineCall, run_all}
use intel_ipsec_mb.Mgr.Steps.{returned, submit_to, flush_from, direct}
use intel_ipsec_mb.Mgr.Contract.{Contract}
use intel_ipsec_mb.Mgr.Effect.{
  Keeps, Gains, status_of, at_of, Submitted, own, queued, swapped, Flushed, nobody, taken,
}

module _ {O : Type 0} {k : Kernels O} (c : Contract k) where
  -- A scheduler's SUBMIT_JOB
  pub submit_to-Submitted :
      (sch : Scheduler) (m : Mgr O) (p : ℕ)
      → at_of c m p ≡ none
      → Submitted c (some (manager sch)) (stage (manager sch)) m p (submit_to k sch m p)
  unfolding submit_to returned
  submit_to-Submitted sch m p free = elim (Option-cases (k.submit sch m.world (m.jobs p) p).1) [
    | inl e ↦
        queued (manager sch) refl refl (ground arith)
          (λ x. ground (arith, c.at_submit sch m.world (m.jobs p) p free x)) (λ x. ground arith)
    | inr (q, e) ↦ elim (ℕ_discrete q p) [
      | yes same ↦
          own (ground arith)
            (λ x. ground (arith, c.at_submit sch m.world (m.jobs p) p free x, free, same))
            (λ x h. ground (arith, h, same)) (inl (ground arith))
      | no differ ↦
          swapped (manager sch) q refl refl (ground arith) differ
            (ground (arith, c.submit_returns sch m.world (m.jobs p) p q free e))
            (λ x. ground (arith, c.at_submit sch m.world (m.jobs p) p free x)) (λ x h. ground arith)
            (ground arith)
    ]
  ]

  -- A scheduler's FLUSH_JOB
  pub flush_from-Flushed :
      (sch : Scheduler) (m : Mgr O)
      → Flushed c (some (manager sch)) (stage (manager sch)) m (flush_from k sch m)
  unfolding flush_from returned
  flush_from-Flushed sch m = elim (Option-cases (k.flush sch m.world).1) [
    | inl e ↦
        nobody (λ g same x. ground (arith, c.flush_empty sch m.world x e, same)) (ground arith)
          (λ x. ground (arith, c.at_flush sch m.world x)) (λ x. ground arith)
    | inr (q, e) ↦
        taken (manager sch) q refl refl (ground arith) (c.flush_returns sch m.world q e)
          (λ x. ground (arith, c.at_flush sch m.world x)) (λ x h. ground arith) (ground arith)
  ]

  pub submit_to-Keeps : (sch : Scheduler) (m : Mgr O) (p : ℕ) → Keeps m (submit_to k sch m p).0
  unfolding submit_to returned
  submit_to-Keeps sch m p = elim (Option-cases (k.submit sch m.world (m.jobs p) p).1) [
    | inl e ↦ record { earliest = ground arith; next = ground arith; routings = λ x. ground arith }
    | inr (q, e) ↦ record {
      earliest = ground arith;
      next = ground arith;
      routings = λ x. ground arith;
    }
  ]

  pub flush_from-Keeps : (sch : Scheduler) (m : Mgr O) → Keeps m (flush_from k sch m).0
  unfolding flush_from returned
  flush_from-Keeps sch m = elim (Option-cases (k.flush sch m.world).1) [
    | inl e ↦ record { earliest = ground arith; next = ground arith; routings = λ x. ground arith }
    | inr (q, e) ↦ record {
      earliest = ground arith;
      next = ground arith;
      routings = λ x. ground arith;
    }
  ]

  pub run_all-at :
      (calls : List RoutineCall) (w : O) (x : ℕ) → c.at (run_all k calls w) x ≡ c.at w x
  run_all-at [] w x = refl
  run_all-at ((r, args) ∷ calls) w x = run_all-at calls (k.run r args w) x ∙ c.at_run r args w x

  -- Synchronous routines
  pub direct-Submitted :
      (bit bits : ℕ) (home : Option Manager) (calls : List RoutineCall) (m : Mgr O) (p : ℕ)
      → ((s : ℕ) → Gains bit s (bit_or s bits))
      → Submitted c home bit m p (direct k bits calls m p)
  unfolding direct
  direct-Submitted bit bits home calls m p gains =
      own refl (λ x. run_all-at calls m.world x) (λ x h. ground arith)
        (ground (arith, gains (status_of m p)))

  pub direct-Keeps :
      (bits : ℕ) (calls : List RoutineCall) (m : Mgr O) (p : ℕ)
      → Keeps m (direct k bits calls m p).0
  unfolding direct
  direct-Keeps bits calls m p = record {
    earliest = refl;
    next = refl;
    routings = λ x. ground arith;
  }
