-- ===== src/Mgr/Resubmit.antt =====
-- About RESUBMIT_JOB of lib/include/mb_mgr_code.h.
use intel_ipsec_mb.Base.{
  ℕ, zero, suc, ◌*◌, ◌≤◌, ◌<◌, ◌==◌, ltb, ltb→lt, ◌≡◌, inl, inr, refl, sym, ap, subst, ◌∙◌, Bool,
  true, false, both_branches, Bool-cases, Option-cases, ltb-false, le_trans, Option, none, some,
  some_injective, total-le, total-lt, total-bound, arith,
}
use native.Mathlib.Decide.{ℕ_discrete}
use intel_ipsec_mb.Job.{sts_completed}
use intel_ipsec_mb.Mgr.Kernels.{Kernels}
use intel_ipsec_mb.Mgr.State.{Mgr, sizeof_job, max_jobs}
use intel_ipsec_mb.Mgr.Steps.{Step}
use intel_ipsec_mb.Mgr.Cipher.{submit_job_aes}
use intel_ipsec_mb.Mgr.Hash.{submit_job_hash}
use intel_ipsec_mb.Mgr.Jobs.{resubmit_once, resubmit_job}
use intel_ipsec_mb.Mgr.Contract.{Contract}
use intel_ipsec_mb.Mgr.Home.{is_custom, is_custom_mode, is_custom_alg, Routing}
use intel_ipsec_mb.Mgr.Effect.{Keeps, status_of, routing_of}
use intel_ipsec_mb.Mgr.Dispatch.{submit_job_aes-Submits, submit_job_hash-Submits}
use intel_ipsec_mb.Mgr.Sound.{
  due, IsReady, missing, measure, Slot, done, Sound, IsUsual, IsAligned, Progress,
}
use intel_ipsec_mb.Mgr.Progress.{submit-Progress}
use intel_ipsec_mb.Mgr.Slots.{Slot-same, held_lem}

pub usual_lem :
    (r : Routing)
    → is_custom r ≡ false
    → (is_custom_mode r.mode ≡ false) × (is_custom_alg r.alg ≡ false)
usual_lem r h = ground arith

-- The job returned has started its second stage when it has a bit.
ready_aes :
    (cipher_first : Bool) (s : ℕ)
    → IsReady cipher_first s
    → s < 3
    → (s == 2) ≡ true
    → s ≡ due cipher_first 1
ready_aes true s r l e = ground arith
ready_aes false s r l e = ground arith

ready_hash :
    (cipher_first : Bool) (s : ℕ)
    → IsReady cipher_first s
    → s < 3
    → (s == 2) ≡ false
    → s ≡ due cipher_first 2
ready_hash true s r l e = ground arith
ready_hash false s r l e = ground arith

module _ {O : Type 0} where
  pub Keeps-trans : (m m₁ m₂ : Mgr O) → Keeps m m₁ → Keeps m₁ m₂ → Keeps m m₂
  Keeps-trans m m₁ m₂ h h' = record {
    earliest = h'.earliest ∙ h.earliest;
    next = h'.next ∙ h.next;
    routings = λ x. h'.routings x ∙ h.routings x;
  }

  pub Keeps-IsUsual :
      (ring : ℕ → Type 0) (m m' : Mgr O) → Keeps m m' → IsUsual ring m → IsUsual ring m'
  Keeps-IsUsual ring m m' h usual x w = ap is_custom (h.routings x) ∙ usual x w

  pub measure-le :
      (m m' : Mgr O)
      → ((x : ℕ) → missing (status_of m' x) ≤ missing (status_of m x))
      → measure m' ≤ measure m
  measure-le m m' h =
      total-le max_jobs (λ i. missing (status_of m (sizeof_job * i)))
        (λ i. missing (status_of m' (sizeof_job * i))) (λ i. h (sizeof_job * i))

  -- Every job has two stages at most.
  pub measure-bound : (m : Mgr O) → measure m ≤ 256
  measure-bound m =
      total-bound max_jobs 2 (λ i. missing (status_of m (sizeof_job * i))) (λ i. ground arith)

module _ {O : Type 0} {k : Kernels O} (c : Contract k) (ring : ℕ → Type 0) where
  pub measure-lt :
      (m : Mgr O) (s : Step O) (q : ℕ)
      → IsAligned ring
      → Progress c ring m s
      → s.1 ≡ some q
      → measure s.0 < measure m
  measure-lt m s q aligned h e =
      let (inside, free) = held_lem c ring s.0 q (subst (λ r. Sound c ring s.0 r) e h.sound q) in
      let (i, same, l) = aligned q inside in
      total-lt max_jobs (λ i. missing (status_of m (sizeof_job * i)))
        (λ i. missing (status_of s.0 (sizeof_job * i))) i (λ i. h.le (sizeof_job * i)) l
        (subst (λ x. missing (status_of s.0 x) < missing (status_of m x)) same (h.lt q e))

  -- What is left when no job is between its stages: a job that is returned is finished.
  pub record Settled (m : Mgr O) (s : Step O) : Type 0 where
    pub keeps : Keeps m s.0
    pub sound : Sound c ring s.0 none
    pub finished : (q : ℕ) → s.1 ≡ some q → ring q × 3 ≤ status_of s.0 q
    pub le : (x : ℕ) → missing (status_of s.0 x) ≤ missing (status_of m x)

  resubmit_once-Progress :
      (m : Mgr O) (p : ℕ)
      → IsUsual ring m
      → Sound c ring m (some p)
      → IsReady (routing_of m p).cipher_first (status_of m p)
      → status_of m p < 3
      → Progress c ring m (resubmit_once k m p)
  unfolding resubmit_once
  resubmit_once-Progress m p usual sound r l =
      let (inside, free) = held_lem c ring m p (sound p) in
      let (mode_ok, alg_ok) = usual_lem (routing_of m p) (usual p inside) in
      both_branches (Progress c ring m) (status_of m p == 2) (submit_job_aes k m p)
        (submit_job_hash k m p)
        (λ e.
          submit-Progress c ring 1 m p (submit_job_aes k m p) (inl refl) sound
            (ready_aes (routing_of m p).cipher_first (status_of m p) r l e)
            (submit_job_aes-Submits c m p free mode_ok))
        (λ e.
          submit-Progress c ring 2 m p (submit_job_hash k m p) (inr refl) sound
            (ready_hash (routing_of m p).cipher_first (status_of m p) r l e)
            (submit_job_hash-Submits c m p free alg_ok))

  -- A finished job is put down.
  pub put_down :
      (m : Mgr O) (p : ℕ) → Sound c ring m (some p) → 3 ≤ status_of m p → Sound c ring m none
  put_down m p sound f x = elim (ℕ_discrete x p) [
    | yes same ↦ subst (Slot c ring m none) (sym same) (
        let (inside, free) = held_lem c ring m p (sound p) in
        done free inside f (λ h. ground arith))
    | no ne ↦
        Slot-same c ring m m (some p) none x refl refl refl (λ h. absurd (ground arith))
          (λ h. absurd (ne (sym (some_injective h)))) (sound x)
  ]

  resubmit_job-none : (fuel : ℕ) (m : Mgr O) → resubmit_job k fuel (m, none) ≡ some (m, none)
  unfolding resubmit_job
  resubmit_job-none zero m = refl
  resubmit_job-none (suc fuel) m = refl

  resubmit_job-more :
      (fuel : ℕ) (m : Mgr O) (p : ℕ)
      → ltb (m.jobs p).status sts_completed ≡ true
      → resubmit_job k (suc fuel) (m, some p) ≡ resubmit_job k fuel (resubmit_once k m p)
  unfolding resubmit_job
  resubmit_job-more fuel m p e = ground arith

  resubmit_job-stop :
      (fuel : ℕ) (m : Mgr O) (p : ℕ)
      → ltb (m.jobs p).status sts_completed ≡ false
      → resubmit_job k (suc fuel) (m, some p) ≡ some (m, some p)
  unfolding resubmit_job
  resubmit_job-stop fuel m p e = ground arith

  pub Settled-after :
      (m : Mgr O) (s s' : Step O) → Progress c ring m s → Settled s.0 s' → Settled m s'
  Settled-after m s s' h h' = record {
    keeps = Keeps-trans m s.0 s'.0 h.keeps h'.keeps;
    sound = h'.sound;
    finished = h'.finished;
    le = λ x. le_trans (h'.le x) (h.le x);
  }

  Settled-none : (m : Mgr O) → Sound c ring m none → Settled m (m, none)
  Settled-none m sound = record {
    keeps = record { earliest = refl; next = refl; routings = λ x. refl };
    sound = sound;
    finished = λ q h. absurd (ground arith);
    le = λ x. omega arith;
  }

  nothing_returned :
      (fuel : ℕ) (m : Mgr O) (s : Step O)
      → Progress c ring m s
      → s.1 ≡ none
      → (s' : Step O) × (resubmit_job k fuel s ≡ some s') × Settled s.0 s'
  nothing_returned fuel m s h e = (
    (s.0, none),
    ap (λ r. resubmit_job k fuel (s.0, r)) e ∙ resubmit_job-none fuel s.0,
    Settled-none s.0 (subst (λ r. Sound c ring s.0 r) e h.sound),
  )

  continue_resubmit :
      (fuel : ℕ) (m : Mgr O) (p : ℕ) (s : Step O)
      → ltb (m.jobs p).status sts_completed ≡ true
      → resubmit_once k m p ≡ s
      → Progress c ring m s
      → (s' : Step O) × (resubmit_job k fuel s ≡ some s') × Settled s.0 s'
      → (s' : Step O) × (resubmit_job k (suc fuel) (m, some p) ≡ some s') × Settled m s'
  continue_resubmit fuel m p s more same h (s', e, settled) = (
    s',
    resubmit_job-more fuel m p more ∙ ap (resubmit_job k fuel) same ∙ e,
    Settled-after m s s' h settled,
  )

  -- RESUBMIT_JOB ends where the fuel exceeds the stages that are not done. Then every job of the ring waits
  -- or is finished, and the job returned, if any, is finished.
  pub resubmit_job-Settled :
      (fuel : ℕ) (m : Mgr O) (r : Option ℕ)
      → measure m < fuel
      → IsAligned ring
      → IsUsual ring m
      → Sound c ring m r
      → ((q : ℕ) → r ≡ some q → IsReady (routing_of m q).cipher_first (status_of m q))
      → (s : Step O) × (resubmit_job k fuel (m, r) ≡ some s) × Settled m s
  unfolding resubmit_job
  resubmit_job-Settled fuel m none l aligned usual sound ready =
      ((m, none), resubmit_job-none fuel m, Settled-none m sound)
  resubmit_job-Settled zero m (some p) l aligned usual sound ready = absurd (omega arith)
  resubmit_job-Settled (suc fuel) m (some p) l aligned usual sound ready =
      elim (Bool-cases (ltb (m.jobs p).status sts_completed)) [
        | inl more ↦
            let s = resubmit_once k m p in
            let h =
              resubmit_once-Progress m p usual sound (ready p refl)
                (ltb→lt (status_of m p) 3 more) in
            continue_resubmit fuel m p s more refl h (elim (Option-cases s.1) [
              | inl e ↦ nothing_returned fuel m s h e
              | inr (q, e) ↦
                  resubmit_job-Settled fuel s.0 s.1 (omega (arith, measure-lt m s q aligned h e))
                    aligned (Keeps-IsUsual ring m s.0 h.keeps usual) h.sound h.ready
            ])
        | inr stop ↦
            let l' = ltb-false (status_of m p) 3 stop in
            (
              (m, some p),
              resubmit_job-stop fuel m p stop,
              record {
                keeps = record { earliest = refl; next = refl; routings = λ x. refl };
                sound = put_down m p sound l';
                finished = λ q h.
                    subst (λ y. ring y × 3 ≤ status_of m y) (some_injective h)
                      ((held_lem c ring m p (sound p)).0, l');
                le = λ x. omega arith;
              },
            )
      ]
