-- ===== src/Mgr/Liveness.antt =====
-- About submit_new_job and complete_job of lib/include/mb_mgr_code.h with the fuel `loop_fuel`.
use intel_ipsec_mb.Base.{
  ℕ, zero, suc, ◌≤◌, ◌<◌, ltb, ltb→lt, ltb-false, le_trans, ◌≡◌, inl, inr, refl, ◌∙◌, true, false,
  if◌then◌else◌, both_branches, Bool-cases, none, some, arith,
}
use intel_ipsec_mb.Job.{sts_completed, is_cipher_hash}
use intel_ipsec_mb.Mgr.Kernels.{Kernels}
use intel_ipsec_mb.Mgr.State.{Mgr}
use intel_ipsec_mb.Mgr.Steps.{Step}
use intel_ipsec_mb.Mgr.Cipher.{submit_job_aes}
use intel_ipsec_mb.Mgr.Hash.{submit_job_hash}
use intel_ipsec_mb.Mgr.Jobs.{loop_fuel, resubmit_job, submit_new_job, flush_once, complete_job}
use intel_ipsec_mb.Mgr.Contract.{Contract}
use intel_ipsec_mb.Mgr.Effect.{Keeps, status_of, routing_of}
use intel_ipsec_mb.Mgr.Dispatch.{submit_job_aes-Submits, submit_job_hash-Submits}
use intel_ipsec_mb.Mgr.Sound.{missing, measure, Sound, IsUsual, IsAligned, Progress}
use intel_ipsec_mb.Mgr.Progress.{submit-Progress}
use intel_ipsec_mb.Mgr.Slots.{held_lem}
use intel_ipsec_mb.Mgr.Resubmit.{
  usual_lem, Keeps-trans, Keeps-IsUsual, measure-le, measure-lt, measure-bound, Settled,
  Settled-after, resubmit_job-Settled,
}
use intel_ipsec_mb.Mgr.FlushOnce.{flush_once-Took}

module _ {O : Type 0} {k : Kernels O} (c : Contract k) (ring : ℕ → Type 0) where
  resubmit_after :
      (fuel : ℕ) (m : Mgr O) (s : Step O)
      → IsAligned ring
      → IsUsual ring m
      → measure m < fuel
      → Progress c ring m s
      → (s' : Step O) × (resubmit_job k fuel s ≡ some s') × Settled c ring m s'
  resubmit_after fuel m s aligned usual l h =
      let (s', e, settled) =
        resubmit_job-Settled c ring fuel s.0 s.1 (omega (arith, measure-le m s.0 h.le)) aligned
          (Keeps-IsUsual ring m s.0 h.keeps usual) h.sound h.ready in
      (s', e, Settled-after c ring m s s' h settled)

  -- submit_new_job on a job of the ring that is in hand with status 0, where no job of the ring has custom
  -- functions and the others wait or are finished, ends. Then every job of the ring waits in its manager or is
  -- finished, a returned one is finished, and the ring's two offsets are as before.
  pub submit_new_job-Settled :
      (m : Mgr O) (p : ℕ)
      → IsAligned ring
      → IsUsual ring m
      → Sound c ring m (some p)
      → status_of m p ≡ 0
      → (s : Step O) × (submit_new_job k loop_fuel m p ≡ some s) × Settled c ring m s
  unfolding submit_new_job
  submit_new_job-Settled m p aligned usual sound e =
      let (inside, free) = held_lem c ring m p (sound p) in
      let (mode_ok, alg_ok) = usual_lem (routing_of m p) (usual p inside) in
      let s =
        if is_cipher_hash (m.jobs p).chain_order
        then submit_job_aes k m p
        else submit_job_hash k m p in
      resubmit_after loop_fuel m s aligned usual (omega (arith, measure-bound m)) (
        both_branches (Progress c ring m) (is_cipher_hash (m.jobs p).chain_order)
          (submit_job_aes k m p) (submit_job_hash k m p)
          (λ e'.
            submit-Progress c ring 1 m p (submit_job_aes k m p) (inl refl) sound (ground arith)
              (submit_job_aes-Submits c m p free mode_ok))
          (λ e'.
            submit-Progress c ring 2 m p (submit_job_hash k m p) (inr refl) sound (ground arith)
              (submit_job_hash-Submits c m p free alg_ok)))

  complete_job-stop :
      (fuel : ℕ) (m : Mgr O) (p : ℕ)
      → ltb (m.jobs p).status sts_completed ≡ false
      → complete_job k (suc fuel) m p ≡ some m
  unfolding complete_job
  complete_job-stop fuel m p e = ground arith

  complete_job-more :
      (fuel : ℕ) (m : Mgr O) (p : ℕ) (s : Step O)
      → ltb (m.jobs p).status sts_completed ≡ true
      → resubmit_job k loop_fuel (flush_once k m p) ≡ some s
      → complete_job k (suc fuel) m p ≡ complete_job k fuel s.0 p
  unfolding complete_job
  complete_job-more fuel m p s e e' = ground arith

  -- What complete_job leaves.
  pub record Completed (m : Mgr O) (p : ℕ) (m' : Mgr O) : Type 0 where
    pub keeps : Keeps m m'
    pub sound : Sound c ring m' none
    pub finished : 3 ≤ status_of m' p
    pub le : (x : ℕ) → missing (status_of m' x) ≤ missing (status_of m x)

  -- complete_job on a job of a ring without custom functions, whose jobs wait or are finished, ends where the
  -- fuel exceeds the stages that are not done. Then the job is finished, every other job of the ring waits or is
  -- finished, and the ring's two offsets are as before.
  pub complete_job-Completed :
      (fuel : ℕ) (m : Mgr O) (p : ℕ)
      → measure m < fuel
      → IsAligned ring
      → IsUsual ring m
      → Sound c ring m none
      → ring p
      → (m' : Mgr O) × (complete_job k fuel m p ≡ some m') × Completed m p m'
  complete_job-Completed zero m p l aligned usual sound inside = absurd (omega arith)
  complete_job-Completed (suc fuel) m p l aligned usual sound inside =
      elim (Bool-cases (ltb (m.jobs p).status sts_completed)) [
        | inr stop ↦ (
          m,
          complete_job-stop fuel m p stop,
          record {
            keeps = record { earliest = refl; next = refl; routings = λ x. refl };
            sound = sound;
            finished = ltb-false (status_of m p) 3 stop;
            le = λ x. omega arith;
          },
        )
        | inl more ↦
            let (h, q, e) =
              flush_once-Took c ring m p usual sound inside (ltb→lt (status_of m p) 3 more) in
            let s = flush_once k m p in
            let (s', e', settled) =
              resubmit_job-Settled c ring loop_fuel s.0 s.1 (omega (arith, measure-bound s.0))
                aligned (Keeps-IsUsual ring m s.0 h.keeps usual) h.sound h.ready in
            let (m', e'', completed) =
              complete_job-Completed fuel s'.0 p
                (omega (arith, measure-lt c ring m s q aligned h e, measure-le s.0 s'.0 settled.le))
                aligned
                (Keeps-IsUsual ring m s'.0 (Keeps-trans m s.0 s'.0 h.keeps settled.keeps) usual)
                settled.sound inside in
            (
              m',
              complete_job-more fuel m p s' more e' ∙ e'',
              record {
                keeps =
                    Keeps-trans m s.0 m' h.keeps
                      (Keeps-trans s.0 s'.0 m' settled.keeps completed.keeps);
                sound = completed.sound;
                finished = completed.finished;
                le = λ x. le_trans (completed.le x) (le_trans (settled.le x) (h.le x));
              },
            )
      ]
