-- ===== src/Mgr/Start.antt =====
-- The first half of submit_job_and_check of lib/include/mb_mgr_code.h: the new job is refused, or handed to
-- the job level.
use intel_ipsec_mb.Base.{
  ℕ, suc, ◌≤◌, ◌≡◌, inl, inr, refl, sym, ap, ◌∙◌, subst, Bool, true, false, both_branches, none,
  some, some_injective, arith,
}
use intel_ipsec_mb.Job.{sts_being_processed, sts_invalid_args}
use intel_ipsec_mb.Errno
use intel_ipsec_mb.Validate.{is_job_invalid}
use intel_ipsec_mb.Mgr.Kernels.{Kernels}
use intel_ipsec_mb.Mgr.State.{Mgr, set_status}
use intel_ipsec_mb.Mgr.Steps.{Step}
use intel_ipsec_mb.Mgr.Api.{process_job, start_job}
use intel_ipsec_mb.Mgr.Contract.{Contract}
use intel_ipsec_mb.Mgr.Home.{is_custom}
use intel_ipsec_mb.Mgr.Effect.{status_of, routing_of}
use intel_ipsec_mb.Mgr.Sound.{Sound, IsUsual}
use intel_ipsec_mb.Mgr.Ring.{IsRing, Within, slot_at, Within-push, Within-last}
use intel_ipsec_mb.Mgr.Enter.{enter, Sound-same, Within-IsAligned}
use intel_ipsec_mb.Mgr.Resubmit.{put_down, Keeps-IsUsual}
use intel_ipsec_mb.Mgr.Liveness.{submit_new_job-Settled}

module _ {O : Type 0} {k : Kernels O} (c : Contract k) where
  -- The ring with `n` jobs from slot `i` on, none of them custom, each waiting or finished.
  pub record Healthy (m : Mgr O) (i n : ℕ) : Type 0 where
    pub ring : IsRing m i n
    pub sound : Sound c (Within i n) m none
    pub usual : IsUsual (Within i n) m

  -- The next job is among the jobs of the ring, but `next_job` is not moved yet.
  pub record Started (m : Mgr O) (i n : ℕ) (s : Step O) : Type 0 where
    pub earliest : s.0.earliest_job ≡ m.earliest_job
    pub next : s.0.next_job ≡ m.next_job
    pub sound : Sound c (Within i (suc n)) s.0 none
    pub usual : IsUsual (Within i (suc n)) s.0
    pub finished : (q : ℕ) → s.1 ≡ some q → Within i (suc n) q × 3 ≤ status_of s.0 q

  IsUsual-enter :
      (m m' : Mgr O) (i n : ℕ)
      → IsUsual (Within i n) m
      → is_custom (routing_of m (slot_at i n)) ≡ false
      → ((x : ℕ) → routing_of m' x ≡ routing_of m x)
      → IsUsual (Within i (suc n)) m'
  IsUsual-enter m m' i n usual fresh same x w = elim (Within-push i n x w) [
    | inl w' ↦ ap is_custom (same x) ∙ usual x w'
    | inr e ↦ ap is_custom (same x ∙ ap (routing_of m) e) ∙ fresh
  ]

  process_at-Started :
      (m : Mgr O) (i n : ℕ)
      → Healthy m i n
      → is_custom (routing_of m (slot_at i n)) ≡ false
      → (s : Step O) × (process_job k m (slot_at i n) ≡ some s) × Started m i n s
  unfolding process_job
  process_at-Started m i n h fresh =
      let m₁ = set_status m (slot_at i n) sts_being_processed in
      let usual = IsUsual-enter m m₁ i n h.usual fresh (λ x. ground arith) in
      let (s, e, settled) =
        submit_new_job-Settled c (Within i (suc n)) m₁ (slot_at i n) (Within-IsAligned i (suc n))
          usual (enter c i n m m₁ h.ring.room h.sound (λ x. refl) (λ x ne. ground arith))
          (ground arith) in
      (
        s,
        e,
        record {
          earliest = settled.keeps.earliest;
          next = settled.keeps.next;
          sound = settled.sound;
          usual = Keeps-IsUsual (Within i (suc n)) m₁ s.0 settled.keeps usual;
          finished = settled.finished;
        },
      )

  process_job-Started :
      (m : Mgr O) (i n : ℕ)
      → Healthy m i n
      → is_custom (routing_of m m.next_job) ≡ false
      → (s : Step O) × (process_job k m m.next_job ≡ some s) × Started m i n s
  process_job-Started m i n h fresh =
      subst (λ x. (s : Step O) × (process_job k m x ≡ some s) × Started m i n s) (sym h.ring.next)
        (process_at-Started m i n h
          (ap (λ x. is_custom (routing_of m x)) (sym h.ring.next) ∙ fresh))

  refused-Started :
      (m : Mgr O) (i n : ℕ)
      → Healthy m i n
      → is_custom (routing_of m m.next_job) ≡ false
      → Started m i n (set_status m m.next_job sts_invalid_args, some m.next_job)
  refused-Started m i n h fresh =
      let p = slot_at i n in
      subst (λ x. Started m i n (set_status m x sts_invalid_args, some x)) (sym h.ring.next)
        (record {
          earliest = refl;
          next = refl;
          sound =
              put_down c (Within i (suc n)) (set_status m p sts_invalid_args) p
                (enter c i n m (set_status m p sts_invalid_args) h.ring.room h.sound (λ x. refl)
                  (λ x ne. ground arith))
                (ground arith);
          usual =
              IsUsual-enter m (set_status m p sts_invalid_args) i n h.usual
                (ap (λ x. is_custom (routing_of m x)) (sym h.ring.next) ∙ fresh)
                (λ x. ground arith);
          finished = λ q e.
              subst (λ y. Within i (suc n) y × 3 ≤ status_of (set_status m p sts_invalid_args) y)
                (some_injective e) (Within-last i n, ground arith);
        })

  pub with_errno :
      (m : Mgr O) (e : Errno.Status) (i n : ℕ)
      → Healthy m i n
      → Healthy (record m { errno = e }) i n
  with_errno m e i n h = record {
    ring = record {
      start = h.ring.start;
      room = h.ring.room;
      next = h.ring.next;
      earliest = h.ring.earliest;
    };
    sound = Sound-same c (Within i n) m (record m { errno = e }) (λ x. refl) (λ x. refl) h.sound;
    usual = h.usual;
  }

  Started-errno :
      (m : Mgr O) (e : Errno.Status) (i n : ℕ) (s : Step O)
      → Started (record m { errno = e }) i n s
      → Started m i n s
  Started-errno m e i n s h = record {
    earliest = h.earliest;
    next = h.next;
    sound = h.sound;
    usual = h.usual;
    finished = h.finished;
  }

  pub start_job-Started :
      (run_check : Bool) (m : Mgr O) (i n : ℕ)
      → Healthy m i n
      → is_custom (routing_of m m.next_job) ≡ false
      → (s : Step O) × (start_job k run_check m m.next_job ≡ some s) × Started m i n s
  unfolding start_job
  start_job-Started false m i n h fresh = process_job-Started m i n h fresh
  start_job-Started true m i n h fresh =
      let checked = is_job_invalid (k.load m.world) m.errno (m.jobs m.next_job) in
      let m₁ = record m { errno = checked.0 } in
      both_branches (λ o. (s : Step O) × (o ≡ some s) × Started m i n s) checked.1
        (some (set_status m₁ m.next_job sts_invalid_args, some m.next_job))
        (process_job k m₁ m.next_job)
        (λ e. (
          (set_status m₁ m.next_job sts_invalid_args, some m.next_job),
          refl,
          Started-errno m checked.0 i n (set_status m₁ m.next_job sts_invalid_args, some m.next_job)
              (refused-Started m₁ i n (with_errno m checked.0 i n h) fresh),
        ))
        (λ e.
          let (s, e, started) = process_job-Started m₁ i n (with_errno m checked.0 i n h) fresh in
          (s, e, Started-errno m checked.0 i n s started))
