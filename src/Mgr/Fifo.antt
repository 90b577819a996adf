-- ===== src/Mgr/Fifo.antt =====
-- About SUBMIT_JOB and SUBMIT_JOB_NOCHECK of lib/include/mb_mgr_code.h: the ring as a queue.
use intel_ipsec_mb.Base.{
  ℕ, zero, suc, ◌*◌, ◌≤◌, ◌<◌, ◌==◌, ◌≡◌, inl, inr, refl, sym, ap, ◌∙◌, subst, if◌then◌else◌, Bool,
  true, false, Option, none, some, List, [], ◌∷◌, ◌++◌, arith,
}
use intel_ipsec_mb.Mgr.Kernels.{Kernels}
use intel_ipsec_mb.Mgr.State.{Mgr, sizeof_job, max_jobs, set_errno}
use intel_ipsec_mb.Mgr.Steps.{Step}
use intel_ipsec_mb.Mgr.Api.{
  adv_jobs, take_earliest, finish_submit, submit_job_and_check, submit_job, submit_job_nocheck,
}
use intel_ipsec_mb.Mgr.Contract.{Contract}
use intel_ipsec_mb.Mgr.Home.{is_custom}
use intel_ipsec_mb.Mgr.Effect.{status_of, routing_of}
use intel_ipsec_mb.Mgr.Ring.{
  Within, slot_at, next_slot, slots, slots-push, adv_jobs-slot_at, slot_at-zero, Within-pop,
  Within-none,
}
use intel_ipsec_mb.Mgr.Enter.{Sound-same}
use intel_ipsec_mb.Mgr.Start.{Healthy, Started, start_job-Started, with_errno}
use intel_ipsec_mb.Mgr.Take.{Popped, Moved, pop_lem, take_earliest-Moved}

pub only_one : (i q : ℕ) → i < max_jobs → Within i 1 q → q ≡ sizeof_job * i
only_one i q l w = elim (Within-pop i 0 q l w) [
  | inl e ↦ e
  | inr w' ↦ absurd (Within-none (next_slot i) q w')
]

pub occupied :
    (i n : ℕ) → (if suc n == 0 then none else some (sizeof_job * i)) ≡ some (sizeof_job * i)
occupied i n = ground arith

-- What a call gives back, as a list
abbrev pub given_back : Option ℕ → List ℕ
given_back none = []
given_back (some q) = q ∷ []

module _ {O : Type 0} where
  -- What a call gives back is finished.
  abbrev pub IsFinished : Mgr O → Option ℕ → Type 0
  IsFinished m none = Unit
  IsFinished m (some q) = 3 ≤ status_of m q

module _ {O : Type 0} {k : Kernels O} (c : Contract k) where
  finish-none :
      (m : Mgr O)
      → m.earliest_job ≡ none
      → finish_submit k (m, none)
        ≡ some (record m { earliest_job = some m.next_job; next_job = adv_jobs m.next_job }, none)
  unfolding finish_submit
  finish-none m e = ground arith

  finish-some :
      (m : Mgr O) (q : ℕ)
      → m.earliest_job ≡ none
      → finish_submit k (m, some q)
        ≡ some (record m { earliest_job = none; next_job = adv_jobs m.next_job }, some q)
  unfolding finish_submit
  finish-some m q e = ground arith

  finish-take :
      (m : Mgr O) (r : Option ℕ) (e : ℕ)
      → m.earliest_job ≡ some e
      → finish_submit k (m, r) ≡ take_earliest k m e (adv_jobs m.next_job)
  unfolding finish_submit
  finish-take m r e h = ground arith

  -- With an empty ring, a job that the job level returns is the new one.
  finish_empty-Moved :
      (m : Mgr O) (i : ℕ) (s : Step O)
      → Healthy c m i 0
      → Started c m i 0 s
      → (s' : Step O) × (finish_submit k s ≡ some s') × Moved c i 0 s'
  finish_empty-Moved m i (m₁, none) h st =
      let e = st.earliest ∙ h.ring.earliest in
      let next = st.next ∙ h.ring.next in
      (
        (record m₁ { earliest_job = some m₁.next_job; next_job = adv_jobs m₁.next_job }, none),
        finish-none m₁ e,
        inl (
          refl,
          record {
            ring = record {
              start = h.ring.start;
              room = omega arith;
              next = ap adv_jobs next ∙ adv_jobs-slot_at i 0;
              earliest = ap some (next ∙ slot_at-zero i h.ring.start);
            };
            sound =
                Sound-same c (Within i 1) m₁
                  (record m₁ { earliest_job = some m₁.next_job; next_job = adv_jobs m₁.next_job })
                  (λ x. refl) (λ x. refl) st.sound;
            usual = st.usual;
          },
        ),
      )
  finish_empty-Moved m i (m₁, some q) h st =
      let m₂ = record m₁ { earliest_job = none; next_job = adv_jobs m₁.next_job } in
      let (w, f) = st.finished q refl in
      let same = only_one i q h.ring.start w in
      (
        (m₂, some q),
        finish-some m₁ q (st.earliest ∙ h.ring.earliest),
        inr (
            subst (λ x. Popped c i 0 (m₂, some x)) (sym same)
              (pop_lem c m₁ m₂ i 0 h.ring.start (omega arith) st.sound st.usual
                (subst (λ x. 3 ≤ status_of m₁ x) same f) (λ x. refl) (λ x. refl)
                (ap adv_jobs (st.next ∙ h.ring.next) ∙ adv_jobs-slot_at i 0) refl)),
      )

  finish_submit-Moved :
      (m : Mgr O) (i n : ℕ) (s : Step O)
      → Healthy c m i n
      → Started c m i n s
      → (s' : Step O) × (finish_submit k s ≡ some s') × Moved c i n s'
  finish_submit-Moved m i zero s h st = finish_empty-Moved m i s h st
  finish_submit-Moved m i (suc n) (m₁, r) h st =
      let e = st.earliest ∙ h.ring.earliest ∙ occupied i n in
      let (s', eq, moved) =
        take_earliest-Moved c m₁ i (suc n) h.ring.start h.ring.room (λ z. omega arith) e st.sound
          st.usual in
      (
        s',
        finish-take m₁ r (sizeof_job * i) e
            ∙ ap (take_earliest k m₁ (sizeof_job * i))
                (ap adv_jobs (st.next ∙ h.ring.next) ∙ adv_jobs-slot_at i (suc n))
            ∙ eq,
        moved,
      )

  -- The queue of the jobs that are submitted and not given back, oldest first.
  abbrev pub IsQueue : Mgr O → List ℕ → Type 0
  IsQueue m qs = (i : ℕ) × (n : ℕ) × Healthy c m i n × (qs ≡ slots i n)

  -- A call that puts `new` behind the queue and takes what it gives back, finished, from its front.
  abbrev pub IsFifo : List ℕ → List ℕ → Step O → Type 0
  IsFifo qs new s =
      ((qs' : List ℕ) × IsQueue s.0 qs' × (qs ++ new ≡ given_back s.1 ++ qs')) × IsFinished s.0 s.1

  Moved-IsFifo :
      (i n : ℕ) (s : Step O)
      → i < max_jobs
      → Moved c i n s
      → IsFifo (slots i n) (slot_at i n ∷ []) s
  Moved-IsFifo i n s l (inl (e, h)) = (
    (
      slots i (suc n),
      (i, suc n, h, refl),
      slots-push n i l ∙ ap (λ r. given_back r ++ slots i (suc n)) (sym e),
    ),
    subst (IsFinished s.0) (sym e) tt,
  )
  Moved-IsFifo i n s l (inr (e, h, f)) = (
    (
      slots (next_slot i) n,
      (next_slot i, n, h, refl),
      slots-push n i l ∙ ap (λ r. given_back r ++ slots (next_slot i) n) (sym e),
    ),
    subst (IsFinished s.0) (sym e) f,
  )

  -- submit_job_and_check on a job without custom functions ends. It puts the job behind the queue and gives
  -- back nothing or the front of the queue, and a job that is given back is finished.
  pub submit_job_and_check-IsFifo :
      (run_check : Bool) (m : Mgr O) (qs : List ℕ)
      → IsQueue m qs
      → is_custom (routing_of m m.next_job) ≡ false
      → (s : Step O) × (submit_job_and_check k run_check m ≡ some s) × IsFifo qs (m.next_job ∷ []) s
  unfolding submit_job_and_check
  submit_job_and_check-IsFifo run_check m qs (i, n, h, e) fresh =
      let (s, eq, st) = start_job-Started c run_check m i n h fresh in
      let (s', eq', moved) = finish_submit-Moved m i n s h st in
      (
        s',
        ground arith,
        subst (λ xs. IsFifo xs (m.next_job ∷ []) s') (sym e)
            (subst (λ x. IsFifo (slots i n) (x ∷ []) s') (sym h.ring.next)
              (Moved-IsFifo i n s' h.ring.start moved)),
      )

  pub cleared : (m : Mgr O) (qs : List ℕ) → IsQueue m qs → IsQueue (set_errno m 0) qs
  cleared m qs (i, n, h, e) = (i, n, with_errno c m _ i n h, e)

  -- SUBMIT_JOB on a next job without custom functions ends. It puts the job behind the queue and gives back
  -- nothing or the front of the queue, and a job that is given back is finished.
  pub submit_job-IsFifo :
      (m : Mgr O) (qs : List ℕ)
      → IsQueue m qs
      → is_custom (routing_of m m.next_job) ≡ false
      → (s : Step O) × (submit_job k m ≡ some s) × IsFifo qs (m.next_job ∷ []) s
  unfolding submit_job
  submit_job-IsFifo m qs q fresh =
      submit_job_and_check-IsFifo true (set_errno m 0) qs (cleared m qs q) fresh

  -- SUBMIT_JOB_NOCHECK on a next job without custom functions ends. It puts the job behind the queue and gives
  -- back nothing or the front of the queue, and a job that is given back is finished.
  pub submit_job_nocheck-IsFifo :
      (m : Mgr O) (qs : List ℕ)
      → IsQueue m qs
      → is_custom (routing_of m m.next_job) ≡ false
      → (s : Step O) × (submit_job_nocheck k m ≡ some s) × IsFifo qs (m.next_job ∷ []) s
  unfolding submit_job_nocheck
  submit_job_nocheck-IsFifo m qs q fresh =
      submit_job_and_check-IsFifo false (set_errno m 0) qs (cleared m qs q) fresh
