-- ===== src/Mgr/Drain.antt =====
-- FLUSH_JOB, GET_COMPLETED_JOB and QUEUE_SIZE of lib/include/mb_mgr_code.h on the queue of jobs.
use intel_ipsec_mb.Base.{
  ℕ, zero, suc, ◌+◌, ◌*◌, ◌%◌, ◌/◌, ◌-◌, ◌^◌, ◌≤◌, ◌<◌, ◌==◌, ltb, ltb-false, ◌≡◌, inl, inr, refl,
  sym, ap, ◌∙◌, subst, if◌then◌else◌, true, false, Bool-cases, Option, none, some, List, [], ◌∷◌,
  ◌++◌, length, arith,
}
use intel_ipsec_mb.Job.{sts_completed}
use intel_ipsec_mb.Mgr.Kernels.{Kernels}
use intel_ipsec_mb.Mgr.State.{Mgr, sizeof_job, max_jobs, set_errno}
use intel_ipsec_mb.Mgr.Steps.{Step}
use intel_ipsec_mb.Mgr.Jobs.{loop_fuel, complete_job}
use intel_ipsec_mb.Mgr.Api.{adv_jobs, drop_earliest, get_completed_job, flush_job, queue_size}
use intel_ipsec_mb.Mgr.Contract.{Contract}
use intel_ipsec_mb.Mgr.Effect.{status_of}
use intel_ipsec_mb.Mgr.Sound.{Sound, IsUsual}
use intel_ipsec_mb.Mgr.Ring.{Within, slot_at, next_slot, slots, length-slots, Within-first}
use intel_ipsec_mb.Mgr.Enter.{Within-IsAligned}
use intel_ipsec_mb.Mgr.Resubmit.{measure-bound, Keeps-IsUsual}
use intel_ipsec_mb.Mgr.Liveness.{complete_job-Completed}
use intel_ipsec_mb.Mgr.Start.{Healthy, with_errno}
use intel_ipsec_mb.Mgr.Take.{Popped, pop_lem}
use intel_ipsec_mb.Mgr.Fifo.{IsQueue, cleared, given_back, occupied, IsFinished}

-- The ring is empty behind its last job, and only there.
emptied :
    (i n : ℕ) (next : ℕ)
    → i < max_jobs
    → suc n < max_jobs
    → next ≡ slot_at i (suc n)
    → (if adv_jobs (sizeof_job * i) == next then none else some (adv_jobs (sizeof_job * i)))
      ≡ (if n == 0 then none else some (sizeof_job * next_slot i))
emptied i n next li ln e = ground arith

size_lem :
    (i n next : ℕ)
    → i < max_jobs
    → n < max_jobs
    → next ≡ slot_at i n
    → (next / sizeof_job + 2 ^ 32 - sizeof_job * i / sizeof_job) % max_jobs ≡ n
size_lem i n next li ln e = ground arith

abbrev pub front : List ℕ → Option ℕ
front [] = none
front (q ∷ qs) = some q

module _ {O : Type 0} where
  -- What GET_COMPLETED_JOB gives for a queue: its front, if that is finished.
  abbrev pub finished_front : Mgr O → List ℕ → Option ℕ
  finished_front m [] = none
  finished_front m (q ∷ qs) = if ltb (status_of m q) sts_completed then none else some q

module _ {O : Type 0} {k : Kernels O} (c : Contract k) where
  drop-Popped :
      (m : Mgr O) (i n : ℕ)
      → i < max_jobs
      → suc n < max_jobs
      → m.next_job ≡ slot_at i (suc n)
      → Sound c (Within i (suc n)) m none
      → IsUsual (Within i (suc n)) m
      → 3 ≤ status_of m (sizeof_job * i)
      → Popped c i n (drop_earliest m (sizeof_job * i), some (sizeof_job * i))
  unfolding drop_earliest
  drop-Popped m i n li ln next sound usual f =
      pop_lem c m (drop_earliest m (sizeof_job * i)) i n li (omega arith) sound usual f (λ x. refl)
        (λ x. refl) next (emptied i n m.next_job li ln next)

  flush-empty : (m : Mgr O) → m.earliest_job ≡ none → flush_job k m ≡ some (set_errno m 0, none)
  unfolding flush_job
  flush-empty m e = ground arith

  flush-oldest :
      (m m' : Mgr O) (e : ℕ)
      → m.earliest_job ≡ some e
      → complete_job k loop_fuel (set_errno m 0) e ≡ some m'
      → flush_job k m ≡ some (drop_earliest m' e, some e)
  unfolding flush_job
  flush-oldest m m' e h h' = ground arith

  -- A call that takes what it gives back, finished, from the front of the queue.
  abbrev pub IsTaken : List ℕ → Step O → Type 0
  IsTaken qs s =
      ((qs' : List ℕ) × IsQueue c s.0 qs' × (qs ≡ given_back s.1 ++ qs')) × IsFinished s.0 s.1

  Popped-IsTaken : (i n : ℕ) (s : Step O) → Popped c i n s → IsTaken (slots i (suc n)) s
  Popped-IsTaken i n s (e, h, f) = (
    (
      slots (next_slot i) n,
      (next_slot i, n, h, refl),
      ap (λ r. given_back r ++ slots (next_slot i) n) (sym e),
    ),
    subst (IsFinished s.0) (sym e) f,
  )

  flush_ring :
      (m : Mgr O) (i n : ℕ)
      → Healthy c m i n
      → (s : Step O) × (flush_job k m ≡ some s) × IsTaken (slots i n) s × (s.1 ≡ front (slots i n))
  flush_ring m i zero h = (
    (set_errno m 0, none),
    flush-empty m h.ring.earliest,
    (([], (i, 0, with_errno c m _ i 0 h, refl), refl), tt),
    refl,
  )
  flush_ring m i (suc n) h =
      let e = h.ring.earliest ∙ occupied i n in
      let m₁ = set_errno m 0 in
      let h₁ = with_errno c m _ i (suc n) h in
      let (m', eq, done) =
        complete_job-Completed c (Within i (suc n)) loop_fuel m₁ (sizeof_job * i)
          (omega (arith, measure-bound m₁)) (Within-IsAligned i (suc n)) h.usual h₁.sound
          (Within-first i n h.ring.start) in
      (
        (drop_earliest m' (sizeof_job * i), some (sizeof_job * i)),
        flush-oldest m m' (sizeof_job * i) e eq,
        Popped-IsTaken i n (drop_earliest m' (sizeof_job * i), some (sizeof_job * i))
            (drop-Popped m' i n h.ring.start h.ring.room (done.keeps.next ∙ h.ring.next) done.sound
              (Keeps-IsUsual (Within i (suc n)) m₁ m' done.keeps h.usual) done.finished),
        refl,
      )

  -- FLUSH_JOB ends. It gives back the front of the queue, finished, or nothing if the queue is empty.
  pub flush_job-IsTaken :
      (m : Mgr O) (qs : List ℕ)
      → IsQueue c m qs
      → (s : Step O) × (flush_job k m ≡ some s) × IsTaken qs s × (s.1 ≡ front qs)
  flush_job-IsTaken m qs (i, n, h, e) =
      let (s, eq, t, empty) = flush_ring m i n h in
      (s, eq, subst (λ xs. IsTaken xs s) (sym e) t, empty ∙ ap front (sym e))

  get-none : (m : Mgr O) → m.earliest_job ≡ none → get_completed_job m ≡ (set_errno m 0, none)
  unfolding get_completed_job
  get-none m e = ground arith

  get-busy :
      (m : Mgr O) (e : ℕ)
      → m.earliest_job ≡ some e
      → ltb (m.jobs e).status sts_completed ≡ true
      → get_completed_job m ≡ (set_errno m 0, none)
  unfolding get_completed_job
  get-busy m e h b = ground arith

  get-done :
      (m : Mgr O) (e : ℕ)
      → m.earliest_job ≡ some e
      → ltb (m.jobs e).status sts_completed ≡ false
      → get_completed_job m ≡ (drop_earliest (set_errno m 0) e, some e)
  unfolding get_completed_job
  get-done m e h b = ground arith

  nothing-IsTaken :
      (m : Mgr O) (i n : ℕ) → Healthy c m i n → IsTaken (slots i n) (set_errno m 0, none)
  nothing-IsTaken m i n h = ((slots i n, (i, n, with_errno c m _ i n h, refl), refl), tt)

  get_ring :
      (m : Mgr O) (i n : ℕ)
      → Healthy c m i n
      → IsTaken (slots i n) (get_completed_job m)
        × ((get_completed_job m).1 ≡ finished_front m (slots i n))
  get_ring m i zero h =
      subst (λ s. IsTaken (slots i zero) s × (s.1 ≡ finished_front m (slots i zero)))
        (sym (get-none m h.ring.earliest)) (nothing-IsTaken m i zero h, refl)
  get_ring m i (suc n) h =
      let e = h.ring.earliest ∙ occupied i n in
      let q = sizeof_job * i in
      elim (Bool-cases (ltb (status_of m q) sts_completed)) [
        | inl busy ↦
            subst (λ s. IsTaken (slots i (suc n)) s × (s.1 ≡ finished_front m (slots i (suc n))))
              (sym (get-busy m q e busy)) (nothing-IsTaken m i (suc n) h, ground (arith, busy))
        | inr done ↦
            subst (λ s. IsTaken (slots i (suc n)) s × (s.1 ≡ finished_front m (slots i (suc n))))
              (sym (get-done m q e done))
              (
                Popped-IsTaken i n (drop_earliest (set_errno m 0) q, some q)
                    (drop-Popped (set_errno m 0) i n h.ring.start h.ring.room h.ring.next
                      (with_errno c m _ i (suc n) h).sound h.usual
                      (ltb-false (status_of m q) 3 done)),
                ground (arith, done),
              )
      ]

  -- GET_COMPLETED_JOB gives back the front of the queue if that is finished, and nothing otherwise.
  pub get_completed_job-IsTaken :
      (m : Mgr O) (qs : List ℕ)
      → IsQueue c m qs
      → IsTaken qs (get_completed_job m) × ((get_completed_job m).1 ≡ finished_front m qs)
  get_completed_job-IsTaken m qs (i, n, h, e) =
      subst
        (λ xs. IsTaken xs (get_completed_job m) × ((get_completed_job m).1 ≡ finished_front m xs))
        (sym e) (get_ring m i n h)

  size-none : (m : Mgr O) → m.earliest_job ≡ none → (queue_size m).1 ≡ 0
  unfolding queue_size
  size-none m e = ground arith

  size-some :
      (m : Mgr O) (e : ℕ)
      → m.earliest_job ≡ some e
      → (queue_size m).1 ≡ (m.next_job / sizeof_job + 2 ^ 32 - e / sizeof_job) % max_jobs
  unfolding queue_size
  size-some m e h = ground arith

  -- QUEUE_SIZE is the number of jobs that are submitted and not given back, and leaves the queue as it is.
  pub queue_size-length :
      (m : Mgr O) (qs : List ℕ)
      → IsQueue c m qs
      → ((queue_size m).1 ≡ length qs) × IsQueue c (queue_size m).0 qs
  unfolding queue_size
  queue_size-length m qs (i, zero, h, e) =
      (size-none m h.ring.earliest ∙ sym (ap length e), cleared c m qs (i, zero, h, e))
  queue_size-length m qs (i, suc n, h, e) = (
    size-some m (sizeof_job * i) (h.ring.earliest ∙ occupied i n)
        ∙ size_lem i (suc n) m.next_job h.ring.start h.ring.room h.ring.next
        ∙ sym (ap length e ∙ length-slots (suc n) i),
    cleared c m qs (i, suc n, h, e),
  )
