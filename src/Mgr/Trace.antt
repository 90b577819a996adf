-- ===== src/Mgr/Trace.antt =====
-- A client of lib/include/mb_mgr_code.h: any sequence of calls on a manager that init_mb_mgr_sse of
-- lib/sse/mb_mgr_sse.c has set up.
use intel_ipsec_mb.Base.{
  ℕ, ◌≡◌, refl, sym, ap, ◌∙◌, subst, false, update, update_self, update-ne, Option, none, some,
  List, [], ◌∷◌, ◌++◌, arith,
}
use mathlib.Core.List.{append_assoc, append-nil}
use native.Mathlib.Decide.{ℕ_discrete}
use intel_ipsec_mb.Mgr.Enter.{free_lem}
use intel_ipsec_mb.Job.{Job}
use intel_ipsec_mb.Mgr.Kernels.{Kernels}
use intel_ipsec_mb.Mgr.State.{Mgr}
use intel_ipsec_mb.Mgr.Steps.{Step}
use intel_ipsec_mb.Mgr.Api.{submit_job, submit_job_nocheck, get_completed_job, flush_job}
use intel_ipsec_mb.Mgr.Contract.{Contract}
use intel_ipsec_mb.Mgr.Home.{routing, is_custom}
use intel_ipsec_mb.Mgr.Effect.{routing_of, at_of}
use intel_ipsec_mb.Mgr.Sound.{outside}
use intel_ipsec_mb.Mgr.Ring.{Within, next_free, Within-none}
use intel_ipsec_mb.Mgr.Slots.{Slot-same}
use intel_ipsec_mb.Mgr.Start.{Healthy}
use intel_ipsec_mb.Mgr.Fifo.{
  IsQueue, IsFifo, given_back, submit_job-IsFifo, submit_job_nocheck-IsFifo,
}
use intel_ipsec_mb.Mgr.Drain.{flush_job-IsTaken, get_completed_job-IsTaken}

module _ {O : Type 0} where
  -- The end of init_mb_mgr_sse
  unfoldable pub init_ring : Mgr O → Mgr O
  init_ring m = record m { next_job = 0; earliest_job = none }

  -- The client writes the job at the pointer that GET_NEXT_JOB gave.
  unfoldable pub fill_next : Mgr O → Job → Mgr O
  fill_next m job = record m { jobs = update m.jobs m.next_job job }

-- The calls of a client; a submit comes with the job that was written.
pub data Call : Type 0 where
  submit submit_nocheck : Job → Call
  flush get_completed : Call

module _ {O : Type 0} (k : Kernels O) where
  -- The new state, what was submitted and what was given back
  pub make_call : Call → Mgr O → Option (Step O)
  make_call (submit job) m = submit_job k (fill_next m job)
  make_call (submit_nocheck job) m = submit_job_nocheck k (fill_next m job)
  make_call flush m = flush_job k m
  make_call get_completed m = some (get_completed_job m)

abbrev pub submitted_by : Call → ℕ → List ℕ
submitted_by (submit job) next = next ∷ []
submitted_by (submit_nocheck job) next = next ∷ []
submitted_by flush next = []
submitted_by get_completed next = []

abbrev pub IsUsualCall : Call → Type 0
IsUsualCall (submit job) = is_custom (routing job) ≡ false
IsUsualCall (submit_nocheck job) = is_custom (routing job) ≡ false
IsUsualCall flush = Unit
IsUsualCall get_completed = Unit

abbrev pub AreUsual : List Call → Type 0
AreUsual [] = Unit
AreUsual (call ∷ calls) = IsUsualCall call × AreUsual calls

module _ {O : Type 0} (k : Kernels O) where
  -- The calls in turn, with the offsets submitted and those given back, each in order.
  unfoldable pub run_calls : List Call → Mgr O → Option (Mgr O × (List ℕ × List ℕ))
  run_calls [] m = some (m, ([], []))
  run_calls (call ∷ calls) m = elim (make_call k call m) [
    | none ↦ none
    | some s ↦ elim (run_calls calls s.0) [
      | none ↦ none
      | some (m', (ins, outs)) ↦
          some (m', (submitted_by call m.next_job ++ ins, given_back s.1 ++ outs))
    ]
  ]

queue_step :
    (qs new given mid ins outs rest : List ℕ)
    → qs ++ new ≡ given ++ mid
    → mid ++ ins ≡ outs ++ rest
    → qs ++ (new ++ ins) ≡ (given ++ outs) ++ rest
queue_step qs new given mid ins outs rest e e' =
    sym (append_assoc qs new ins)
    ∙ ap (λ xs. xs ++ ins) e
    ∙ append_assoc given mid ins
    ∙ ap (λ xs. given ++ xs) e'
    ∙ sym (append_assoc given outs rest)

module _ {O : Type 0} {k : Kernels O} (c : Contract k) where
  -- A manager whose lanes are empty has an empty queue after its initialization.
  pub init_ring-IsQueue : (m : Mgr O) → ((x : ℕ) → at_of c m x ≡ none) → IsQueue c (init_ring m) []
  unfolding init_ring
  init_ring-IsQueue m empty = (
    0,
    0,
    record {
      ring = record { start = omega arith; room = omega arith; next = refl; earliest = refl };
      sound = λ x. outside (empty x) (Within-none 0 x) (λ h. ground arith);
      usual = λ x w. absurd (Within-none 0 x w);
    },
    refl,
  )

  fill_next-IsQueue :
      (m : Mgr O) (qs : List ℕ) (job : Job) → IsQueue c m qs → IsQueue c (fill_next m job) qs
  unfolding fill_next
  fill_next-IsQueue m qs job (i, n, h, e) = (
    i,
    n,
    record {
      ring = record {
        start = h.ring.start;
        room = h.ring.room;
        next = h.ring.next;
        earliest = h.ring.earliest;
      };
      sound = λ x. elim (ℕ_discrete x m.next_job) [
        | yes same ↦
            let out = not_within m i n x h same in
            outside (free_lem c (Within i n) m x out (h.sound x)) out (λ h. ground arith)
        | no ne ↦
            Slot-same c (Within i n) m (record m { jobs = update m.jobs m.next_job job }) none none
              x refl (ground arith) (ground arith) (λ h. h) (λ h. h) (h.sound x)
      ];
      usual = λ x w. elim (ℕ_discrete x m.next_job) [
        | yes same ↦ absurd (not_within m i n x h same w)
        | no ne ↦ ap is_custom (ap routing (update-ne m.jobs m.next_job x job ne)) ∙ h.usual x w
      ];
    },
    e,
  )
    where
      not_within : (m : Mgr O) (i n x : ℕ) → Healthy c m i n → x ≡ m.next_job → Within i n x → ⊥
      not_within m i n x h same w =
          next_free i n h.ring.room (subst (Within i n) (same ∙ h.ring.next) w)

  fresh_lem :
      (m : Mgr O) (job : Job)
      → routing_of (fill_next m job) (fill_next m job).next_job ≡ routing job
  unfolding fill_next
  fresh_lem m job = ap routing (update_self m.jobs m.next_job job)

  pub next-fill_next : (m : Mgr O) (job : Job) → (fill_next m job).next_job ≡ m.next_job
  unfolding fill_next
  next-fill_next m job = refl

  make_call-IsFifo :
      (call : Call) (m : Mgr O) (qs : List ℕ)
      → IsUsualCall call
      → IsQueue c m qs
      → (s : Step O) × (make_call k call m ≡ some s) × IsFifo c qs (submitted_by call m.next_job) s
  unfolding make_call
  make_call-IsFifo (submit job) m qs u q =
      subst (λ x. (s : Step O) × (submit_job k (fill_next m job) ≡ some s) × IsFifo c qs (x ∷ []) s)
        (next-fill_next m job)
        (submit_job-IsFifo c (fill_next m job) qs (fill_next-IsQueue m qs job q)
          (ap is_custom (fresh_lem m job) ∙ u))
  make_call-IsFifo (submit_nocheck job) m qs u q =
      subst
        (λ x.
          (s : Step O) × (submit_job_nocheck k (fill_next m job) ≡ some s) × IsFifo c qs (x ∷ []) s)
        (next-fill_next m job)
        (submit_job_nocheck-IsFifo c (fill_next m job) qs (fill_next-IsQueue m qs job q)
          (ap is_custom (fresh_lem m job) ∙ u))
  make_call-IsFifo flush m qs u q =
      let (s, e, ((qs', q', e'), f), _) = flush_job-IsTaken c m qs q in
      (s, e, ((qs', q', append-nil qs ∙ e'), f))
  make_call-IsFifo get_completed m qs u q =
      let (((qs', q', e'), f), _) = get_completed_job-IsTaken c m qs q in
      (get_completed_job m, refl, ((qs', q', append-nil qs ∙ e'), f))

  -- From a manager with the queue `qs`, any sequence of calls whose jobs have no custom functions ends. What
  -- was in the queue and what was submitted is, in this order, what was given back and what is in the queue.
  pub run_calls-fifo :
      (calls : List Call) (m : Mgr O) (qs : List ℕ)
      → AreUsual calls
      → IsQueue c m qs
      → (m' : Mgr O) × (ins : List ℕ) × (outs : List ℕ) × (qs' : List ℕ) × (run_calls k calls m
          ≡ some (m', (ins, outs)))
        × IsQueue c m' qs'
        × (qs ++ ins ≡ outs ++ qs')
  unfolding run_calls
  run_calls-fifo [] m qs u q = (m, [], [], qs, refl, q, append-nil qs)
  run_calls-fifo (call ∷ calls) m qs (u, us) q =
      let (s, e, ((mid, q', e'), f)) = make_call-IsFifo call m qs u q in
      let (m', ins, outs, qs', ran, q'', rest) = run_calls-fifo calls s.0 mid us q' in
      (
        m',
        submitted_by call m.next_job ++ ins,
        given_back s.1 ++ outs,
        qs',
        ground (arith, e, ran),
        q'',
        queue_step qs (submitted_by call m.next_job) (given_back s.1) mid ins outs qs' e' rest,
      )
