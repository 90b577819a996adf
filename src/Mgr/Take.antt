-- ===== src/Mgr/Take.antt =====
-- About the second half of submit_job_and_check of lib/include/mb_mgr_code.h, with jobs in the ring.
use intel_ipsec_mb.Base.{
  ℕ, suc, ◌*◌, ◌≤◌, ◌<◌, ◌==◌, ltb, ltb-false, ◌≡◌, ◌≢◌, ◌⊎◌, inl, inr, refl, sym, ap, ◌∙◌,
  if◌then◌else◌, true, false, Bool-cases, none, some, arith,
}
use intel_ipsec_mb.Job.{sts_completed}
use intel_ipsec_mb.Mgr.Kernels.{Kernels}
use intel_ipsec_mb.Mgr.State.{Mgr, sizeof_job, max_jobs}
use intel_ipsec_mb.Mgr.Steps.{Step}
use intel_ipsec_mb.Mgr.Jobs.{loop_fuel, complete_job}
use intel_ipsec_mb.Mgr.Api.{adv_jobs, take_earliest}
use intel_ipsec_mb.Mgr.Contract.{Contract}
use intel_ipsec_mb.Mgr.Home.{routing, is_custom}
use intel_ipsec_mb.Mgr.Effect.{status_of, at_of}
use intel_ipsec_mb.Mgr.Sound.{Sound, IsUsual}
use intel_ipsec_mb.Mgr.Ring.{
  Within, slot_at, next_slot, adv_jobs-start, slot_at-next, Within-tail, Within-first,
}
use intel_ipsec_mb.Mgr.Enter.{leave, Sound-same, Within-IsAligned}
use intel_ipsec_mb.Mgr.Resubmit.{measure-bound, Keeps-IsUsual}
use intel_ipsec_mb.Mgr.Liveness.{complete_job-Completed}
use intel_ipsec_mb.Mgr.Start.{Healthy}

-- A ring that has not become full has a free slot.
not_full :
    (i n : ℕ)
    → i < max_jobs
    → n < max_jobs
    → (sizeof_job * i == slot_at i (suc n)) ≡ false
    → suc n < max_jobs
not_full i n li ln h = ground arith

module _ {O : Type 0} {k : Kernels O} (c : Contract k) where
  -- The oldest job is given back, finished..
  abbrev pub Popped : (i n : ℕ) → Step O → Type 0
  Popped i n s =
      (s.1 ≡ some (sizeof_job * i))
      × Healthy c s.0 (next_slot i) n
      × 3 ≤ status_of s.0 (sizeof_job * i)

  pub pop_lem :
      (m m' : Mgr O) (i n : ℕ)
      → i < max_jobs
      → n < max_jobs
      → Sound c (Within i (suc n)) m none
      → IsUsual (Within i (suc n)) m
      → 3 ≤ status_of m (sizeof_job * i)
      → ((x : ℕ) → at_of c m' x ≡ at_of c m x)
      → ((x : ℕ) → m'.jobs x ≡ m.jobs x)
      → m'.next_job ≡ slot_at i (suc n)
      → m'.earliest_job ≡ (if n == 0 then none else some (sizeof_job * next_slot i))
      → Popped i n (m', some (sizeof_job * i))
  pop_lem m m' i n li ln sound usual f at same next earliest = (
    refl,
    record {
      ring = record {
        start = omega arith;
        room = ln;
        next = next ∙ sym (slot_at-next i n);
        earliest = earliest;
      };
      sound = Sound-same c (Within (next_slot i) n) m m' at same (leave c i n m li ln sound f);
      usual = λ x w. ap (λ j. is_custom (routing j)) (same x) ∙ usual x (Within-tail i n x w);
    },
    ground (arith, same (sizeof_job * i)),
  )

  -- After a submit: nothing is given back, or the oldest job.
  abbrev pub Moved : (i n : ℕ) → Step O → Type 0
  Moved i n s = ((s.1 ≡ none) × Healthy c s.0 i (suc n)) ⊎ Popped i n s

  take-full :
      (m m' : Mgr O) (e next : ℕ)
      → (e == next) ≡ true
      → complete_job k loop_fuel (record m { next_job = next }) e ≡ some m'
      → take_earliest k m e next ≡ some (record m' { earliest_job = some (adv_jobs e) }, some e)
  unfolding take_earliest
  take-full m m' e next full done = ground arith

  take-busy :
      (m : Mgr O) (e next : ℕ)
      → (e == next) ≡ false
      → ltb (m.jobs e).status sts_completed ≡ true
      → take_earliest k m e next ≡ some (record m { next_job = next }, none)
  unfolding take_earliest
  take-busy m e next room busy = ground arith

  take-done :
      (m : Mgr O) (e next : ℕ)
      → (e == next) ≡ false
      → ltb (m.jobs e).status sts_completed ≡ false
      → take_earliest k m e next
        ≡ some (record m { next_job = next; earliest_job = some (adv_jobs e) }, some e)
  unfolding take_earliest
  take-done m e next room done = ground arith

  pub take_earliest-Moved :
      (m : Mgr O) (i n : ℕ)
      → i < max_jobs
      → n < max_jobs
      → n ≢ 0
      → m.earliest_job ≡ some (sizeof_job * i)
      → Sound c (Within i (suc n)) m none
      → IsUsual (Within i (suc n)) m
      → (s : Step O) × (take_earliest k m (sizeof_job * i) (slot_at i (suc n)) ≡ some s)
        × Moved i n s
  take_earliest-Moved m i n li ln some_job earliest sound usual =
      let e = sizeof_job * i in
      let next = slot_at i (suc n) in
      elim (Bool-cases (e == next)) [
        | inl full ↦
            let m₁ = record m { next_job = next } in
            let (m', eq, done) =
              complete_job-Completed c (Within i (suc n)) loop_fuel m₁ e
                (omega (arith, measure-bound m₁)) (Within-IsAligned i (suc n)) usual
                (Sound-same c (Within i (suc n)) m m₁ (λ x. refl) (λ x. refl) sound)
                (Within-first i n li) in
            (
              (record m' { earliest_job = some (adv_jobs e) }, some e),
              take-full m m' e next full eq,
              inr (
                  pop_lem m' (record m' { earliest_job = some (adv_jobs e) }) i n li ln done.sound
                    (Keeps-IsUsual (Within i (suc n)) m₁ m' done.keeps usual) done.finished
                    (λ x. refl) (λ x. refl) done.keeps.next (ground (arith, adv_jobs-start i li))),
            )
        | inr room ↦ elim (Bool-cases (ltb (m.jobs e).status sts_completed)) [
          | inl busy ↦ (
            (record m { next_job = next }, none),
            take-busy m e next room busy,
            inl (
              refl,
              record {
                ring = record {
                  start = li;
                  room = not_full i n li ln room;
                  next = refl;
                  earliest = ground (arith, earliest);
                };
                sound =
                    Sound-same c (Within i (suc n)) m (record m { next_job = next }) (λ x. refl)
                      (λ x. refl) sound;
                usual = usual;
              },
            ),
          )
          | inr done ↦ (
            (record m { next_job = next; earliest_job = some (adv_jobs e) }, some e),
            take-done m e next room done,
            inr (
                pop_lem m (record m { next_job = next; earliest_job = some (adv_jobs e) }) i n li ln
                  sound usual (ltb-false (status_of m e) 3 done) (λ x. refl) (λ x. refl) refl
                  (ground (arith, adv_jobs-start i li))),
          )
        ]
      ]
