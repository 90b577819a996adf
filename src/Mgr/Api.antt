-- ===== src/Mgr/Api.antt =====
-- The interface of lib/include/mb_mgr_code.h: a ring of 128 jobs, from `earliest_job` up to `next_job`, on
-- top of the job level. The manager's pointer is not NULL, and SAFE_PARAM and SAFE_DATA are off.
-- A result is `none` only if a loop of the job level runs out of fuel.
use intel_ipsec_mb.Base.{
  ℕ, ◌+◌, ◌-◌, ◌/◌, ◌%◌, ◌^◌, Bool, true, false, ◌==◌, leb, ltb, if◌then◌else◌, Option, none, some,
}
use intel_ipsec_mb.Job.{sts_being_processed, sts_completed, sts_invalid_args}
use intel_ipsec_mb.Validate.{is_job_invalid}
use intel_ipsec_mb.Mgr.Kernels.{Kernels}
use intel_ipsec_mb.Mgr.State.{Mgr, sizeof_job, jobs_size, max_jobs, set_status, set_errno}
use intel_ipsec_mb.Mgr.Steps.{Step}
use intel_ipsec_mb.Mgr.Jobs.{submit_new_job, complete_job, loop_fuel}

-- ADV_JOBS
abbrev pub adv_jobs : ℕ → ℕ
adv_jobs o = if leb jobs_size (o + sizeof_job) then 0 else o + sizeof_job

module _ {O : Type 0} (k : Kernels O) where
  -- `job->status = STS_BEING_PROCESSED; job = submit_new_job(state, job);`
  unfoldable pub process_job : Mgr O → ℕ → Option (Step O)
  process_job m p = submit_new_job k loop_fuel (set_status m p sts_being_processed) p

  -- The first part of submit_job_and_check: the new job is refused or handed to the job level.
  unfoldable pub start_job : Bool → Mgr O → ℕ → Option (Step O)
  start_job run_check m p =
      let (errno, invalid) = is_job_invalid (k.load m.world) m.errno (m.jobs p) in
      if run_check
      then if invalid
        then some (set_status (record m { errno = errno }) p sts_invalid_args, some p)
        else process_job (record m { errno = errno }) p
      else process_job m p

  -- The part of submit_job_and_check from `ADV_JOBS(&state->next_job)` on, with jobs in the ring.
  unfoldable pub take_earliest : Mgr O → ℕ → ℕ → Option (Step O)
  take_earliest m e next =
      if e == next
      then elim (complete_job k loop_fuel (record m { next_job = next }) e) [
        | none ↦ none
        | some m' ↦ some (record m' { earliest_job = some (adv_jobs e) }, some e)
      ]
      else if ltb (m.jobs e).status sts_completed
      then some (record m { next_job = next }, none)
      else some (record m { next_job = next; earliest_job = some (adv_jobs e) }, some e)

  -- The rest of submit_job_and_check
  unfoldable pub finish_submit : Step O → Option (Step O)
  finish_submit (m, r) = elim m.earliest_job [
    | none ↦ some (
      record m {
        earliest_job = elim r [ none ↦ some m.next_job | some _ ↦ none ];
        next_job = adv_jobs m.next_job;
      },
      r,
    )
    | some e ↦ take_earliest m e (adv_jobs m.next_job)
  ]

  -- submit_job_and_check
  unfoldable pub submit_job_and_check : Bool → Mgr O → Option (Step O)
  submit_job_and_check run_check m = elim (start_job run_check m m.next_job) [
    | none ↦ none
    | some s ↦ finish_submit s
  ]

  -- SUBMIT_JOB
  unfoldable pub submit_job : Mgr O → Option (Step O)
  submit_job m = submit_job_and_check true (set_errno m 0)

  -- SUBMIT_JOB_NOCHECK
  unfoldable pub submit_job_nocheck : Mgr O → Option (Step O)
  submit_job_nocheck m = submit_job_and_check false (set_errno m 0)

module _ {O : Type 0} where
  -- What FLUSH_JOB and GET_COMPLETED_JOB do to the ring when they give the job at `e` back.
  unfoldable pub drop_earliest : Mgr O → ℕ → Mgr O
  drop_earliest m e = record m {
    earliest_job = if adv_jobs e == m.next_job then none else some (adv_jobs e);
  }

  -- GET_COMPLETED_JOB
  unfoldable pub get_completed_job : Mgr O → Step O
  get_completed_job m = elim m.earliest_job [
    | none ↦ (set_errno m 0, none)
    | some e ↦
        if ltb (m.jobs e).status sts_completed
        then (set_errno m 0, none)
        else (drop_earliest (set_errno m 0) e, some e)
  ]

  -- GET_NEXT_JOB
  unfoldable pub get_next_job : Mgr O → Step O
  get_next_job m = (set_errno m 0, some m.next_job)

  -- QUEUE_SIZE: `(a - b) & (MAX_JOBS - 1)` on `int`
  unfoldable pub queue_size : Mgr O → Mgr O × ℕ
  queue_size m = (
    set_errno m 0,
    elim m.earliest_job [
      | none ↦ 0
      | some e ↦ (m.next_job / sizeof_job + 2 ^ 32 - e / sizeof_job) % max_jobs
    ],
  )

module _ {O : Type 0} (k : Kernels O) where
  -- FLUSH_JOB
  unfoldable pub flush_job : Mgr O → Option (Step O)
  flush_job m = elim m.earliest_job [
    | none ↦ some (set_errno m 0, none)
    | some e ↦ elim (complete_job k loop_fuel (set_errno m 0) e) [
      | none ↦ none
      | some m' ↦ some (drop_earliest m' e, some e)
    ]
  ]
