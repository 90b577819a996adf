-- ===== src/Mgr/Jobs.antt =====
-- The job level of lib/include/mb_mgr_code.h: RESUBMIT_JOB, submit_new_job and complete_job. The two
-- `while` loops take fuel; `none` means that it ran out.
use intel_ipsec_mb.Base.{ℕ, zero, suc, true, false, ◌==◌, ltb, if◌then◌else◌, Option, none, some}
use intel_ipsec_mb.Job.{is_cipher_hash, sts_completed, sts_completed_hmac}
use intel_ipsec_mb.Mgr.Kernels.{Kernels}
use intel_ipsec_mb.Mgr.State.{Mgr}
use intel_ipsec_mb.Mgr.Steps.{Step}
use intel_ipsec_mb.Mgr.Cipher.{submit_job_aes, flush_job_aes}
use intel_ipsec_mb.Mgr.Hash.{submit_job_hash, flush_job_hash}

-- More than two rounds for each of the 128 jobs.
abbrev pub loop_fuel : ℕ
loop_fuel = 257

module _ {O : Type 0} (k : Kernels O) where
  -- The body of the loop of RESUBMIT_JOB
  unfoldable pub resubmit_once : Mgr O → ℕ → Step O
  resubmit_once m p =
      if (m.jobs p).status == sts_completed_hmac
      then submit_job_aes k m p
      else submit_job_hash k m p

  -- RESUBMIT_JOB
  unfoldable pub resubmit_job : ℕ → Step O → Option (Step O)
  resubmit_job fuel (m, none) = some (m, none)
  resubmit_job zero (m, some p) = none
  resubmit_job (suc fuel) (m, some p) = elim (ltb (m.jobs p).status sts_completed) [
    | true ↦ resubmit_job fuel (resubmit_once m p)
    | false ↦ some (m, some p)
  ]

  -- submit_new_job
  unfoldable pub submit_new_job : ℕ → Mgr O → ℕ → Option (Step O)
  submit_new_job fuel m p = resubmit_job fuel (
      if is_cipher_hash (m.jobs p).chain_order then submit_job_aes k m p else submit_job_hash k m p)

  -- Flush the first function and, if it has no job, the second.
  unfoldable pub flush_either : (Mgr O → ℕ → Step O) → (Mgr O → ℕ → Step O) → Mgr O → ℕ → Step O
  flush_either first second m p =
      let (m', r) = first m p in elim r [ none ↦ second m' p | some q ↦ (m', some q) ]

  -- The bodies of the loops of complete_job, but for RESUBMIT_JOB
  unfoldable pub flush_once : Mgr O → ℕ → Step O
  flush_once m p =
      if is_cipher_hash (m.jobs p).chain_order
      then flush_either (flush_job_aes k) (flush_job_hash k) m p
      else flush_either (flush_job_hash k) (flush_job_aes k) m p

  -- complete_job
  unfoldable pub complete_job : ℕ → Mgr O → ℕ → Option (Mgr O)
  complete_job zero m p = none
  complete_job (suc fuel) m p = elim (ltb (m.jobs p).status sts_completed) [
    | true ↦ elim (resubmit_job loop_fuel (flush_once m p)) [
      | none ↦ none
      | some (m', _) ↦ complete_job fuel m' p
    ]
    | false ↦ some m
  ]
