-- ===== src/Mgr/State.antt =====
-- The state of IMB_MGR that lib/include/mb_mgr_code.h works on, and the small steps on it.
use intel_ipsec_mb.Base.{ℕ, ◌+◌, ◌-◌, ◌*◌, ◌%◌, ◌^◌, bit_or, Option, List, [], ◌∷◌, update}
use intel_ipsec_mb.Job.{Job}
use intel_ipsec_mb.Errno
use intel_ipsec_mb.Mgr.Kernels.{Kernels, Routine}

-- sizeof(IMB_JOB) on x86-64, and the size of the array of jobs.
abbrev pub sizeof_job : ℕ
sizeof_job = 184

abbrev pub max_jobs : ℕ
max_jobs = 128

abbrev pub jobs_size : ℕ
jobs_size = max_jobs * sizeof_job

-- `jobs p` is the job at byte offset `p` of `state->jobs`; a job pointer is its offset. `earliest_job` is
-- `none` for a negative number: the code only stores -1 and only tests for a negative one.
pub record Mgr (O : Type 0) : Type 0 where
  pub jobs : ℕ → Job
  pub earliest_job : Option ℕ
  pub next_job : ℕ
  pub features : ℕ
  pub errno : Errno.Status
  pub world : O

module _ {O : Type 0} where
  -- job->status = s
  abbrev pub set_status : Mgr O → ℕ → ℕ → Mgr O
  set_status m p s = record m { jobs = update m.jobs p (record (m.jobs p) { status = s }) }

  -- job->status |= bits
  abbrev pub or_status : Mgr O → ℕ → ℕ → Mgr O
  or_status m p bits = set_status m p (bit_or (m.jobs p).status bits)

  abbrev pub set_errno : Mgr O → ℕ → Mgr O
  set_errno m e = record m { errno = Errno.set_errno m.errno e }

-- Pointer arithmetic, and `len & ~15`, `len & ~7`.
abbrev pub offset : ℕ → ℕ → ℕ
offset p n = (p + n) % 2 ^ 64

abbrev pub mask_16 : ℕ → ℕ
mask_16 len = len - len % 16

abbrev pub mask_8 : ℕ → ℕ
mask_8 len = len - len % 8

-- A call of a synchronous routine with its arguments.
abbrev pub RoutineCall : Type 0
RoutineCall = Routine × List ℕ

module _ {O : Type 0} (k : Kernels O) where
  abbrev pub run_all : List RoutineCall → O → O
  run_all [] w = w
  run_all ((r, args) ∷ calls) w = run_all calls (k.run r args w)
