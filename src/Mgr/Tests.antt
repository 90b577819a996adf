-- ===== src/Mgr/Tests.antt =====
-- The theorems on the manager at a concrete one.
use intel_ipsec_mb.Base.{ℕ, ◌≡◌, refl, sym, subst, none, some, List, [], ◌∷◌, ◌++◌, length, arith}
use native.Mathlib.Decide.{ℕ_discrete}
use intel_ipsec_mb.Job.{Job, CipherMode, Direction, HashAlg, ChainOrder}
use intel_ipsec_mb.Mgr.Kernels.{Manager}
use intel_ipsec_mb.Mgr.State.{Mgr}
use intel_ipsec_mb.Mgr.Steps.{Step}
use intel_ipsec_mb.Mgr.Cipher.{flush_job_aes}
use intel_ipsec_mb.Mgr.Hash.{flush_job_hash}
use intel_ipsec_mb.Mgr.Jobs.{loop_fuel, submit_new_job, complete_job}
use intel_ipsec_mb.Mgr.Api.{
  submit_job, submit_job_nocheck, get_completed_job, flush_job, queue_size,
}
use intel_ipsec_mb.Mgr.Home.{cipher_home, hash_home}
use intel_ipsec_mb.Mgr.Effect.{Flushes, routing_of}
use intel_ipsec_mb.Mgr.Sound.{Slot, waits, outside, Sound}
use intel_ipsec_mb.Mgr.Ring.{Within}
use intel_ipsec_mb.Mgr.Enter.{enter, Within-IsAligned}
use intel_ipsec_mb.Mgr.Resubmit.{Settled, measure-bound}
use intel_ipsec_mb.Mgr.Liveness.{Completed, submit_new_job-Settled, complete_job-Completed}
use intel_ipsec_mb.Mgr.Dispatch.{flush_job_aes-Flushes, flush_job_hash-Flushes}
use intel_ipsec_mb.Mgr.Fifo.{
  IsQueue, IsFifo, only_one, submit_job-IsFifo, submit_job_nocheck-IsFifo,
}
use intel_ipsec_mb.Mgr.Drain.{
  IsTaken, front, finished_front, flush_job-IsTaken, get_completed_job-IsTaken, queue_size-length,
}
use intel_ipsec_mb.Mgr.Trace.{
  init_ring, Call, submit, submit_nocheck, flush, get_completed, run_calls, init_ring-IsQueue,
  run_calls-fifo,
}
use intel_ipsec_mb.Mgr.OneLane.{Lane, one_lane, one_lane_contract}

-- AES-128-CBC, then HMAC-SHA1
abbrev cbc_hmac : Job
cbc_hmac = record {
  enc_keys = 4096;
  dec_keys = 8192;
  key_len = 16;
  src = 65536;
  dst = 131072;
  cipher_start_src_offset = 0;
  msg_len_to_cipher = 64;
  hash_start_src_offset = 0;
  msg_len_to_hash = 64;
  iv = 12288;
  iv_len = 16;
  auth_tag_output = 16384;
  auth_tag_output_len = 12;
  u0 = 20480;
  u1 = 24576;
  u2 = 0;
  status = 0;
  cipher_mode = CipherMode.cbc;
  cipher_direction = Direction.encrypt;
  hash_alg = HashAlg.hmac_sha_1;
  chain_order = ChainOrder.cipher_hash;
  cipher_func = 0;
  hash_func = 0;
}

-- A counter mode job, which never waits for its cipher
abbrev cntr_hmac : Job
cntr_hmac = record cbc_hmac { cipher_mode = CipherMode.cntr }

abbrev fresh : Mgr Lane
fresh = record {
  jobs = λ x. cbc_hmac;
  earliest_job = none;
  next_job = 0;
  features = 0;
  errno = record { mgr_errno = some 0; global_errno = 0 };
  world = none;
}

empty-IsQueue : IsQueue one_lane_contract (init_ring fresh) []
empty-IsQueue = init_ring-IsQueue one_lane_contract fresh (λ x. refl)

abbrev calls : List Call
calls =
    submit cbc_hmac
    ∷ submit cntr_hmac
    ∷ get_completed
    ∷ submit_nocheck cbc_hmac
    ∷ flush
    ∷ flush
    ∷ flush
    ∷ []

run_calls-fifo_example :
    (m' : Mgr Lane) × (ins : List ℕ) × (outs : List ℕ) × (qs' : List ℕ) × (run_calls one_lane calls
        (init_ring fresh)
      ≡ some (m', (ins, outs)))
    × IsQueue one_lane_contract m' qs'
    × ([] ++ ins ≡ outs ++ qs')
run_calls-fifo_example =
    run_calls-fifo one_lane_contract calls (init_ring fresh) []
      (refl, (refl, (tt, (refl, (tt, (tt, (tt, tt))))))) empty-IsQueue

-- A manager with one job, which waits for its cipher
abbrev waiting : Mgr Lane
waiting = record fresh {
  earliest_job = some 0;
  next_job = 184;
  world = some (0, Manager.aes128_ooo);
}

waiting-Sound : Sound one_lane_contract (Within 0 1) waiting none
waiting-Sound x = elim (ℕ_discrete x 0) [
  | yes e ↦
      subst (Slot one_lane_contract (Within 0 1) waiting none) (sym e)
        (waits Manager.aes128_ooo refl (0, omega arith, refl) refl refl (λ h. ground arith))
  | no ne ↦ outside (ground arith) (λ w. ne (only_one 0 x (omega arith) w)) (λ h. ground arith)
]

waiting-IsQueue : IsQueue one_lane_contract waiting (0 ∷ [])
waiting-IsQueue = (
  0,
  1,
  record {
    ring = record { start = omega arith; room = omega arith; next = refl; earliest = refl };
    sound = waiting-Sound;
    usual = λ x w. refl;
  },
  refl,
)

submit_job-IsFifo_example :
    (s : Step Lane) × (submit_job one_lane waiting ≡ some s)
    × IsFifo one_lane_contract (0 ∷ []) (184 ∷ []) s
submit_job-IsFifo_example =
    submit_job-IsFifo one_lane_contract waiting (0 ∷ []) waiting-IsQueue refl

submit_job_nocheck-IsFifo_example :
    (s : Step Lane) × (submit_job_nocheck one_lane waiting ≡ some s)
    × IsFifo one_lane_contract (0 ∷ []) (184 ∷ []) s
submit_job_nocheck-IsFifo_example =
    submit_job_nocheck-IsFifo one_lane_contract waiting (0 ∷ []) waiting-IsQueue refl

flush_job-IsTaken_example :
    (s : Step Lane) × (flush_job one_lane waiting ≡ some s)
    × IsTaken one_lane_contract (0 ∷ []) s
    × (s.1 ≡ front (0 ∷ []))
flush_job-IsTaken_example = flush_job-IsTaken one_lane_contract waiting (0 ∷ []) waiting-IsQueue

get_completed_job-IsTaken_example :
    IsTaken one_lane_contract (0 ∷ []) (get_completed_job waiting)
    × ((get_completed_job waiting).1 ≡ finished_front waiting (0 ∷ []))
get_completed_job-IsTaken_example =
    get_completed_job-IsTaken one_lane_contract waiting (0 ∷ []) waiting-IsQueue

queue_size-length_example :
    ((queue_size waiting).1 ≡ length {A = ℕ} (0 ∷ []))
    × IsQueue one_lane_contract (queue_size waiting).0 (0 ∷ [])
queue_size-length_example = queue_size-length one_lane_contract waiting (0 ∷ []) waiting-IsQueue

complete_job-Completed_example :
    (m' : Mgr Lane) × (complete_job one_lane loop_fuel waiting 0 ≡ some m')
    × Completed one_lane_contract (Within 0 1) waiting 0 m'
complete_job-Completed_example =
    complete_job-Completed one_lane_contract (Within 0 1) loop_fuel waiting 0
      (omega (arith, measure-bound waiting)) (Within-IsAligned 0 1) (λ x w. refl) waiting-Sound
      (0, omega arith, refl)

-- The second job of that manager, before it is handed to the job level
second-Sound : Sound one_lane_contract (Within 0 2) waiting (some 184)
second-Sound =
    enter one_lane_contract 0 1 waiting waiting (omega arith) waiting-Sound (λ x. refl)
      (λ x ne. refl)

submit_new_job-Settled_example :
    (s : Step Lane) × (submit_new_job one_lane loop_fuel waiting 184 ≡ some s)
    × Settled one_lane_contract (Within 0 2) waiting s
submit_new_job-Settled_example =
    submit_new_job-Settled one_lane_contract (Within 0 2) waiting 184 (Within-IsAligned 0 2)
      (λ x w. refl) second-Sound refl

flush_job_aes-Flushes_example :
    Flushes one_lane_contract
      (cipher_home (routing_of waiting 0))
      1
      waiting
      (flush_job_aes one_lane waiting 0)
flush_job_aes-Flushes_example = flush_job_aes-Flushes one_lane_contract waiting 0 refl

flush_job_hash-Flushes_example :
    Flushes one_lane_contract
      (hash_home (routing_of waiting 0))
      2
      waiting
      (flush_job_hash one_lane waiting 0)
flush_job_hash-Flushes_example =
    flush_job_hash-Flushes one_lane_contract waiting 0 refl (λ e. absurd (ground arith))
