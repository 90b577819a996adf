-- ===== src/Mgr/Steps.antt =====
-- What the lower functions of lib/include/mb_mgr_code.h and lib/include/docsis_common.h do: a call of a
-- scheduler, of synchronous routines, of a custom function, and the DOCSIS helpers.
-- A step gives the new state and the job pointer that the C function returns, `none` for NULL.
use intel_ipsec_mb.Base.{
  ℕ, ◌+◌, ◌-◌, ◌%◌, ◌^◌, bit_and, ◌==◌, leb, if◌then◌else◌, Option, none, some, List, [], ◌∷◌, ◌++◌,
  update,
}
use intel_ipsec_mb.Job.{Job, is_encrypt, sts_completed_aes, sts_completed_hmac, sts_internal_error}
use intel_ipsec_mb.Mgr.Kernels.{Kernels, Scheduler, Routine, manager, stage}
use intel_ipsec_mb.Mgr.State.{Mgr, or_status, set_status, offset, mask_16, RoutineCall, run_all}

abbrev pub Step : Type 0 → Type 0
Step O = Mgr O × Option ℕ

module _ {O : Type 0} where
  -- The assembly sets the bit of its stage in a job that it returns.
  unfoldable pub returned : ℕ → Mgr O → Option ℕ → Step O
  returned bits m none = (m, none)
  returned bits m (some q) = (or_status m q bits, some q)

module _ {O : Type 0} (k : Kernels O) where
  -- SUBMIT_JOB_x(ooo, job)
  unfoldable pub submit_to : Scheduler → Mgr O → ℕ → Step O
  submit_to sch m p =
      let (w, r) = k.submit sch m.world (m.jobs p) p in
      returned (stage (manager sch)) (record m { world = w }) r

  -- FLUSH_JOB_x(ooo)
  unfoldable pub flush_from : Scheduler → Mgr O → Step O
  flush_from sch m =
      let (w, r) = k.flush sch m.world in returned (stage (manager sch)) (record m { world = w }) r

  -- Calls of routines, then `job->status |= bits; return job;`
  unfoldable pub direct : ℕ → List RoutineCall → Mgr O → ℕ → Step O
  direct bits calls m p = (or_status (record m { world = run_all k calls m.world }) p bits, some p)

  -- JOB_CUSTOM_CIPHER. The client's function may write to the job before its status is set.
  unfoldable pub job_custom_cipher : Mgr O → ℕ → Step O
  job_custom_cipher m p =
      let (w, job, failed) = k.cipher_func (m.jobs p) m.world in
      let m' = record m { jobs = update m.jobs p job; world = w } in
      if bit_and (m.jobs p).status sts_completed_aes == 0
      then (
        (if failed == 0
            then or_status m' p sts_completed_aes
            else set_status m' p sts_internal_error),
        some p,
      )
      else (m, some p)

  -- JOB_CUSTOM_HASH
  unfoldable pub job_custom_hash : Mgr O → ℕ → Step O
  job_custom_hash m p =
      let (w, job, failed) = k.hash_func (m.jobs p) m.world in
      let m' = record m { jobs = update m.jobs p job; world = w } in
      if bit_and (m.jobs p).status sts_completed_hmac == 0
      then (
        (if failed == 0
            then or_status m' p sts_completed_hmac
            else set_status m' p sts_internal_error),
        some p,
      )
      else (m, some p)

-- AES_CFB_128_ONE or AES_CFB_256_ONE
abbrev pub cfb_one : ℕ → Routine
cfb_one key_size = if key_size == 16 then Routine.aes_cfb_128_one else Routine.aes_cfb_256_one

-- The call that DOCSIS_LAST_BLOCK makes for the bytes behind the last whole block, if there are any. The
-- initialization vector is the last block of cipher text.
abbrev pub last_block_calls : ℕ → Job → List RoutineCall
last_block_calls key_size job =
    let partial_bytes = job.msg_len_to_cipher % 16 in
    let whole = mask_16 job.msg_len_to_cipher in
    let src = offset job.src job.cipher_start_src_offset in
    let iv =
      if is_encrypt job.cipher_direction
      then offset job.dst (whole + 2 ^ 64 - 16)
      else offset src (whole + 2 ^ 64 - 16) in
    if partial_bytes == 0
    then []
    else (
      cfb_one key_size,
      offset job.dst whole ∷ offset src whole ∷ iv ∷ job.enc_keys ∷ partial_bytes ∷ [],
    )
      ∷ []

-- The call of DOCSIS_FIRST_BLOCK, for a message shorter than a block.
abbrev pub first_block_calls : ℕ → Job → List RoutineCall
first_block_calls key_size job =
    (
      cfb_one key_size,
      job.dst
          ∷ offset job.src job.cipher_start_src_offset
          ∷ job.iv
          ∷ job.enc_keys
          ∷ job.msg_len_to_cipher
          ∷ [],
    )
    ∷ []

-- SUBMIT_JOB_AES128_DEC or SUBMIT_JOB_AES256_DEC
abbrev pub cbc_dec_calls : Routine → Job → ℕ → List RoutineCall
cbc_dec_calls routine job len =
    (
      routine,
      offset job.src job.cipher_start_src_offset ∷ job.iv ∷ job.dec_keys ∷ job.dst ∷ len ∷ [],
    )
    ∷ []

-- The call for the Ethernet checksum, stored at `auth_tag_output`; `out` is its last argument.
abbrev pub crc_calls : Job → ℕ → List RoutineCall
crc_calls job out =
    let frame = offset job.src job.hash_start_src_offset in
    if leb 14 job.msg_len_to_hash
    then (Routine.ethernet_fcs, job.auth_tag_output ∷ frame ∷ job.msg_len_to_hash ∷ out ∷ []) ∷ []
    else []

module _ {O : Type 0} (k : Kernels O) where
  -- DOCSIS_LAST_BLOCK
  unfoldable pub docsis_last_block : ℕ → Step O → Step O
  docsis_last_block key_size (m, none) = (m, none)
  docsis_last_block key_size (m, some q) =
      (record m { world = run_all k (last_block_calls key_size (m.jobs q)) m.world }, some q)

  -- SUBMIT_JOB_DOCSIS_SEC_ENC; the scheduler is that of the key size on the DOCSIS manager.
  unfoldable pub submit_docsis_sec_enc : Scheduler → ℕ → Mgr O → ℕ → Step O
  submit_docsis_sec_enc sch key_size m p =
      if leb 16 (m.jobs p).msg_len_to_cipher
      then docsis_last_block key_size (submit_to k sch m p)
      else direct k sts_completed_aes (first_block_calls key_size (m.jobs p)) m p

  -- FLUSH_JOB_DOCSIS_SEC_ENC and FLUSH_JOB_DOCSIS_SEC_CRC_ENC
  unfoldable pub flush_docsis_sec_enc : Scheduler → ℕ → Mgr O → Step O
  flush_docsis_sec_enc sch key_size m = docsis_last_block key_size (flush_from k sch m)

  -- SUBMIT_JOB_DOCSIS_SEC_CRC_ENC
  unfoldable pub submit_docsis_sec_crc_enc : Scheduler → ℕ → Mgr O → ℕ → Step O
  submit_docsis_sec_crc_enc sch key_size m p =
      let job = m.jobs p in
      let end_of_frame = offset (offset job.src job.hash_start_src_offset) job.msg_len_to_hash in
      submit_docsis_sec_enc sch key_size
        (record m { world = run_all k (crc_calls job end_of_frame) m.world }) p

-- The calls of SUBMIT_JOB_DOCSIS_SEC_DEC: the last partial block first, since it needs the cipher text.
abbrev pub docsis_dec_calls : ℕ → Job → List RoutineCall
docsis_dec_calls key_size job =
    let routine = if key_size == 16 then Routine.aes_cbc_dec_128 else Routine.aes_cbc_dec_256 in
    if leb 16 job.msg_len_to_cipher
    then last_block_calls key_size job ++ cbc_dec_calls routine job (mask_16 job.msg_len_to_cipher)
    else first_block_calls key_size job

-- The calls of SUBMIT_JOB_DOCSIS_SEC_CRC_DEC.
abbrev pub docsis_crc_dec_calls : ℕ → Job → List RoutineCall
docsis_crc_dec_calls key_size job = docsis_dec_calls key_size job ++ crc_calls job 0
