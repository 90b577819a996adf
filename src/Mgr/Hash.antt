-- ===== src/Mgr/Hash.antt =====
-- Which function of the hash side a job is handed to: SUBMIT_JOB_HASH and FLUSH_JOB_HASH of
-- lib/include/mb_mgr_code.h, in the SSE build, which has the SHA extension schedulers (HASH_USE_SHAEXT).
-- Each clause is a `case` of the switch over `hash_alg`.
use intel_ipsec_mb.Base.{
  ℕ, ◌*◌, ◌%◌, ◌^◌, bit_and, Bool, ◌==◌, ◌!=◌, if◌then◌else◌, none, some, List, [], ◌∷◌, update,
}
use intel_ipsec_mb.Job.{Job, HashAlg, sts_completed_hmac, auth_key, auth_iv, gmac_iv_len}
use intel_ipsec_mb.Mgr.Kernels.{Kernels, Scheduler, Routine}
use intel_ipsec_mb.Mgr.State.{Mgr, or_status, offset, RoutineCall}
use intel_ipsec_mb.Mgr.Steps.{Step, submit_to, flush_from, direct, job_custom_hash}

abbrev pub hash_src : Job → ℕ
hash_src job = offset job.src job.hash_start_src_offset

-- IMB_SHA1(state, src, len, auth_tag_output) and its like
abbrev pub sha_calls : Routine → Job → List RoutineCall
sha_calls routine job =
    (routine, hash_src job ∷ job.msg_len_to_hash ∷ job.auth_tag_output ∷ []) ∷ []

-- process_gmac, with the routines of a key size
abbrev pub gmac_calls : Routine → Routine → Routine → Job → List RoutineCall
gmac_calls init update_ finalize job =
    (init, auth_key job ∷ auth_iv job ∷ gmac_iv_len job ∷ [])
    ∷ (update_, auth_key job ∷ hash_src job ∷ job.msg_len_to_hash ∷ [])
    ∷ (finalize, auth_key job ∷ job.auth_tag_output ∷ job.auth_tag_output_len ∷ [])
    ∷ []

-- IMB_SNOW3G_F9_1_BUFFER and IMB_KASUMI_F9_1_BUFFER
abbrev pub snow3g_f9_calls : Job → List RoutineCall
snow3g_f9_calls job =
    (
      Routine.snow3g_f9_1_buffer,
      auth_key job ∷ auth_iv job ∷ hash_src job ∷ job.msg_len_to_hash ∷ job.auth_tag_output ∷ [],
    )
    ∷ []

abbrev pub kasumi_f9_calls : Job → List RoutineCall
kasumi_f9_calls job =
    (
      Routine.kasumi_f9_1_buffer,
      auth_key job ∷ hash_src job ∷ job.msg_len_to_hash % 2 ^ 32 ∷ job.auth_tag_output ∷ [],
    )
    ∷ []

-- IMB_FEATURE_SHANI
abbrev pub has_shani : ℕ → Bool
has_shani features = bit_and features 1 != 0

module _ {O : Type 0} where
  -- job->msg_len_to_hash_in_bits = job->msg_len_to_hash_in_bytes * 8
  abbrev pub hash_len_in_bits : Mgr O → ℕ → Mgr O
  hash_len_in_bits m p = record m {
    jobs =
        update m.jobs p
          (record (m.jobs p) { msg_len_to_hash = (m.jobs p).msg_len_to_hash * 8 % 2 ^ 64 });
  }

module _ {O : Type 0} (k : Kernels O) where
  unfoldable pub submit_hash_alg : HashAlg → Mgr O → ℕ → Step O
  submit_hash_alg HashAlg.hmac_sha_1 m p =
      submit_to k (if has_shani m.features then Scheduler.hmac_ni else Scheduler.hmac) m p
  submit_hash_alg HashAlg.hmac_sha_224 m p =
      submit_to k
        (if has_shani m.features then Scheduler.hmac_sha_224_ni else Scheduler.hmac_sha_224) m p
  submit_hash_alg HashAlg.hmac_sha_256 m p =
      submit_to k
        (if has_shani m.features then Scheduler.hmac_sha_256_ni else Scheduler.hmac_sha_256) m p
  submit_hash_alg HashAlg.hmac_sha_384 m p = submit_to k Scheduler.hmac_sha_384 m p
  submit_hash_alg HashAlg.hmac_sha_512 m p = submit_to k Scheduler.hmac_sha_512 m p
  submit_hash_alg HashAlg.aes_xcbc m p = submit_to k Scheduler.aes_xcbc m p
  submit_hash_alg HashAlg.md5 m p = submit_to k Scheduler.hmac_md5 m p
  submit_hash_alg HashAlg.custom_hash m p = job_custom_hash k m p
  submit_hash_alg HashAlg.aes_ccm m p =
      submit_to k
        (if (m.jobs p).key_len == 16 then Scheduler.aes128_ccm_auth else Scheduler.aes256_ccm_auth)
        m p
  submit_hash_alg HashAlg.aes_cmac m p =
      submit_to k Scheduler.aes128_cmac_auth (hash_len_in_bits m p) p
  submit_hash_alg HashAlg.aes_cmac_bitlen m p = submit_to k Scheduler.aes128_cmac_auth m p
  submit_hash_alg HashAlg.aes_cmac_256 m p =
      submit_to k Scheduler.aes256_cmac_auth (hash_len_in_bits m p) p
  submit_hash_alg HashAlg.sha_1 m p =
      direct k sts_completed_hmac (sha_calls Routine.sha1 (m.jobs p)) m p
  submit_hash_alg HashAlg.sha_224 m p =
      direct k sts_completed_hmac (sha_calls Routine.sha224 (m.jobs p)) m p
  submit_hash_alg HashAlg.sha_256 m p =
      direct k sts_completed_hmac (sha_calls Routine.sha256 (m.jobs p)) m p
  submit_hash_alg HashAlg.sha_384 m p =
      direct k sts_completed_hmac (sha_calls Routine.sha384 (m.jobs p)) m p
  submit_hash_alg HashAlg.sha_512 m p =
      direct k sts_completed_hmac (sha_calls Routine.sha512 (m.jobs p)) m p
  submit_hash_alg HashAlg.zuc_eia3_bitlen m p = submit_to k Scheduler.zuc_eia3 m p
  submit_hash_alg HashAlg.snow3g_uia2_bitlen m p =
      direct k sts_completed_hmac (snow3g_f9_calls (m.jobs p)) m p
  submit_hash_alg HashAlg.kasumi_uia1 m p =
      direct k sts_completed_hmac (kasumi_f9_calls (m.jobs p)) m p
  submit_hash_alg HashAlg.aes_gmac_128 m p =
      direct k sts_completed_hmac
        (gmac_calls Routine.gmac_init_128 Routine.gmac_update_128 Routine.gmac_finalize_128
          (m.jobs p))
        m p
  submit_hash_alg HashAlg.aes_gmac_192 m p =
      direct k sts_completed_hmac
        (gmac_calls Routine.gmac_init_192 Routine.gmac_update_192 Routine.gmac_finalize_192
          (m.jobs p))
        m p
  submit_hash_alg HashAlg.aes_gmac_256 m p =
      direct k sts_completed_hmac
        (gmac_calls Routine.gmac_init_256 Routine.gmac_update_256 Routine.gmac_finalize_256
          (m.jobs p))
        m p
  submit_hash_alg HashAlg.poly1305 m p =
      direct k sts_completed_hmac ((Routine.poly1305_mac, p ∷ []) ∷ []) m p
  submit_hash_alg _ m p = direct k sts_completed_hmac ([]) m p

  -- SUBMIT_JOB_HASH
  unfoldable pub submit_job_hash : Mgr O → ℕ → Step O
  submit_job_hash m p = submit_hash_alg (m.jobs p).hash_alg m p

  -- The `default` of FLUSH_JOB_HASH
  unfoldable pub flush_hash_default : Mgr O → ℕ → Step O
  flush_hash_default m p =
      if bit_and (m.jobs p).status sts_completed_hmac == 0
      then (or_status m p sts_completed_hmac, some p)
      else (m, none)

  unfoldable pub flush_hash_alg : HashAlg → Mgr O → ℕ → Step O
  flush_hash_alg HashAlg.hmac_sha_1 m p =
      flush_from k (if has_shani m.features then Scheduler.hmac_ni else Scheduler.hmac) m
  flush_hash_alg HashAlg.hmac_sha_224 m p =
      flush_from k
        (if has_shani m.features then Scheduler.hmac_sha_224_ni else Scheduler.hmac_sha_224) m
  flush_hash_alg HashAlg.hmac_sha_256 m p =
      flush_from k
        (if has_shani m.features then Scheduler.hmac_sha_256_ni else Scheduler.hmac_sha_256) m
  flush_hash_alg HashAlg.hmac_sha_384 m p = flush_from k Scheduler.hmac_sha_384 m
  flush_hash_alg HashAlg.hmac_sha_512 m p = flush_from k Scheduler.hmac_sha_512 m
  flush_hash_alg HashAlg.aes_xcbc m p = flush_from k Scheduler.aes_xcbc m
  flush_hash_alg HashAlg.md5 m p = flush_from k Scheduler.hmac_md5 m
  flush_hash_alg HashAlg.custom_hash m p = job_custom_hash k m p
  flush_hash_alg HashAlg.aes_ccm m p =
      flush_from k
        (if (m.jobs p).key_len == 16 then Scheduler.aes128_ccm_auth else Scheduler.aes256_ccm_auth)
        m
  flush_hash_alg HashAlg.aes_cmac m p = flush_from k Scheduler.aes128_cmac_auth m
  flush_hash_alg HashAlg.aes_cmac_bitlen m p = flush_from k Scheduler.aes128_cmac_auth m
  flush_hash_alg HashAlg.aes_cmac_256 m p = flush_from k Scheduler.aes256_cmac_auth m
  flush_hash_alg HashAlg.zuc_eia3_bitlen m p = flush_from k Scheduler.zuc_eia3 m
  flush_hash_alg _ m p = flush_hash_default m p

  -- FLUSH_JOB_HASH
  unfoldable pub flush_job_hash : Mgr O → ℕ → Step O
  flush_job_hash m p = flush_hash_alg (m.jobs p).hash_alg m p
