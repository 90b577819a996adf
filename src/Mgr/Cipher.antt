-- ===== src/Mgr/Cipher.antt =====
-- Which function of the cipher side a job is handed to: SUBMIT_JOB_AES_ENC, FLUSH_JOB_AES_ENC,
-- SUBMIT_JOB_AES_DEC and FLUSH_JOB_AES_DEC of lib/include/mb_mgr_code.h, in the SSE build, where DES has no
-- out-of-order manager. Each clause is the branch of a cipher mode.
use intel_ipsec_mb.Base.{ℕ, ◌==◌, if◌then◌else◌, none, some, List, []}
use intel_ipsec_mb.Job.{CipherMode, is_encrypt, sts_completed, sts_completed_aes}
use intel_ipsec_mb.Mgr.Kernels.{Kernels, Scheduler, Routine}
use intel_ipsec_mb.Mgr.State.{Mgr, set_status, mask_16, mask_8, RoutineCall, run_all}
use intel_ipsec_mb.Mgr.Steps.{
  Step, submit_to, flush_from, direct, job_custom_cipher, cbc_dec_calls, submit_docsis_sec_enc,
  submit_docsis_sec_crc_enc, flush_docsis_sec_enc, docsis_dec_calls, docsis_crc_dec_calls,
}
use intel_ipsec_mb.Mgr.CipherCalls.{
  is_docsis_crc32, by_key_len, ecb_calls, cntr_calls, job_calls, gcm_calls, des_calls, des3_calls,
  bit_cipher_calls,
}

module _ {O : Type 0} (k : Kernels O) where
  -- The job is finished at once, `job->status = STS_COMPLETED`.
  unfoldable pub gcm_done : List RoutineCall → Mgr O → ℕ → Step O
  gcm_done calls m p =
      (set_status (record m { world = run_all k calls m.world }) p sts_completed, some p)

  -- submit_docsis_enc_job
  unfoldable pub submit_docsis_enc_job : Mgr O → ℕ → Step O
  submit_docsis_enc_job m p =
      if (m.jobs p).key_len == 16
      then if is_docsis_crc32 (m.jobs p).hash_alg
        then submit_docsis_sec_crc_enc k Scheduler.docsis128_crc32_sec 16 m p
        else submit_docsis_sec_enc k Scheduler.docsis128_sec 16 m p
      else if is_docsis_crc32 (m.jobs p).hash_alg
      then submit_docsis_sec_crc_enc k Scheduler.docsis256_crc32_sec 32 m p
      else submit_docsis_sec_enc k Scheduler.docsis256_sec 32 m p

  -- flush_docsis_enc_job
  unfoldable pub flush_docsis_enc_job : Mgr O → ℕ → Step O
  flush_docsis_enc_job m p =
      if (m.jobs p).key_len == 16
      then if is_docsis_crc32 (m.jobs p).hash_alg
        then flush_docsis_sec_enc k Scheduler.docsis128_crc32_sec 16 m
        else flush_docsis_sec_enc k Scheduler.docsis128_sec 16 m
      else if is_docsis_crc32 (m.jobs p).hash_alg
      then flush_docsis_sec_enc k Scheduler.docsis256_crc32_sec 32 m
      else flush_docsis_sec_enc k Scheduler.docsis256_sec 32 m

  -- submit_docsis_dec_job
  unfoldable pub submit_docsis_dec_job : Mgr O → ℕ → Step O
  submit_docsis_dec_job m p =
      let key_size = if (m.jobs p).key_len == 16 then 16 else 32 in
      direct k sts_completed_aes
        (if is_docsis_crc32 (m.jobs p).hash_alg
          then docsis_crc_dec_calls key_size (m.jobs p)
          else docsis_dec_calls key_size (m.jobs p))
        m p

  -- submit_snow3g_uea2_job
  unfoldable pub submit_snow3g_uea2_job : Mgr O → ℕ → Step O
  submit_snow3g_uea2_job m p =
      direct k sts_completed_aes
        (bit_cipher_calls Routine.snow3g_f8_1_buffer Routine.snow3g_f8_1_buffer_bit (m.jobs p)
          (m.jobs p).iv)
        m p

  -- submit_kasumi_uea1_job: the initialization vector is loaded.
  unfoldable pub submit_kasumi_uea1_job : Mgr O → ℕ → Step O
  submit_kasumi_uea1_job m p =
      direct k sts_completed_aes
        (bit_cipher_calls Routine.kasumi_f8_1_buffer Routine.kasumi_f8_1_buffer_bit (m.jobs p)
          (k.load m.world (m.jobs p).iv))
        m p

  unfoldable pub submit_aes_enc_mode : CipherMode → Mgr O → ℕ → Step O
  submit_aes_enc_mode CipherMode.cbc m p =
      submit_to k
        (by_key_len (m.jobs p).key_len Scheduler.aes128_enc Scheduler.aes192_enc
          Scheduler.aes256_enc)
        m p
  submit_aes_enc_mode CipherMode.cntr m p =
      direct k sts_completed_aes
        (cntr_calls
          (by_key_len (m.jobs p).key_len Routine.aes_cntr_128 Routine.aes_cntr_192
            Routine.aes_cntr_256)
          (m.jobs p))
        m p
  submit_aes_enc_mode CipherMode.cntr_bitlen m p =
      direct k sts_completed_aes
        (cntr_calls
          (by_key_len (m.jobs p).key_len Routine.aes_cntr_bit_128 Routine.aes_cntr_bit_192
            Routine.aes_cntr_bit_256)
          (m.jobs p))
        m p
  submit_aes_enc_mode CipherMode.ecb m p =
      direct k sts_completed_aes
        (ecb_calls
          (by_key_len (m.jobs p).key_len Routine.aes_ecb_enc_128 Routine.aes_ecb_enc_192
            Routine.aes_ecb_enc_256)
          (m.jobs p) (m.jobs p).enc_keys)
        m p
  submit_aes_enc_mode CipherMode.docsis_sec_bpi m p = submit_docsis_enc_job m p
  submit_aes_enc_mode CipherMode.pon_aes_cntr m p =
      direct k sts_completed
        (job_calls
          (if (m.jobs p).msg_len_to_cipher == 0 then Routine.pon_enc_no_ctr else Routine.pon_enc) p)
        m p
  submit_aes_enc_mode CipherMode.gcm m p =
      gcm_done
        (gcm_calls
          (by_key_len (m.jobs p).key_len Routine.aes_gcm_enc_iv_128 Routine.aes_gcm_enc_iv_192
            Routine.aes_gcm_enc_iv_256)
          (m.jobs p) (m.jobs p).enc_keys)
        m p
  submit_aes_enc_mode CipherMode.custom m p = job_custom_cipher k m p
  submit_aes_enc_mode CipherMode.des m p =
      direct k sts_completed_aes
        (des_calls Routine.des_enc_cbc (m.jobs p) (mask_8 (m.jobs p).msg_len_to_cipher)
          (m.jobs p).enc_keys)
        m p
  submit_aes_enc_mode CipherMode.chacha20 m p =
      direct k sts_completed_aes (job_calls Routine.chacha20_enc_dec p) m p
  submit_aes_enc_mode CipherMode.chacha20_poly1305 m p =
      direct k sts_completed (job_calls Routine.aead_chacha20_poly1305 p) m p
  submit_aes_enc_mode CipherMode.docsis_des m p =
      direct k sts_completed_aes
        (des_calls Routine.docsis_des_enc (m.jobs p) (m.jobs p).msg_len_to_cipher
          (m.jobs p).enc_keys)
        m p
  submit_aes_enc_mode CipherMode.des3 m p =
      direct k sts_completed_aes
        (des3_calls (k.load m.world) Routine.des3_enc_cbc (m.jobs p) (m.jobs p).enc_keys) m p
  submit_aes_enc_mode CipherMode.ccm m p =
      direct k sts_completed_aes
        (job_calls
          (if (m.jobs p).key_len == 16 then Routine.aes_cntr_ccm_128 else Routine.aes_cntr_ccm_256)
          p)
        m p
  submit_aes_enc_mode CipherMode.zuc_eea3 m p = submit_to k Scheduler.zuc_eea3 m p
  submit_aes_enc_mode CipherMode.snow3g_uea2_bitlen m p = submit_snow3g_uea2_job m p
  submit_aes_enc_mode CipherMode.kasumi_uea1_bitlen m p = submit_kasumi_uea1_job m p
  submit_aes_enc_mode CipherMode.cbcs_1_9 m p = submit_to k Scheduler.aes128_cbcs_1_9_enc m p
  submit_aes_enc_mode CipherMode.null_cipher m p = direct k sts_completed_aes ([]) m p
  submit_aes_enc_mode (CipherMode.unnamed_mode n) m p = direct k sts_completed_aes ([]) m p

  -- SUBMIT_JOB_AES_ENC
  unfoldable pub submit_job_aes_enc : Mgr O → ℕ → Step O
  submit_job_aes_enc m p = submit_aes_enc_mode (m.jobs p).cipher_mode m p

  unfoldable pub flush_aes_enc_mode : CipherMode → Mgr O → ℕ → Step O
  flush_aes_enc_mode CipherMode.cbc m p =
      flush_from k
        (by_key_len (m.jobs p).key_len Scheduler.aes128_enc Scheduler.aes192_enc
          Scheduler.aes256_enc)
        m
  flush_aes_enc_mode CipherMode.docsis_sec_bpi m p = flush_docsis_enc_job m p
  flush_aes_enc_mode CipherMode.custom m p = job_custom_cipher k m p
  flush_aes_enc_mode CipherMode.zuc_eea3 m p = flush_from k Scheduler.zuc_eea3 m
  flush_aes_enc_mode CipherMode.cbcs_1_9 m p = flush_from k Scheduler.aes128_cbcs_1_9_enc m
  flush_aes_enc_mode _ m p = (m, none)

  -- FLUSH_JOB_AES_ENC; FLUSH_JOB_AES_GCM_ENC is flush_job_aes_gcm_enc_sse, which returns NULL.
  unfoldable pub flush_job_aes_enc : Mgr O → ℕ → Step O
  flush_job_aes_enc m p = flush_aes_enc_mode (m.jobs p).cipher_mode m p

  unfoldable pub submit_aes_dec_mode : CipherMode → Mgr O → ℕ → Step O
  submit_aes_dec_mode CipherMode.cbc m p =
      direct k sts_completed_aes
        (by_key_len (m.jobs p).key_len
          (cbc_dec_calls Routine.aes_cbc_dec_128 (m.jobs p) (mask_16 (m.jobs p).msg_len_to_cipher))
          (cbc_dec_calls Routine.aes_cbc_dec_192 (m.jobs p) (m.jobs p).msg_len_to_cipher)
          (cbc_dec_calls Routine.aes_cbc_dec_256 (m.jobs p) (mask_16 (m.jobs p).msg_len_to_cipher)))
        m p
  submit_aes_dec_mode CipherMode.cntr m p =
      direct k sts_completed_aes
        (cntr_calls
          (by_key_len (m.jobs p).key_len Routine.aes_cntr_128 Routine.aes_cntr_192
            Routine.aes_cntr_256)
          (m.jobs p))
        m p
  submit_aes_dec_mode CipherMode.cntr_bitlen m p =
      direct k sts_completed_aes
        (cntr_calls
          (by_key_len (m.jobs p).key_len Routine.aes_cntr_bit_128 Routine.aes_cntr_bit_192
            Routine.aes_cntr_bit_256)
          (m.jobs p))
        m p
  submit_aes_dec_mode CipherMode.ecb m p =
      direct k sts_completed_aes
        (ecb_calls
          (by_key_len (m.jobs p).key_len Routine.aes_ecb_dec_128 Routine.aes_ecb_dec_192
            Routine.aes_ecb_dec_256)
          (m.jobs p) (m.jobs p).dec_keys)
        m p
  submit_aes_dec_mode CipherMode.docsis_sec_bpi m p = submit_docsis_dec_job m p
  submit_aes_dec_mode CipherMode.pon_aes_cntr m p =
      direct k sts_completed
        (job_calls
          (if (m.jobs p).msg_len_to_cipher == 0 then Routine.pon_dec_no_ctr else Routine.pon_dec) p)
        m p
  submit_aes_dec_mode CipherMode.gcm m p =
      gcm_done
        (gcm_calls
          (by_key_len (m.jobs p).key_len Routine.aes_gcm_dec_iv_128 Routine.aes_gcm_dec_iv_192
            Routine.aes_gcm_dec_iv_256)
          (m.jobs p) (m.jobs p).dec_keys)
        m p
  submit_aes_dec_mode CipherMode.custom m p = job_custom_cipher k m p
  submit_aes_dec_mode CipherMode.des m p =
      direct k sts_completed_aes
        (des_calls Routine.des_dec_cbc (m.jobs p) (mask_8 (m.jobs p).msg_len_to_cipher)
          (m.jobs p).dec_keys)
        m p
  submit_aes_dec_mode CipherMode.chacha20 m p =
      direct k sts_completed_aes (job_calls Routine.chacha20_enc_dec p) m p
  submit_aes_dec_mode CipherMode.chacha20_poly1305 m p =
      direct k sts_completed (job_calls Routine.aead_chacha20_poly1305 p) m p
  submit_aes_dec_mode CipherMode.docsis_des m p =
      direct k sts_completed_aes
        (des_calls Routine.docsis_des_dec (m.jobs p) (m.jobs p).msg_len_to_cipher
          (m.jobs p).dec_keys)
        m p
  submit_aes_dec_mode CipherMode.des3 m p =
      direct k sts_completed_aes
        (des3_calls (k.load m.world) Routine.des3_dec_cbc (m.jobs p) (m.jobs p).dec_keys) m p
  submit_aes_dec_mode CipherMode.ccm m p =
      direct k sts_completed_aes
        (job_calls
          (if (m.jobs p).key_len == 16 then Routine.aes_cntr_ccm_128 else Routine.aes_cntr_ccm_256)
          p)
        m p
  submit_aes_dec_mode CipherMode.zuc_eea3 m p = submit_to k Scheduler.zuc_eea3 m p
  submit_aes_dec_mode CipherMode.snow3g_uea2_bitlen m p = submit_snow3g_uea2_job m p
  submit_aes_dec_mode CipherMode.kasumi_uea1_bitlen m p = submit_kasumi_uea1_job m p
  submit_aes_dec_mode CipherMode.cbcs_1_9 m p =
      direct k sts_completed_aes
        (cbc_dec_calls Routine.aes_cbcs_1_9_dec_128 (m.jobs p)
          (mask_16 (m.jobs p).msg_len_to_cipher))
        m p
  submit_aes_dec_mode CipherMode.null_cipher m p = direct k sts_completed_aes ([]) m p
  submit_aes_dec_mode (CipherMode.unnamed_mode n) m p = direct k sts_completed_aes ([]) m p

  -- SUBMIT_JOB_AES_DEC
  unfoldable pub submit_job_aes_dec : Mgr O → ℕ → Step O
  submit_job_aes_dec m p = submit_aes_dec_mode (m.jobs p).cipher_mode m p

  unfoldable pub flush_aes_dec_mode : CipherMode → Mgr O → ℕ → Step O
  flush_aes_dec_mode CipherMode.zuc_eea3 m p = flush_from k Scheduler.zuc_eea3 m
  flush_aes_dec_mode _ m p = (m, none)

  -- FLUSH_JOB_AES_DEC; FLUSH_JOB_AES_GCM_DEC is flush_job_aes_gcm_dec_sse, which returns NULL.
  unfoldable pub flush_job_aes_dec : Mgr O → ℕ → Step O
  flush_job_aes_dec m p = flush_aes_dec_mode (m.jobs p).cipher_mode m p

  -- SUBMIT_JOB_AES
  unfoldable pub submit_job_aes : Mgr O → ℕ → Step O
  submit_job_aes m p =
      if is_encrypt (m.jobs p).cipher_direction
      then submit_job_aes_enc m p
      else submit_job_aes_dec m p

  -- FLUSH_JOB_AES
  unfoldable pub flush_job_aes : Mgr O → ℕ → Step O
  flush_job_aes m p =
      if is_encrypt (m.jobs p).cipher_direction
      then flush_job_aes_enc m p
      else flush_job_aes_dec m p
