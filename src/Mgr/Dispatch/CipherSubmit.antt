-- ===== src/Mgr/Dispatch/CipherSubmit.antt =====
-- SUBMIT_JOB_AES_ENC and SUBMIT_JOB_AES_DEC of lib/include/mb_mgr_code.h: where a job may wait.
use intel_ipsec_mb.Base.{
  ℕ, ◌≡◌, refl, ◌==◌, inr, Option, none, some, List, [], if◌then◌else◌, both_branches, false, arith,
}
use intel_ipsec_mb.Job.{CipherMode}
use intel_ipsec_mb.Mgr.Kernels.{Kernels, Scheduler, Routine, Manager}
use intel_ipsec_mb.Mgr.State.{Mgr, RoutineCall, mask_16, mask_8}
use intel_ipsec_mb.Mgr.Steps.{cbc_dec_calls, submit_docsis_sec_enc, submit_docsis_sec_crc_enc}
use intel_ipsec_mb.Mgr.Cipher.{
  gcm_done, submit_docsis_enc_job, submit_docsis_dec_job, submit_snow3g_uea2_job,
  submit_kasumi_uea1_job, submit_aes_enc_mode, submit_aes_dec_mode,
}
use intel_ipsec_mb.Mgr.CipherCalls.{
  by_key_len, is_docsis_crc32, ecb_calls, cntr_calls, job_calls, gcm_calls, des_calls, des3_calls,
}
use intel_ipsec_mb.Mgr.Contract.{Contract}
use intel_ipsec_mb.Mgr.Home.{docsis_home, cipher_home_enc, cipher_home_dec, is_custom_mode}
use intel_ipsec_mb.Mgr.Effect.{routing_of, at_of, own, Submits}
use intel_ipsec_mb.Mgr.StepLaws.{run_all-at}
use intel_ipsec_mb.Mgr.Calls.{
  submit_to-Submits, direct-Submits, finished-Submits, submit_docsis_sec_enc-Submits,
  submit_docsis_sec_crc_enc-Submits,
}

module _ {O : Type 0} {k : Kernels O} (c : Contract k) where
  gcm_done-Submits :
      (home : Option Manager) (calls : List RoutineCall) (m : Mgr O) (p : ℕ)
      → Submits c home 1 m p (gcm_done k calls m p)
  unfolding gcm_done
  gcm_done-Submits home calls m p = (
    record { earliest = refl; next = refl; routings = λ x. ground arith },
    own refl (λ x. run_all-at c calls m.world x) (λ x h. ground arith) (inr (ground arith)),
  )

  submit_docsis_enc_job-Submits :
      (m : Mgr O) (p : ℕ)
      → at_of c m p ≡ none
      → Submits c (some (docsis_home (routing_of m p))) 1 m p (submit_docsis_enc_job k m p)
  unfolding submit_docsis_enc_job
  submit_docsis_enc_job-Submits m p free =
      both_branches (Submits c (some (docsis_home (routing_of m p))) 1 m p)
        ((m.jobs p).key_len == 16)
        (if (is_docsis_crc32 (m.jobs p).hash_alg)
          then submit_docsis_sec_crc_enc k Scheduler.docsis128_crc32_sec 16 m p
          else submit_docsis_sec_enc k Scheduler.docsis128_sec 16 m p)
        (if (is_docsis_crc32 (m.jobs p).hash_alg)
          then submit_docsis_sec_crc_enc k Scheduler.docsis256_crc32_sec 32 m p
          else submit_docsis_sec_enc k Scheduler.docsis256_sec 32 m p)
        (λ e.
          both_branches (Submits c (some (docsis_home (routing_of m p))) 1 m p)
            (is_docsis_crc32 (m.jobs p).hash_alg)
            (submit_docsis_sec_crc_enc k Scheduler.docsis128_crc32_sec 16 m p)
            (submit_docsis_sec_enc k Scheduler.docsis128_sec 16 m p)
            (λ e'.
              submit_docsis_sec_crc_enc-Submits c Scheduler.docsis128_crc32_sec 16
                (some (docsis_home (routing_of m p))) m p (ground arith) refl free)
            (λ e'.
              submit_docsis_sec_enc-Submits c Scheduler.docsis128_sec 16
                (some (docsis_home (routing_of m p))) m p (ground arith) refl free))
        (λ e.
          both_branches (Submits c (some (docsis_home (routing_of m p))) 1 m p)
            (is_docsis_crc32 (m.jobs p).hash_alg)
            (submit_docsis_sec_crc_enc k Scheduler.docsis256_crc32_sec 32 m p)
            (submit_docsis_sec_enc k Scheduler.docsis256_sec 32 m p)
            (λ e'.
              submit_docsis_sec_crc_enc-Submits c Scheduler.docsis256_crc32_sec 32
                (some (docsis_home (routing_of m p))) m p (ground arith) refl free)
            (λ e'.
              submit_docsis_sec_enc-Submits c Scheduler.docsis256_sec 32
                (some (docsis_home (routing_of m p))) m p (ground arith) refl free))

  submit_docsis_dec_job-Submits :
      (home : Option Manager) (m : Mgr O) (p : ℕ)
      → Submits c home 1 m p (submit_docsis_dec_job k m p)
  unfolding submit_docsis_dec_job
  submit_docsis_dec_job-Submits home m p = direct-Submits c 1 home _ m p

  submit_snow3g_uea2_job-Submits :
      (home : Option Manager) (m : Mgr O) (p : ℕ)
      → Submits c home 1 m p (submit_snow3g_uea2_job k m p)
  unfolding submit_snow3g_uea2_job
  submit_snow3g_uea2_job-Submits home m p = direct-Submits c 1 home _ m p

  submit_kasumi_uea1_job-Submits :
      (home : Option Manager) (m : Mgr O) (p : ℕ)
      → Submits c home 1 m p (submit_kasumi_uea1_job k m p)
  unfolding submit_kasumi_uea1_job
  submit_kasumi_uea1_job-Submits home m p = direct-Submits c 1 home _ m p

  pub submit_aes_enc_mode-Submits :
      (mode : CipherMode) (m : Mgr O) (p : ℕ)
      → at_of c m p ≡ none
      → is_custom_mode mode ≡ false
      → Submits c (cipher_home_enc mode (routing_of m p)) 1 m p (submit_aes_enc_mode k mode m p)
  unfolding submit_aes_enc_mode
  submit_aes_enc_mode-Submits CipherMode.cbc m p free usual =
      submit_to-Submits c
        (by_key_len (m.jobs p).key_len Scheduler.aes128_enc Scheduler.aes192_enc
          Scheduler.aes256_enc)
        (cipher_home_enc CipherMode.cbc (routing_of m p)) 1 m p (ground arith) (ground arith) free
  submit_aes_enc_mode-Submits CipherMode.cntr m p free usual =
      direct-Submits c 1 (cipher_home_enc CipherMode.cntr (routing_of m p))
        (cntr_calls
          (by_key_len (m.jobs p).key_len Routine.aes_cntr_128 Routine.aes_cntr_192
            Routine.aes_cntr_256)
          (m.jobs p))
        m p
  submit_aes_enc_mode-Submits CipherMode.cntr_bitlen m p free usual =
      direct-Submits c 1 (cipher_home_enc CipherMode.cntr_bitlen (routing_of m p))
        (cntr_calls
          (by_key_len (m.jobs p).key_len Routine.aes_cntr_bit_128 Routine.aes_cntr_bit_192
            Routine.aes_cntr_bit_256)
          (m.jobs p))
        m p
  submit_aes_enc_mode-Submits CipherMode.ecb m p free usual =
      direct-Submits c 1 (cipher_home_enc CipherMode.ecb (routing_of m p))
        (ecb_calls
          (by_key_len (m.jobs p).key_len Routine.aes_ecb_enc_128 Routine.aes_ecb_enc_192
            Routine.aes_ecb_enc_256)
          (m.jobs p) (m.jobs p).enc_keys)
        m p
  submit_aes_enc_mode-Submits CipherMode.docsis_sec_bpi m p free usual =
      submit_docsis_enc_job-Submits m p free
  submit_aes_enc_mode-Submits CipherMode.pon_aes_cntr m p free usual =
      finished-Submits c 1 (cipher_home_enc CipherMode.pon_aes_cntr (routing_of m p))
        (job_calls
          (if (m.jobs p).msg_len_to_cipher == 0 then Routine.pon_enc_no_ctr else Routine.pon_enc) p)
        m p
  submit_aes_enc_mode-Submits CipherMode.gcm m p free usual =
      gcm_done-Submits (cipher_home_enc CipherMode.gcm (routing_of m p))
        (gcm_calls
          (by_key_len (m.jobs p).key_len Routine.aes_gcm_enc_iv_128 Routine.aes_gcm_enc_iv_192
            Routine.aes_gcm_enc_iv_256)
          (m.jobs p) (m.jobs p).enc_keys)
        m p
  submit_aes_enc_mode-Submits CipherMode.custom m p free usual = absurd (ground arith)
  submit_aes_enc_mode-Submits CipherMode.des m p free usual =
      direct-Submits c 1 (cipher_home_enc CipherMode.des (routing_of m p))
        (des_calls Routine.des_enc_cbc (m.jobs p) (mask_8 (m.jobs p).msg_len_to_cipher)
          (m.jobs p).enc_keys)
        m p
  submit_aes_enc_mode-Submits CipherMode.chacha20 m p free usual =
      direct-Submits c 1 (cipher_home_enc CipherMode.chacha20 (routing_of m p))
        (job_calls Routine.chacha20_enc_dec p) m p
  submit_aes_enc_mode-Submits CipherMode.chacha20_poly1305 m p free usual =
      finished-Submits c 1 (cipher_home_enc CipherMode.chacha20_poly1305 (routing_of m p))
        (job_calls Routine.aead_chacha20_poly1305 p) m p
  submit_aes_enc_mode-Submits CipherMode.docsis_des m p free usual =
      direct-Submits c 1 (cipher_home_enc CipherMode.docsis_des (routing_of m p))
        (des_calls Routine.docsis_des_enc (m.jobs p) (m.jobs p).msg_len_to_cipher
          (m.jobs p).enc_keys)
        m p
  submit_aes_enc_mode-Submits CipherMode.des3 m p free usual =
      direct-Submits c 1 (cipher_home_enc CipherMode.des3 (routing_of m p))
        (des3_calls (k.load m.world) Routine.des3_enc_cbc (m.jobs p) (m.jobs p).enc_keys) m p
  submit_aes_enc_mode-Submits CipherMode.ccm m p free usual =
      direct-Submits c 1 (cipher_home_enc CipherMode.ccm (routing_of m p))
        (job_calls
          (if (m.jobs p).key_len == 16 then Routine.aes_cntr_ccm_128 else Routine.aes_cntr_ccm_256)
          p)
        m p
  submit_aes_enc_mode-Submits CipherMode.zuc_eea3 m p free usual =
      submit_to-Submits c Scheduler.zuc_eea3 (cipher_home_enc CipherMode.zuc_eea3 (routing_of m p))
        1 m p (ground arith) (ground arith) free
  submit_aes_enc_mode-Submits CipherMode.snow3g_uea2_bitlen m p free usual =
      submit_snow3g_uea2_job-Submits
        (cipher_home_enc CipherMode.snow3g_uea2_bitlen (routing_of m p)) m p
  submit_aes_enc_mode-Submits CipherMode.kasumi_uea1_bitlen m p free usual =
      submit_kasumi_uea1_job-Submits
        (cipher_home_enc CipherMode.kasumi_uea1_bitlen (routing_of m p)) m p
  submit_aes_enc_mode-Submits CipherMode.cbcs_1_9 m p free usual =
      submit_to-Submits c Scheduler.aes128_cbcs_1_9_enc
        (cipher_home_enc CipherMode.cbcs_1_9 (routing_of m p)) 1 m p (ground arith) (ground arith)
        free
  submit_aes_enc_mode-Submits CipherMode.null_cipher m p free usual =
      direct-Submits c 1 (cipher_home_enc CipherMode.null_cipher (routing_of m p)) ([]) m p
  submit_aes_enc_mode-Submits (CipherMode.unnamed_mode n) m p free usual =
      direct-Submits c 1 (cipher_home_enc (CipherMode.unnamed_mode n) (routing_of m p)) ([]) m p

  pub submit_aes_dec_mode-Submits :
      (mode : CipherMode) (m : Mgr O) (p : ℕ)
      → at_of c m p ≡ none
      → is_custom_mode mode ≡ false
      → Submits c (cipher_home_dec mode) 1 m p (submit_aes_dec_mode k mode m p)
  unfolding submit_aes_dec_mode
  submit_aes_dec_mode-Submits CipherMode.cbc m p free usual =
      direct-Submits c 1 (cipher_home_dec CipherMode.cbc)
        (by_key_len (m.jobs p).key_len
          (cbc_dec_calls Routine.aes_cbc_dec_128 (m.jobs p) (mask_16 (m.jobs p).msg_len_to_cipher))
          (cbc_dec_calls Routine.aes_cbc_dec_192 (m.jobs p) (m.jobs p).msg_len_to_cipher)
          (cbc_dec_calls Routine.aes_cbc_dec_256 (m.jobs p) (mask_16 (m.jobs p).msg_len_to_cipher)))
        m p
  submit_aes_dec_mode-Submits CipherMode.cntr m p free usual =
      direct-Submits c 1 (cipher_home_dec CipherMode.cntr)
        (cntr_calls
          (by_key_len (m.jobs p).key_len Routine.aes_cntr_128 Routine.aes_cntr_192
            Routine.aes_cntr_256)
          (m.jobs p))
        m p
  submit_aes_dec_mode-Submits CipherMode.cntr_bitlen m p free usual =
      direct-Submits c 1 (cipher_home_dec CipherMode.cntr_bitlen)
        (cntr_calls
          (by_key_len (m.jobs p).key_len Routine.aes_cntr_bit_128 Routine.aes_cntr_bit_192
            Routine.aes_cntr_bit_256)
          (m.jobs p))
        m p
  submit_aes_dec_mode-Submits CipherMode.ecb m p free usual =
      direct-Submits c 1 (cipher_home_dec CipherMode.ecb)
        (ecb_calls
          (by_key_len (m.jobs p).key_len Routine.aes_ecb_dec_128 Routine.aes_ecb_dec_192
            Routine.aes_ecb_dec_256)
          (m.jobs p) (m.jobs p).dec_keys)
        m p
  submit_aes_dec_mode-Submits CipherMode.docsis_sec_bpi m p free usual =
      submit_docsis_dec_job-Submits (cipher_home_dec CipherMode.docsis_sec_bpi) m p
  submit_aes_dec_mode-Submits CipherMode.pon_aes_cntr m p free usual =
      finished-Submits c 1 (cipher_home_dec CipherMode.pon_aes_cntr)
        (job_calls
          (if (m.jobs p).msg_len_to_cipher == 0 then Routine.pon_dec_no_ctr else Routine.pon_dec) p)
        m p
  submit_aes_dec_mode-Submits CipherMode.gcm m p free usual =
      gcm_done-Submits (cipher_home_dec CipherMode.gcm)
        (gcm_calls
          (by_key_len (m.jobs p).key_len Routine.aes_gcm_dec_iv_128 Routine.aes_gcm_dec_iv_192
            Routine.aes_gcm_dec_iv_256)
          (m.jobs p) (m.jobs p).dec_keys)
        m p
  submit_aes_dec_mode-Submits CipherMode.custom m p free usual = absurd (ground arith)
  submit_aes_dec_mode-Submits CipherMode.des m p free usual =
      direct-Submits c 1 (cipher_home_dec CipherMode.des)
        (des_calls Routine.des_dec_cbc (m.jobs p) (mask_8 (m.jobs p).msg_len_to_cipher)
          (m.jobs p).dec_keys)
        m p
  submit_aes_dec_mode-Submits CipherMode.chacha20 m p free usual =
      direct-Submits c 1 (cipher_home_dec CipherMode.chacha20)
        (job_calls Routine.chacha20_enc_dec p) m p
  submit_aes_dec_mode-Submits CipherMode.chacha20_poly1305 m p free usual =
      finished-Submits c 1 (cipher_home_dec CipherMode.chacha20_poly1305)
        (job_calls Routine.aead_chacha20_poly1305 p) m p
  submit_aes_dec_mode-Submits CipherMode.docsis_des m p free usual =
      direct-Submits c 1 (cipher_home_dec CipherMode.docsis_des)
        (des_calls Routine.docsis_des_dec (m.jobs p) (m.jobs p).msg_len_to_cipher
          (m.jobs p).dec_keys)
        m p
  submit_aes_dec_mode-Submits CipherMode.des3 m p free usual =
      direct-Submits c 1 (cipher_home_dec CipherMode.des3)
        (des3_calls (k.load m.world) Routine.des3_dec_cbc (m.jobs p) (m.jobs p).dec_keys) m p
  submit_aes_dec_mode-Submits CipherMode.ccm m p free usual =
      direct-Submits c 1 (cipher_home_dec CipherMode.ccm)
        (job_calls
          (if (m.jobs p).key_len == 16 then Routine.aes_cntr_ccm_128 else Routine.aes_cntr_ccm_256)
          p)
        m p
  submit_aes_dec_mode-Submits CipherMode.zuc_eea3 m p free usual =
      submit_to-Submits c Scheduler.zuc_eea3 (cipher_home_dec CipherMode.zuc_eea3) 1 m p
        (ground arith) (ground arith) free
  submit_aes_dec_mode-Submits CipherMode.snow3g_uea2_bitlen m p free usual =
      submit_snow3g_uea2_job-Submits (cipher_home_dec CipherMode.snow3g_uea2_bitlen) m p
  submit_aes_dec_mode-Submits CipherMode.kasumi_uea1_bitlen m p free usual =
      submit_kasumi_uea1_job-Submits (cipher_home_dec CipherMode.kasumi_uea1_bitlen) m p
  submit_aes_dec_mode-Submits CipherMode.cbcs_1_9 m p free usual =
      direct-Submits c 1 (cipher_home_dec CipherMode.cbcs_1_9)
        (cbc_dec_calls Routine.aes_cbcs_1_9_dec_128 (m.jobs p)
          (mask_16 (m.jobs p).msg_len_to_cipher))
        m p
  submit_aes_dec_mode-Submits CipherMode.null_cipher m p free usual =
      direct-Submits c 1 (cipher_home_dec CipherMode.null_cipher) ([]) m p
  submit_aes_dec_mode-Submits (CipherMode.unnamed_mode n) m p free usual =
      direct-Submits c 1 (cipher_home_dec (CipherMode.unnamed_mode n)) ([]) m p
