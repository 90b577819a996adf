-- ===== src/Mgr/Dispatch/CipherFlush.antt =====
-- FLUSH_JOB_AES_ENC and FLUSH_JOB_AES_DEC of lib/include/mb_mgr_code.h: which manager is flushed.
use intel_ipsec_mb.Base.{ℕ, ◌≡◌, refl, ◌==◌, none, some, if◌then◌else◌, both_branches, false, arith}
use intel_ipsec_mb.Job.{CipherMode}
use intel_ipsec_mb.Mgr.Kernels.{Kernels, Scheduler, Manager}
use intel_ipsec_mb.Mgr.State.{Mgr}
use intel_ipsec_mb.Mgr.Steps.{flush_docsis_sec_enc}
use intel_ipsec_mb.Mgr.Cipher.{flush_docsis_enc_job, flush_aes_enc_mode, flush_aes_dec_mode}
use intel_ipsec_mb.Mgr.CipherCalls.{by_key_len, is_docsis_crc32}
use intel_ipsec_mb.Mgr.Contract.{Contract}
use intel_ipsec_mb.Mgr.Home.{docsis_home, cipher_home_enc, cipher_home_dec, is_custom_mode}
use intel_ipsec_mb.Mgr.Effect.{routing_of, nobody, Flushes}
use intel_ipsec_mb.Mgr.Calls.{flush_from-Flushes, flush_docsis_sec_enc-Flushes}

module _ {O : Type 0} {k : Kernels O} (c : Contract k) where
  flush_docsis_enc_job-Flushes :
      (m : Mgr O) (p : ℕ)
      → Flushes c (some (docsis_home (routing_of m p))) 1 m (flush_docsis_enc_job k m p)
  unfolding flush_docsis_enc_job
  flush_docsis_enc_job-Flushes m p =
      both_branches (Flushes c (some (docsis_home (routing_of m p))) 1 m) ((m.jobs p).key_len == 16)
        (if (is_docsis_crc32 (m.jobs p).hash_alg)
          then flush_docsis_sec_enc k Scheduler.docsis128_crc32_sec 16 m
          else flush_docsis_sec_enc k Scheduler.docsis128_sec 16 m)
        (if (is_docsis_crc32 (m.jobs p).hash_alg)
          then flush_docsis_sec_enc k Scheduler.docsis256_crc32_sec 32 m
          else flush_docsis_sec_enc k Scheduler.docsis256_sec 32 m)
        (λ e.
          both_branches (Flushes c (some (docsis_home (routing_of m p))) 1 m)
            (is_docsis_crc32 (m.jobs p).hash_alg)
            (flush_docsis_sec_enc k Scheduler.docsis128_crc32_sec 16 m)
            (flush_docsis_sec_enc k Scheduler.docsis128_sec 16 m)
            (λ e'.
              flush_docsis_sec_enc-Flushes c Scheduler.docsis128_crc32_sec 16
                (some (docsis_home (routing_of m p))) m (ground arith) refl)
            (λ e'.
              flush_docsis_sec_enc-Flushes c Scheduler.docsis128_sec 16
                (some (docsis_home (routing_of m p))) m (ground arith) refl))
        (λ e.
          both_branches (Flushes c (some (docsis_home (routing_of m p))) 1 m)
            (is_docsis_crc32 (m.jobs p).hash_alg)
            (flush_docsis_sec_enc k Scheduler.docsis256_crc32_sec 32 m)
            (flush_docsis_sec_enc k Scheduler.docsis256_sec 32 m)
            (λ e'.
              flush_docsis_sec_enc-Flushes c Scheduler.docsis256_crc32_sec 32
                (some (docsis_home (routing_of m p))) m (ground arith) refl)
            (λ e'.
              flush_docsis_sec_enc-Flushes c Scheduler.docsis256_sec 32
                (some (docsis_home (routing_of m p))) m (ground arith) refl))

  -- Ciphers whose jobs never wait
  no_manager : {bit : ℕ} (m : Mgr O) → Flushes c none bit m (m, none)
  no_manager m = (
    record { earliest = refl; next = refl; routings = λ x. refl },
    nobody (λ g same. ground arith) refl (λ x. refl) (λ x. refl),
  )

  pub flush_aes_enc_mode-Flushes :
      (mode : CipherMode) (m : Mgr O) (p : ℕ)
      → is_custom_mode mode ≡ false
      → Flushes c (cipher_home_enc mode (routing_of m p)) 1 m (flush_aes_enc_mode k mode m p)
  unfolding flush_aes_enc_mode
  flush_aes_enc_mode-Flushes CipherMode.cbc m p usual =
      flush_from-Flushes c
        (by_key_len (m.jobs p).key_len Scheduler.aes128_enc Scheduler.aes192_enc
          Scheduler.aes256_enc)
        (cipher_home_enc CipherMode.cbc (routing_of m p)) 1 m (ground arith) (ground arith)
  flush_aes_enc_mode-Flushes CipherMode.cntr m p usual = no_manager m
  flush_aes_enc_mode-Flushes CipherMode.cntr_bitlen m p usual = no_manager m
  flush_aes_enc_mode-Flushes CipherMode.ecb m p usual = no_manager m
  flush_aes_enc_mode-Flushes CipherMode.docsis_sec_bpi m p usual = flush_docsis_enc_job-Flushes m p
  flush_aes_enc_mode-Flushes CipherMode.pon_aes_cntr m p usual = no_manager m
  flush_aes_enc_mode-Flushes CipherMode.gcm m p usual = no_manager m
  flush_aes_enc_mode-Flushes CipherMode.custom m p usual = absurd (ground arith)
  flush_aes_enc_mode-Flushes CipherMode.des m p usual = no_manager m
  flush_aes_enc_mode-Flushes CipherMode.chacha20 m p usual = no_manager m
  flush_aes_enc_mode-Flushes CipherMode.chacha20_poly1305 m p usual = no_manager m
  flush_aes_enc_mode-Flushes CipherMode.docsis_des m p usual = no_manager m
  flush_aes_enc_mode-Flushes CipherMode.des3 m p usual = no_manager m
  flush_aes_enc_mode-Flushes CipherMode.ccm m p usual = no_manager m
  flush_aes_enc_mode-Flushes CipherMode.zuc_eea3 m p usual =
      flush_from-Flushes c Scheduler.zuc_eea3 (some Manager.zuc_eea3_ooo) 1 m (ground arith)
        (ground arith)
  flush_aes_enc_mode-Flushes CipherMode.snow3g_uea2_bitlen m p usual = no_manager m
  flush_aes_enc_mode-Flushes CipherMode.kasumi_uea1_bitlen m p usual = no_manager m
  flush_aes_enc_mode-Flushes CipherMode.cbcs_1_9 m p usual =
      flush_from-Flushes c Scheduler.aes128_cbcs_1_9_enc (some Manager.aes128_cbcs_ooo) 1 m
        (ground arith) (ground arith)
  flush_aes_enc_mode-Flushes CipherMode.null_cipher m p usual = no_manager m
  flush_aes_enc_mode-Flushes (CipherMode.unnamed_mode n) m p usual = no_manager m

  pub flush_aes_dec_mode-Flushes :
      (mode : CipherMode) (m : Mgr O) (p : ℕ)
      → Flushes c (cipher_home_dec mode) 1 m (flush_aes_dec_mode k mode m p)
  unfolding flush_aes_dec_mode
  flush_aes_dec_mode-Flushes CipherMode.cbc m p = no_manager m
  flush_aes_dec_mode-Flushes CipherMode.cntr m p = no_manager m
  flush_aes_dec_mode-Flushes CipherMode.cntr_bitlen m p = no_manager m
  flush_aes_dec_mode-Flushes CipherMode.ecb m p = no_manager m
  flush_aes_dec_mode-Flushes CipherMode.docsis_sec_bpi m p = no_manager m
  flush_aes_dec_mode-Flushes CipherMode.pon_aes_cntr m p = no_manager m
  flush_aes_dec_mode-Flushes CipherMode.gcm m p = no_manager m
  flush_aes_dec_mode-Flushes CipherMode.custom m p = no_manager m
  flush_aes_dec_mode-Flushes CipherMode.des m p = no_manager m
  flush_aes_dec_mode-Flushes CipherMode.chacha20 m p = no_manager m
  flush_aes_dec_mode-Flushes CipherMode.chacha20_poly1305 m p = no_manager m
  flush_aes_dec_mode-Flushes CipherMode.docsis_des m p = no_manager m
  flush_aes_dec_mode-Flushes CipherMode.des3 m p = no_manager m
  flush_aes_dec_mode-Flushes CipherMode.ccm m p = no_manager m
  flush_aes_dec_mode-Flushes CipherMode.zuc_eea3 m p =
      flush_from-Flushes c Scheduler.zuc_eea3 (some Manager.zuc_eea3_ooo) 1 m (ground arith)
        (ground arith)
  flush_aes_dec_mode-Flushes CipherMode.snow3g_uea2_bitlen m p = no_manager m
  flush_aes_dec_mode-Flushes CipherMode.kasumi_uea1_bitlen m p = no_manager m
  flush_aes_dec_mode-Flushes CipherMode.cbcs_1_9 m p = no_manager m
  flush_aes_dec_mode-Flushes CipherMode.null_cipher m p = no_manager m
  flush_aes_dec_mode-Flushes (CipherMode.unnamed_mode n) m p = no_manager m
