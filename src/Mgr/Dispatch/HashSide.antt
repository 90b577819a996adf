-- ===== src/Mgr/Dispatch/HashSide.antt =====
-- SUBMIT_JOB_HASH and FLUSH_JOB_HASH of lib/include/mb_mgr_code.h: where a job may wait, and which manager
-- is flushed.
use intel_ipsec_mb.Base.{
  ℕ, ◌≡◌, ◌≢◌, refl, bit_and, ◌==◌, none, some, [], ◌∷◌, if◌then◌else◌, both_branches, false, arith,
}
use intel_ipsec_mb.Job.{HashAlg, sts_completed_hmac}
use intel_ipsec_mb.Mgr.Kernels.{Kernels, Scheduler, Routine}
use intel_ipsec_mb.Mgr.State.{Mgr, or_status}
use intel_ipsec_mb.Mgr.Hash.{
  sha_calls, gmac_calls, snow3g_f9_calls, kasumi_f9_calls, has_shani, submit_hash_alg,
  flush_hash_default, flush_hash_alg,
}
use intel_ipsec_mb.Mgr.Contract.{Contract}
use intel_ipsec_mb.Mgr.Home.{hash_home_of, is_custom_alg}
use intel_ipsec_mb.Mgr.Effect.{status_of, at_of, nobody, Submits, Flushes}
use intel_ipsec_mb.Mgr.Calls.{
  submit_to-Submits, submit_in_bits-Submits, flush_from-Flushes, direct-Submits,
}

module _ {O : Type 0} {k : Kernels O} (c : Contract k) where
  pub submit_hash_alg-Submits :
      (alg : HashAlg) (m : Mgr O) (p : ℕ)
      → at_of c m p ≡ none
      → is_custom_alg alg ≡ false
      → Submits c (hash_home_of alg) 2 m p (submit_hash_alg k alg m p)
  unfolding submit_hash_alg
  submit_hash_alg-Submits HashAlg.hmac_sha_1 m p free usual =
      submit_to-Submits c (if has_shani m.features then Scheduler.hmac_ni else Scheduler.hmac)
        (hash_home_of HashAlg.hmac_sha_1) 2 m p (ground arith) (ground arith) free
  submit_hash_alg-Submits HashAlg.hmac_sha_224 m p free usual =
      submit_to-Submits c
        (if has_shani m.features then Scheduler.hmac_sha_224_ni else Scheduler.hmac_sha_224)
        (hash_home_of HashAlg.hmac_sha_224) 2 m p (ground arith) (ground arith) free
  submit_hash_alg-Submits HashAlg.hmac_sha_256 m p free usual =
      submit_to-Submits c
        (if has_shani m.features then Scheduler.hmac_sha_256_ni else Scheduler.hmac_sha_256)
        (hash_home_of HashAlg.hmac_sha_256) 2 m p (ground arith) (ground arith) free
  submit_hash_alg-Submits HashAlg.hmac_sha_384 m p free usual =
      submit_to-Submits c Scheduler.hmac_sha_384 (hash_home_of HashAlg.hmac_sha_384) 2 m p
        (ground arith) (ground arith) free
  submit_hash_alg-Submits HashAlg.hmac_sha_512 m p free usual =
      submit_to-Submits c Scheduler.hmac_sha_512 (hash_home_of HashAlg.hmac_sha_512) 2 m p
        (ground arith) (ground arith) free
  submit_hash_alg-Submits HashAlg.aes_xcbc m p free usual =
      submit_to-Submits c Scheduler.aes_xcbc (hash_home_of HashAlg.aes_xcbc) 2 m p (ground arith)
        (ground arith) free
  submit_hash_alg-Submits HashAlg.md5 m p free usual =
      submit_to-Submits c Scheduler.hmac_md5 (hash_home_of HashAlg.md5) 2 m p (ground arith)
        (ground arith) free
  submit_hash_alg-Submits HashAlg.null_hash m p free usual =
      direct-Submits c 2 (hash_home_of HashAlg.null_hash) ([]) m p
  submit_hash_alg-Submits HashAlg.aes_gmac m p free usual =
      direct-Submits c 2 (hash_home_of HashAlg.aes_gmac) ([]) m p
  submit_hash_alg-Submits HashAlg.custom_hash m p free usual = absurd (ground arith)
  submit_hash_alg-Submits HashAlg.aes_ccm m p free usual =
      submit_to-Submits c
        (if (m.jobs p).key_len == 16 then Scheduler.aes128_ccm_auth else Scheduler.aes256_ccm_auth)
        (hash_home_of HashAlg.aes_ccm) 2 m p (ground arith) (ground arith) free
  submit_hash_alg-Submits HashAlg.aes_cmac m p free usual =
      submit_in_bits-Submits c Scheduler.aes128_cmac_auth (hash_home_of HashAlg.aes_cmac) m p refl
        refl free
  submit_hash_alg-Submits HashAlg.sha_1 m p free usual =
      direct-Submits c 2 (hash_home_of HashAlg.sha_1) (sha_calls Routine.sha1 (m.jobs p)) m p
  submit_hash_alg-Submits HashAlg.sha_224 m p free usual =
      direct-Submits c 2 (hash_home_of HashAlg.sha_224) (sha_calls Routine.sha224 (m.jobs p)) m p
  submit_hash_alg-Submits HashAlg.sha_256 m p free usual =
      direct-Submits c 2 (hash_home_of HashAlg.sha_256) (sha_calls Routine.sha256 (m.jobs p)) m p
  submit_hash_alg-Submits HashAlg.sha_384 m p free usual =
      direct-Submits c 2 (hash_home_of HashAlg.sha_384) (sha_calls Routine.sha384 (m.jobs p)) m p
  submit_hash_alg-Submits HashAlg.sha_512 m p free usual =
      direct-Submits c 2 (hash_home_of HashAlg.sha_512) (sha_calls Routine.sha512 (m.jobs p)) m p
  submit_hash_alg-Submits HashAlg.aes_cmac_bitlen m p free usual =
      submit_to-Submits c Scheduler.aes128_cmac_auth (hash_home_of HashAlg.aes_cmac_bitlen) 2 m p
        (ground arith) (ground arith) free
  submit_hash_alg-Submits HashAlg.pon_crc_bip m p free usual =
      direct-Submits c 2 (hash_home_of HashAlg.pon_crc_bip) ([]) m p
  submit_hash_alg-Submits HashAlg.zuc_eia3_bitlen m p free usual =
      submit_to-Submits c Scheduler.zuc_eia3 (hash_home_of HashAlg.zuc_eia3_bitlen) 2 m p
        (ground arith) (ground arith) free
  submit_hash_alg-Submits HashAlg.docsis_crc32 m p free usual =
      direct-Submits c 2 (hash_home_of HashAlg.docsis_crc32) ([]) m p
  submit_hash_alg-Submits HashAlg.snow3g_uia2_bitlen m p free usual =
      direct-Submits c 2 (hash_home_of HashAlg.snow3g_uia2_bitlen) (snow3g_f9_calls (m.jobs p)) m p
  submit_hash_alg-Submits HashAlg.kasumi_uia1 m p free usual =
      direct-Submits c 2 (hash_home_of HashAlg.kasumi_uia1) (kasumi_f9_calls (m.jobs p)) m p
  submit_hash_alg-Submits HashAlg.aes_gmac_128 m p free usual =
      direct-Submits c 2 (hash_home_of HashAlg.aes_gmac_128)
        (gmac_calls Routine.gmac_init_128 Routine.gmac_update_128 Routine.gmac_finalize_128
          (m.jobs p))
        m p
  submit_hash_alg-Submits HashAlg.aes_gmac_192 m p free usual =
      direct-Submits c 2 (hash_home_of HashAlg.aes_gmac_192)
        (gmac_calls Routine.gmac_init_192 Routine.gmac_update_192 Routine.gmac_finalize_192
          (m.jobs p))
        m p
  submit_hash_alg-Submits HashAlg.aes_gmac_256 m p free usual =
      direct-Submits c 2 (hash_home_of HashAlg.aes_gmac_256)
        (gmac_calls Routine.gmac_init_256 Routine.gmac_update_256 Routine.gmac_finalize_256
          (m.jobs p))
        m p
  submit_hash_alg-Submits HashAlg.aes_cmac_256 m p free usual =
      submit_in_bits-Submits c Scheduler.aes256_cmac_auth (hash_home_of HashAlg.aes_cmac_256) m p
        refl refl free
  submit_hash_alg-Submits HashAlg.poly1305 m p free usual =
      direct-Submits c 2 (hash_home_of HashAlg.poly1305) ((Routine.poly1305_mac, p ∷ []) ∷ []) m p
  submit_hash_alg-Submits HashAlg.auth_chacha20_poly1305 m p free usual =
      direct-Submits c 2 (hash_home_of HashAlg.auth_chacha20_poly1305) ([]) m p
  submit_hash_alg-Submits (HashAlg.unnamed_hash n) m p free usual =
      direct-Submits c 2 (hash_home_of (HashAlg.unnamed_hash n)) ([]) m p

  -- The `default` marks a job whose hash is not done, and returns it; it has nothing to flush otherwise.
  flush_hash_default-Flushes :
      {bit : ℕ} (m : Mgr O) (p : ℕ)
      → bit_and (status_of m p) 2 ≢ 0
      → Flushes c none bit m (flush_hash_default k m p)
  unfolding flush_hash_default
  flush_hash_default-Flushes m p done =
      both_branches (Flushes c none _ m) (bit_and (m.jobs p).status sts_completed_hmac == 0)
        (or_status m p sts_completed_hmac, some p) (m, none) (λ e. absurd (ground (arith, done)))
        (λ e. (
          record { earliest = refl; next = refl; routings = λ x. refl },
          nobody (λ g same. ground arith) refl (λ x. refl) (λ x. refl),
        ))

  pub flush_hash_alg-Flushes :
      (alg : HashAlg) (m : Mgr O) (p : ℕ)
      → is_custom_alg alg ≡ false
      → (hash_home_of alg ≡ none → bit_and (status_of m p) 2 ≢ 0)
      → Flushes c (hash_home_of alg) 2 m (flush_hash_alg k alg m p)
  unfolding flush_hash_alg
  flush_hash_alg-Flushes HashAlg.hmac_sha_1 m p usual done =
      flush_from-Flushes c (if has_shani m.features then Scheduler.hmac_ni else Scheduler.hmac)
        (hash_home_of HashAlg.hmac_sha_1) 2 m (ground arith) (ground arith)
  flush_hash_alg-Flushes HashAlg.hmac_sha_224 m p usual done =
      flush_from-Flushes c
        (if has_shani m.features then Scheduler.hmac_sha_224_ni else Scheduler.hmac_sha_224)
        (hash_home_of HashAlg.hmac_sha_224) 2 m (ground arith) (ground arith)
  flush_hash_alg-Flushes HashAlg.hmac_sha_256 m p usual done =
      flush_from-Flushes c
        (if has_shani m.features then Scheduler.hmac_sha_256_ni else Scheduler.hmac_sha_256)
        (hash_home_of HashAlg.hmac_sha_256) 2 m (ground arith) (ground arith)
  flush_hash_alg-Flushes HashAlg.hmac_sha_384 m p usual done =
      flush_from-Flushes c Scheduler.hmac_sha_384 (hash_home_of HashAlg.hmac_sha_384) 2 m
        (ground arith) (ground arith)
  flush_hash_alg-Flushes HashAlg.hmac_sha_512 m p usual done =
      flush_from-Flushes c Scheduler.hmac_sha_512 (hash_home_of HashAlg.hmac_sha_512) 2 m
        (ground arith) (ground arith)
  flush_hash_alg-Flushes HashAlg.aes_xcbc m p usual done =
      flush_from-Flushes c Scheduler.aes_xcbc (hash_home_of HashAlg.aes_xcbc) 2 m (ground arith)
        (ground arith)
  flush_hash_alg-Flushes HashAlg.md5 m p usual done =
      flush_from-Flushes c Scheduler.hmac_md5 (hash_home_of HashAlg.md5) 2 m (ground arith)
        (ground arith)
  flush_hash_alg-Flushes HashAlg.null_hash m p usual done =
      flush_hash_default-Flushes m p (done refl)
  flush_hash_alg-Flushes HashAlg.aes_gmac m p usual done =
      flush_hash_default-Flushes m p (done refl)
  flush_hash_alg-Flushes HashAlg.custom_hash m p usual done = absurd (ground arith)
  flush_hash_alg-Flushes HashAlg.aes_ccm m p usual done =
      flush_from-Flushes c
        (if (m.jobs p).key_len == 16 then Scheduler.aes128_ccm_auth else Scheduler.aes256_ccm_auth)
        (hash_home_of HashAlg.aes_ccm) 2 m (ground arith) (ground arith)
  flush_hash_alg-Flushes HashAlg.aes_cmac m p usual done =
      flush_from-Flushes c Scheduler.aes128_cmac_auth (hash_home_of HashAlg.aes_cmac) 2 m
        (ground arith) (ground arith)
  flush_hash_alg-Flushes HashAlg.sha_1 m p usual done = flush_hash_default-Flushes m p (done refl)
  flush_hash_alg-Flushes HashAlg.sha_224 m p usual done = flush_hash_default-Flushes m p (done refl)
  flush_hash_alg-Flushes HashAlg.sha_256 m p usual done = flush_hash_default-Flushes m p (done refl)
  flush_hash_alg-Flushes HashAlg.sha_384 m p usual done = flush_hash_default-Flushes m p (done refl)
  flush_hash_alg-Flushes HashAlg.sha_512 m p usual done = flush_hash_default-Flushes m p (done refl)
  flush_hash_alg-Flushes HashAlg.aes_cmac_bitlen m p usual done =
      flush_from-Flushes c Scheduler.aes128_cmac_auth (hash_home_of HashAlg.aes_cmac_bitlen) 2 m
        (ground arith) (ground arith)
  flush_hash_alg-Flushes HashAlg.pon_crc_bip m p usual done =
      flush_hash_default-Flushes m p (done refl)
  flush_hash_alg-Flushes HashAlg.zuc_eia3_bitlen m p usual done =
      flush_from-Flushes c Scheduler.zuc_eia3 (hash_home_of HashAlg.zuc_eia3_bitlen) 2 m
        (ground arith) (ground arith)
  flush_hash_alg-Flushes HashAlg.docsis_crc32 m p usual done =
      flush_hash_default-Flushes m p (done refl)
  flush_hash_alg-Flushes HashAlg.snow3g_uia2_bitlen m p usual done =
      flush_hash_default-Flushes m p (done refl)
  flush_hash_alg-Flushes HashAlg.kasumi_uia1 m p usual done =
      flush_hash_default-Flushes m p (done refl)
  flush_hash_alg-Flushes HashAlg.aes_gmac_128 m p usual done =
      flush_hash_default-Flushes m p (done refl)
  flush_hash_alg-Flushes HashAlg.aes_gmac_192 m p usual done =
      flush_hash_default-Flushes m p (done refl)
  flush_hash_alg-Flushes HashAlg.aes_gmac_256 m p usual done =
      flush_hash_default-Flushes m p (done refl)
  flush_hash_alg-Flushes HashAlg.aes_cmac_256 m p usual done =
      flush_from-Flushes c Scheduler.aes256_cmac_auth (hash_home_of HashAlg.aes_cmac_256) 2 m
        (ground arith) (ground arith)
  flush_hash_alg-Flushes HashAlg.poly1305 m p usual done =
      flush_hash_default-Flushes m p (done refl)
  flush_hash_alg-Flushes HashAlg.auth_chacha20_poly1305 m p usual done =
      flush_hash_default-Flushes m p (done refl)
  flush_hash_alg-Flushes (HashAlg.unnamed_hash n) m p usual done =
      flush_hash_default-Flushes m p (done refl)
