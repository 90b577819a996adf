-- ===== src/Validate/Safety.antt =====
-- About undefined behaviour in `is_job_invalid` of lib/include/mb_mgr_code.h, and what it reports.
use intel_ipsec_mb.Base.{ℕ, ◌≡◌, ◌≢◌, ◌⊎◌, true, false, refl, subst, inl, inr, arith}
use intel_ipsec_mb.Job.{Job, CipherMode, HashAlg}
use intel_ipsec_mb.Errno.{Status, get_errno, set_errno}
use intel_ipsec_mb.Validate.{check_cipher, check_hash, check_job, is_job_invalid}
use intel_ipsec_mb.Validate.Outcome.{Check, ok, rejected, fault, ◌>>◌}
use intel_ipsec_mb.Validate.Cases.{
  IsJobError, IsSafe, cbc-IsSafe, ccm-IsSafe, chacha20-IsSafe, chacha20_poly1305-IsSafe,
  cntr-IsSafe, custom-IsSafe, des-IsSafe, des3-IsSafe, docsis-IsSafe, docsis_des-IsSafe, ecb-IsSafe,
  gcm-IsSafe, kasumi_uea1-IsSafe, pon-IsSafe, snow3g_uea2-IsSafe, zuc_eea3-IsSafe,
}
use intel_ipsec_mb.Validate.Cases.{
  aes_xcbc-IsSafe, ccm_tag-IsSafe, chacha20_poly1305_tag-IsSafe, cmac-IsSafe, custom_hash-IsSafe,
  docsis_crc32-IsSafe, gcm_tag-IsSafe, gmac-IsSafe, hmac_sha_1-IsSafe, hmac_sha_224-IsSafe,
  hmac_sha_256-IsSafe, hmac_sha_384-IsSafe, hmac_sha_512-IsSafe, kasumi_uia1-IsSafe, md5-IsSafe,
  poly1305-IsSafe, pon_crc_bip-IsSafe, sha_1-IsSafe, sha_224-IsSafe, sha_256-IsSafe, sha_384-IsSafe,
  sha_512-IsSafe, snow3g_uia2-IsSafe, zuc_eia3-IsSafe,
}

check_cipher-IsSafe :
    (load : ℕ → ℕ) (mode : CipherMode) (job : Job) → IsSafe (check_cipher load mode job)
unfolding check_cipher
check_cipher-IsSafe load CipherMode.cbc job = cbc-IsSafe false job
check_cipher-IsSafe load CipherMode.cbcs_1_9 job = cbc-IsSafe true job
check_cipher-IsSafe load CipherMode.ecb job = ecb-IsSafe job
check_cipher-IsSafe load CipherMode.cntr job = cntr-IsSafe job
check_cipher-IsSafe load CipherMode.cntr_bitlen job = cntr-IsSafe job
check_cipher-IsSafe load CipherMode.docsis_sec_bpi job = docsis-IsSafe job
check_cipher-IsSafe load CipherMode.gcm job = gcm-IsSafe job
check_cipher-IsSafe load CipherMode.custom job = custom-IsSafe job
check_cipher-IsSafe load CipherMode.des job = des-IsSafe job
check_cipher-IsSafe load CipherMode.docsis_des job = docsis_des-IsSafe job
check_cipher-IsSafe load CipherMode.ccm job = ccm-IsSafe job
check_cipher-IsSafe load CipherMode.des3 job = des3-IsSafe load job
check_cipher-IsSafe load CipherMode.pon_aes_cntr job = pon-IsSafe job
check_cipher-IsSafe load CipherMode.zuc_eea3 job = zuc_eea3-IsSafe job
check_cipher-IsSafe load CipherMode.snow3g_uea2_bitlen job = snow3g_uea2-IsSafe job
check_cipher-IsSafe load CipherMode.kasumi_uea1_bitlen job = kasumi_uea1-IsSafe job
check_cipher-IsSafe load CipherMode.chacha20 job = chacha20-IsSafe job
check_cipher-IsSafe load CipherMode.chacha20_poly1305 job = chacha20_poly1305-IsSafe job
check_cipher-IsSafe load CipherMode.null_cipher job = tt
check_cipher-IsSafe load (CipherMode.unnamed_mode n) job = ground arith

check_hash-IsSafe : (alg : HashAlg) (job : Job) → job.hash_alg ≡ alg → IsSafe (check_hash alg job)
unfolding check_hash
check_hash-IsSafe HashAlg.hmac_sha_1 job e = hmac_sha_1-IsSafe job e
check_hash-IsSafe HashAlg.hmac_sha_224 job e = hmac_sha_224-IsSafe job e
check_hash-IsSafe HashAlg.hmac_sha_256 job e = hmac_sha_256-IsSafe job e
check_hash-IsSafe HashAlg.hmac_sha_384 job e = hmac_sha_384-IsSafe job e
check_hash-IsSafe HashAlg.hmac_sha_512 job e = hmac_sha_512-IsSafe job e
check_hash-IsSafe HashAlg.md5 job e = md5-IsSafe job e
check_hash-IsSafe HashAlg.sha_1 job e = sha_1-IsSafe job e
check_hash-IsSafe HashAlg.sha_224 job e = sha_224-IsSafe job e
check_hash-IsSafe HashAlg.sha_256 job e = sha_256-IsSafe job e
check_hash-IsSafe HashAlg.sha_384 job e = sha_384-IsSafe job e
check_hash-IsSafe HashAlg.sha_512 job e = sha_512-IsSafe job e
check_hash-IsSafe HashAlg.aes_xcbc job e = aes_xcbc-IsSafe job e
check_hash-IsSafe HashAlg.pon_crc_bip job e = pon_crc_bip-IsSafe job e
check_hash-IsSafe HashAlg.docsis_crc32 job e = docsis_crc32-IsSafe job e
check_hash-IsSafe HashAlg.aes_gmac job e = gcm_tag-IsSafe job
check_hash-IsSafe HashAlg.custom_hash job e = custom_hash-IsSafe job
check_hash-IsSafe HashAlg.aes_ccm job e = ccm_tag-IsSafe job
check_hash-IsSafe HashAlg.aes_cmac job e = cmac-IsSafe job
check_hash-IsSafe HashAlg.aes_cmac_bitlen job e = cmac-IsSafe job
check_hash-IsSafe HashAlg.aes_cmac_256 job e = cmac-IsSafe job
check_hash-IsSafe HashAlg.zuc_eia3_bitlen job e = zuc_eia3-IsSafe job
check_hash-IsSafe HashAlg.snow3g_uia2_bitlen job e = snow3g_uia2-IsSafe job
check_hash-IsSafe HashAlg.kasumi_uia1 job e = kasumi_uia1-IsSafe job
check_hash-IsSafe HashAlg.aes_gmac_128 job e = gmac-IsSafe job
check_hash-IsSafe HashAlg.aes_gmac_192 job e = gmac-IsSafe job
check_hash-IsSafe HashAlg.aes_gmac_256 job e = gmac-IsSafe job
check_hash-IsSafe HashAlg.poly1305 job e = poly1305-IsSafe job
check_hash-IsSafe HashAlg.auth_chacha20_poly1305 job e = chacha20_poly1305_tag-IsSafe job
check_hash-IsSafe HashAlg.null_hash job e = tt
check_hash-IsSafe (HashAlg.unnamed_hash n) job e = ground arith

>>-IsSafe : (m k : Check) → IsSafe m → IsSafe k → IsSafe (m >> k)
>>-IsSafe (ok a) k p q = q
>>-IsSafe (rejected e) k p q = p
>>-IsSafe fault k p q = elim p [ ]

check_job-IsSafe : (load : ℕ → ℕ) (job : Job) → IsSafe (check_job load job)
unfolding check_job
check_job-IsSafe load job =
    >>-IsSafe (check_cipher load job.cipher_mode job) (check_hash job.hash_alg job)
      (check_cipher-IsSafe load job.cipher_mode job) (check_hash-IsSafe job.hash_alg job refl)

-- For every job the checks neither read a table out of its bounds nor through a null pointer.
pub check_job-ne-fault : (load : ℕ → ℕ) (job : Job) → check_job load job ≢ fault
check_job-ne-fault load job e = subst IsSafe e (check_job-IsSafe load job)

rejected-eq : (c : Check) → IsSafe c → (c ≡ ok tt) ⊎ ((e : ℕ) × (c ≡ rejected e) × IsJobError e)
rejected-eq (ok a) p = inl refl
rejected-eq (rejected e) p = inr (e, refl, p)
rejected-eq fault p = elim p [ ]

-- Where `is_job_invalid` returns 1, the error number that can then be asked for, in the manager or globally,
-- is one of the library's job errors, EFAULT or EINVAL.
pub is_job_invalid-errno :
    (load : ℕ → ℕ) (status : Status) (job : Job)
    → (is_job_invalid load status job).1 ≡ true
    → let status' = (is_job_invalid load status job).0 in
      IsJobError (get_errno status') × (get_errno status' ≡ status'.global_errno)
unfolding is_job_invalid set_errno get_errno
is_job_invalid-errno load status job h =
    ground (arith, rejected-eq (check_job load job) (check_job-IsSafe load job))
