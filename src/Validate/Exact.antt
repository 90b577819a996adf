-- ===== src/Validate/Exact.antt =====
-- About the conditions under which `is_job_invalid` of lib/include/mb_mgr_code.h accepts a job.
use intel_ipsec_mb.Base.{ℕ, ◌≡◌, ◌↔◌, false, refl, arith}
use intel_ipsec_mb.Job.{Job, CipherMode, HashAlg}
use intel_ipsec_mb.Errno
use intel_ipsec_mb.Validate.{check_cipher, check_hash, check_job, is_job_invalid}
use intel_ipsec_mb.Validate.Outcome.{Check, ok, rejected, fault, ◌>>◌}
use intel_ipsec_mb.Validate.Spec.{CipherSpec}
use intel_ipsec_mb.Validate.HashSpec.{HashSpec}
use intel_ipsec_mb.Validate.CipherLaws.{
  cbc_iff, cbcs_iff, ccm_iff, chacha20_iff, chacha20_poly1305_iff, cntr_iff, custom_iff, des3_iff,
  des_iff, docsis_des_iff, docsis_iff, ecb_iff, gcm_iff, kasumi_uea1_iff, pon_iff, snow3g_uea2_iff,
  zuc_eea3_iff,
}
use intel_ipsec_mb.Validate.HashLaws.{
  ccm_tag_iff, chacha20_poly1305_tag_iff, cmac_iff, custom_hash_iff, docsis_crc32_iff, gcm_tag_iff,
  gmac_iff, hmac_sha_1_iff, hmac_sha_224_iff, hmac_sha_256_iff, hmac_sha_384_iff, hmac_sha_512_iff,
  kasumi_uia1_iff, md5_iff, poly1305_iff, pon_tag_iff, sha_1_iff, sha_224_iff, sha_256_iff,
  sha_384_iff, sha_512_iff, snow3g_uia2_iff, xcbc_iff, zuc_eia3_iff,
}

pub check_cipher_iff :
    (load : ℕ → ℕ) (mode : CipherMode) (job : Job)
    → (check_cipher load mode job ≡ ok tt) ↔ CipherSpec load mode job
unfolding check_cipher
check_cipher_iff load CipherMode.cbc job = cbc_iff job
check_cipher_iff load CipherMode.cbcs_1_9 job = cbcs_iff job
check_cipher_iff load CipherMode.ecb job = ecb_iff job
check_cipher_iff load CipherMode.cntr job = cntr_iff job
check_cipher_iff load CipherMode.cntr_bitlen job = cntr_iff job
check_cipher_iff load CipherMode.docsis_sec_bpi job = docsis_iff job
check_cipher_iff load CipherMode.gcm job = gcm_iff job
check_cipher_iff load CipherMode.custom job = custom_iff job
check_cipher_iff load CipherMode.des job = des_iff job
check_cipher_iff load CipherMode.docsis_des job = docsis_des_iff job
check_cipher_iff load CipherMode.ccm job = ccm_iff job
check_cipher_iff load CipherMode.des3 job = des3_iff load job
check_cipher_iff load CipherMode.pon_aes_cntr job = pon_iff job
check_cipher_iff load CipherMode.zuc_eea3 job = zuc_eea3_iff job
check_cipher_iff load CipherMode.snow3g_uea2_bitlen job = snow3g_uea2_iff job
check_cipher_iff load CipherMode.kasumi_uea1_bitlen job = kasumi_uea1_iff job
check_cipher_iff load CipherMode.chacha20 job = chacha20_iff job
check_cipher_iff load CipherMode.chacha20_poly1305 job = chacha20_poly1305_iff job
check_cipher_iff load CipherMode.null_cipher job = ground arith
check_cipher_iff load (CipherMode.unnamed_mode n) job = ground arith

pub check_hash_iff :
    (alg : HashAlg) (job : Job)
    → job.hash_alg ≡ alg
    → (check_hash alg job ≡ ok tt) ↔ HashSpec alg job
unfolding check_hash
check_hash_iff HashAlg.hmac_sha_1 job e = hmac_sha_1_iff job e
check_hash_iff HashAlg.hmac_sha_224 job e = hmac_sha_224_iff job e
check_hash_iff HashAlg.hmac_sha_256 job e = hmac_sha_256_iff job e
check_hash_iff HashAlg.hmac_sha_384 job e = hmac_sha_384_iff job e
check_hash_iff HashAlg.hmac_sha_512 job e = hmac_sha_512_iff job e
check_hash_iff HashAlg.md5 job e = md5_iff job e
check_hash_iff HashAlg.sha_1 job e = sha_1_iff job e
check_hash_iff HashAlg.sha_224 job e = sha_224_iff job e
check_hash_iff HashAlg.sha_256 job e = sha_256_iff job e
check_hash_iff HashAlg.sha_384 job e = sha_384_iff job e
check_hash_iff HashAlg.sha_512 job e = sha_512_iff job e
check_hash_iff HashAlg.aes_xcbc job e = xcbc_iff job e
check_hash_iff HashAlg.pon_crc_bip job e = pon_tag_iff job e
check_hash_iff HashAlg.docsis_crc32 job e = docsis_crc32_iff job e
check_hash_iff HashAlg.aes_gmac job e = gcm_tag_iff job
check_hash_iff HashAlg.custom_hash job e = custom_hash_iff job
check_hash_iff HashAlg.aes_ccm job e = ccm_tag_iff job
check_hash_iff HashAlg.aes_cmac job e = cmac_iff job
check_hash_iff HashAlg.aes_cmac_bitlen job e = cmac_iff job
check_hash_iff HashAlg.aes_cmac_256 job e = cmac_iff job
check_hash_iff HashAlg.zuc_eia3_bitlen job e = zuc_eia3_iff job
check_hash_iff HashAlg.snow3g_uia2_bitlen job e = snow3g_uia2_iff job
check_hash_iff HashAlg.kasumi_uia1 job e = kasumi_uia1_iff job
check_hash_iff HashAlg.aes_gmac_128 job e = gmac_iff job
check_hash_iff HashAlg.aes_gmac_192 job e = gmac_iff job
check_hash_iff HashAlg.aes_gmac_256 job e = gmac_iff job
check_hash_iff HashAlg.poly1305 job e = poly1305_iff job
check_hash_iff HashAlg.auth_chacha20_poly1305 job e = chacha20_poly1305_tag_iff job
check_hash_iff HashAlg.null_hash job e = ground arith
check_hash_iff (HashAlg.unnamed_hash n) job e = ground arith

>>-eq-ok : (m k : Check) → ((m >> k) ≡ ok tt) ↔ ((m ≡ ok tt) × (k ≡ ok tt))
>>-eq-ok (ok a) k = ground arith
>>-eq-ok (rejected e) k = ground arith
>>-eq-ok fault k = ground arith

-- `is_job_invalid` returns 0 exactly for the jobs that meet the condition of their cipher mode and that of
-- their hash algorithm, and it then leaves the error status as it was. The conditions are those that the code
-- enforces; the openings of Validate.Spec and Validate.HashSpec list where the comments and the documentation
-- of the source ask for something else.
pub is_job_invalid_iff :
    (load : ℕ → ℕ) (status : Errno.Status) (job : Job)
    → (is_job_invalid load status job ≡ (status, false))
      ↔ (CipherSpec load job.cipher_mode job × HashSpec job.hash_alg job)
unfolding is_job_invalid check_job
is_job_invalid_iff load status job = ground (
  arith,
  >>-eq-ok (check_cipher load job.cipher_mode job) (check_hash job.hash_alg job),
  check_cipher_iff load job.cipher_mode job,
  check_hash_iff job.hash_alg job refl,
)
