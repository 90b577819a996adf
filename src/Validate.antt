-- ===== src/Validate.antt =====
-- `is_job_invalid` of lib/include/mb_mgr_code.h: what a submitted job must meet. The functions for the
-- cases of its two switches are those of the children.
pub mod Outcome
pub mod Aes
pub mod NonAes
pub mod Hash
pub mod Spec
pub mod HashSpec
pub mod CipherLaws
pub mod HashLaws
pub mod Cases
pub mod Exact
pub mod Safety
pub mod Untested
mod Tests
use intel_ipsec_mb.Base.{ℕ, Bool, true, false}
use intel_ipsec_mb.Job.{Job, CipherMode, HashAlg}
use intel_ipsec_mb.Errno
use Outcome.{Check, accept, rejected, ok, fault, ◌>>=◌, ◌>>◌}
use Aes.{check_cbc, check_ecb, check_cntr, check_docsis, check_gcm, check_ccm, check_pon}
use NonAes.{
  check_custom, check_des, check_docsis_des, check_des3, check_zuc_eea3, check_snow3g_uea2,
  check_kasumi_uea1, check_chacha20, check_chacha20_poly1305,
}
use Hash.{
  check_hmac, check_xcbc, check_gcm_tag, check_gmac, check_custom_hash, check_ccm_tag, check_cmac,
  check_sha, check_pon_tag, check_zuc_eia3, check_docsis_crc32, check_snow3g_uia2,
  check_kasumi_uia1, check_poly1305, check_chacha20_poly1305_tag,
}

-- `switch (job->cipher_mode)`. `load` is the memory, which only IMB_CIPHER_DES3 reads.
unfoldable pub check_cipher : (ℕ → ℕ) → CipherMode → Job → Check
check_cipher load CipherMode.cbc job = check_cbc false job
check_cipher load CipherMode.cbcs_1_9 job = check_cbc true job
check_cipher load CipherMode.ecb job = check_ecb job
check_cipher load CipherMode.cntr job = check_cntr job
check_cipher load CipherMode.cntr_bitlen job = check_cntr job
check_cipher load CipherMode.null_cipher job = accept
check_cipher load CipherMode.docsis_sec_bpi job = check_docsis job
check_cipher load CipherMode.gcm job = check_gcm job
check_cipher load CipherMode.custom job = check_custom job
check_cipher load CipherMode.des job = check_des job
check_cipher load CipherMode.docsis_des job = check_docsis_des job
check_cipher load CipherMode.ccm job = check_ccm job
check_cipher load CipherMode.des3 job = check_des3 load job
check_cipher load CipherMode.pon_aes_cntr job = check_pon job
check_cipher load CipherMode.zuc_eea3 job = check_zuc_eea3 job
check_cipher load CipherMode.snow3g_uea2_bitlen job = check_snow3g_uea2 job
check_cipher load CipherMode.kasumi_uea1_bitlen job = check_kasumi_uea1 job
check_cipher load CipherMode.chacha20 job = check_chacha20 job
check_cipher load CipherMode.chacha20_poly1305 job = check_chacha20_poly1305 job
check_cipher load (CipherMode.unnamed_mode n) job = rejected Errno.err_ciph_mode

-- `switch (job->hash_alg)`
unfoldable pub check_hash : HashAlg → Job → Check
check_hash HashAlg.hmac_sha_1 job = check_hmac job
check_hash HashAlg.hmac_sha_224 job = check_hmac job
check_hash HashAlg.hmac_sha_256 job = check_hmac job
check_hash HashAlg.hmac_sha_384 job = check_hmac job
check_hash HashAlg.hmac_sha_512 job = check_hmac job
check_hash HashAlg.md5 job = check_hmac job
check_hash HashAlg.aes_xcbc job = check_xcbc job
check_hash HashAlg.null_hash job = accept
check_hash HashAlg.aes_gmac job = check_gcm_tag job
check_hash HashAlg.custom_hash job = check_custom_hash job
check_hash HashAlg.aes_ccm job = check_ccm_tag job
check_hash HashAlg.aes_cmac job = check_cmac job
check_hash HashAlg.aes_cmac_bitlen job = check_cmac job
check_hash HashAlg.aes_cmac_256 job = check_cmac job
check_hash HashAlg.sha_1 job = check_sha job
check_hash HashAlg.sha_224 job = check_sha job
check_hash HashAlg.sha_256 job = check_sha job
check_hash HashAlg.sha_384 job = check_sha job
check_hash HashAlg.sha_512 job = check_sha job
check_hash HashAlg.pon_crc_bip job = check_pon_tag job
check_hash HashAlg.zuc_eia3_bitlen job = check_zuc_eia3 job
check_hash HashAlg.docsis_crc32 job = check_docsis_crc32 job
check_hash HashAlg.snow3g_uia2_bitlen job = check_snow3g_uia2 job
check_hash HashAlg.kasumi_uia1 job = check_kasumi_uia1 job
check_hash HashAlg.aes_gmac_128 job = check_gmac job
check_hash HashAlg.aes_gmac_192 job = check_gmac job
check_hash HashAlg.aes_gmac_256 job = check_gmac job
check_hash HashAlg.poly1305 job = check_poly1305 job
check_hash HashAlg.auth_chacha20_poly1305 job = check_chacha20_poly1305_tag job
check_hash (HashAlg.unnamed_hash n) job = rejected Errno.err_hash_algo

-- Both switches, in turn.
unfoldable pub check_job : (ℕ → ℕ) → Job → Check
check_job load job = do check_cipher load job.cipher_mode job; check_hash job.hash_alg job

-- is_job_invalid: 1 with the error number set, or 0 with the error status left alone. The
-- value given for a `fault` is arbitrary.
unfoldable pub is_job_invalid : (ℕ → ℕ) → Errno.Status → Job → Errno.Status × Bool
is_job_invalid load status job = elim (check_job load job) [
  | ok _ ↦ (status, false)
  | rejected e ↦ (Errno.set_errno status e, true)
  | fault ↦ (status, true)
]
