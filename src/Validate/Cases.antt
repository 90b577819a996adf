-- ===== src/Validate/Cases.antt =====
-- The cases of the switches of `is_job_invalid`: none reads a table out of its bounds or through a null
-- pointer, and each sets a job's error number.
use intel_ipsec_mb.Base.{ℕ, ◌<◌, ◌≡◌, ◌⊎◌, Bool, ap, arith}
use intel_ipsec_mb.Job.{Job, HashAlg, hash_code}
use intel_ipsec_mb.Errno
use intel_ipsec_mb.Validate.Outcome.{Check, ok, rejected, fault}
use intel_ipsec_mb.Validate.Aes.{
  check_cbc, check_ecb, check_cntr, check_docsis, check_gcm, check_ccm, check_pon, check_pon_cipher,
}
use intel_ipsec_mb.Validate.NonAes.{
  check_custom, check_des, check_docsis_des, check_des3, check_des3_keys, check_zuc_eea3,
  check_snow3g_uea2, check_kasumi_uea1, check_chacha20, check_chacha20_poly1305,
}
use intel_ipsec_mb.Validate.Hash.{
  check_hmac, check_xcbc, check_gcm_tag, check_gmac, check_custom_hash, check_ccm_tag, check_cmac,
  check_sha, check_pon_tag, check_zuc_eia3, check_docsis_crc32, check_docsis_lens,
  check_snow3g_uia2, check_kasumi_uia1, check_poly1305, check_chacha20_poly1305_tag, check_tag_len,
  check_fips, check_ipsec_len,
}

-- An error number of the library, but that of a NULL manager, or one of the two of errno.h.
abbrev pub IsJobError : ℕ → Type 0
IsJobError e =
    ((Errno.err_null_mbmgr < e) × (e < Errno.err_max)) ⊎ (e ≡ Errno.efault) ⊎ (e ≡ Errno.einval)

-- The outcome is no fault, and an error number is a job's.
abbrev pub IsSafe : Check → Type 0
IsSafe (ok _) = Unit
IsSafe (rejected e) = IsJobError e
IsSafe fault = ⊥

pub ecb-IsSafe : (job : Job) → IsSafe (check_ecb job)
unfolding check_ecb
ecb-IsSafe job = ground arith

pub cntr-IsSafe : (job : Job) → IsSafe (check_cntr job)
unfolding check_cntr
cntr-IsSafe job = ground arith

pub docsis-IsSafe : (job : Job) → IsSafe (check_docsis job)
unfolding check_docsis
docsis-IsSafe job = ground arith

pub gcm-IsSafe : (job : Job) → IsSafe (check_gcm job)
unfolding check_gcm
gcm-IsSafe job = ground arith

pub ccm-IsSafe : (job : Job) → IsSafe (check_ccm job)
unfolding check_ccm
ccm-IsSafe job = ground arith

pub pon-IsSafe : (job : Job) → IsSafe (check_pon job)
unfolding check_pon check_pon_cipher
pon-IsSafe job = ground arith

pub custom-IsSafe : (job : Job) → IsSafe (check_custom job)
unfolding check_custom
custom-IsSafe job = ground arith

pub des-IsSafe : (job : Job) → IsSafe (check_des job)
unfolding check_des
des-IsSafe job = ground arith

pub docsis_des-IsSafe : (job : Job) → IsSafe (check_docsis_des job)
unfolding check_docsis_des
docsis_des-IsSafe job = ground arith

pub zuc_eea3-IsSafe : (job : Job) → IsSafe (check_zuc_eea3 job)
unfolding check_zuc_eea3
zuc_eea3-IsSafe job = ground arith

pub snow3g_uea2-IsSafe : (job : Job) → IsSafe (check_snow3g_uea2 job)
unfolding check_snow3g_uea2
snow3g_uea2-IsSafe job = ground arith

pub kasumi_uea1-IsSafe : (job : Job) → IsSafe (check_kasumi_uea1 job)
unfolding check_kasumi_uea1
kasumi_uea1-IsSafe job = ground arith

pub chacha20-IsSafe : (job : Job) → IsSafe (check_chacha20 job)
unfolding check_chacha20
chacha20-IsSafe job = ground arith

pub chacha20_poly1305-IsSafe : (job : Job) → IsSafe (check_chacha20_poly1305 job)
unfolding check_chacha20_poly1305
chacha20_poly1305-IsSafe job = ground arith

pub gcm_tag-IsSafe : (job : Job) → IsSafe (check_gcm_tag job)
unfolding check_gcm_tag
gcm_tag-IsSafe job = ground arith

pub gmac-IsSafe : (job : Job) → IsSafe (check_gmac job)
unfolding check_gmac
gmac-IsSafe job = ground arith

pub custom_hash-IsSafe : (job : Job) → IsSafe (check_custom_hash job)
unfolding check_custom_hash
custom_hash-IsSafe job = ground arith

pub ccm_tag-IsSafe : (job : Job) → IsSafe (check_ccm_tag job)
unfolding check_ccm_tag
ccm_tag-IsSafe job = ground arith

pub cmac-IsSafe : (job : Job) → IsSafe (check_cmac job)
unfolding check_cmac
cmac-IsSafe job = ground arith

pub zuc_eia3-IsSafe : (job : Job) → IsSafe (check_zuc_eia3 job)
unfolding check_zuc_eia3
zuc_eia3-IsSafe job = ground arith

pub snow3g_uia2-IsSafe : (job : Job) → IsSafe (check_snow3g_uia2 job)
unfolding check_snow3g_uia2
snow3g_uia2-IsSafe job = ground arith

pub kasumi_uia1-IsSafe : (job : Job) → IsSafe (check_kasumi_uia1 job)
unfolding check_kasumi_uia1
kasumi_uia1-IsSafe job = ground arith

pub poly1305-IsSafe : (job : Job) → IsSafe (check_poly1305 job)
unfolding check_poly1305
poly1305-IsSafe job = ground arith

pub chacha20_poly1305_tag-IsSafe : (job : Job) → IsSafe (check_chacha20_poly1305_tag job)
unfolding check_chacha20_poly1305_tag
chacha20_poly1305_tag-IsSafe job = ground arith

pub cbc-IsSafe : (is_cbcs : Bool) (job : Job) → IsSafe (check_cbc is_cbcs job)
unfolding check_cbc
cbc-IsSafe is_cbcs job = ground arith

pub des3-IsSafe : (load : ℕ → ℕ) (job : Job) → IsSafe (check_des3 load job)
unfolding check_des3 check_des3_keys
des3-IsSafe load job = ground arith

pub hmac_sha_1-IsSafe : (job : Job) → job.hash_alg ≡ HashAlg.hmac_sha_1 → IsSafe (check_hmac job)
unfolding check_hmac check_tag_len check_fips
hmac_sha_1-IsSafe job e = ground (arith, ap hash_code e)

pub hmac_sha_224-IsSafe :
    (job : Job) → job.hash_alg ≡ HashAlg.hmac_sha_224 → IsSafe (check_hmac job)
unfolding check_hmac check_tag_len check_fips
hmac_sha_224-IsSafe job e = ground (arith, ap hash_code e)

pub hmac_sha_256-IsSafe :
    (job : Job) → job.hash_alg ≡ HashAlg.hmac_sha_256 → IsSafe (check_hmac job)
unfolding check_hmac check_tag_len check_fips
hmac_sha_256-IsSafe job e = ground (arith, ap hash_code e)

pub hmac_sha_384-IsSafe :
    (job : Job) → job.hash_alg ≡ HashAlg.hmac_sha_384 → IsSafe (check_hmac job)
unfolding check_hmac check_tag_len check_fips
hmac_sha_384-IsSafe job e = ground (arith, ap hash_code e)

pub hmac_sha_512-IsSafe :
    (job : Job) → job.hash_alg ≡ HashAlg.hmac_sha_512 → IsSafe (check_hmac job)
unfolding check_hmac check_tag_len check_fips
hmac_sha_512-IsSafe job e = ground (arith, ap hash_code e)

pub md5-IsSafe : (job : Job) → job.hash_alg ≡ HashAlg.md5 → IsSafe (check_hmac job)
unfolding check_hmac check_tag_len check_fips
md5-IsSafe job e = ground (arith, ap hash_code e)

pub aes_xcbc-IsSafe : (job : Job) → job.hash_alg ≡ HashAlg.aes_xcbc → IsSafe (check_xcbc job)
unfolding check_xcbc check_tag_len check_fips
aes_xcbc-IsSafe job e = ground (arith, ap hash_code e)

pub sha_1-IsSafe : (job : Job) → job.hash_alg ≡ HashAlg.sha_1 → IsSafe (check_sha job)
unfolding check_sha check_ipsec_len
sha_1-IsSafe job e = ground (arith, ap hash_code e)

pub sha_224-IsSafe : (job : Job) → job.hash_alg ≡ HashAlg.sha_224 → IsSafe (check_sha job)
unfolding check_sha check_ipsec_len
sha_224-IsSafe job e = ground (arith, ap hash_code e)

pub sha_256-IsSafe : (job : Job) → job.hash_alg ≡ HashAlg.sha_256 → IsSafe (check_sha job)
unfolding check_sha check_ipsec_len
sha_256-IsSafe job e = ground (arith, ap hash_code e)

pub sha_384-IsSafe : (job : Job) → job.hash_alg ≡ HashAlg.sha_384 → IsSafe (check_sha job)
unfolding check_sha check_ipsec_len
sha_384-IsSafe job e = ground (arith, ap hash_code e)

pub sha_512-IsSafe : (job : Job) → job.hash_alg ≡ HashAlg.sha_512 → IsSafe (check_sha job)
unfolding check_sha check_ipsec_len
sha_512-IsSafe job e = ground (arith, ap hash_code e)

pub pon_crc_bip-IsSafe :
    (job : Job) → job.hash_alg ≡ HashAlg.pon_crc_bip → IsSafe (check_pon_tag job)
unfolding check_pon_tag check_ipsec_len
pon_crc_bip-IsSafe job e = ground (arith, ap hash_code e)

pub docsis_crc32-IsSafe :
    (job : Job) → job.hash_alg ≡ HashAlg.docsis_crc32 → IsSafe (check_docsis_crc32 job)
unfolding check_docsis_crc32 check_docsis_lens check_ipsec_len
docsis_crc32-IsSafe job e = ground (arith, ap hash_code e)
