-- ===== src/Validate/HashLaws.antt =====
-- Each case of the switch over `hash_alg` accepts the jobs of its condition, and no others. Where the
-- case reads the tables of tag lengths, the algorithm of the job is a hypothesis.
use intel_ipsec_mb.Base.{◌≡◌, ◌↔◌, ap, arith}
use intel_ipsec_mb.Base.Bits.{low_bit, two_low_bits}
use intel_ipsec_mb.Job.{Job, HashAlg, hash_code}
use intel_ipsec_mb.Validate.Outcome.{ok}
use intel_ipsec_mb.Validate.Hash.{
  check_hmac, check_xcbc, check_gcm_tag, check_gmac, check_custom_hash, check_ccm_tag, check_cmac,
  check_sha, check_pon_tag, check_zuc_eia3, check_docsis_crc32, check_docsis_lens,
  check_snow3g_uia2, check_kasumi_uia1, check_poly1305, check_chacha20_poly1305_tag, check_tag_len,
  check_fips, check_ipsec_len,
}
use intel_ipsec_mb.Validate.HashSpec.{
  HmacSpec, XcbcSpec, GcmTagSpec, GmacSpec, CustomHashSpec, CcmTagSpec, CmacSpec, ShaSpec,
  PonTagSpec, ZucEia3Spec, DocsisCrc32Spec, Snow3gUia2Spec, KasumiUia1Spec, Poly1305Spec,
  AeadPoly1305Spec,
}

pub hmac_sha_1_iff :
    (job : Job)
    → job.hash_alg ≡ HashAlg.hmac_sha_1
    → (check_hmac job ≡ ok tt) ↔ HmacSpec HashAlg.hmac_sha_1 job
unfolding check_hmac check_tag_len check_fips
hmac_sha_1_iff job e = ground (arith, ap hash_code e)

pub hmac_sha_224_iff :
    (job : Job)
    → job.hash_alg ≡ HashAlg.hmac_sha_224
    → (check_hmac job ≡ ok tt) ↔ HmacSpec HashAlg.hmac_sha_224 job
unfolding check_hmac check_tag_len check_fips
hmac_sha_224_iff job e = ground (arith, ap hash_code e)

pub hmac_sha_256_iff :
    (job : Job)
    → job.hash_alg ≡ HashAlg.hmac_sha_256
    → (check_hmac job ≡ ok tt) ↔ HmacSpec HashAlg.hmac_sha_256 job
unfolding check_hmac check_tag_len check_fips
hmac_sha_256_iff job e = ground (arith, ap hash_code e)

pub hmac_sha_384_iff :
    (job : Job)
    → job.hash_alg ≡ HashAlg.hmac_sha_384
    → (check_hmac job ≡ ok tt) ↔ HmacSpec HashAlg.hmac_sha_384 job
unfolding check_hmac check_tag_len check_fips
hmac_sha_384_iff job e = ground (arith, ap hash_code e)

pub hmac_sha_512_iff :
    (job : Job)
    → job.hash_alg ≡ HashAlg.hmac_sha_512
    → (check_hmac job ≡ ok tt) ↔ HmacSpec HashAlg.hmac_sha_512 job
unfolding check_hmac check_tag_len check_fips
hmac_sha_512_iff job e = ground (arith, ap hash_code e)

pub md5_iff :
    (job : Job) → job.hash_alg ≡ HashAlg.md5 → (check_hmac job ≡ ok tt) ↔ HmacSpec HashAlg.md5 job
unfolding check_hmac check_tag_len check_fips
md5_iff job e = ground (arith, ap hash_code e)

pub xcbc_iff :
    (job : Job) → job.hash_alg ≡ HashAlg.aes_xcbc → (check_xcbc job ≡ ok tt) ↔ XcbcSpec job
unfolding check_xcbc check_tag_len check_fips
xcbc_iff job e = ground (arith, ap hash_code e)

pub sha_1_iff :
    (job : Job) → job.hash_alg ≡ HashAlg.sha_1 → (check_sha job ≡ ok tt) ↔ ShaSpec HashAlg.sha_1 job
unfolding check_sha check_ipsec_len
sha_1_iff job e = ground (arith, ap hash_code e)

pub sha_224_iff :
    (job : Job)
    → job.hash_alg ≡ HashAlg.sha_224
    → (check_sha job ≡ ok tt) ↔ ShaSpec HashAlg.sha_224 job
unfolding check_sha check_ipsec_len
sha_224_iff job e = ground (arith, ap hash_code e)

pub sha_256_iff :
    (job : Job)
    → job.hash_alg ≡ HashAlg.sha_256
    → (check_sha job ≡ ok tt) ↔ ShaSpec HashAlg.sha_256 job
unfolding check_sha check_ipsec_len
sha_256_iff job e = ground (arith, ap hash_code e)

pub sha_384_iff :
    (job : Job)
    → job.hash_alg ≡ HashAlg.sha_384
    → (check_sha job ≡ ok tt) ↔ ShaSpec HashAlg.sha_384 job
unfolding check_sha check_ipsec_len
sha_384_iff job e = ground (arith, ap hash_code e)

pub sha_512_iff :
    (job : Job)
    → job.hash_alg ≡ HashAlg.sha_512
    → (check_sha job ≡ ok tt) ↔ ShaSpec HashAlg.sha_512 job
unfolding check_sha check_ipsec_len
sha_512_iff job e = ground (arith, ap hash_code e)

pub pon_tag_iff :
    (job : Job) → job.hash_alg ≡ HashAlg.pon_crc_bip → (check_pon_tag job ≡ ok tt) ↔ PonTagSpec job
unfolding check_pon_tag check_ipsec_len
pon_tag_iff job e = ground (arith, ap hash_code e, two_low_bits job.msg_len_to_hash)

pub docsis_crc32_iff :
    (job : Job)
    → job.hash_alg ≡ HashAlg.docsis_crc32
    → (check_docsis_crc32 job ≡ ok tt) ↔ DocsisCrc32Spec job
unfolding check_docsis_crc32 check_docsis_lens check_ipsec_len
docsis_crc32_iff job e = ground (arith, ap hash_code e)

pub ccm_tag_iff : (job : Job) → (check_ccm_tag job ≡ ok tt) ↔ CcmTagSpec job
unfolding check_ccm_tag
ccm_tag_iff job = ground (arith, low_bit job.auth_tag_output_len)

pub gcm_tag_iff : (job : Job) → (check_gcm_tag job ≡ ok tt) ↔ GcmTagSpec job
unfolding check_gcm_tag
gcm_tag_iff job = ground arith

pub gmac_iff : (job : Job) → (check_gmac job ≡ ok tt) ↔ GmacSpec job
unfolding check_gmac
gmac_iff job = ground arith

pub custom_hash_iff : (job : Job) → (check_custom_hash job ≡ ok tt) ↔ CustomHashSpec job
unfolding check_custom_hash
custom_hash_iff job = ground arith

pub cmac_iff : (job : Job) → (check_cmac job ≡ ok tt) ↔ CmacSpec job
unfolding check_cmac
cmac_iff job = ground arith

pub zuc_eia3_iff : (job : Job) → (check_zuc_eia3 job ≡ ok tt) ↔ ZucEia3Spec job
unfolding check_zuc_eia3
zuc_eia3_iff job = ground arith

pub snow3g_uia2_iff : (job : Job) → (check_snow3g_uia2 job ≡ ok tt) ↔ Snow3gUia2Spec job
unfolding check_snow3g_uia2
snow3g_uia2_iff job = ground arith

pub kasumi_uia1_iff : (job : Job) → (check_kasumi_uia1 job ≡ ok tt) ↔ KasumiUia1Spec job
unfolding check_kasumi_uia1
kasumi_uia1_iff job = ground arith

pub poly1305_iff : (job : Job) → (check_poly1305 job ≡ ok tt) ↔ Poly1305Spec job
unfolding check_poly1305
poly1305_iff job = ground arith

pub chacha20_poly1305_tag_iff :
    (job : Job) → (check_chacha20_poly1305_tag job ≡ ok tt) ↔ AeadPoly1305Spec job
unfolding check_chacha20_poly1305_tag
chacha20_poly1305_tag_iff job = ground arith
