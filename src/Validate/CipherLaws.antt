-- ===== src/Validate/CipherLaws.antt =====
-- Each case of the switch over `cipher_mode` accepts the jobs of its condition, and no others.
use intel_ipsec_mb.Base.{ℕ, ◌≡◌, ◌↔◌, true, false, arith}
use intel_ipsec_mb.Base.Bits.{two_low_bits, three_low_bits, four_low_bits}
use intel_ipsec_mb.Job.{Job}
use intel_ipsec_mb.Validate.Outcome.{ok}
use intel_ipsec_mb.Validate.Aes.{
  check_cbc, check_ecb, check_cntr, check_docsis, check_gcm, check_ccm, check_pon, check_pon_cipher,
}
use intel_ipsec_mb.Validate.NonAes.{
  check_custom, check_des, check_docsis_des, check_des3, check_des3_keys, check_zuc_eea3,
  check_snow3g_uea2, check_kasumi_uea1, check_chacha20, check_chacha20_poly1305,
}
use intel_ipsec_mb.Validate.Spec.{
  CbcSpec, CbcsSpec, EcbSpec, CntrSpec, DocsisSpec, GcmSpec, CcmSpec, PonSpec, CustomSpec, DesSpec,
  DocsisDesSpec, Des3Spec, ZucEea3Spec, Snow3gUea2Spec, KasumiUea1Spec, Chacha20Spec,
  Chacha20Poly1305Spec,
}

pub cbc_iff : (job : Job) → (check_cbc false job ≡ ok tt) ↔ CbcSpec job
unfolding check_cbc
cbc_iff job = ground (arith, four_low_bits job.msg_len_to_cipher)

pub cbcs_iff : (job : Job) → (check_cbc true job ≡ ok tt) ↔ CbcsSpec job
unfolding check_cbc
cbcs_iff job = ground (arith, four_low_bits job.msg_len_to_cipher)

pub ecb_iff : (job : Job) → (check_ecb job ≡ ok tt) ↔ EcbSpec job
unfolding check_ecb
ecb_iff job = ground (arith, four_low_bits job.msg_len_to_cipher)

pub cntr_iff : (job : Job) → (check_cntr job ≡ ok tt) ↔ CntrSpec job
unfolding check_cntr
cntr_iff job = ground arith

pub docsis_iff : (job : Job) → (check_docsis job ≡ ok tt) ↔ DocsisSpec job
unfolding check_docsis
docsis_iff job = ground arith

pub gcm_iff : (job : Job) → (check_gcm job ≡ ok tt) ↔ GcmSpec job
unfolding check_gcm
gcm_iff job = ground arith

pub ccm_iff : (job : Job) → (check_ccm job ≡ ok tt) ↔ CcmSpec job
unfolding check_ccm
ccm_iff job = ground arith

pub pon_iff : (job : Job) → (check_pon job ≡ ok tt) ↔ PonSpec job
unfolding check_pon check_pon_cipher
pon_iff job = ground (arith, two_low_bits job.msg_len_to_cipher)

pub custom_iff : (job : Job) → (check_custom job ≡ ok tt) ↔ CustomSpec job
unfolding check_custom
custom_iff job = ground arith

pub des_iff : (job : Job) → (check_des job ≡ ok tt) ↔ DesSpec job
unfolding check_des
des_iff job = ground (arith, three_low_bits job.msg_len_to_cipher)

pub docsis_des_iff : (job : Job) → (check_docsis_des job ≡ ok tt) ↔ DocsisDesSpec job
unfolding check_docsis_des
docsis_des_iff job = ground arith

pub des3_iff : (load : ℕ → ℕ) (job : Job) → (check_des3 load job ≡ ok tt) ↔ Des3Spec load job
unfolding check_des3 check_des3_keys
des3_iff load job = ground (arith, three_low_bits job.msg_len_to_cipher)

pub zuc_eea3_iff : (job : Job) → (check_zuc_eea3 job ≡ ok tt) ↔ ZucEea3Spec job
unfolding check_zuc_eea3
zuc_eea3_iff job = ground arith

pub snow3g_uea2_iff : (job : Job) → (check_snow3g_uea2 job ≡ ok tt) ↔ Snow3gUea2Spec job
unfolding check_snow3g_uea2
snow3g_uea2_iff job = ground arith

pub kasumi_uea1_iff : (job : Job) → (check_kasumi_uea1 job ≡ ok tt) ↔ KasumiUea1Spec job
unfolding check_kasumi_uea1
kasumi_uea1_iff job = ground arith

pub chacha20_iff : (job : Job) → (check_chacha20 job ≡ ok tt) ↔ Chacha20Spec job
unfolding check_chacha20
chacha20_iff job = ground arith

pub chacha20_poly1305_iff :
    (job : Job) → (check_chacha20_poly1305 job ≡ ok tt) ↔ Chacha20Poly1305Spec job
unfolding check_chacha20_poly1305
chacha20_poly1305_iff job = ground arith
