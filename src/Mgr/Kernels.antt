-- ===== src/Mgr/Kernels.antt =====
-- What lib/include/mb_mgr_code.h calls in the SSE build (lib/sse/mb_mgr_sse.c): the out-of-order
-- schedulers, which are assembly, the synchronous routines, and the custom functions of the job.
use intel_ipsec_mb.Base.{ℕ, Option, List}
use intel_ipsec_mb.Job.{Job, sts_completed_aes, sts_completed_hmac}

-- The out-of-order managers of IMB_MGR: each holds jobs in its lanes.
pub data Manager : Type 0 where
  aes128_ooo aes192_ooo aes256_ooo docsis128_sec_ooo docsis128_crc32_sec_ooo : Manager
  docsis256_sec_ooo docsis256_crc32_sec_ooo zuc_eea3_ooo aes128_cbcs_ooo : Manager
  hmac_sha_1_ooo hmac_sha_224_ooo hmac_sha_256_ooo hmac_sha_384_ooo hmac_sha_512_ooo : Manager
  hmac_md5_ooo aes_xcbc_ooo aes_ccm_ooo aes_cmac_ooo zuc_eia3_ooo : Manager

-- The pairs SUBMIT_JOB_x and FLUSH_JOB_x of the schedulers, with the manager that they are called on.
-- The DOCSIS ones are those of AES-CBC on a DOCSIS manager.
pub data Scheduler : Type 0 where
  aes128_enc aes192_enc aes256_enc docsis128_sec docsis128_crc32_sec docsis256_sec : Scheduler
  docsis256_crc32_sec zuc_eea3 aes128_cbcs_1_9_enc hmac hmac_ni hmac_sha_224 : Scheduler
  hmac_sha_224_ni hmac_sha_256 hmac_sha_256_ni hmac_sha_384 hmac_sha_512 hmac_md5 : Scheduler
  aes_xcbc aes128_ccm_auth aes256_ccm_auth aes128_cmac_auth aes256_cmac_auth zuc_eia3 : Scheduler

abbrev pub manager : Scheduler → Manager
manager aes128_enc = aes128_ooo
manager aes192_enc = aes192_ooo
manager aes256_enc = aes256_ooo
manager docsis128_sec = docsis128_sec_ooo
manager docsis128_crc32_sec = docsis128_crc32_sec_ooo
manager docsis256_sec = docsis256_sec_ooo
manager docsis256_crc32_sec = docsis256_crc32_sec_ooo
manager zuc_eea3 = zuc_eea3_ooo
manager aes128_cbcs_1_9_enc = aes128_cbcs_ooo
manager hmac = hmac_sha_1_ooo
manager hmac_ni = hmac_sha_1_ooo
manager hmac_sha_224 = hmac_sha_224_ooo
manager hmac_sha_224_ni = hmac_sha_224_ooo
manager hmac_sha_256 = hmac_sha_256_ooo
manager hmac_sha_256_ni = hmac_sha_256_ooo
manager hmac_sha_384 = hmac_sha_384_ooo
manager hmac_sha_512 = hmac_sha_512_ooo
manager hmac_md5 = hmac_md5_ooo
manager aes_xcbc = aes_xcbc_ooo
manager aes128_ccm_auth = aes_ccm_ooo
manager aes256_ccm_auth = aes_ccm_ooo
manager aes128_cmac_auth = aes_cmac_ooo
manager aes256_cmac_auth = aes_cmac_ooo
manager zuc_eia3 = zuc_eia3_ooo

-- The bit of `status` that a manager's schedulers set in a job that they return.
abbrev pub stage : Manager → ℕ
stage aes128_ooo = sts_completed_aes
stage aes192_ooo = sts_completed_aes
stage aes256_ooo = sts_completed_aes
stage docsis128_sec_ooo = sts_completed_aes
stage docsis128_crc32_sec_ooo = sts_completed_aes
stage docsis256_sec_ooo = sts_completed_aes
stage docsis256_crc32_sec_ooo = sts_completed_aes
stage zuc_eea3_ooo = sts_completed_aes
stage aes128_cbcs_ooo = sts_completed_aes
stage hmac_sha_1_ooo = sts_completed_hmac
stage hmac_sha_224_ooo = sts_completed_hmac
stage hmac_sha_256_ooo = sts_completed_hmac
stage hmac_sha_384_ooo = sts_completed_hmac
stage hmac_sha_512_ooo = sts_completed_hmac
stage hmac_md5_ooo = sts_completed_hmac
stage aes_xcbc_ooo = sts_completed_hmac
stage aes_ccm_ooo = sts_completed_hmac
stage aes_cmac_ooo = sts_completed_hmac
stage zuc_eia3_ooo = sts_completed_hmac

-- The synchronous routines. They work on the memory that their arguments point to.
pub data Routine : Type 0 where
  aes_cbc_dec_128 aes_cbc_dec_192 aes_cbc_dec_256 aes_ecb_enc_128 aes_ecb_enc_192 : Routine
  aes_ecb_enc_256 aes_ecb_dec_128 aes_ecb_dec_192 aes_ecb_dec_256 aes_cbcs_1_9_dec_128 : Routine
  aes_cntr_128 aes_cntr_192 aes_cntr_256 aes_cntr_bit_128 aes_cntr_bit_192 aes_cntr_bit_256 :
      Routine
  aes_cntr_ccm_128 aes_cntr_ccm_256 aes_cfb_128_one aes_cfb_256_one ethernet_fcs : Routine
  aes_gcm_enc_iv_128 aes_gcm_enc_iv_192 aes_gcm_enc_iv_256 aes_gcm_dec_iv_128 : Routine
  aes_gcm_dec_iv_192 aes_gcm_dec_iv_256 pon_enc pon_dec pon_enc_no_ctr pon_dec_no_ctr : Routine
  chacha20_enc_dec aead_chacha20_poly1305 des_enc_cbc des_dec_cbc docsis_des_enc : Routine
  docsis_des_dec des3_enc_cbc des3_dec_cbc snow3g_f8_1_buffer snow3g_f8_1_buffer_bit : Routine
  kasumi_f8_1_buffer kasumi_f8_1_buffer_bit sha1 sha224 sha256 sha384 sha512 : Routine
  snow3g_f9_1_buffer kasumi_f9_1_buffer poly1305_mac : Routine
  gmac_init_128 gmac_update_128 gmac_finalize_128 gmac_init_192 gmac_update_192 : Routine
  gmac_finalize_192 gmac_init_256 gmac_update_256 gmac_finalize_256 : Routine

-- The called code over a state `O`: the memory and the lanes of the managers. A scheduler is handed the job
-- and its address, and gives the address of a job that it has finished, if any. A custom function may change
-- the job that it is handed, and gives its return value.
pub record Kernels (O : Type 0) : Type 0 where
  pub submit : Scheduler → O → Job → ℕ → O × Option ℕ
  pub flush : Scheduler → O → O × Option ℕ
  pub run : Routine → List ℕ → O → O
  pub cipher_func : Job → O → O × Job × ℕ
  pub hash_func : Job → O → O × Job × ℕ
  pub load : O → ℕ → ℕ
