-- ===== src/Validate/Aes.antt =====
-- The first half of `is_job_invalid` of lib/include/mb_mgr_code.h, the AES modes: one function for each
-- `case` of the switch over `cipher_mode`, its tests in the order of the source.
use intel_ipsec_mb.Base.{
  ℕ, ◌+◌, ◌-◌, ◌^◌, bit_and, Bool, true, false, if◌then◌else◌, ◌==◌, ◌!=◌, ltb, ◌&&◌, ◌||◌, not,
}
use intel_ipsec_mb.Job.{Job, HashAlg, aes_gmac, aes_ccm, pon_crc_bip, is_encrypt, is_decrypt}
use intel_ipsec_mb.Errno
use intel_ipsec_mb.Validate.Outcome.{Check, reject, guarded, ◌>>◌}

-- Tests of `job->hash_alg`
abbrev pub is_aes_gmac : HashAlg → Bool
is_aes_gmac aes_gmac = true
is_aes_gmac _ = false

abbrev pub is_aes_ccm : HashAlg → Bool
is_aes_ccm aes_ccm = true
is_aes_ccm _ = false

abbrev pub is_pon_crc_bip : HashAlg → Bool
is_pon_crc_bip pon_crc_bip = true
is_pon_crc_bip _ = false

-- MB_MAX_LEN16
abbrev pub max_len16 : ℕ
max_len16 = 2 ^ 16 - 2

-- The longest PON frame.
abbrev pub max_pon_len : ℕ
max_pon_len = 2 ^ 14 + 8

-- IMB_CIPHER_CBC and IMB_CIPHER_CBCS_1_9; the flag tells the two apart.
unfoldable pub check_cbc : Bool → Job → Check
check_cbc is_cbcs job = do
  reject (job.src == 0) Errno.err_job_null_src
  reject (job.dst == 0) Errno.err_job_null_dst
  reject (job.iv == 0) Errno.err_job_null_iv
  reject (is_encrypt job.cipher_direction && job.enc_keys == 0) Errno.err_job_null_key
  reject (is_decrypt job.cipher_direction && job.dec_keys == 0) Errno.err_job_null_key
  reject (job.key_len != 16 && job.key_len != 24 && job.key_len != 32) Errno.err_job_key_len
  reject (job.msg_len_to_cipher == 0) Errno.err_job_ciph_len
  reject (bit_and job.msg_len_to_cipher 15 != 0) Errno.err_job_ciph_len
  if is_cbcs
      then reject (ltb (2 ^ 60 - 1) job.msg_len_to_cipher) Errno.err_job_ciph_len
      else reject (is_encrypt job.cipher_direction && ltb max_len16 job.msg_len_to_cipher)
          Errno.err_job_ciph_len
  reject (job.iv_len != 16) Errno.err_job_iv_len

-- IMB_CIPHER_ECB
unfoldable pub check_ecb : Job → Check
check_ecb job = do
  reject (job.src == 0) Errno.err_job_null_src
  reject (job.dst == 0) Errno.err_job_null_dst
  reject (job.enc_keys == 0) Errno.err_job_null_key
  reject (job.key_len != 16 && job.key_len != 24 && job.key_len != 32) Errno.err_job_key_len
  reject (job.msg_len_to_cipher == 0 || ltb max_len16 job.msg_len_to_cipher) Errno.err_job_ciph_len
  reject (bit_and job.msg_len_to_cipher 15 != 0) Errno.err_job_ciph_len
  reject (job.iv_len != 0) Errno.err_job_iv_len
  reject (job.iv == 0) Errno.err_job_null_iv

-- IMB_CIPHER_CNTR and IMB_CIPHER_CNTR_BITLEN
unfoldable pub check_cntr : Job → Check
check_cntr job = do
  reject (job.src == 0) Errno.err_job_null_src
  reject (job.dst == 0) Errno.err_job_null_dst
  reject (job.iv == 0) Errno.err_job_null_iv
  reject (job.enc_keys == 0) Errno.err_job_null_key
  reject (job.key_len != 16 && job.key_len != 24 && job.key_len != 32) Errno.err_job_key_len
  reject (job.iv_len != 16 && job.iv_len != 12) Errno.err_job_iv_len
  reject (job.msg_len_to_cipher == 0) Errno.err_job_ciph_len

-- IMB_CIPHER_DOCSIS_SEC_BPI
unfoldable pub check_docsis : Job → Check
check_docsis job = do
  reject (job.src == 0) Errno.err_job_null_src
  reject (job.dst == 0) Errno.err_job_null_dst
  reject (job.iv == 0) Errno.err_job_null_iv
  reject (job.enc_keys == 0) Errno.err_job_null_key
  reject (is_decrypt job.cipher_direction && job.dec_keys == 0) Errno.err_job_null_key
  reject (job.key_len != 16 && job.key_len != 32) Errno.err_job_key_len
  reject (job.iv_len != 16) Errno.err_job_iv_len
  reject (ltb max_len16 job.msg_len_to_cipher) Errno.err_job_ciph_len

-- IMB_CIPHER_GCM
unfoldable pub check_gcm : Job → Check
check_gcm job = do
  reject (job.msg_len_to_cipher != 0 && job.src == 0) Errno.err_job_null_src
  reject (job.msg_len_to_cipher != 0 && job.dst == 0) Errno.err_job_null_dst
  reject (job.iv == 0) Errno.err_job_null_iv
  reject (is_encrypt job.cipher_direction && job.enc_keys == 0) Errno.err_job_null_key
  reject (is_decrypt job.cipher_direction && job.dec_keys == 0) Errno.err_job_null_key
  reject (job.key_len != 16 && job.key_len != 24 && job.key_len != 32) Errno.err_job_key_len
  reject (job.iv_len == 0) Errno.err_job_iv_len
  reject (not (is_aes_gmac job.hash_alg)) Errno.err_hash_algo

-- IMB_CIPHER_CCM
unfoldable pub check_ccm : Job → Check
check_ccm job = do
  guarded (job.msg_len_to_cipher != 0)
      (reject (job.src == 0) Errno.err_job_null_src >> reject (job.dst == 0) Errno.err_job_null_dst)
  reject (ltb max_len16 job.msg_len_to_cipher) Errno.err_job_ciph_len
  reject (job.iv == 0) Errno.err_job_null_iv
  reject (job.enc_keys == 0) Errno.err_job_null_key
  reject (job.key_len != 16 && job.key_len != 32) Errno.err_job_key_len
  reject (ltb 13 job.iv_len || ltb job.iv_len 7) Errno.err_job_iv_len
  reject (not (is_aes_ccm job.hash_alg)) Errno.err_hash_algo

-- IMB_CIPHER_PON_AES_CNTR, the tests of a frame that is ciphered
unfoldable pub check_pon_cipher : Job → Check
check_pon_cipher job = do
  reject (bit_and job.msg_len_to_cipher 3 != 0) Errno.err_job_ciph_len
  reject (ltb (max_pon_len - 8) job.msg_len_to_cipher) Errno.err_job_ciph_len
  reject (job.key_len != 16) Errno.err_job_key_len
  reject (job.iv_len != 16) Errno.err_job_iv_len
  reject (job.iv == 0) Errno.err_job_null_iv
  reject (job.enc_keys == 0) Errno.err_job_null_key

-- IMB_CIPHER_PON_AES_CNTR
unfoldable pub check_pon : Job → Check
check_pon job = do
  reject (job.src == 0) Errno.err_job_null_src
  reject (job.dst == 0) Errno.err_job_null_dst
  reject (job.src == job.dst) Errno.einval
  reject (not (is_pon_crc_bip job.hash_alg)) Errno.err_hash_algo
  guarded (job.msg_len_to_cipher != 0) (check_pon_cipher job)
