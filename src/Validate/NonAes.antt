-- ===== src/Validate/NonAes.antt =====
-- The first half of `is_job_invalid` of lib/include/mb_mgr_code.h, the modes that are not AES: one
-- function for each `case` of the switch over `cipher_mode`, its tests in the order of the source.
use intel_ipsec_mb.Base.{ℕ, ◌-◌, ◌^◌, ◌/◌, bit_and, if◌then◌else◌, ◌==◌, ◌!=◌, ltb, ◌&&◌, ◌||◌}
use intel_ipsec_mb.Job.{Job, is_encrypt, is_decrypt}
use intel_ipsec_mb.Errno
use intel_ipsec_mb.Validate.Outcome.{Check, reject, read_pointer, ◌>>=◌, ◌>>◌}
use intel_ipsec_mb.Validate.Aes.{max_len16}

-- SNOW3G_MAX_BITLEN
abbrev pub snow3g_max_bitlen : ℕ
snow3g_max_bitlen = 2 ^ 32 - 1

-- KASUMI_MAX_LEN
abbrev pub kasumi_max_len : ℕ
kasumi_max_len = 20000

-- ZUC_MAX_BITLEN and ZUC_MAX_BYTELEN
abbrev pub zuc_max_bitlen : ℕ
zuc_max_bitlen = 65504

abbrev pub zuc_max_bytelen : ℕ
zuc_max_bytelen = zuc_max_bitlen / 8

-- The longest ChaCha20 message.
abbrev pub chacha20_max_len : ℕ
chacha20_max_len = 2 ^ 38 - 64

-- IMB_CIPHER_CUSTOM
unfoldable pub check_custom : Job → Check
check_custom job = do reject (job.cipher_func == 0) Errno.efault

-- IMB_CIPHER_DES
unfoldable pub check_des : Job → Check
check_des job = do
  reject (job.src == 0) Errno.err_job_null_src
  reject (job.dst == 0) Errno.err_job_null_dst
  reject (job.iv == 0) Errno.err_job_null_iv
  reject (is_encrypt job.cipher_direction && job.enc_keys == 0) Errno.err_job_null_key
  reject (is_decrypt job.cipher_direction && job.dec_keys == 0) Errno.err_job_null_key
  reject (job.key_len != 8) Errno.err_job_key_len
  reject (job.msg_len_to_cipher == 0 || ltb max_len16 job.msg_len_to_cipher) Errno.err_job_ciph_len
  reject (bit_and job.msg_len_to_cipher 7 != 0) Errno.err_job_ciph_len
  reject (job.iv_len != 8) Errno.err_job_iv_len

-- IMB_CIPHER_DOCSIS_DES
unfoldable pub check_docsis_des : Job → Check
check_docsis_des job = do
  reject (job.src == 0) Errno.err_job_null_src
  reject (job.dst == 0) Errno.err_job_null_dst
  reject (job.iv == 0) Errno.err_job_null_iv
  reject (is_encrypt job.cipher_direction && job.enc_keys == 0) Errno.err_job_null_key
  reject (is_decrypt job.cipher_direction && job.dec_keys == 0) Errno.err_job_null_key
  reject (job.key_len != 8) Errno.err_job_key_len
  reject (job.msg_len_to_cipher == 0 || ltb max_len16 job.msg_len_to_cipher) Errno.err_job_ciph_len
  reject (job.iv_len != 8) Errno.err_job_iv_len

-- The key schedules of IMB_CIPHER_DES3: an array of three pointers at `ks_ptr`. The later pointers are
-- read only if those before are not NULL.
unfoldable pub check_des3_keys : (ℕ → ℕ) → ℕ → Check
check_des3_keys load ks_ptr = do
  reject (ks_ptr == 0) Errno.err_job_null_key
  ks0 ← read_pointer load ks_ptr 0
  reject (ks0 == 0) Errno.err_job_null_key
  ks1 ← read_pointer load ks_ptr 1
  reject (ks1 == 0) Errno.err_job_null_key
  ks2 ← read_pointer load ks_ptr 2
  reject (ks2 == 0) Errno.err_job_null_key

-- IMB_CIPHER_DES3
unfoldable pub check_des3 : (ℕ → ℕ) → Job → Check
check_des3 load job = do
  reject (job.src == 0) Errno.err_job_null_src
  reject (job.dst == 0) Errno.err_job_null_dst
  reject (job.iv == 0) Errno.err_job_null_iv
  reject (job.key_len != 24) Errno.err_job_key_len
  reject (job.msg_len_to_cipher == 0 || ltb max_len16 job.msg_len_to_cipher) Errno.err_job_ciph_len
  reject (bit_and job.msg_len_to_cipher 7 != 0) Errno.err_job_ciph_len
  reject (job.iv_len != 8) Errno.err_job_iv_len
  check_des3_keys load (if is_encrypt job.cipher_direction then job.enc_keys else job.dec_keys)

-- IMB_CIPHER_ZUC_EEA3
unfoldable pub check_zuc_eea3 : Job → Check
check_zuc_eea3 job = do
  reject (job.src == 0) Errno.err_job_null_src
  reject (job.dst == 0) Errno.err_job_null_dst
  reject (job.iv == 0) Errno.err_job_null_iv
  reject (job.enc_keys == 0) Errno.err_job_null_key
  reject (job.key_len != 16) Errno.err_job_key_len
  reject (job.msg_len_to_cipher == 0 || ltb zuc_max_bytelen job.msg_len_to_cipher)
      Errno.err_job_ciph_len
  reject (job.iv_len != 16) Errno.err_job_iv_len

-- IMB_CIPHER_SNOW3G_UEA2_BITLEN
unfoldable pub check_snow3g_uea2 : Job → Check
check_snow3g_uea2 job = do
  reject (job.src == 0) Errno.err_job_null_src
  reject (job.dst == 0) Errno.err_job_null_dst
  reject (job.iv == 0) Errno.err_job_null_iv
  reject (job.enc_keys == 0) Errno.err_job_null_key
  reject (job.key_len != 16) Errno.err_job_key_len
  reject (job.msg_len_to_cipher == 0 || ltb snow3g_max_bitlen job.msg_len_to_cipher)
      Errno.err_job_ciph_len
  reject (job.iv_len != 16) Errno.err_job_iv_len

-- IMB_CIPHER_KASUMI_UEA1_BITLEN
unfoldable pub check_kasumi_uea1 : Job → Check
check_kasumi_uea1 job = do
  reject (job.src == 0) Errno.err_job_null_src
  reject (job.dst == 0) Errno.err_job_null_dst
  reject (job.iv == 0) Errno.err_job_null_iv
  reject (job.enc_keys == 0) Errno.err_job_null_key
  reject (job.key_len != 16) Errno.err_job_key_len
  reject (job.msg_len_to_cipher == 0 || ltb kasumi_max_len job.msg_len_to_cipher)
      Errno.err_job_ciph_len
  reject (job.iv_len != 8) Errno.err_job_iv_len

-- IMB_CIPHER_CHACHA20
unfoldable pub check_chacha20 : Job → Check
check_chacha20 job = do
  reject (job.src == 0) Errno.err_job_null_src
  reject (job.dst == 0) Errno.err_job_null_dst
  reject (job.iv == 0) Errno.err_job_null_iv
  reject (job.enc_keys == 0) Errno.err_job_null_key
  reject (job.key_len != 32) Errno.err_job_key_len
  reject (job.msg_len_to_cipher == 0 || ltb chacha20_max_len job.msg_len_to_cipher)
      Errno.err_job_ciph_len
  reject (job.iv_len != 12) Errno.err_job_iv_len

-- IMB_CIPHER_CHACHA20_POLY1305
unfoldable pub check_chacha20_poly1305 : Job → Check
check_chacha20_poly1305 job = do
  reject (job.msg_len_to_cipher != 0 && job.src == 0) Errno.err_job_null_src
  reject (job.msg_len_to_cipher != 0 && job.dst == 0) Errno.err_job_null_dst
  reject (job.iv == 0) Errno.err_job_null_iv
  reject (job.enc_keys == 0) Errno.err_job_null_key
  reject (job.key_len != 32) Errno.err_job_key_len
  reject (ltb chacha20_max_len job.msg_len_to_cipher) Errno.err_job_ciph_len
  reject (job.iv_len != 12) Errno.err_job_iv_len
