-- ===== src/Validate/Hash.antt =====
-- The second half of `is_job_invalid` of lib/include/mb_mgr_code.h: one function for each `case` of the
-- switch over `hash_alg`, its tests in the order of the source.
use intel_ipsec_mb.Base.{
  ℕ, ◌+◌, ◌/◌, ◌%◌, ◌^◌, bit_and, Bool, true, false, ◌==◌, ◌!=◌, ltb, ◌&&◌, ◌||◌, not, List, [],
  ◌∷◌,
}
use intel_ipsec_mb.Job.{
  Job, CipherMode, gcm, ccm, pon_aes_cntr, docsis_sec_bpi, chacha20_poly1305, hash_code, is_encrypt,
  is_decrypt, is_hash_cipher, is_cipher_hash, aad, aad_len, cmac_key_expanded, cmac_skey1,
  cmac_skey2, auth_key, auth_iv, gmac_iv_len,
}
use intel_ipsec_mb.Errno
use intel_ipsec_mb.Validate.Outcome.{Check, reject, guarded, read_table, ◌>>=◌, ◌>>◌}
use intel_ipsec_mb.Validate.Aes.{max_len16, max_pon_len}
use intel_ipsec_mb.Validate.NonAes.{snow3g_max_bitlen, kasumi_max_len, zuc_max_bitlen}

-- Tests of `job->cipher_mode`
abbrev pub is_gcm : CipherMode → Bool
is_gcm gcm = true
is_gcm _ = false

abbrev pub is_ccm : CipherMode → Bool
is_ccm ccm = true
is_ccm _ = false

abbrev pub is_pon_aes_cntr : CipherMode → Bool
is_pon_aes_cntr pon_aes_cntr = true
is_pon_aes_cntr _ = false

abbrev pub is_docsis_sec_bpi : CipherMode → Bool
is_docsis_sec_bpi docsis_sec_bpi = true
is_docsis_sec_bpi _ = false

abbrev pub is_chacha20_poly1305 : CipherMode → Bool
is_chacha20_poly1305 chacha20_poly1305 = true
is_chacha20_poly1305 _ = false

abbrev pub auth_tag_len_fips : List ℕ
auth_tag_len_fips =
    0 ∷ 20 ∷ 28 ∷ 32 ∷ 48 ∷ 64 ∷ 12 ∷ 16 ∷ 0 ∷ 16 ∷ 0 ∷ 0 ∷ 16 ∷ 4 ∷ 4 ∷ 4 ∷ 16 ∷ 16 ∷ 16 ∷ 16 ∷ []

abbrev pub auth_tag_len_ipsec : List ℕ
auth_tag_len_ipsec =
    0 ∷ 12 ∷ 14 ∷ 16 ∷ 24 ∷ 32 ∷ 12 ∷ 12 ∷ 0 ∷ 16 ∷ 0 ∷ 0 ∷ 16 ∷ 20 ∷ 28 ∷ 32 ∷ 48 ∷ 64 ∷ 4 ∷ 8 ∷ 4
    ∷ 4 ∷ 4 ∷ 4 ∷ 16 ∷ 16 ∷ 16 ∷ 16 ∷ 16 ∷ []

-- The second operand of `&&` in the test below.
unfoldable pub check_fips : Job → Check
check_fips job = do
  fips ← read_table auth_tag_len_fips (hash_code job.hash_alg)
  reject (job.auth_tag_output_len != fips) Errno.err_job_auth_tag_len

-- A length of the IPsec table or, if it is not that, of the FIPS table.
unfoldable pub check_tag_len : Job → Check
check_tag_len job = do
  ipsec ← read_table auth_tag_len_ipsec (hash_code job.hash_alg)
  guarded (job.auth_tag_output_len != ipsec) (check_fips job)

-- A length of the IPsec table.
unfoldable pub check_ipsec_len : Job → Check
check_ipsec_len job = do
  ipsec ← read_table auth_tag_len_ipsec (hash_code job.hash_alg)
  reject (job.auth_tag_output_len != ipsec) Errno.err_job_auth_tag_len

-- IMB_AUTH_HMAC_SHA_1, ..._SHA_224, ..._SHA_256, ..._SHA_384, ..._SHA_512 and IMB_AUTH_MD5
unfoldable pub check_hmac : Job → Check
check_hmac job = do
  reject (job.src == 0) Errno.err_job_null_src
  check_tag_len job
  reject (job.msg_len_to_hash == 0 || ltb max_len16 job.msg_len_to_hash) Errno.err_job_auth_len
  reject (job.auth_tag_output == 0) Errno.err_job_null_auth

-- IMB_AUTH_AES_XCBC
unfoldable pub check_xcbc : Job → Check
check_xcbc job = do
  reject (job.src == 0) Errno.err_job_null_src
  check_tag_len job
  reject (job.auth_tag_output == 0) Errno.err_job_null_auth
  reject (ltb max_len16 job.msg_len_to_hash) Errno.err_job_auth_len

-- IMB_AUTH_AES_GMAC
unfoldable pub check_gcm_tag : Job → Check
check_gcm_tag job = do
  reject (ltb job.auth_tag_output_len 1 || ltb 16 job.auth_tag_output_len)
      Errno.err_job_auth_tag_len
  reject (ltb 0 (aad_len job) && aad job == 0) Errno.err_job_null_aad
  reject (not (is_gcm job.cipher_mode)) Errno.err_ciph_mode
  reject (job.auth_tag_output == 0) Errno.err_job_null_auth

-- IMB_AUTH_AES_GMAC_128, ..._192 and ..._256
unfoldable pub check_gmac : Job → Check
check_gmac job = do
  reject (ltb job.auth_tag_output_len 1 || ltb 16 job.auth_tag_output_len)
      Errno.err_job_auth_tag_len
  reject (job.auth_tag_output == 0) Errno.err_job_null_auth
  reject (is_gcm job.cipher_mode) Errno.err_ciph_mode
  reject (auth_key job == 0) Errno.err_job_null_key
  reject (auth_iv job == 0) Errno.err_job_null_iv
  reject (gmac_iv_len job == 0) Errno.err_job_iv_len
  reject (job.msg_len_to_hash != 0 && job.src == 0) Errno.err_job_null_src

-- IMB_AUTH_CUSTOM
unfoldable pub check_custom_hash : Job → Check
check_custom_hash job = do reject (job.hash_func == 0) Errno.efault

-- IMB_AUTH_AES_CCM
unfoldable pub check_ccm_tag : Job → Check
check_ccm_tag job = do
  reject (job.msg_len_to_hash != 0 && job.src == 0) Errno.err_job_null_src
  reject (ltb 46 (aad_len job)) Errno.err_job_aad_len
  reject (ltb 0 (aad_len job) && aad job == 0) Errno.err_job_null_aad
  reject
      (ltb job.auth_tag_output_len 4
        || ltb 16 job.auth_tag_output_len
        || bit_and job.auth_tag_output_len 1 != 0)
      Errno.err_job_auth_tag_len
  reject (not (is_ccm job.cipher_mode)) Errno.err_ciph_mode
  reject (ltb max_len16 job.msg_len_to_hash) Errno.err_job_auth_len
  reject (job.msg_len_to_cipher != job.msg_len_to_hash) Errno.err_job_ciph_len
  reject (job.cipher_start_src_offset != job.hash_start_src_offset) Errno.err_job_src_offset
  reject (job.auth_tag_output == 0) Errno.err_job_null_auth

-- IMB_AUTH_AES_CMAC, IMB_AUTH_AES_CMAC_BITLEN and IMB_AUTH_AES_CMAC_256
unfoldable pub check_cmac : Job → Check
check_cmac job = do
  reject (job.src == 0) Errno.err_job_null_src
  reject (cmac_key_expanded job == 0 || cmac_skey1 job == 0 || cmac_skey2 job == 0)
      Errno.err_job_null_key
  reject (ltb job.auth_tag_output_len 4 || ltb 16 job.auth_tag_output_len)
      Errno.err_job_auth_tag_len
  reject (job.auth_tag_output == 0) Errno.err_job_null_auth
  reject (ltb max_len16 job.msg_len_to_hash) Errno.err_job_auth_len

-- IMB_AUTH_SHA_1, ..._224, ..._256, ..._384 and ..._512
unfoldable pub check_sha : Job → Check
check_sha job = do
  check_ipsec_len job
  reject (job.src == 0) Errno.err_job_null_src
  reject (job.auth_tag_output == 0) Errno.err_job_null_auth
  reject (ltb max_len16 job.msg_len_to_hash) Errno.err_job_auth_len

-- IMB_AUTH_PON_CRC_BIP
unfoldable pub check_pon_tag : Job → Check
check_pon_tag job = do
  reject
      (bit_and job.msg_len_to_hash 3 != 0
        || ltb job.msg_len_to_hash 8
        || ltb max_pon_len job.msg_len_to_hash)
      Errno.err_job_auth_len
  check_ipsec_len job
  reject (not (is_pon_aes_cntr job.cipher_mode)) Errno.err_ciph_mode
  reject (job.auth_tag_output == 0) Errno.err_job_null_auth

-- IMB_AUTH_ZUC_EIA3_BITLEN
unfoldable pub check_zuc_eia3 : Job → Check
check_zuc_eia3 job = do
  reject (job.src == 0) Errno.err_job_null_src
  reject (ltb job.msg_len_to_hash 1 || ltb zuc_max_bitlen job.msg_len_to_hash)
      Errno.err_job_auth_len
  reject (auth_key job == 0) Errno.err_job_null_key
  reject (auth_iv job == 0) Errno.err_job_null_iv
  reject (job.auth_tag_output_len != 4) Errno.err_job_auth_tag_len
  reject (job.auth_tag_output == 0) Errno.err_job_null_auth

-- The tests of IMB_AUTH_DOCSIS_CRC32 on a frame that is both hashed and ciphered: `ciph_adjust` is
-- 14 - 2 - 4. The sums are of `uint64_t`.
unfoldable pub check_docsis_lens : Job → Check
check_docsis_lens job = do
  reject (ltb job.msg_len_to_hash ((job.msg_len_to_cipher + 8) % 2 ^ 64)) Errno.err_job_ciph_len
  reject (ltb job.cipher_start_src_offset ((job.hash_start_src_offset + 12) % 2 ^ 64))
      Errno.err_job_src_offset

-- IMB_AUTH_DOCSIS_CRC32
unfoldable pub check_docsis_crc32 : Job → Check
check_docsis_crc32 job = do
  reject (not (is_docsis_sec_bpi job.cipher_mode)) Errno.err_ciph_mode
  guarded (job.msg_len_to_cipher != 0 && job.msg_len_to_hash != 0) (check_docsis_lens job)
  reject (ltb max_len16 job.msg_len_to_hash) Errno.err_job_auth_len
  reject (job.auth_tag_output == 0) Errno.err_job_null_auth
  check_ipsec_len job
  reject
      (is_encrypt job.cipher_direction && not (is_hash_cipher job.chain_order)
        || is_decrypt job.cipher_direction && not (is_cipher_hash job.chain_order))
      Errno.err_job_chain_order

-- IMB_AUTH_SNOW3G_UIA2_BITLEN
unfoldable pub check_snow3g_uia2 : Job → Check
check_snow3g_uia2 job = do
  reject (job.src == 0) Errno.err_job_null_src
  reject (job.msg_len_to_hash == 0 || ltb snow3g_max_bitlen job.msg_len_to_hash)
      Errno.err_job_auth_len
  reject (auth_key job == 0) Errno.err_job_null_key
  reject (auth_iv job == 0) Errno.err_job_null_iv
  reject (job.auth_tag_output_len != 4) Errno.err_job_auth_tag_len
  reject (job.auth_tag_output == 0) Errno.err_job_null_auth

-- IMB_AUTH_KASUMI_UIA1
unfoldable pub check_kasumi_uia1 : Job → Check
check_kasumi_uia1 job = do
  reject (job.src == 0) Errno.err_job_null_src
  reject (ltb job.msg_len_to_hash (8 + 1) || ltb (kasumi_max_len / 8) job.msg_len_to_hash)
      Errno.err_job_auth_len
  reject (auth_key job == 0) Errno.err_job_null_key
  reject (job.auth_tag_output_len != 4) Errno.err_job_auth_tag_len
  reject (job.auth_tag_output == 0) Errno.err_job_null_auth

-- IMB_AUTH_POLY1305
unfoldable pub check_poly1305 : Job → Check
check_poly1305 job = do
  reject (job.src == 0) Errno.err_job_null_src
  reject (auth_key job == 0) Errno.err_job_null_auth_key
  reject (job.auth_tag_output == 0) Errno.err_job_null_auth
  reject (job.auth_tag_output_len != 16) Errno.err_job_auth_tag_len

-- IMB_AUTH_CHACHA20_POLY1305
unfoldable pub check_chacha20_poly1305_tag : Job → Check
check_chacha20_poly1305_tag job = do
  reject (not (is_chacha20_poly1305 job.cipher_mode)) Errno.err_ciph_mode
  reject (job.src == 0) Errno.err_job_null_src
  reject (aad job == 0 && ltb 0 (aad_len job)) Errno.err_job_null_aad
  reject (job.auth_tag_output == 0) Errno.err_job_null_auth
  reject (job.auth_tag_output_len != 16) Errno.err_job_auth_tag_len
