-- ===== src/Job.antt =====
-- The job structure of lib/intel-ipsec-mb.h: `IMB_JOB` and the enumerations of its fields.
-- A pointer is its address, 0 for NULL. An enumeration has one more constructor, for a value that the
-- enumeration does not name: C code tests for it in the `default` and `else` branches.
use intel_ipsec_mb.Base.{ℕ, Bool, true, false}

-- JOB_CIPHER_MODE
pub data CipherMode : Type 0 where
  cbc cntr null_cipher docsis_sec_bpi gcm custom des docsis_des ccm des3 : CipherMode
  pon_aes_cntr ecb cntr_bitlen zuc_eea3 snow3g_uea2_bitlen kasumi_uea1_bitlen : CipherMode
  cbcs_1_9 chacha20 chacha20_poly1305 : CipherMode
  unnamed_mode : ℕ → CipherMode

-- JOB_CIPHER_DIRECTION
pub data Direction : Type 0 where
  encrypt decrypt : Direction
  unnamed_direction : ℕ → Direction

-- JOB_HASH_ALG
pub data HashAlg : Type 0 where
  hmac_sha_1 hmac_sha_224 hmac_sha_256 hmac_sha_384 hmac_sha_512 aes_xcbc md5 null_hash : HashAlg
  aes_gmac custom_hash aes_ccm aes_cmac sha_1 sha_224 sha_256 sha_384 sha_512 : HashAlg
  aes_cmac_bitlen pon_crc_bip zuc_eia3_bitlen docsis_crc32 snow3g_uia2_bitlen : HashAlg
  kasumi_uia1 aes_gmac_128 aes_gmac_192 aes_gmac_256 aes_cmac_256 poly1305 : HashAlg
  auth_chacha20_poly1305 : HashAlg
  unnamed_hash : ℕ → HashAlg

-- JOB_CHAIN_ORDER
pub data ChainOrder : Type 0 where
  cipher_hash hash_cipher : ChainOrder
  unnamed_order : ℕ → ChainOrder

-- JOB_STS: the first two are bits that stages set in `status`.
abbrev pub sts_being_processed : ℕ
sts_being_processed = 0

abbrev pub sts_completed_aes : ℕ
sts_completed_aes = 1

abbrev pub sts_completed_hmac : ℕ
sts_completed_hmac = 2

abbrev pub sts_completed : ℕ
sts_completed = 3

abbrev pub sts_invalid_args : ℕ
sts_invalid_args = 4

abbrev pub sts_internal_error : ℕ
sts_internal_error = 5

-- IMB_JOB. The unions of the byte and bit lengths are one field each. The union `u` is its three
-- 64-bit words, which the structures of the union read by their own names below.
pub record Job : Type 0 where
  pub enc_keys : ℕ
  pub dec_keys : ℕ
  pub key_len : ℕ
  pub src : ℕ
  pub dst : ℕ
  pub cipher_start_src_offset : ℕ
  pub msg_len_to_cipher : ℕ
  pub hash_start_src_offset : ℕ
  pub msg_len_to_hash : ℕ
  pub iv : ℕ
  pub iv_len : ℕ
  pub auth_tag_output : ℕ
  pub auth_tag_output_len : ℕ
  pub u0 : ℕ
  pub u1 : ℕ
  pub u2 : ℕ
  pub status : ℕ
  pub cipher_mode : CipherMode
  pub cipher_direction : Direction
  pub hash_alg : HashAlg
  pub chain_order : ChainOrder
  pub cipher_func : ℕ
  pub hash_func : ℕ

-- u.CCM, u.GCM and u.CHACHA20_POLY1305
abbrev pub aad : Job → ℕ
aad job = job.u0

abbrev pub aad_len : Job → ℕ
aad_len job = job.u1

-- u.CMAC
abbrev pub cmac_key_expanded : Job → ℕ
cmac_key_expanded job = job.u0

abbrev pub cmac_skey1 : Job → ℕ
cmac_skey1 job = job.u1

abbrev pub cmac_skey2 : Job → ℕ
cmac_skey2 job = job.u2

-- `_key` and `_iv` of u.ZUC_EIA3, u.SNOW3G_UIA2, u.KASUMI_UIA1, u.GMAC and u.POLY1305
abbrev pub auth_key : Job → ℕ
auth_key job = job.u0

abbrev pub auth_iv : Job → ℕ
auth_iv job = job.u1

-- u.GMAC.iv_len_in_bytes
abbrev pub gmac_iv_len : Job → ℕ
gmac_iv_len job = job.u2

-- `job->cipher_direction == IMB_DIR_ENCRYPT`
abbrev pub is_encrypt : Direction → Bool
is_encrypt encrypt = true
is_encrypt _ = false

-- `job->cipher_direction == IMB_DIR_DECRYPT`
abbrev pub is_decrypt : Direction → Bool
is_decrypt decrypt = true
is_decrypt _ = false

-- `job->chain_order == IMB_ORDER_CIPHER_HASH`
abbrev pub is_cipher_hash : ChainOrder → Bool
is_cipher_hash cipher_hash = true
is_cipher_hash _ = false

-- `job->chain_order == IMB_ORDER_HASH_CIPHER`
abbrev pub is_hash_cipher : ChainOrder → Bool
is_hash_cipher hash_cipher = true
is_hash_cipher _ = false

-- The number of a hash algorithm, with which the tables of tag lengths are indexed.
abbrev pub hash_code : HashAlg → ℕ
hash_code hmac_sha_1 = 1
hash_code hmac_sha_224 = 2
hash_code hmac_sha_256 = 3
hash_code hmac_sha_384 = 4
hash_code hmac_sha_512 = 5
hash_code aes_xcbc = 6
hash_code md5 = 7
hash_code null_hash = 8
hash_code aes_gmac = 9
hash_code custom_hash = 10
hash_code aes_ccm = 11
hash_code aes_cmac = 12
hash_code sha_1 = 13
hash_code sha_224 = 14
hash_code sha_256 = 15
hash_code sha_384 = 16
hash_code sha_512 = 17
hash_code aes_cmac_bitlen = 18
hash_code pon_crc_bip = 19
hash_code zuc_eia3_bitlen = 20
hash_code docsis_crc32 = 21
hash_code snow3g_uia2_bitlen = 22
hash_code kasumi_uia1 = 23
hash_code aes_gmac_128 = 24
hash_code aes_gmac_192 = 25
hash_code aes_gmac_256 = 26
hash_code aes_cmac_256 = 27
hash_code poly1305 = 28
hash_code auth_chacha20_poly1305 = 29
hash_code (unnamed_hash n) = n
