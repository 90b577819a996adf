-- ===== src/Mgr/Home.antt =====
-- The manager in which a job can wait for its cipher, and for its hash: what the dispatch functions of
-- lib/include/mb_mgr_code.h come to, as a table.
use intel_ipsec_mb.Base.{ℕ, Bool, true, false, ◌||◌, ◌==◌, if◌then◌else◌, Option, none, some}
use intel_ipsec_mb.Job.{Job, CipherMode, HashAlg, is_encrypt, is_cipher_hash}
use intel_ipsec_mb.Mgr.Kernels.{Manager}
use intel_ipsec_mb.Mgr.CipherCalls.{by_key_len, is_docsis_crc32}

-- The fields of a job by which it is dispatched.
pub record Routing : Type 0 where
  pub mode : CipherMode
  pub encrypts : Bool
  pub alg : HashAlg
  pub cipher_first : Bool
  pub key_len : ℕ

abbrev pub docsis_home : Routing → Manager
docsis_home r =
    if r.key_len == 16
    then if is_docsis_crc32 r.alg
      then Manager.docsis128_crc32_sec_ooo
      else Manager.docsis128_sec_ooo
    else if is_docsis_crc32 r.alg
    then Manager.docsis256_crc32_sec_ooo
    else Manager.docsis256_sec_ooo

abbrev pub routing : Job → Routing
routing job = record {
  mode = job.cipher_mode;
  encrypts = is_encrypt job.cipher_direction;
  alg = job.hash_alg;
  cipher_first = is_cipher_hash job.chain_order;
  key_len = job.key_len;
}

-- Only ciphers that chain their blocks in the direction at hand wait; ZUC waits in both.
abbrev pub cipher_home_enc : CipherMode → Routing → Option Manager
cipher_home_enc CipherMode.cbc r =
    some (by_key_len r.key_len Manager.aes128_ooo Manager.aes192_ooo Manager.aes256_ooo)
cipher_home_enc CipherMode.docsis_sec_bpi r = some (docsis_home r)
cipher_home_enc CipherMode.zuc_eea3 r = some Manager.zuc_eea3_ooo
cipher_home_enc CipherMode.cbcs_1_9 r = some Manager.aes128_cbcs_ooo
cipher_home_enc _ r = none

abbrev pub cipher_home_dec : CipherMode → Option Manager
cipher_home_dec CipherMode.zuc_eea3 = some Manager.zuc_eea3_ooo
cipher_home_dec _ = none

abbrev pub cipher_home : Routing → Option Manager
cipher_home r = if r.encrypts then cipher_home_enc r.mode r else cipher_home_dec r.mode

abbrev pub hash_home_of : HashAlg → Option Manager
hash_home_of HashAlg.hmac_sha_1 = some Manager.hmac_sha_1_ooo
hash_home_of HashAlg.hmac_sha_224 = some Manager.hmac_sha_224_ooo
hash_home_of HashAlg.hmac_sha_256 = some Manager.hmac_sha_256_ooo
hash_home_of HashAlg.hmac_sha_384 = some Manager.hmac_sha_384_ooo
hash_home_of HashAlg.hmac_sha_512 = some Manager.hmac_sha_512_ooo
hash_home_of HashAlg.aes_xcbc = some Manager.aes_xcbc_ooo
hash_home_of HashAlg.md5 = some Manager.hmac_md5_ooo
hash_home_of HashAlg.aes_ccm = some Manager.aes_ccm_ooo
hash_home_of HashAlg.aes_cmac = some Manager.aes_cmac_ooo
hash_home_of HashAlg.aes_cmac_bitlen = some Manager.aes_cmac_ooo
hash_home_of HashAlg.aes_cmac_256 = some Manager.aes_cmac_ooo
hash_home_of HashAlg.zuc_eia3_bitlen = some Manager.zuc_eia3_ooo
hash_home_of _ = none

abbrev pub hash_home : Routing → Option Manager
hash_home r = hash_home_of r.alg

abbrev pub is_custom_mode : CipherMode → Bool
is_custom_mode CipherMode.custom = true
is_custom_mode _ = false

abbrev pub is_custom_alg : HashAlg → Bool
is_custom_alg HashAlg.custom_hash = true
is_custom_alg _ = false

-- Custom functions are run by the flush functions too, and are left out of what follows.
abbrev pub is_custom : Routing → Bool
is_custom r = is_custom_mode r.mode || is_custom_alg r.alg
