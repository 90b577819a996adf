-- ===== src/Validate/HashSpec.antt =====
-- The conditions that `is_job_invalid` of lib/include/mb_mgr_code.h enforces on the hash part of a job, one for
-- each algorithm. Tag lengths are named for each algorithm here; the code keeps them in two tables. The
-- conditions follow the code where it departs from lib/intel-ipsec-mb.h and from its own comments:
--   * IMB_JOB gives a maximum of 65496 bytes to hash. The code takes 65534, and more for GCM, GMAC, SNOW3G and
--     POLY1305.
--   * DOCSIS CRC32: the comment asks for a cipher that starts at most 12 bytes behind the hash; the code refuses
--     less than 12 and takes more, with a sum that wraps at 64 bits. In-place operation is not tested.
--   * KASUMI-UIA1: the comment asks for at least 8 bytes, the code for 9.
--   * CMAC: the comment names tags of 128, 96 and 32 bits; the code takes any length from 4 to 16 bytes.
--   * PON: the comment says that the tag is a 32-bit value only; the code asks for 8 bytes.
--   * The pointers of HMAC and XCBC in `u` are not tested, nor is the 16-byte alignment of any pointer.
use intel_ipsec_mb.Base.{ℕ, ◌+◌, ◌%◌, ◌^◌, ◌≤◌, ◌<◌, ◌≡◌, ◌≢◌, ◌⊎◌, List, [], ◌∷◌, false}
use intel_ipsec_mb.Job.{
  Job, CipherMode, HashAlg, ChainOrder, is_encrypt, is_decrypt, aad, aad_len, cmac_key_expanded,
  cmac_skey1, cmac_skey2, auth_key, auth_iv, gmac_iv_len,
}
use intel_ipsec_mb.Validate.Spec.{OneOf, max16}

-- The tag lengths that an algorithm of variable tag length takes: its digest, truncated for IPsec or whole.
abbrev pub tag_lens : HashAlg → List ℕ
tag_lens HashAlg.hmac_sha_1 = 12 ∷ 20 ∷ []
tag_lens HashAlg.hmac_sha_224 = 14 ∷ 28 ∷ []
tag_lens HashAlg.hmac_sha_256 = 16 ∷ 32 ∷ []
tag_lens HashAlg.hmac_sha_384 = 24 ∷ 48 ∷ []
tag_lens HashAlg.hmac_sha_512 = 32 ∷ 64 ∷ []
tag_lens HashAlg.md5 = 12 ∷ 16 ∷ []
tag_lens HashAlg.aes_xcbc = 12 ∷ []
tag_lens HashAlg.sha_1 = 20 ∷ []
tag_lens HashAlg.sha_224 = 28 ∷ []
tag_lens HashAlg.sha_256 = 32 ∷ []
tag_lens HashAlg.sha_384 = 48 ∷ []
tag_lens HashAlg.sha_512 = 64 ∷ []
tag_lens _ = []

-- Additional data that is not empty is there.
abbrev pub HasAad : Job → Type 0
HasAad job = (aad_len job ≡ 0) ⊎ (aad job ≢ 0)

-- The ciphered part of a DOCSIS frame lies in the hashed part, behind its addresses. The comment of the source
-- asks for `≤` in the other direction between the offsets.
abbrev pub DocsisOverlap : Job → Type 0
DocsisOverlap job =
    ((job.msg_len_to_cipher + 8) % 2 ^ 64 ≤ job.msg_len_to_hash)
    × ((job.hash_start_src_offset + 12) % 2 ^ 64 ≤ job.cipher_start_src_offset)

abbrev pub HmacSpec : HashAlg → Job → Type 0
HmacSpec alg job =
    (job.src ≢ 0)
    × OneOf job.auth_tag_output_len (tag_lens alg)
    × (0 < job.msg_len_to_hash)
    × (job.msg_len_to_hash ≤ max16)
    × (job.auth_tag_output ≢ 0)

abbrev pub XcbcSpec : Job → Type 0
XcbcSpec job =
    (job.src ≢ 0)
    × (job.auth_tag_output_len ≡ 12)
    × (job.msg_len_to_hash ≤ max16)
    × (job.auth_tag_output ≢ 0)

abbrev pub GcmTagSpec : Job → Type 0
GcmTagSpec job =
    (1 ≤ job.auth_tag_output_len)
    × (job.auth_tag_output_len ≤ 16)
    × HasAad job
    × (job.cipher_mode ≡ CipherMode.gcm)
    × (job.auth_tag_output ≢ 0)

abbrev pub GmacSpec : Job → Type 0
GmacSpec job =
    (1 ≤ job.auth_tag_output_len)
    × (job.auth_tag_output_len ≤ 16)
    × (job.auth_tag_output ≢ 0)
    × (job.cipher_mode ≢ CipherMode.gcm)
    × (auth_key job ≢ 0)
    × (auth_iv job ≢ 0)
    × (0 < gmac_iv_len job)
    × ((job.msg_len_to_hash ≡ 0) ⊎ (job.src ≢ 0))

abbrev pub CustomHashSpec : Job → Type 0
CustomHashSpec job = (job.hash_func ≢ 0)

abbrev pub CcmTagSpec : Job → Type 0
CcmTagSpec job =
    ((job.msg_len_to_hash ≡ 0) ⊎ (job.src ≢ 0))
    × (aad_len job ≤ 46)
    × HasAad job
    × (4 ≤ job.auth_tag_output_len)
    × (job.auth_tag_output_len ≤ 16)
    × (job.auth_tag_output_len % 2 ≡ 0)
    × (job.cipher_mode ≡ CipherMode.ccm)
    × (job.msg_len_to_hash ≤ max16)
    × (job.msg_len_to_cipher ≡ job.msg_len_to_hash)
    × (job.cipher_start_src_offset ≡ job.hash_start_src_offset)
    × (job.auth_tag_output ≢ 0)

-- Any length of tag in the range, not only 4, 12 and 16
abbrev pub CmacSpec : Job → Type 0
CmacSpec job =
    (job.src ≢ 0)
    × (cmac_key_expanded job ≢ 0)
    × (cmac_skey1 job ≢ 0)
    × (cmac_skey2 job ≢ 0)
    × (4 ≤ job.auth_tag_output_len)
    × (job.auth_tag_output_len ≤ 16)
    × (job.auth_tag_output ≢ 0)
    × (job.msg_len_to_hash ≤ max16)

abbrev pub ShaSpec : HashAlg → Job → Type 0
ShaSpec alg job =
    OneOf job.auth_tag_output_len (tag_lens alg)
    × (job.src ≢ 0)
    × (job.auth_tag_output ≢ 0)
    × (job.msg_len_to_hash ≤ max16)

-- 8 bytes of tag: the BIP and the CRC, 32 bits each
abbrev pub PonTagSpec : Job → Type 0
PonTagSpec job =
    (job.msg_len_to_hash % 4 ≡ 0)
    × (8 ≤ job.msg_len_to_hash)
    × (job.msg_len_to_hash ≤ 2 ^ 14 + 8)
    × (job.auth_tag_output_len ≡ 8)
    × (job.cipher_mode ≡ CipherMode.pon_aes_cntr)
    × (job.auth_tag_output ≢ 0)

abbrev pub ZucEia3Spec : Job → Type 0
ZucEia3Spec job =
    (job.src ≢ 0)
    × (1 ≤ job.msg_len_to_hash)
    × (job.msg_len_to_hash ≤ 65504)
    × (auth_key job ≢ 0)
    × (auth_iv job ≢ 0)
    × (job.auth_tag_output_len ≡ 4)
    × (job.auth_tag_output ≢ 0)

-- Source and destination are free.
abbrev pub DocsisCrc32Spec : Job → Type 0
DocsisCrc32Spec job =
    (job.cipher_mode ≡ CipherMode.docsis_sec_bpi)
    × ((job.msg_len_to_cipher ≡ 0) ⊎ (job.msg_len_to_hash ≡ 0) ⊎ DocsisOverlap job)
    × (job.msg_len_to_hash ≤ max16)
    × (job.auth_tag_output ≢ 0)
    × (job.auth_tag_output_len ≡ 4)
    × ((is_encrypt job.cipher_direction ≡ false) ⊎ (job.chain_order ≡ ChainOrder.hash_cipher))
    × ((is_decrypt job.cipher_direction ≡ false) ⊎ (job.chain_order ≡ ChainOrder.cipher_hash))

abbrev pub Snow3gUia2Spec : Job → Type 0
Snow3gUia2Spec job =
    (job.src ≢ 0)
    × (0 < job.msg_len_to_hash)
    × (job.msg_len_to_hash < 2 ^ 32)
    × (auth_key job ≢ 0)
    × (auth_iv job ≢ 0)
    × (job.auth_tag_output_len ≡ 4)
    × (job.auth_tag_output ≢ 0)

-- KASUMI_BLOCK_SIZE + 1 bytes at least, one more than the comment of the source
abbrev pub KasumiUia1Spec : Job → Type 0
KasumiUia1Spec job =
    (job.src ≢ 0)
    × (9 ≤ job.msg_len_to_hash)
    × (job.msg_len_to_hash ≤ 2500)
    × (auth_key job ≢ 0)
    × (job.auth_tag_output_len ≡ 4)
    × (job.auth_tag_output ≢ 0)

abbrev pub Poly1305Spec : Job → Type 0
Poly1305Spec job =
    (job.src ≢ 0) × (auth_key job ≢ 0) × (job.auth_tag_output ≢ 0) × (job.auth_tag_output_len ≡ 16)

abbrev pub AeadPoly1305Spec : Job → Type 0
AeadPoly1305Spec job =
    (job.cipher_mode ≡ CipherMode.chacha20_poly1305)
    × (job.src ≢ 0)
    × HasAad job
    × (job.auth_tag_output ≢ 0)
    × (job.auth_tag_output_len ≡ 16)

abbrev pub HashSpec : HashAlg → Job → Type 0
HashSpec HashAlg.hmac_sha_1 job = HmacSpec HashAlg.hmac_sha_1 job
HashSpec HashAlg.hmac_sha_224 job = HmacSpec HashAlg.hmac_sha_224 job
HashSpec HashAlg.hmac_sha_256 job = HmacSpec HashAlg.hmac_sha_256 job
HashSpec HashAlg.hmac_sha_384 job = HmacSpec HashAlg.hmac_sha_384 job
HashSpec HashAlg.hmac_sha_512 job = HmacSpec HashAlg.hmac_sha_512 job
HashSpec HashAlg.md5 job = HmacSpec HashAlg.md5 job
HashSpec HashAlg.aes_xcbc job = XcbcSpec job
HashSpec HashAlg.null_hash job = Unit {0}
HashSpec HashAlg.aes_gmac job = GcmTagSpec job
HashSpec HashAlg.custom_hash job = CustomHashSpec job
HashSpec HashAlg.aes_ccm job = CcmTagSpec job
HashSpec HashAlg.aes_cmac job = CmacSpec job
HashSpec HashAlg.aes_cmac_bitlen job = CmacSpec job
HashSpec HashAlg.aes_cmac_256 job = CmacSpec job
HashSpec HashAlg.sha_1 job = ShaSpec HashAlg.sha_1 job
HashSpec HashAlg.sha_224 job = ShaSpec HashAlg.sha_224 job
HashSpec HashAlg.sha_256 job = ShaSpec HashAlg.sha_256 job
HashSpec HashAlg.sha_384 job = ShaSpec HashAlg.sha_384 job
HashSpec HashAlg.sha_512 job = ShaSpec HashAlg.sha_512 job
HashSpec HashAlg.pon_crc_bip job = PonTagSpec job
HashSpec HashAlg.zuc_eia3_bitlen job = ZucEia3Spec job
HashSpec HashAlg.docsis_crc32 job = DocsisCrc32Spec job
HashSpec HashAlg.snow3g_uia2_bitlen job = Snow3gUia2Spec job
HashSpec HashAlg.kasumi_uia1 job = KasumiUia1Spec job
HashSpec HashAlg.aes_gmac_128 job = GmacSpec job
HashSpec HashAlg.aes_gmac_192 job = GmacSpec job
HashSpec HashAlg.aes_gmac_256 job = GmacSpec job
HashSpec HashAlg.poly1305 job = Poly1305Spec job
HashSpec HashAlg.auth_chacha20_poly1305 job = AeadPoly1305Spec job
HashSpec (HashAlg.unnamed_hash n) job = ⊥
