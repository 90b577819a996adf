-- ===== src/Validate/Spec.antt =====
-- The conditions that `is_job_invalid` of lib/include/mb_mgr_code.h enforces on the cipher part of a job, one for
-- each mode, independent of the order of the tests. They follow the code where it departs from
-- lib/intel-ipsec-mb.h and from its own comments, which these conditions leave out or contradict:
--   * IMB_JOB gives a maximum of 65472 bytes to cipher. The code takes 65534, and more in CBC decryption, CBCS,
--     CNTR, GCM, SNOW3G, CHACHA20 and without a cipher.
--   * IMB_JOB asks for 16-byte aligned keys and, for CCM, for the chain order of the direction.
--   * PON assumes that the CRC and the cipher start at the same offset.
--   * The custom cipher says "no checks here"; the code tests `cipher_func`.
--   * README allows CHACHA20 AEAD only with the hash POLY1305 AEAD, and DOCSIS CRC32 only with a 128-bit key.
--   * A direction outside its enumeration needs no keys, where a mode tests them by direction.
use intel_ipsec_mb.Base.{
  ℕ, ◌+◌, ◌-◌, ◌*◌, ◌%◌, ◌^◌, ◌≤◌, ◌<◌, ◌≡◌, ◌≢◌, ◌⊎◌, false, if◌then◌else◌, List, [], ◌∷◌,
}
use intel_ipsec_mb.Job.{Job, CipherMode, HashAlg, is_encrypt, is_decrypt}

-- The number is one of the list.
abbrev pub OneOf : ℕ → List ℕ → Type 0
OneOf x [] = ⊥
OneOf x (y ∷ []) = x ≡ y
OneOf x (y ∷ ys) = (x ≡ y) ⊎ OneOf x ys

-- Source, destination and initialization vector are there.
abbrev pub HasBuffers : Job → Type 0
HasBuffers job = (job.src ≢ 0) × (job.dst ≢ 0) × (job.iv ≢ 0)

-- The keys of the direction are there.
abbrev pub HasKeys : Job → Type 0
HasKeys job =
    ((is_encrypt job.cipher_direction ≡ false) ⊎ (job.enc_keys ≢ 0))
    × ((is_decrypt job.cipher_direction ≡ false) ⊎ (job.dec_keys ≢ 0))

-- MB_MAX_LEN16, the longest message of the modes with 16-bit lengths
abbrev pub max16 : ℕ
max16 = 65534

-- A message that is not empty has a source and a destination.
abbrev pub HasMessage : Job → Type 0
HasMessage job = (job.msg_len_to_cipher ≡ 0) ⊎ ((job.src ≢ 0) × (job.dst ≢ 0))

-- The three key schedules of triple DES are there.
abbrev pub HasDes3Keys : (ℕ → ℕ) → ℕ → Type 0
HasDes3Keys load p = (p ≢ 0) × (load (p + 0) ≢ 0) × (load (p + 8) ≢ 0) × (load (p + 16) ≢ 0)

abbrev pub des3_keys : Job → ℕ
des3_keys job = if is_encrypt job.cipher_direction then job.enc_keys else job.dec_keys

abbrev pub CbcSpec : Job → Type 0
CbcSpec job =
    HasBuffers job
    × HasKeys job
    × OneOf job.key_len (16 ∷ 24 ∷ 32 ∷ [])
    × (0 < job.msg_len_to_cipher)
    × (job.msg_len_to_cipher % 16 ≡ 0)
    × ((is_encrypt job.cipher_direction ≡ false) ⊎ (job.msg_len_to_cipher ≤ max16))
    × (job.iv_len ≡ 16)

-- CBCS takes longer messages than CBC.
abbrev pub CbcsSpec : Job → Type 0
CbcsSpec job =
    HasBuffers job
    × HasKeys job
    × OneOf job.key_len (16 ∷ 24 ∷ 32 ∷ [])
    × (0 < job.msg_len_to_cipher)
    × (job.msg_len_to_cipher % 16 ≡ 0)
    × (job.msg_len_to_cipher < 2 ^ 60)
    × (job.iv_len ≡ 16)

-- A PON frame that is ciphered.
abbrev pub PonCipherSpec : Job → Type 0
PonCipherSpec job =
    (job.msg_len_to_cipher % 4 ≡ 0)
    × (job.msg_len_to_cipher ≤ 2 ^ 14)
    × (job.key_len ≡ 16)
    × (job.iv_len ≡ 16)
    × (job.iv ≢ 0)
    × (job.enc_keys ≢ 0)

abbrev pub EcbSpec : Job → Type 0
EcbSpec job =
    HasBuffers job
    × (job.enc_keys ≢ 0)
    × OneOf job.key_len (16 ∷ 24 ∷ 32 ∷ [])
    × (0 < job.msg_len_to_cipher)
    × (job.msg_len_to_cipher ≤ max16)
    × (job.msg_len_to_cipher % 16 ≡ 0)
    × (job.iv_len ≡ 0)

abbrev pub CntrSpec : Job → Type 0
CntrSpec job =
    HasBuffers job
    × (job.enc_keys ≢ 0)
    × OneOf job.key_len (16 ∷ 24 ∷ 32 ∷ [])
    × OneOf job.iv_len (12 ∷ 16 ∷ [])
    × (0 < job.msg_len_to_cipher)

abbrev pub DocsisSpec : Job → Type 0
DocsisSpec job =
    HasBuffers job
    × (job.enc_keys ≢ 0)
    × ((is_decrypt job.cipher_direction ≡ false) ⊎ (job.dec_keys ≢ 0))
    × OneOf job.key_len (16 ∷ 32 ∷ [])
    × (job.iv_len ≡ 16)
    × (job.msg_len_to_cipher ≤ max16)

abbrev pub GcmSpec : Job → Type 0
GcmSpec job =
    HasMessage job
    × (job.iv ≢ 0)
    × HasKeys job
    × OneOf job.key_len (16 ∷ 24 ∷ 32 ∷ [])
    × (0 < job.iv_len)
    × (job.hash_alg ≡ HashAlg.aes_gmac)

-- The chain order is free, and so are keys of 256 bits.
abbrev pub CcmSpec : Job → Type 0
CcmSpec job =
    HasMessage job
    × (job.msg_len_to_cipher ≤ max16)
    × (job.iv ≢ 0)
    × (job.enc_keys ≢ 0)
    × OneOf job.key_len (16 ∷ 32 ∷ [])
    × (7 ≤ job.iv_len)
    × (job.iv_len ≤ 13)
    × (job.hash_alg ≡ HashAlg.aes_ccm)

-- The offsets are free.
abbrev pub PonSpec : Job → Type 0
PonSpec job =
    (job.src ≢ 0)
    × (job.dst ≢ 0)
    × (job.src ≢ job.dst)
    × (job.hash_alg ≡ HashAlg.pon_crc_bip)
    × ((job.msg_len_to_cipher ≡ 0) ⊎ PonCipherSpec job)

abbrev pub CustomSpec : Job → Type 0
CustomSpec job = (job.cipher_func ≢ 0)

abbrev pub DesSpec : Job → Type 0
DesSpec job =
    HasBuffers job
    × HasKeys job
    × (job.key_len ≡ 8)
    × (0 < job.msg_len_to_cipher)
    × (job.msg_len_to_cipher ≤ max16)
    × (job.msg_len_to_cipher % 8 ≡ 0)
    × (job.iv_len ≡ 8)

abbrev pub DocsisDesSpec : Job → Type 0
DocsisDesSpec job =
    HasBuffers job
    × HasKeys job
    × (job.key_len ≡ 8)
    × (0 < job.msg_len_to_cipher)
    × (job.msg_len_to_cipher ≤ max16)
    × (job.iv_len ≡ 8)

abbrev pub Des3Spec : (ℕ → ℕ) → Job → Type 0
Des3Spec load job =
    HasBuffers job
    × (job.key_len ≡ 24)
    × (0 < job.msg_len_to_cipher)
    × (job.msg_len_to_cipher ≤ max16)
    × (job.msg_len_to_cipher % 8 ≡ 0)
    × (job.iv_len ≡ 8)
    × HasDes3Keys load (des3_keys job)

abbrev pub ZucEea3Spec : Job → Type 0
ZucEea3Spec job =
    HasBuffers job
    × (job.enc_keys ≢ 0)
    × (job.key_len ≡ 16)
    × (0 < job.msg_len_to_cipher)
    × (job.msg_len_to_cipher ≤ 8188)
    × (job.iv_len ≡ 16)

abbrev pub Snow3gUea2Spec : Job → Type 0
Snow3gUea2Spec job =
    HasBuffers job
    × (job.enc_keys ≢ 0)
    × (job.key_len ≡ 16)
    × (0 < job.msg_len_to_cipher)
    × (job.msg_len_to_cipher < 2 ^ 32)
    × (job.iv_len ≡ 16)

abbrev pub KasumiUea1Spec : Job → Type 0
KasumiUea1Spec job =
    HasBuffers job
    × (job.enc_keys ≢ 0)
    × (job.key_len ≡ 16)
    × (0 < job.msg_len_to_cipher)
    × (job.msg_len_to_cipher ≤ 20000)
    × (job.iv_len ≡ 8)

abbrev pub Chacha20Spec : Job → Type 0
Chacha20Spec job =
    HasBuffers job
    × (job.enc_keys ≢ 0)
    × (job.key_len ≡ 32)
    × (0 < job.msg_len_to_cipher)
    × (job.msg_len_to_cipher ≤ (2 ^ 32 - 1) * 64)
    × (job.iv_len ≡ 12)

-- The hash algorithm is free; the hash of the AEAD asks for this mode.
abbrev pub Chacha20Poly1305Spec : Job → Type 0
Chacha20Poly1305Spec job =
    HasMessage job
    × (job.iv ≢ 0)
    × (job.enc_keys ≢ 0)
    × (job.key_len ≡ 32)
    × (job.msg_len_to_cipher ≤ (2 ^ 32 - 1) * 64)
    × (job.iv_len ≡ 12)

abbrev pub CipherSpec : (ℕ → ℕ) → CipherMode → Job → Type 0
CipherSpec load CipherMode.cbc job = CbcSpec job
CipherSpec load CipherMode.cbcs_1_9 job = CbcsSpec job
CipherSpec load CipherMode.ecb job = EcbSpec job
CipherSpec load CipherMode.cntr job = CntrSpec job
CipherSpec load CipherMode.cntr_bitlen job = CntrSpec job
CipherSpec load CipherMode.null_cipher job = Unit {0}
CipherSpec load CipherMode.docsis_sec_bpi job = DocsisSpec job
CipherSpec load CipherMode.gcm job = GcmSpec job
CipherSpec load CipherMode.custom job = CustomSpec job
CipherSpec load CipherMode.des job = DesSpec job
CipherSpec load CipherMode.docsis_des job = DocsisDesSpec job
CipherSpec load CipherMode.ccm job = CcmSpec job
CipherSpec load CipherMode.des3 job = Des3Spec load job
CipherSpec load CipherMode.pon_aes_cntr job = PonSpec job
CipherSpec load CipherMode.zuc_eea3 job = ZucEea3Spec job
CipherSpec load CipherMode.snow3g_uea2_bitlen job = Snow3gUea2Spec job
CipherSpec load CipherMode.kasumi_uea1_bitlen job = KasumiUea1Spec job
CipherSpec load CipherMode.chacha20 job = Chacha20Spec job
CipherSpec load CipherMode.chacha20_poly1305 job = Chacha20Poly1305Spec job
CipherSpec load (CipherMode.unnamed_mode n) job = ⊥
