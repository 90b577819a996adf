-- ===== src/Validate/Untested.antt =====
-- About where `is_job_invalid` of lib/include/mb_mgr_code.h departs from what lib/intel-ipsec-mb.h and its
-- own comments ask of a job: conditions that they ask for and the code does not test, and jobs that they
-- allow and the code refuses.
use intel_ipsec_mb.Base.{
  ℕ, ◌+◌, ◌%◌, ◌^◌, ◌≤◌, ◌<◌, ◌≡◌, ◌≢◌, ◌⊎◌, inl, inr, true, false, refl, subst, sym, arith,
}
use intel_ipsec_mb.Job.{Job, CipherMode, HashAlg, ChainOrder}
use intel_ipsec_mb.Errno
use intel_ipsec_mb.Validate.{is_job_invalid}
use intel_ipsec_mb.Validate.Spec.{CipherSpec, max16}
use intel_ipsec_mb.Validate.HashSpec.{HashSpec}
use intel_ipsec_mb.Validate.Exact.{is_job_invalid_iff}

-- A change of a job to a value that the documentation does not allow, or not in this place.
pub data IsUntested (job : Job) : Job → Type 0 where
  -- lib/intel-ipsec-mb.h:447: the chain order of CCM "must be selected" by the direction.
  ccm_order :
      (o : ChainOrder)
      → job.cipher_mode ≡ CipherMode.ccm
      → IsUntested job (record job { chain_order = o })
  -- lib/include/mb_mgr_code.h:1818: a CMAC tag has 128, 96 or 32 bits.
  cmac_tag :
      (t : ℕ)
      → job.hash_alg ≡ HashAlg.aes_cmac
      → 4 ≤ t
      → t ≤ 16
      → IsUntested job (record job { auth_tag_output_len = t })
  -- lib/include/mb_mgr_code.h:1930: DOCSIS CRC32 is "in-place operation allowed only".
  docsis_dst :
      (d : ℕ)
      → job.hash_alg ≡ HashAlg.docsis_crc32
      → d ≢ 0
      → IsUntested job (record job { dst = d })
  -- lib/include/mb_mgr_code.h:1404: the CRC and the cipher of a PON frame start at the same offset.
  pon_offset :
      (n : ℕ)
      → job.hash_alg ≡ HashAlg.pon_crc_bip
      → IsUntested job (record job { hash_start_src_offset = n })
  -- lib/intel-ipsec-mb.h:354: "Max len = 65472 bytes" to cipher.
  cbc_len :
      (n : ℕ)
      → job.cipher_mode ≡ CipherMode.cbc
      → job.hash_alg ≡ HashAlg.hmac_sha_1
      → 0 < n
      → n ≤ max16
      → n % 16 ≡ 0
      → IsUntested job (record job { msg_len_to_cipher = n })
  cntr_len :
      (n : ℕ)
      → job.cipher_mode ≡ CipherMode.cntr
      → job.hash_alg ≡ HashAlg.hmac_sha_1
      → 0 < n
      → IsUntested job (record job { msg_len_to_cipher = n })
  -- lib/intel-ipsec-mb.h:366: "Max len = 65496 bytes" to hash.
  hmac_len :
      (n : ℕ)
      → job.cipher_mode ≡ CipherMode.cbc
      → job.hash_alg ≡ HashAlg.hmac_sha_1
      → 0 < n
      → n ≤ max16
      → IsUntested job (record job { msg_len_to_hash = n })
  -- Table 3 of README: the AEAD cipher of CHACHA20 goes with the hash of the AEAD.
  aead_hash :
      job.cipher_mode ≡ CipherMode.chacha20_poly1305
      → IsUntested job (record job { hash_alg = HashAlg.null_hash })

-- A job that a comment allows in the place where the code refuses it.
pub data IsRefused (job : Job) : Type 0 where
  -- lib/include/mb_mgr_code.h:2014: a message for KASUMI-UIA1 has "at least 8 bytes".
  kasumi_len : job.hash_alg ≡ HashAlg.kasumi_uia1 → job.msg_len_to_hash ≡ 8 → IsRefused job
  -- lib/include/mb_mgr_code.h:1926: the cipher of DOCSIS CRC32 starts at most 12 bytes behind the hash.
  docsis_offset :
      job.hash_alg ≡ HashAlg.docsis_crc32
      → job.msg_len_to_cipher ≢ 0
      → job.msg_len_to_hash ≢ 0
      → job.hash_start_src_offset + 12 < 2 ^ 64
      → job.cipher_start_src_offset < job.hash_start_src_offset + 12
      → IsRefused job
  -- lib/include/mb_mgr_code.h:1860: the tag of PON is a "32-bit value only".
  pon_tag : job.hash_alg ≡ HashAlg.pon_crc_bip → job.auth_tag_output_len ≡ 4 → IsRefused job
  -- lib/include/mb_mgr_code.h:1213: "no checks here"
  null_func : job.cipher_mode ≡ CipherMode.custom → job.cipher_func ≡ 0 → IsRefused job

-- The conditions of a job, for its mode and its algorithm
abbrev Accepts : (ℕ → ℕ) → Job → Type 0
Accepts load job = CipherSpec load job.cipher_mode job × HashSpec job.hash_alg job

module _ (load : ℕ → ℕ) (job : Job) where
  cipher_at :
      {mode : CipherMode} → job.cipher_mode ≡ mode → Accepts load job → CipherSpec load mode job
  cipher_at e h = subst (λ mode. CipherSpec load mode job) e h.0

  hash_at : {alg : HashAlg} → job.hash_alg ≡ alg → Accepts load job → HashSpec alg job
  hash_at e h = subst (λ alg. HashSpec alg job) e h.1

  -- A job like `job`, with `mode` and `alg` for its own
  meets_conditions :
      {mode : CipherMode} {alg : HashAlg} (job' : Job)
      → job'.cipher_mode ≡ mode
      → job'.hash_alg ≡ alg
      → CipherSpec load mode job'
      → HashSpec alg job'
      → Accepts load job'
  meets_conditions job' em ea c h = (
    subst (λ mode. CipherSpec load mode job') (sym em) c,
    subst (λ alg. HashSpec alg job') (sym ea) h,
  )

-- The conditions on the cipher do not read the tag length.
CipherSpec-tag :
    (load : ℕ → ℕ) (job : Job) (t : ℕ) (mode : CipherMode)
    → CipherSpec load mode job
    → CipherSpec load mode (record job { auth_tag_output_len = t })
CipherSpec-tag load job t CipherMode.cbc h = h
CipherSpec-tag load job t CipherMode.cbcs_1_9 h = h
CipherSpec-tag load job t CipherMode.ecb h = h
CipherSpec-tag load job t CipherMode.cntr h = h
CipherSpec-tag load job t CipherMode.cntr_bitlen h = h
CipherSpec-tag load job t CipherMode.null_cipher h = h
CipherSpec-tag load job t CipherMode.docsis_sec_bpi h = h
CipherSpec-tag load job t CipherMode.gcm h = h
CipherSpec-tag load job t CipherMode.custom h = h
CipherSpec-tag load job t CipherMode.des h = h
CipherSpec-tag load job t CipherMode.docsis_des h = h
CipherSpec-tag load job t CipherMode.ccm h = h
CipherSpec-tag load job t CipherMode.des3 h = h
CipherSpec-tag load job t CipherMode.pon_aes_cntr h = h
CipherSpec-tag load job t CipherMode.zuc_eea3 h = h
CipherSpec-tag load job t CipherMode.snow3g_uea2_bitlen h = h
CipherSpec-tag load job t CipherMode.kasumi_uea1_bitlen h = h
CipherSpec-tag load job t CipherMode.chacha20 h = h
CipherSpec-tag load job t CipherMode.chacha20_poly1305 h = h
CipherSpec-tag load job t (CipherMode.unnamed_mode n) h = absurd h

IsUntested-Accepts :
    (load : ℕ → ℕ) {job job' : Job} → IsUntested job job' → Accepts load job → Accepts load job'
IsUntested-Accepts load {job} (ccm_order o e) h =
    let c = cipher_at load job e h in
    let ea = c.7 in
    meets_conditions load job (record job { chain_order = o }) e ea c (hash_at load job ea h)
IsUntested-Accepts load {job} (cmac_tag t ea lo hi) h =
    let c = hash_at load job ea h in
    (
      CipherSpec-tag load job t job.cipher_mode h.0,
      subst (λ alg. HashSpec alg (record job { auth_tag_output_len = t })) (sym ea) (ground arith),
    )
IsUntested-Accepts load {job} (docsis_dst d ea ne) h =
    let c = hash_at load job ea h in
    let b = cipher_at load job c.0 h in
    meets_conditions load job (record job { dst = d }) c.0 ea (ground arith) c
IsUntested-Accepts load {job} (pon_offset n ea) h =
    let c = hash_at load job ea h in
    let e = c.4 in
    meets_conditions load job (record job { hash_start_src_offset = n }) e ea
      (cipher_at load job e h) c
IsUntested-Accepts load {job} (cbc_len n e ea lo hi m) h =
    let b = cipher_at load job e h in
    meets_conditions load job (record job { msg_len_to_cipher = n }) e ea (ground arith)
      (hash_at load job ea h)
IsUntested-Accepts load {job} (cntr_len n e ea lo) h =
    let b = cipher_at load job e h in
    meets_conditions load job (record job { msg_len_to_cipher = n }) e ea (ground arith)
      (hash_at load job ea h)
IsUntested-Accepts load {job} (hmac_len n e ea lo hi) h =
    let b = hash_at load job ea h in
    meets_conditions load job (record job { msg_len_to_hash = n }) e ea (cipher_at load job e h)
      (ground arith)
IsUntested-Accepts load {job} (aead_hash e) h =
    meets_conditions load job {alg = HashAlg.null_hash}
      (record job { hash_alg = HashAlg.null_hash }) e refl (cipher_at load job e h) tt

IsRefused-Accepts : (load : ℕ → ℕ) (job : Job) → IsRefused job → ¬ Accepts load job
IsRefused-Accepts load job (kasumi_len ea n) h = let c = hash_at load job ea h in ground arith
IsRefused-Accepts load job (docsis_offset ea nc nh lt o) h =
    let c = hash_at load job ea h in ground arith
IsRefused-Accepts load job (pon_tag ea t) h = let c = hash_at load job ea h in ground arith
IsRefused-Accepts load job (null_func e z) h = let c = cipher_at load job e h in ground arith

-- What `is_job_invalid` accepts it still accepts after a change of `IsUntested`: the chain order of CCM, a CMAC
-- tag of any length from 4 to 16, any destination of DOCSIS CRC32 but NULL, the hash offset of PON and the AEAD
-- cipher of CHACHA20 without a hash; and with HMAC-SHA1, whole CBC blocks of up to 65534 bytes, CNTR messages of
-- any length but 0, and after CBC up to 65534 bytes to hash.
pub is_job_invalid-IsUntested :
    (load : ℕ → ℕ) (status : Errno.Status) {job job' : Job}
    → IsUntested job job'
    → is_job_invalid load status job ≡ (status, false)
    → is_job_invalid load status job' ≡ (status, false)
is_job_invalid-IsUntested load status {job} {job'} u e =
    (is_job_invalid_iff load status job').1
      (IsUntested-Accepts load u ((is_job_invalid_iff load status job).0 e))

-- A job is accepted with the error status left alone, or refused.
accepted_or_refused :
    (load : ℕ → ℕ) (status : Errno.Status) (job : Job)
    → (is_job_invalid load status job ≡ (status, false))
      ⊎ ((is_job_invalid load status job).1 ≡ true)
unfolding is_job_invalid
accepted_or_refused load status job = ground arith

-- `is_job_invalid` refuses the jobs of `IsRefused`: a message of 8 bytes for KASUMI-UIA1, a DOCSIS CRC32 cipher
-- that starts less than 12 bytes behind the hash (both not empty, and that sum within 64 bits), a PON tag of 4
-- bytes, and a custom cipher without a function.
pub is_job_invalid-IsRefused :
    (load : ℕ → ℕ) (status : Errno.Status) (job : Job)
    → IsRefused job
    → (is_job_invalid load status job).1 ≡ true
is_job_invalid-IsRefused load status job r = elim (accepted_or_refused load status job) [
  | inl e ↦ absurd (IsRefused-Accepts load job r ((is_job_invalid_iff load status job).0 e))
  | inr e ↦ e
]
