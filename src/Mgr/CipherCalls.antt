-- ===== src/Mgr/CipherCalls.antt =====
-- The calls of synchronous routines that the cipher side of lib/include/mb_mgr_code.h makes, with their
-- arguments in the order of the source.
use intel_ipsec_mb.Base.{
  Bool, true, false, ℕ, ◌/◌, ◌%◌, ◌^◌, bit_and, ◌==◌, ◌!=◌, ◌||◌, if◌then◌else◌, List, [], ◌∷◌,
}
use intel_ipsec_mb.Job.{Job, HashAlg, aad, aad_len}
use intel_ipsec_mb.Mgr.Kernels.{Routine}
use intel_ipsec_mb.Mgr.State.{offset, mask_16, mask_8, RoutineCall}

abbrev pub is_docsis_crc32 : HashAlg → Bool
is_docsis_crc32 HashAlg.docsis_crc32 = true
is_docsis_crc32 _ = false

-- `16 == key_len ? a : 24 == key_len ? b : c`
abbrev pub by_key_len {ℓ} : {A : Type ℓ} → ℕ → A → A → A → A
by_key_len key_len a b c = if key_len == 16 then a else if key_len == 24 then b else c

abbrev pub cipher_src : Job → ℕ
cipher_src job = offset job.src job.cipher_start_src_offset

-- AES_ECB_x(src, keys, dst, len & ~15)
abbrev pub ecb_calls : Routine → Job → ℕ → List RoutineCall
ecb_calls routine job keys =
    (routine, cipher_src job ∷ keys ∷ job.dst ∷ mask_16 job.msg_len_to_cipher ∷ []) ∷ []

-- submit_job_aes_cntr_sse and submit_job_aes_cntr_bit_sse
abbrev pub cntr_calls : Routine → Job → List RoutineCall
cntr_calls routine job =
    (
      routine,
      cipher_src job ∷ job.iv ∷ job.enc_keys ∷ job.dst ∷ job.msg_len_to_cipher ∷ job.iv_len ∷ [],
    )
    ∷ []

-- The routines that take the whole job.
abbrev pub job_calls : Routine → ℕ → List RoutineCall
job_calls routine p = (routine, p ∷ []) ∷ []

-- submit_job_aes_gcm_enc_sse and submit_job_aes_gcm_dec_sse, but for the status
abbrev pub gcm_calls : Routine → Job → ℕ → List RoutineCall
gcm_calls routine job keys =
    (
      routine,
      keys
          ∷ job.dst
          ∷ cipher_src job
          ∷ job.msg_len_to_cipher
          ∷ job.iv
          ∷ job.iv_len
          ∷ aad job
          ∷ aad_len job
          ∷ job.auth_tag_output
          ∷ job.auth_tag_output_len
          ∷ [],
    )
    ∷ []

-- DES_CBC_ENC, DES_CBC_DEC (`len & ~7`), DOCSIS_DES_ENC and DOCSIS_DES_DEC; the length becomes an `int`.
abbrev pub des_calls : Routine → Job → ℕ → ℕ → List RoutineCall
des_calls routine job len keys =
    (routine, cipher_src job ∷ job.dst ∷ len % 2 ^ 32 ∷ keys ∷ job.iv ∷ []) ∷ []

-- DES3_CBC_ENC and DES3_CBC_DEC: the three key schedules are read from the array at `keys`.
abbrev pub des3_calls : (ℕ → ℕ) → Routine → Job → ℕ → List RoutineCall
des3_calls load routine job keys =
    (
      routine,
      cipher_src job
          ∷ job.dst
          ∷ mask_8 job.msg_len_to_cipher % 2 ^ 32
          ∷ load keys
          ∷ load (offset keys 8)
          ∷ load (offset keys 16)
          ∷ job.iv
          ∷ [],
    )
    ∷ []

-- The 3GPP ciphers take the bit interface where the length or the offset is no whole number of bytes.
abbrev pub bit_cipher_calls : Routine → Routine → Job → ℕ → List RoutineCall
bit_cipher_calls whole bits job iv =
    let msg_bitlen = job.msg_len_to_cipher % 2 ^ 32 in
    let msg_bitoff = job.cipher_start_src_offset % 2 ^ 32 in
    if bit_and msg_bitlen 7 != 0 || bit_and msg_bitoff 7 != 0
    then (bits, job.enc_keys ∷ iv ∷ job.src ∷ job.dst ∷ msg_bitlen ∷ msg_bitoff ∷ []) ∷ []
    else (
      whole,
      job.enc_keys
          ∷ iv
          ∷ offset job.src (msg_bitoff / 8)
          ∷ offset job.dst (msg_bitoff / 8)
          ∷ msg_bitlen / 8
          ∷ [],
    )
      ∷ []
