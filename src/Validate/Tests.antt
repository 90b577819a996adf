-- ===== src/Validate/Tests.antt =====
-- The theorems on `is_job_invalid` at concrete jobs.
use intel_ipsec_mb.Base.{ℕ, ◌≡◌, ◌≢◌, ◌↔◌, true, false, refl, some, arith}
use intel_ipsec_mb.Job.{Job, CipherMode, Direction, HashAlg, ChainOrder}
use intel_ipsec_mb.Errno.{Status, get_errno}
use intel_ipsec_mb.Validate.{check_cipher, check_job, is_job_invalid}
use intel_ipsec_mb.Validate.Outcome.{fault}
use intel_ipsec_mb.Validate.Aes.{check_cbc}
use intel_ipsec_mb.Validate.Spec.{CipherSpec}
use intel_ipsec_mb.Validate.HashSpec.{HashSpec}
use intel_ipsec_mb.Validate.Cases.{IsJobError}
use intel_ipsec_mb.Validate.Exact.{is_job_invalid_iff}
use intel_ipsec_mb.Validate.Untested.{
  cbc_len, kasumi_len, is_job_invalid-IsUntested, is_job_invalid-IsRefused,
}
use intel_ipsec_mb.Validate.Safety.{check_job-ne-fault, is_job_invalid-errno}

-- AES-128-CBC on 64 bytes, then HMAC-SHA1
abbrev cbc_hmac : Job
cbc_hmac = record {
  enc_keys = 4096;
  dec_keys = 8192;
  key_len = 16;
  src = 65536;
  dst = 131072;
  cipher_start_src_offset = 0;
  msg_len_to_cipher = 64;
  hash_start_src_offset = 0;
  msg_len_to_hash = 64;
  iv = 12288;
  iv_len = 16;
  auth_tag_output = 16384;
  auth_tag_output_len = 12;
  u0 = 20480;
  u1 = 24576;
  u2 = 0;
  status = 0;
  cipher_mode = CipherMode.cbc;
  cipher_direction = Direction.encrypt;
  hash_alg = HashAlg.hmac_sha_1;
  chain_order = ChainOrder.cipher_hash;
  cipher_func = 0;
  hash_func = 0;
}

-- Its length is no whole number of blocks.
abbrev partial_block : Job
partial_block = record cbc_hmac { msg_len_to_cipher = 63 }

abbrev memory : ℕ → ℕ
memory a = a

abbrev status : Status
status = record { mgr_errno = some 0; global_errno = 0 }

partial_block_refused : (is_job_invalid memory status partial_block).1 ≡ true
unfolding is_job_invalid check_job check_cipher check_cbc
partial_block_refused = refl

is_job_invalid_iff_example :
    (is_job_invalid memory status cbc_hmac ≡ (status, false))
    ↔ (CipherSpec memory CipherMode.cbc cbc_hmac × HashSpec HashAlg.hmac_sha_1 cbc_hmac)
is_job_invalid_iff_example = is_job_invalid_iff memory status cbc_hmac

cbc_hmac_accepted : is_job_invalid memory status cbc_hmac ≡ (status, false)
cbc_hmac_accepted = (is_job_invalid_iff memory status cbc_hmac).1 (ground arith)

-- 48 bytes more than the length that the comment of IMB_JOB gives
is_job_invalid-IsUntested_example :
    is_job_invalid memory status (record cbc_hmac { msg_len_to_cipher = 65520 }) ≡ (status, false)
is_job_invalid-IsUntested_example =
    is_job_invalid-IsUntested memory status
      (cbc_len 65520 refl refl (omega arith) (omega arith) (omega arith)) cbc_hmac_accepted

abbrev short_kasumi : Job
short_kasumi = record cbc_hmac {
  msg_len_to_hash = 8;
  hash_alg = HashAlg.kasumi_uia1;
  auth_tag_output_len = 4;
}

is_job_invalid-IsRefused_example : (is_job_invalid memory status short_kasumi).1 ≡ true
is_job_invalid-IsRefused_example =
    is_job_invalid-IsRefused memory status short_kasumi (kasumi_len refl refl)

check_job-ne-fault_example : check_job memory cbc_hmac ≢ fault
check_job-ne-fault_example = check_job-ne-fault memory cbc_hmac

is_job_invalid-errno_example :
    let status' = (is_job_invalid memory status partial_block).0 in
    IsJobError (get_errno status') × (get_errno status' ≡ status'.global_errno)
is_job_invalid-errno_example =
    is_job_invalid-errno memory status partial_block partial_block_refused
