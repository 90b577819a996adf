-- ===== src/Mgr/Dispatch.antt =====
-- Where lib/include/mb_mgr_code.h sends a job: the submit and the flush functions of the two stages.
pub mod CipherSubmit
pub mod CipherFlush
pub mod HashSide
use intel_ipsec_mb.Base.{ℕ, ◌≡◌, ◌≢◌, bit_and, none, false, both_pairs}
use intel_ipsec_mb.Job.{is_encrypt}
use intel_ipsec_mb.Mgr.Kernels.{Kernels}
use intel_ipsec_mb.Mgr.State.{Mgr}
use intel_ipsec_mb.Mgr.Cipher.{
  submit_aes_enc_mode, submit_job_aes_enc, flush_aes_enc_mode, flush_job_aes_enc,
  submit_aes_dec_mode, submit_job_aes_dec, flush_aes_dec_mode, flush_job_aes_dec, submit_job_aes,
  flush_job_aes,
}
use intel_ipsec_mb.Mgr.Hash.{submit_job_hash, flush_job_hash}
use intel_ipsec_mb.Mgr.Contract.{Contract}
use intel_ipsec_mb.Mgr.Home.{
  cipher_home_enc, cipher_home_dec, cipher_home, hash_home, is_custom_mode, is_custom_alg,
}
use intel_ipsec_mb.Mgr.Effect.{status_of, routing_of, at_of, Submits, Flushes}
use intel_ipsec_mb.Mgr.Dispatch.CipherSubmit.{
  submit_aes_enc_mode-Submits, submit_aes_dec_mode-Submits,
}
use intel_ipsec_mb.Mgr.Dispatch.CipherFlush.{flush_aes_enc_mode-Flushes, flush_aes_dec_mode-Flushes}
use intel_ipsec_mb.Mgr.Dispatch.HashSide.{submit_hash_alg-Submits, flush_hash_alg-Flushes}

module _ {O : Type 0} {k : Kernels O} (c : Contract k) where
  pub submit_job_aes-Submits :
      (m : Mgr O) (p : ℕ)
      → at_of c m p ≡ none
      → is_custom_mode (routing_of m p).mode ≡ false
      → Submits c (cipher_home (routing_of m p)) 1 m p (submit_job_aes k m p)
  unfolding submit_job_aes submit_job_aes_enc submit_job_aes_dec
  submit_job_aes-Submits m p free usual =
      both_pairs (λ h s. Submits c h 1 m p s) (is_encrypt (m.jobs p).cipher_direction)
        (cipher_home_enc (m.jobs p).cipher_mode (routing_of m p))
        (cipher_home_dec (m.jobs p).cipher_mode) (submit_aes_enc_mode k (m.jobs p).cipher_mode m p)
        (submit_aes_dec_mode k (m.jobs p).cipher_mode m p)
        (submit_aes_enc_mode-Submits c (m.jobs p).cipher_mode m p free usual)
        (submit_aes_dec_mode-Submits c (m.jobs p).cipher_mode m p free usual)

  -- FLUSH_JOB_AES for a job without a custom cipher returns a job that waits in the home of that job, done with
  -- the cipher, or nothing if none waits there; the ring's offsets and the other jobs stay.
  pub flush_job_aes-Flushes :
      (m : Mgr O) (p : ℕ)
      → is_custom_mode (routing_of m p).mode ≡ false
      → Flushes c (cipher_home (routing_of m p)) 1 m (flush_job_aes k m p)
  unfolding flush_job_aes flush_job_aes_enc flush_job_aes_dec
  flush_job_aes-Flushes m p usual =
      both_pairs (λ h s. Flushes c h 1 m s) (is_encrypt (m.jobs p).cipher_direction)
        (cipher_home_enc (m.jobs p).cipher_mode (routing_of m p))
        (cipher_home_dec (m.jobs p).cipher_mode) (flush_aes_enc_mode k (m.jobs p).cipher_mode m p)
        (flush_aes_dec_mode k (m.jobs p).cipher_mode m p)
        (flush_aes_enc_mode-Flushes c (m.jobs p).cipher_mode m p usual)
        (flush_aes_dec_mode-Flushes c (m.jobs p).cipher_mode m p)

  pub submit_job_hash-Submits :
      (m : Mgr O) (p : ℕ)
      → at_of c m p ≡ none
      → is_custom_alg (routing_of m p).alg ≡ false
      → Submits c (hash_home (routing_of m p)) 2 m p (submit_job_hash k m p)
  unfolding submit_job_hash
  submit_job_hash-Submits m p free usual =
      submit_hash_alg-Submits c (m.jobs p).hash_alg m p free usual

  -- FLUSH_JOB_HASH for a job without a custom hash, whose hash is done if it has no manager to wait in, returns a
  -- job that waits in the home of that job, done with the hash, or nothing if none waits there; the ring's
  -- offsets and the other jobs stay.
  pub flush_job_hash-Flushes :
      (m : Mgr O) (p : ℕ)
      → is_custom_alg (routing_of m p).alg ≡ false
      → (hash_home (routing_of m p) ≡ none → bit_and (status_of m p) 2 ≢ 0)
      → Flushes c (hash_home (routing_of m p)) 2 m (flush_job_hash k m p)
  unfolding flush_job_hash
  flush_job_hash-Flushes m p usual done =
      flush_hash_alg-Flushes c (m.jobs p).hash_alg m p usual done
