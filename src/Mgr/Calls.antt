-- ===== src/Mgr/Calls.antt =====
-- Calls of the schedulers with the routine calls of the DOCSIS helpers around them.
use intel_ipsec_mb.Base.{
  ℕ, ◌/◌, ◌≤◌, ◌≡◌, inl, inr, refl, sym, ◌∙◌, subst, bit_or, Option, none, some, List, leb,
  both_branches, arith,
}
use intel_ipsec_mb.Base.Bits.{or_lowest}
use intel_ipsec_mb.Job.{sts_completed_aes, sts_completed}
use intel_ipsec_mb.Mgr.Kernels.{Kernels, Scheduler, Manager, manager, stage}
use intel_ipsec_mb.Mgr.State.{Mgr, RoutineCall, run_all, offset}
use intel_ipsec_mb.Mgr.Steps.{
  Step, submit_to, flush_from, direct, docsis_last_block, submit_docsis_sec_enc,
  submit_docsis_sec_crc_enc, flush_docsis_sec_enc, last_block_calls, first_block_calls, crc_calls,
}
use intel_ipsec_mb.Mgr.Hash.{hash_len_in_bits}
use intel_ipsec_mb.Mgr.Contract.{Contract}
use intel_ipsec_mb.Mgr.Effect.{
  Keeps, at_of, own, queued, swapped, nobody, taken, Submits, Flushes, Alike,
}
use intel_ipsec_mb.Mgr.StepLaws.{
  submit_to-Submitted, submit_to-Keeps, flush_from-Flushed, flush_from-Keeps, direct-Submitted,
  direct-Keeps, run_all-at,
}

three_le : (s : ℕ) → 3 ≤ bit_or s 3
three_le s = omega (arith, or_lowest s 3, or_lowest (s / 2) 1)

module _ {O : Type 0} {k : Kernels O} (c : Contract k) where
  same : (m : Mgr O) → Alike c m m
  same m = record {
    statuses = λ x. refl;
    routings = λ x. refl;
    earliest = refl;
    next = refl;
    at = λ x. refl;
  }

  ran :
      (calls : List RoutineCall) (m : Mgr O)
      → Alike c m (record m { world = run_all k calls m.world })
  ran calls m = record {
    statuses = λ x. refl;
    routings = λ x. refl;
    earliest = refl;
    next = refl;
    at = λ x. run_all-at c calls m.world x;
  }

  Keeps-Alike : (m m₁ m₂ m₃ : Mgr O) → Alike c m m₁ → Keeps m₁ m₂ → Alike c m₂ m₃ → Keeps m m₃
  Keeps-Alike m m₁ m₂ m₃ a h b = record {
    earliest = b.earliest ∙ h.earliest ∙ a.earliest;
    next = b.next ∙ h.next ∙ a.next;
    routings = λ x. b.routings x ∙ h.routings x ∙ a.routings x;
  }

  Submits-Alike :
      (home : Option Manager) (bit : ℕ) (m m₁ : Mgr O) (p : ℕ) (s s' : Step O)
      → Alike c m m₁
      → Submits c home bit m₁ p s
      → Alike c s.0 s'.0
      → s'.1 ≡ s.1
      → Submits c home bit m p s'
  Submits-Alike home bit m m₁ p s s' a (keeps, own r at st g) b e = (
    Keeps-Alike m m₁ s.0 s'.0 a keeps b,
    own (e ∙ r) (λ x. b.at x ∙ at x ∙ a.at x) (λ x h. b.statuses x ∙ st x h ∙ a.statuses x)
        (ground (arith, g, b.statuses p, a.statuses p)),
  )
  Submits-Alike home bit m m₁ p s s' a (keeps, queued g h sg r at st) b e = (
    Keeps-Alike m m₁ s.0 s'.0 a keeps b,
    queued g h sg (e ∙ r) (λ x. ground (arith, b.at x, at x, a.at x))
        (λ x. b.statuses x ∙ st x ∙ a.statuses x),
  )
  Submits-Alike home bit m m₁ p s s' a (keeps, swapped g q h sg r ne w at st bits) b e = (
    Keeps-Alike m m₁ s.0 s'.0 a keeps b,
    swapped g q h sg (e ∙ r) ne (sym (a.at q) ∙ w) (λ x. ground (arith, b.at x, at x, a.at x))
        (λ x h. b.statuses x ∙ st x h ∙ a.statuses x)
        (ground (arith, bits, b.statuses q, a.statuses q)),
  )

  Flushes-Alike :
      (home : Option Manager) (bit : ℕ) (m : Mgr O) (s s' : Step O)
      → Flushes c home bit m s
      → Alike c s.0 s'.0
      → s'.1 ≡ s.1
      → Flushes c home bit m s'
  Flushes-Alike home bit m s s' (keeps, nobody none_waits r at st) b e = (
    Keeps-Alike m m s.0 s'.0 (same m) keeps b,
    nobody none_waits (e ∙ r) (λ x. b.at x ∙ at x) (λ x. b.statuses x ∙ st x),
  )
  Flushes-Alike home bit m s s' (keeps, taken g q h sg r w at st bits) b e = (
    Keeps-Alike m m s.0 s'.0 (same m) keeps b,
    taken g q h sg (e ∙ r) w (λ x. b.at x ∙ at x) (λ x h. b.statuses x ∙ st x h)
        (b.statuses q ∙ bits),
  )

  pub submit_to-Submits :
      (sch : Scheduler) (home : Option Manager) (bit : ℕ) (m : Mgr O) (p : ℕ)
      → home ≡ some (manager sch)
      → stage (manager sch) ≡ bit
      → at_of c m p ≡ none
      → Submits c home bit m p (submit_to k sch m p)
  submit_to-Submits sch home bit m p e b free =
      subst (λ h. Submits c h bit m p (submit_to k sch m p)) (sym e)
        (subst (λ i. Submits c (some (manager sch)) i m p (submit_to k sch m p)) b
          (submit_to-Keeps c sch m p, submit_to-Submitted c sch m p free))

  pub flush_from-Flushes :
      (sch : Scheduler) (home : Option Manager) (bit : ℕ) (m : Mgr O)
      → home ≡ some (manager sch)
      → stage (manager sch) ≡ bit
      → Flushes c home bit m (flush_from k sch m)
  flush_from-Flushes sch home bit m e b =
      subst (λ h. Flushes c h bit m (flush_from k sch m)) (sym e)
        (subst (λ i. Flushes c (some (manager sch)) i m (flush_from k sch m)) b
          (flush_from-Keeps c sch m, flush_from-Flushed c sch m))

  -- A synchronous job of one stage, and one of both.
  pub direct-Submits :
      (bit : ℕ) (home : Option Manager) (calls : List RoutineCall) (m : Mgr O) (p : ℕ)
      → Submits c home bit m p (direct k bit calls m p)
  direct-Submits bit home calls m p =
      (direct-Keeps c bit calls m p, direct-Submitted c bit bit home calls m p (λ s. inl refl))

  pub finished-Submits :
      (bit : ℕ) (home : Option Manager) (calls : List RoutineCall) (m : Mgr O) (p : ℕ)
      → Submits c home bit m p (direct k sts_completed calls m p)
  finished-Submits bit home calls m p = (
    direct-Keeps c sts_completed calls m p,
    direct-Submitted c bit sts_completed home calls m p (λ s. inr (three_le s)),
  )

  docsis_last_block-Alike :
      (key_size : ℕ) (s : Step O) → Alike c s.0 (docsis_last_block k key_size s).0
  unfolding docsis_last_block
  docsis_last_block-Alike key_size (m, none) = same m
  docsis_last_block-Alike key_size (m, some q) = ran (last_block_calls key_size (m.jobs q)) m

  docsis_last_block-returns : (key_size : ℕ) (s : Step O) → (docsis_last_block k key_size s).1 ≡ s.1
  unfolding docsis_last_block
  docsis_last_block-returns key_size (m, none) = refl
  docsis_last_block-returns key_size (m, some q) = refl

  -- The message length of a CMAC job is written in bits before the call.
  pub submit_in_bits-Submits :
      (sch : Scheduler) (home : Option Manager) (m : Mgr O) (p : ℕ)
      → home ≡ some (manager sch)
      → stage (manager sch) ≡ 2
      → at_of c m p ≡ none
      → Submits c home 2 m p (submit_to k sch (hash_len_in_bits m p) p)
  submit_in_bits-Submits sch home m p e b free =
      let m₁ = hash_len_in_bits m p in
      let s = submit_to k sch m₁ p in
      Submits-Alike home 2 m m₁ p s s
        (record {
          statuses = λ x. ground arith;
          routings = λ x. ground arith;
          earliest = refl;
          next = refl;
          at = λ x. refl;
        })
        (submit_to-Submits sch home 2 m₁ p e b free) (same s.0) refl

  pub submit_docsis_sec_enc-Submits :
      (sch : Scheduler) (key_size : ℕ) (home : Option Manager) (m : Mgr O) (p : ℕ)
      → home ≡ some (manager sch)
      → stage (manager sch) ≡ 1
      → at_of c m p ≡ none
      → Submits c home 1 m p (submit_docsis_sec_enc k sch key_size m p)
  unfolding submit_docsis_sec_enc
  submit_docsis_sec_enc-Submits sch key_size home m p e b free =
      let s = submit_to k sch m p in
      both_branches (Submits c home 1 m p) (leb 16 (m.jobs p).msg_len_to_cipher)
        (docsis_last_block k key_size s)
        (direct k sts_completed_aes (first_block_calls key_size (m.jobs p)) m p)
        (λ _.
          Submits-Alike home 1 m m p s (docsis_last_block k key_size s) (same m)
            (submit_to-Submits sch home 1 m p e b free) (docsis_last_block-Alike key_size s)
            (docsis_last_block-returns key_size s))
        (λ _. direct-Submits 1 home (first_block_calls key_size (m.jobs p)) m p)

  pub submit_docsis_sec_crc_enc-Submits :
      (sch : Scheduler) (key_size : ℕ) (home : Option Manager) (m : Mgr O) (p : ℕ)
      → home ≡ some (manager sch)
      → stage (manager sch) ≡ 1
      → at_of c m p ≡ none
      → Submits c home 1 m p (submit_docsis_sec_crc_enc k sch key_size m p)
  unfolding submit_docsis_sec_crc_enc
  submit_docsis_sec_crc_enc-Submits sch key_size home m p e b free =
      let calls = crc_calls (m.jobs p) (
        offset (offset (m.jobs p).src (m.jobs p).hash_start_src_offset)
          (m.jobs p).msg_len_to_hash) in
      let m₁ = record m { world = run_all k calls m.world } in
      let s = submit_docsis_sec_enc k sch key_size m₁ p in
      Submits-Alike home 1 m m₁ p s s (ran calls m)
        (submit_docsis_sec_enc-Submits sch key_size home m₁ p e b
          (run_all-at c calls m.world p ∙ free))
        (same s.0) refl

  pub flush_docsis_sec_enc-Flushes :
      (sch : Scheduler) (key_size : ℕ) (home : Option Manager) (m : Mgr O)
      → home ≡ some (manager sch)
      → stage (manager sch) ≡ 1
      → Flushes c home 1 m (flush_docsis_sec_enc k sch key_size m)
  unfolding flush_docsis_sec_enc
  flush_docsis_sec_enc-Flushes sch key_size home m e b =
      Flushes-Alike home 1 m (flush_from k sch m)
        (docsis_last_block k key_size (flush_from k sch m)) (flush_from-Flushes sch home 1 m e b)
        (docsis_last_block-Alike key_size (flush_from k sch m))
        (docsis_last_block-returns key_size (flush_from k sch m))
