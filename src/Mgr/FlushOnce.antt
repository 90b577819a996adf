-- ===== src/Mgr/FlushOnce.antt =====
-- About one round of complete_job of lib/include/mb_mgr_code.h.
use intel_ipsec_mb.Base.{
  ℕ, ◌<◌, ◌≡◌, ◌≢◌, ◌⊎◌, inl, inr, sym, ap, ap₂, subst, ◌∙◌, false, both_branches, bit_and, none,
  some, arith,
}
use intel_ipsec_mb.Job.{is_cipher_hash}
use intel_ipsec_mb.Mgr.Kernels.{Kernels, Manager, stage}
use intel_ipsec_mb.Mgr.State.{Mgr}
use intel_ipsec_mb.Mgr.Steps.{Step}
use intel_ipsec_mb.Mgr.Cipher.{flush_job_aes}
use intel_ipsec_mb.Mgr.Hash.{flush_job_hash}
use intel_ipsec_mb.Mgr.Jobs.{flush_either, flush_once}
use intel_ipsec_mb.Mgr.Contract.{Contract}
use intel_ipsec_mb.Mgr.Home.{is_custom_mode, is_custom_alg, Routing, hash_home}
use intel_ipsec_mb.Mgr.Effect.{Keeps, status_of, routing_of, at_of, nobody, taken, Flushes}
use intel_ipsec_mb.Mgr.Dispatch.{flush_job_aes-Flushes, flush_job_hash-Flushes}
use intel_ipsec_mb.Mgr.Sound.{
  home_at, due, Slot, waits, in_hand, done, outside, Sound, IsUsual, Progress,
}
use intel_ipsec_mb.Mgr.Progress.{flush-Progress}
use intel_ipsec_mb.Mgr.Slots.{stage-IsStage}
use intel_ipsec_mb.Mgr.Resubmit.{usual_lem, Keeps-trans}

other_order : {A B : Type 0} → A ⊎ B → B ⊎ A
other_order (inl a) = inr a
other_order (inr b) = inl b

-- A job that waits for its hash has a home for it.
no_home :
    (r : Routing) (g : Manager) → stage g ≡ 2 → hash_home r ≡ none → home_at r (stage g) ≢ some g
no_home r g sg e home = ground (arith, sym e ∙ sym (ap (home_at r) sg) ∙ home)

-- A job whose hash is first and never waits has its hash done when it waits.
hash_done :
    (r : Routing) (s : ℕ) (g : Manager)
    → r.cipher_first ≡ false
    → home_at r (stage g) ≡ some g
    → s ≡ due r.cipher_first (stage g)
    → hash_home r ≡ none
    → bit_and s 2 ≢ 0
hash_done r s g e home d h z = elim (stage-IsStage g) [
  | inl sg ↦ ground (arith, sym (ap (λ t. bit_and t 2) (d ∙ ap₂ due e sg)) ∙ z)
  | inr sg ↦ no_home r g sg h home
]

module _ {O : Type 0} {k : Kernels O} (c : Contract k) (ring : ℕ → Type 0) where
  Progress-before :
      (m m₁ : Mgr O) (s : Step O)
      → Keeps m m₁
      → ((x : ℕ) → status_of m₁ x ≡ status_of m x)
      → Progress c ring m₁ s
      → Progress c ring m s
  Progress-before m m₁ s keeps st h = record {
    keeps = Keeps-trans m m₁ s.0 keeps h.keeps;
    sound = h.sound;
    ready = h.ready;
    le = λ x. ground (arith, h.le x, st x);
    lt = λ q e. ground (arith, h.lt q e, st q);
  }

  flush_either-none :
      (f g : Mgr O → ℕ → Step O) (m : Mgr O) (p : ℕ)
      → (f m p).1 ≡ none
      → flush_either k f g m p ≡ g (f m p).0 p
  unfolding flush_either
  flush_either-none f g m p e = ground arith

  flush_either-some :
      (f g : Mgr O → ℕ → Step O) (m : Mgr O) (p q : ℕ)
      → (f m p).1 ≡ some q
      → flush_either k f g m p ≡ f m p
  unfolding flush_either
  flush_either-some f g m p q e = ground arith

  -- One round of complete_job takes a job out.
  abbrev pub Took : Mgr O → Step O → Type 0
  Took m s = Progress c ring m s × (q : ℕ) × s.1 ≡ some q

  flushed_Took :
      (bit : ℕ) (m m₁ : Mgr O) (p : ℕ) (s : Step O) (g : Manager)
      → Keeps m m₁
      → ((x : ℕ) → status_of m₁ x ≡ status_of m x)
      → Sound c ring m₁ none
      → at_of c m₁ p ≡ some g
      → home_at (routing_of m₁ p) bit ≡ some g
      → Flushes c (home_at (routing_of m₁ p) bit) bit m₁ s
      → Took m s
  flushed_Took bit m m₁ p s g keeps st sound w home (keeps', nobody no_one e at st') =
      absurd (no_one g home p w)
  flushed_Took bit m m₁ p s g keeps st sound w home (keeps', taken g' q h sg e w' at st' gain) = (
    Progress-before m m₁ s keeps st (
        flush-Progress c ring bit m₁ (routing_of m₁ p) s sound
          (keeps', taken g' q h sg e w' at st' gain)),
    q,
    e,
  )

  flush_either-Took :
      (f f' : Mgr O → ℕ → Step O) (bit bit' : ℕ) (m : Mgr O) (p : ℕ) (g : Manager)
      → Sound c ring m none
      → at_of c m p ≡ some g
      → home_at (routing_of m p) (stage g) ≡ some g
      → (stage g ≡ bit) ⊎ (stage g ≡ bit')
      → Flushes c (home_at (routing_of m p) bit) bit m (f m p)
      → (stage g ≡ bit'
          → (m' : Mgr O) → Keeps m m'
          → status_of m' p ≡ status_of m p
          → Flushes c (home_at (routing_of m' p) bit') bit' m' (f' m' p))
      → Took m (flush_either k f f' m p)
  flush_either-Took f f' bit bit' m p g sound w home s (keeps, taken g' q h sg e w' at st gain) h' =
      subst (Took m) (sym (flush_either-some f f' m p q e)) (
        flush-Progress c ring bit m (routing_of m p) (f m p) sound
            (keeps, taken g' q h sg e w' at st gain),
        q,
        e,
      )
  flush_either-Took f f' bit bit' m p g sound w home (inl sg) (keeps, nobody no_one e at st) h' =
      absurd (no_one g (ap (home_at (routing_of m p)) (sym sg) ∙ home) p w)
  flush_either-Took f f' bit bit' m p g sound w home (inr sg) (keeps, nobody no_one e at st) h' =
      let m₁ = (f m p).0 in
      subst (Took m) (sym (flush_either-none f f' m p e)) (
        flushed_Took bit' m m₁ p (f' m₁ p) g keeps st
          (subst (Sound c ring m₁) e
            (flush-Progress c ring bit m (routing_of m p) (f m p) sound
              (keeps, nobody no_one e at st)).sound)
          (at p ∙ w)
          (ap (λ r. home_at r bit') (keeps.routings p)
            ∙ ap (home_at (routing_of m p)) (sym sg)
            ∙ home)
          (h' sg m₁ keeps (st p)))

  -- A job of the ring that is not finished waits.
  unfinished_lem :
      (m : Mgr O) (p : ℕ)
      → Slot c ring m none p
      → ring p
      → status_of m p < 3
      → (g : Manager) × (at_of c m p ≡ some g)
        × (home_at (routing_of m p) (stage g) ≡ some g)
        × (status_of m p ≡ due (routing_of m p).cipher_first (stage g))
  unfinished_lem m p (waits g at w home d out) inside l = (g, at, home, d)
  unfinished_lem m p (in_hand at w e) inside l = absurd (ground arith)
  unfinished_lem m p (done at w f out) inside l = absurd (omega arith)
  unfinished_lem m p (outside at w out) inside l = absurd (w inside)

  pub flush_once-Took :
      (m : Mgr O) (p : ℕ)
      → IsUsual ring m
      → Sound c ring m none
      → ring p
      → status_of m p < 3
      → Took m (flush_once k m p)
  unfolding flush_once
  flush_once-Took m p usual sound inside l =
      let (mode_ok, alg_ok) = usual_lem (routing_of m p) (usual p inside) in
      let (g, w, home, d) = unfinished_lem m p (sound p) inside l in
      both_branches (Took m) (is_cipher_hash (m.jobs p).chain_order)
        (flush_either k (flush_job_aes k) (flush_job_hash k) m p)
        (flush_either k (flush_job_hash k) (flush_job_aes k) m p)
        (λ e.
          flush_either-Took (flush_job_aes k) (flush_job_hash k) 1 2 m p g sound w home
            (stage-IsStage g) (flush_job_aes-Flushes c m p mode_ok)
            (λ sg m' keeps st.
              flush_job_hash-Flushes c m' p
                (ap (λ r. is_custom_alg r.alg) (keeps.routings p) ∙ alg_ok)
                (λ e'. absurd (
                  no_home (routing_of m p) g sg (sym (ap hash_home (keeps.routings p)) ∙ e')
                    home))))
        (λ e.
          flush_either-Took (flush_job_hash k) (flush_job_aes k) 2 1 m p g sound w home
            (other_order (stage-IsStage g))
            (flush_job_hash-Flushes c m p alg_ok
              (hash_done (routing_of m p) (status_of m p) g e home d))
            (λ sg m' keeps st.
              flush_job_aes-Flushes c m' p
                (ap (λ r. is_custom_mode r.mode) (keeps.routings p) ∙ mode_ok)))
