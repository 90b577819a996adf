-- ===== src/Mgr/Slots.antt =====
-- One job under the invariant of Mgr.Sound: what a call does not touch, and what it finishes.
use intel_ipsec_mb.Base.{
  ℕ, ◌≤◌, ◌<◌, ◌≡◌, ◌≢◌, ◌⊎◌, inl, inr, refl, sym, ap, ap₂, subst, ◌∙◌, bit_or, Bool, true, false,
  Option, none, some, some_injective, arith,
}
use native.Mathlib.Decide.{ℕ_discrete}
use intel_ipsec_mb.Mgr.Kernels.{Kernels, Manager, stage}
use intel_ipsec_mb.Mgr.State.{Mgr}
use intel_ipsec_mb.Mgr.Steps.{Step}
use intel_ipsec_mb.Mgr.Contract.{Contract}
use intel_ipsec_mb.Mgr.Effect.{Keeps, Gains, status_of, routing_of, at_of}
use intel_ipsec_mb.Mgr.Sound.{home_at, due, IsReady, missing, Slot, waits, in_hand, done, outside}

-- A job that was due for a stage and has its bit is ready, and has less to do.
Gains-IsReady :
    (cipher_first : Bool) (bit s s' : ℕ)
    → (bit ≡ 1) ⊎ (bit ≡ 2)
    → s ≡ due cipher_first bit
    → Gains bit s s'
    → IsReady cipher_first s' × missing s' < missing s
Gains-IsReady true bit s s' (inl b) e g = ground (arith, ap₂ bit_or e b, g)
Gains-IsReady true bit s s' (inr b) e g = ground (arith, ap₂ bit_or e b, g)
Gains-IsReady false bit s s' (inl b) e g = ground (arith, ap₂ bit_or e b, g)
Gains-IsReady false bit s s' (inr b) e g = ground (arith, ap₂ bit_or e b, g)

abbrev pub IsStage : ℕ → Type 0
IsStage bit = (bit ≡ 1) ⊎ (bit ≡ 2)

pub stage-IsStage : (g : Manager) → IsStage (stage g)
stage-IsStage Manager.aes128_ooo = inl refl
stage-IsStage Manager.aes192_ooo = inl refl
stage-IsStage Manager.aes256_ooo = inl refl
stage-IsStage Manager.docsis128_sec_ooo = inl refl
stage-IsStage Manager.docsis128_crc32_sec_ooo = inl refl
stage-IsStage Manager.docsis256_sec_ooo = inl refl
stage-IsStage Manager.docsis256_crc32_sec_ooo = inl refl
stage-IsStage Manager.zuc_eea3_ooo = inl refl
stage-IsStage Manager.aes128_cbcs_ooo = inl refl
stage-IsStage Manager.hmac_sha_1_ooo = inr refl
stage-IsStage Manager.hmac_sha_224_ooo = inr refl
stage-IsStage Manager.hmac_sha_256_ooo = inr refl
stage-IsStage Manager.hmac_sha_384_ooo = inr refl
stage-IsStage Manager.hmac_sha_512_ooo = inr refl
stage-IsStage Manager.hmac_md5_ooo = inr refl
stage-IsStage Manager.aes_xcbc_ooo = inr refl
stage-IsStage Manager.aes_ccm_ooo = inr refl
stage-IsStage Manager.aes_cmac_ooo = inr refl
stage-IsStage Manager.zuc_eia3_ooo = inr refl

module _ {O : Type 0} {k : Kernels O} (c : Contract k) (ring : ℕ → Type 0) where
  -- Of a job that a call does not touch
  pub Slot-same :
      (m m' : Mgr O) (hand hand' : Option ℕ) (x : ℕ)
      → at_of c m' x ≡ at_of c m x
      → status_of m' x ≡ status_of m x
      → routing_of m' x ≡ routing_of m x
      → (hand' ≡ some x → hand ≡ some x)
      → (hand ≡ some x → hand' ≡ some x)
      → Slot c ring m hand x
      → Slot c ring m' hand' x
  Slot-same m m' hand hand' x a s r h h' (waits g at w home d out) =
      waits g (a ∙ at) w (ap (λ t. home_at t (stage g)) r ∙ home)
        (s ∙ d ∙ ap (λ t. due t.cipher_first (stage g)) (sym r)) (λ e. out (h e))
  Slot-same m m' hand hand' x a s r h h' (in_hand at w e) = in_hand (a ∙ at) w (h' e)
  Slot-same m m' hand hand' x a s r h h' (done at w f out) =
      done (a ∙ at) w (ground arith) (λ e. out (h e))
  Slot-same m m' hand hand' x a s r h h' (outside at w out) = outside (a ∙ at) w (λ e. out (h e))

  -- What is known of a job that waits
  pub waiting_lem :
      (m : Mgr O) (hand : Option ℕ) (x : ℕ) (g : Manager)
      → at_of c m x ≡ some g
      → Slot c ring m hand x
      → ring x × (status_of m x ≡ due (routing_of m x).cipher_first (stage g)) × (hand ≢ some x)
  waiting_lem m hand x g e (waits g' at w home d out) = (w, ground arith, out)
  waiting_lem m hand x g e (in_hand at w h) = absurd (ground arith)
  waiting_lem m hand x g e (done at w f out) = absurd (ground arith)
  waiting_lem m hand x g e (outside at w out) = absurd (ground arith)

  pub held_lem : (m : Mgr O) (p : ℕ) → Slot c ring m (some p) p → ring p × (at_of c m p ≡ none)
  held_lem m p (waits g at w home d out) = absurd (out refl)
  held_lem m p (in_hand at w h) = (w, at)
  held_lem m p (done at w f out) = absurd (out refl)
  held_lem m p (outside at w out) = absurd (out refl)

  -- A job that is returned with the bit of the stage it was due for
  pub stage_done :
      (m : Mgr O) (s : Step O) (bit q : ℕ)
      → Keeps m s.0
      → IsStage bit
      → s.1 ≡ some q
      → status_of m q ≡ due (routing_of m q).cipher_first bit
      → Gains bit (status_of m q) (status_of s.0 q)
      → (x : ℕ) → s.1 ≡ some x
      → IsReady (routing_of s.0 x).cipher_first (status_of s.0 x)
        × missing (status_of s.0 x) < missing (status_of m x)
  stage_done m s bit q keeps b e d gain x e' =
      subst
        (λ y.
          IsReady (routing_of s.0 y).cipher_first (status_of s.0 y)
          × missing (status_of s.0 y) < missing (status_of m y))
        (some_injective (sym e ∙ e'))
        (subst
          (λ r.
            IsReady r.cipher_first (status_of s.0 q)
            × missing (status_of s.0 q) < missing (status_of m q))
          (sym (keeps.routings q))
          (Gains-IsReady (routing_of m q).cipher_first bit (status_of m q) (status_of s.0 q) b d
            gain))

  -- The measure of a job is not raised, given that of the returned one.
  pub le_lem :
      (m : Mgr O) (s : Step O) (q : ℕ)
      → ((x : ℕ) → x ≢ q → status_of s.0 x ≡ status_of m x)
      → missing (status_of s.0 q) < missing (status_of m q)
      → (x : ℕ) → missing (status_of s.0 x) ≤ missing (status_of m x)
  le_lem m s q st l x = elim (ℕ_discrete x q) [
    | yes e ↦
        subst (λ y. missing (status_of s.0 y) ≤ missing (status_of m y)) (sym e) (omega (arith, l))
    | no ne ↦ ground (arith, st x ne)
  ]

  -- Of the job that a submit leaves in its home
  pub home_lem :
      (m : Mgr O) (s : Step O) (p bit : ℕ) (g : Manager)
      → Keeps m s.0
      → home_at (routing_of m p) bit ≡ some g
      → stage g ≡ bit
      → at_of c s.0 p ≡ some g
      → ring p
      → status_of s.0 p ≡ due (routing_of m p).cipher_first bit
      → s.1 ≢ some p
      → Slot c ring s.0 s.1 p
  home_lem m s p bit g keeps h sg at inside st out =
      waits g at inside
        (ap (λ r. home_at r (stage g)) (keeps.routings p) ∙ ap (home_at (routing_of m p)) sg ∙ h)
        (st
          ∙ ap (due (routing_of m p).cipher_first) (sym sg)
          ∙ ap (λ r. due r.cipher_first (stage g)) (sym (keeps.routings p)))
        out
