-- ===== src/Mgr/Enter.antt =====
-- The invariant of Mgr.Sound where a job enters the ring and where the oldest one leaves it.
use intel_ipsec_mb.Base.{
  ℕ, suc, ◌+◌, ◌*◌, ◌%◌, ◌≤◌, ◌<◌, ◌≡◌, ◌≢◌, inl, inr, refl, sym, ap, ◌∙◌, subst, Option, none,
  some, some_injective, arith,
}
use native.Mathlib.Decide.{ℕ_discrete}
use intel_ipsec_mb.Mgr.Kernels.{Kernels}
use intel_ipsec_mb.Mgr.State.{Mgr, sizeof_job, max_jobs}
use intel_ipsec_mb.Mgr.Contract.{Contract}
use intel_ipsec_mb.Mgr.Home.{routing}
use intel_ipsec_mb.Mgr.Effect.{status_of, at_of}
use intel_ipsec_mb.Mgr.Sound.{Slot, waits, in_hand, done, outside, Sound, IsAligned}
use intel_ipsec_mb.Mgr.Slots.{Slot-same}
use intel_ipsec_mb.Mgr.Ring.{
  Within, next_slot, slot_at, next_free, oldest_gone, Within-push, Within-pop, Within-tail,
  Within-init, Within-last,
}

pub Within-IsAligned : (i n : ℕ) → IsAligned (Within i n)
Within-IsAligned i n x (j, l, e) = ((i + j) % max_jobs, e, omega arith)

module _ {O : Type 0} {k : Kernels O} (c : Contract k) where
  Slot-ring :
      (ring ring' : ℕ → Type 0) (m : Mgr O) (hand : Option ℕ) (x : ℕ)
      → (ring x → ring' x)
      → (ring' x → ring x)
      → Slot c ring m hand x
      → Slot c ring' m hand x
  Slot-ring ring ring' m hand x f f' (waits g at w home d out) = waits g at (f w) home d out
  Slot-ring ring ring' m hand x f f' (in_hand at w e) = in_hand at (f w) e
  Slot-ring ring ring' m hand x f f' (done at w fin out) = done at (f w) fin out
  Slot-ring ring ring' m hand x f f' (outside at w out) = outside at (λ r. w (f' r)) out

  -- A job outside the ring waits nowhere.
  pub free_lem :
      (ring : ℕ → Type 0) (m : Mgr O) (x : ℕ)
      → (ring x → ⊥)
      → Slot c ring m none x
      → at_of c m x ≡ none
  free_lem ring m x out (waits g at w home d h) = absurd (out w)
  free_lem ring m x out (in_hand at w e) = at
  free_lem ring m x out (done at w fin h) = at
  free_lem ring m x out (outside at w h) = at

  -- The next slot enters the ring; its job may have been written before.
  pub enter :
      (i n : ℕ) (m m' : Mgr O)
      → n < max_jobs
      → Sound c (Within i n) m none
      → ((x : ℕ) → at_of c m' x ≡ at_of c m x)
      → ((x : ℕ) → x ≢ slot_at i n → m'.jobs x ≡ m.jobs x)
      → Sound c (Within i (suc n)) m' (some (slot_at i n))
  enter i n m m' l sound at same x = elim (ℕ_discrete x (slot_at i n)) [
    | yes e ↦ subst (Slot c (Within i (suc n)) m' (some (slot_at i n))) (sym e) (
        in_hand
          (at (slot_at i n)
            ∙ free_lem (Within i n) m (slot_at i n) (next_free i n l) (sound (slot_at i n)))
          (Within-last i n) refl)
    | no ne ↦
        Slot-ring (Within i n) (Within i (suc n)) m' (some (slot_at i n)) x (Within-init i n x)
          (λ w. elim (Within-push i n x w) [ inl w' ↦ w' | inr e ↦ absurd (ne e) ])
          (Slot-same c (Within i n) m m' none (some (slot_at i n)) x (at x)
            (ap (λ j. j.status) (same x ne)) (ap routing (same x ne))
            (λ h. absurd (ne (sym (some_injective h)))) (λ h. absurd (ground arith)) (sound x))
  ]

  finished_lem :
      (ring : ℕ → Type 0) (m : Mgr O) (x : ℕ)
      → 3 ≤ status_of m x
      → Slot c ring m none x
      → at_of c m x ≡ none
  finished_lem ring m x f (waits g at w home d h) = absurd (ground arith)
  finished_lem ring m x f (in_hand at w e) = at
  finished_lem ring m x f (done at w fin h) = at
  finished_lem ring m x f (outside at w h) = at

  -- The oldest job leaves the ring when it is finished.
  pub leave :
      (i n : ℕ) (m : Mgr O)
      → i < max_jobs
      → n < max_jobs
      → Sound c (Within i (suc n)) m none
      → 3 ≤ status_of m (sizeof_job * i)
      → Sound c (Within (next_slot i) n) m none
  leave i n m li l sound f x = elim (ℕ_discrete x (sizeof_job * i)) [
    | yes e ↦ subst (Slot c (Within (next_slot i) n) m none) (sym e) (
        outside (finished_lem (Within i (suc n)) m (sizeof_job * i) f (sound (sizeof_job * i)))
          (oldest_gone i n li l) (λ h. ground arith))
    | no ne ↦
        Slot-ring (Within i (suc n)) (Within (next_slot i) n) m none x
          (λ w. elim (Within-pop i n x li w) [ inl e ↦ absurd (ne e) | inr w' ↦ w' ])
          (Within-tail i n x) (sound x)
  ]

  -- A finished job of the ring is put down.
  pub Sound-same :
      (ring : ℕ → Type 0) (m m' : Mgr O)
      → ((x : ℕ) → at_of c m' x ≡ at_of c m x)
      → ((x : ℕ) → m'.jobs x ≡ m.jobs x)
      → Sound c ring m none
      → Sound c ring m' none
  Sound-same ring m m' at same sound x =
      Slot-same c ring m m' none none x (at x) (ap (λ j. j.status) (same x)) (ap routing (same x))
        (λ h. h) (λ h. h) (sound x)
