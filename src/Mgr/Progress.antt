-- ===== src/Mgr/Progress.antt =====
-- About one submit and one flush under the invariant of Mgr.Sound.
use intel_ipsec_mb.Base.{
  ℕ, ◌≡◌, inl, sym, subst, update, update_self, update-ne, ◌∙◌, none, some, some_injective, arith,
}
use native.Mathlib.Decide.{ℕ_discrete}
use intel_ipsec_mb.Mgr.Kernels.{Kernels}
use intel_ipsec_mb.Mgr.State.{Mgr}
use intel_ipsec_mb.Mgr.Steps.{Step}
use intel_ipsec_mb.Mgr.Contract.{Contract}
use intel_ipsec_mb.Mgr.Home.{Routing}
use intel_ipsec_mb.Mgr.Effect.{
  status_of, routing_of, at_of, own, queued, swapped, nobody, taken, Submits, Flushes,
}
use intel_ipsec_mb.Mgr.Sound.{home_at, due, Slot, in_hand, Sound, Progress}
use intel_ipsec_mb.Mgr.Slots.{
  IsStage, stage-IsStage, Slot-same, waiting_lem, held_lem, stage_done, le_lem, home_lem,
}

module _ {O : Type 0} {k : Kernels O} (c : Contract k) (ring : ℕ → Type 0) where
  pub flush-Progress :
      (bit : ℕ) (m : Mgr O) (r : Routing) (s : Step O)
      → Sound c ring m none
      → Flushes c (home_at r bit) bit m s
      → Progress c ring m s
  flush-Progress bit m r s sound (keeps, nobody no_one e at st) = record {
    keeps = keeps;
    sound = λ x.
        Slot-same c ring m s.0 none s.1 x (at x) (st x) (keeps.routings x) (λ h. ground arith)
          (λ h. ground arith) (sound x);
    ready = λ q h. absurd (ground arith);
    le = λ x. ground (arith, st x);
    lt = λ q h. absurd (ground arith);
  }
  flush-Progress bit m r s sound (keeps, taken g q h sg e w at st gain) =
      let (inside, d, out) = waiting_lem c ring m none q g w (sound q) in
      let fin =
        stage_done c ring m s bit q keeps (subst IsStage sg (stage-IsStage g)) e
          (subst (λ b. status_of m q ≡ due (routing_of m q).cipher_first b) sg d) (inl gain) in
      record {
        keeps = keeps;
        sound = λ x. elim (ℕ_discrete x q) [
          | yes same ↦
              subst (Slot c ring s.0 s.1) (sym same)
                (in_hand (at q ∙ update_self (at_of c m) q none) inside e)
          | no ne ↦
              Slot-same c ring m s.0 none s.1 x (at x ∙ update-ne (at_of c m) q x none ne) (st x ne)
                (keeps.routings x) (λ h. absurd (ne (some_injective (sym h ∙ e))))
                (λ h. ground arith) (sound x)
        ];
        ready = λ x h. (fin x h).0;
        le = le_lem c ring m s q st (fin q e).1;
        lt = λ x h. (fin x h).1;
      }

  pub submit-Progress :
      (bit : ℕ) (m : Mgr O) (p : ℕ) (s : Step O)
      → IsStage bit
      → Sound c ring m (some p)
      → status_of m p ≡ due (routing_of m p).cipher_first bit
      → Submits c (home_at (routing_of m p) bit) bit m p s
      → Progress c ring m s
  submit-Progress bit m p s b sound d (keeps, own e at st gain) =
      let (inside, free) = held_lem c ring m p (sound p) in
      let fin = stage_done c ring m s bit p keeps b e d gain in
      record {
        keeps = keeps;
        sound = λ x. elim (ℕ_discrete x p) [
          | yes same ↦ subst (Slot c ring s.0 s.1) (sym same) (in_hand (at p ∙ free) inside e)
          | no ne ↦
              Slot-same c ring m s.0 (some p) s.1 x (at x) (st x ne) (keeps.routings x)
                (λ h. sym e ∙ h) (λ h. e ∙ h) (sound x)
        ];
        ready = λ x h. (fin x h).0;
        le = le_lem c ring m s p st (fin p e).1;
        lt = λ x h. (fin x h).1;
      }
  submit-Progress bit m p s b sound d (keeps, queued g h sg e at st) =
      let (inside, free) = held_lem c ring m p (sound p) in
      record {
        keeps = keeps;
        sound = λ x. elim (ℕ_discrete x p) [
          | yes same ↦ subst (Slot c ring s.0 s.1) (sym same) (
              home_lem c ring m s p bit g keeps h sg (at p ∙ update_self (at_of c m) p (some g))
                inside (st p ∙ d) (λ h. absurd (ground arith)))
          | no ne ↦
              Slot-same c ring m s.0 (some p) s.1 x (at x ∙ update-ne (at_of c m) p x (some g) ne)
                (st x) (keeps.routings x) (λ h. absurd (ground arith))
                (λ h. absurd (ne (sym (some_injective h)))) (sound x)
        ];
        ready = λ x h. absurd (ground arith);
        le = λ x. ground (arith, st x);
        lt = λ x h. absurd (ground arith);
      }
  submit-Progress bit m p s b sound d (keeps, swapped g q h sg e ne w at st gain) =
      let (inside, free) = held_lem c ring m p (sound p) in
      let (inside_q, d_q, out) = waiting_lem c ring m (some p) q g w (sound q) in
      let fin =
        stage_done c ring m s bit q keeps b e
          (subst (λ b. status_of m q ≡ due (routing_of m q).cipher_first b) sg d_q) (inl gain) in
      record {
        keeps = keeps;
        sound = λ x. elim (ℕ_discrete x q) [
          | yes same ↦
              subst (Slot c ring s.0 s.1) (sym same)
                (in_hand (at q ∙ update_self (update (at_of c m) p (some g)) q none) inside_q e)
          | no other ↦ elim (ℕ_discrete x p) [
            | yes same ↦ subst (Slot c ring s.0 s.1) (sym same) (
                home_lem c ring m s p bit g keeps h sg
                  (at p
                    ∙ update-ne (update (at_of c m) p (some g)) q p none (λ x. ne (sym x))
                    ∙ update_self (at_of c m) p (some g))
                  inside (st p (λ x. ne (sym x)) ∙ d) (λ h. ne (some_injective (sym e ∙ h))))
            | no other' ↦
                Slot-same c ring m s.0 (some p) s.1 x
                  (at x
                    ∙ update-ne (update (at_of c m) p (some g)) q x none other
                    ∙ update-ne (at_of c m) p x (some g) other')
                  (st x other) (keeps.routings x) (λ h. absurd (other (some_injective (sym h ∙ e))))
                  (λ h. absurd (other' (sym (some_injective h)))) (sound x)
          ]
        ];
        ready = λ x h. (fin x h).0;
        le = le_lem c ring m s q st (fin q e).1;
        lt = λ x h. (fin x h).1;
      }
