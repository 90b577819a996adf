-- ===== src/Cpu/Disabled.antt =====
-- About a client that turns AESNI off: cpu_feature_adjust of lib/cpu_feature.c before init_mb_mgr_auto of
-- lib/mb_mgr_auto.c.
use intel_ipsec_mb.Base.{
  ℕ, bit_and, Bool, true, false, ◌==◌, ◌≡◌, ◌⊎◌, refl, ap, ◌∙◌, inl, inr, arith, if◌then◌else◌,
}
use intel_ipsec_mb.Base.Digit.{digit, digit-bit_and}
use intel_ipsec_mb.Auto.{
  Arch, none_detected, noaesni, sse, avx, avx2, avx512, detect, supports, AutoMgr, init_mb_mgr_auto,
}
use intel_ipsec_mb.Cpu.{cpu_feature_adjust}
use intel_ipsec_mb.Cpu.Bits.{digit-cpu_feature_adjust}

-- An instruction set that needs a feature that is missing
unsupported :
    (features : ℕ) (arch : Arch)
    → digit 1 features ≡ 0
    → digit 1 (detect arch) ≡ 1
    → supports features arch ≡ false
unsupported features arch h h' =
    differs (bit_and features (detect arch)) (detect arch)
      (digit-bit_and 1 features (detect arch) ∙ omega (arith, h, h')) h'
  where
    differs : (x y : ℕ) → digit 1 x ≡ 0 → digit 1 y ≡ 1 → (x == y) ≡ false
    differs x y e e' = ground arith

module _ {S : Type 0} (init : Arch → S → S) where
  -- Where the bit 1 of the flags (IMB_FLAG_AESNI_OFF) is set and the features of the manager are those that
  -- cpu_feature_adjust leaves, init_mb_mgr_auto chooses the instruction set without AESNI or none at all,
  -- whatever the processor has.
  pub no_aesni_chosen :
      (state : AutoMgr S) (flags detected : ℕ)
      → digit 1 flags ≡ 1
      → state.features ≡ cpu_feature_adjust flags detected
      → let arch = (init_mb_mgr_auto init state).1 in (arch ≡ noaesni) ⊎ (arch ≡ none_detected)
  unfolding init_mb_mgr_auto
  no_aesni_chosen state flags detected set e =
      let off : digit 1 state.features ≡ 0 =
        ap (digit 1) e
        ∙ (digit-cpu_feature_adjust flags detected 1 (omega arith) ∙ ground (arith, set)) in
      rw
        (
          unsupported state.features avx512 off refl,
          unsupported state.features avx2 off refl,
          unsupported state.features avx off refl,
          unsupported state.features sse off refl,
        )
        (last_choice (supports state.features noaesni) _ _)
    where
      last_choice :
          (found : Bool) (a b : AutoMgr S)
          → let arch =
              (if◌then◌else◌ {A = AutoMgr S × Arch} found (a, noaesni) (b, none_detected)).1 in
            (arch ≡ noaesni) ⊎ (arch ≡ none_detected)
      last_choice true a b = inl refl
      last_choice false a b = inr refl
