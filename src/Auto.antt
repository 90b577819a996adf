-- ===== src/Auto.antt =====
-- The choice of an instruction set: init_mb_mgr_auto of lib/mb_mgr_auto.c. The functions that initialize the
-- manager for an instruction set are parameters.
use intel_ipsec_mb.Base.{ℕ, Bool, ◌+◌, ◌^◌, ◌==◌, bit_and, if◌then◌else◌}
use intel_ipsec_mb.Errno
pub mod Best
mod Tests

-- IMB_ARCH
pub data Arch : Type 0 where
  none_detected noaesni sse avx avx2 avx512 : Arch

-- The features that an instruction set needs, with the bits of IMB_FEATURE_x of lib/intel-ipsec-mb.h
abbrev pub detect : Arch → ℕ
detect none_detected = 0
detect noaesni = 2 ^ 4 + 2 ^ 3
detect sse = 2 ^ 4 + 2 ^ 3 + 2 ^ 1 + 2 ^ 2
detect avx = 2 ^ 5 + 2 ^ 3 + 2 ^ 1
detect avx2 = 2 ^ 6 + 2 ^ 5 + 2 ^ 3 + 2 ^ 1
detect avx512 = 2 ^ 7 + 2 ^ 8 + 2 ^ 9 + 2 ^ 10 + 2 ^ 11 + 2 ^ 6 + 2 ^ 5 + 2 ^ 3 + 2 ^ 1

-- (state->features & detect) == detect
abbrev pub supports : ℕ → Arch → Bool
supports features arch = bit_and features (detect arch) == detect arch

-- A manager, with what initializes the rest of it
pub record AutoMgr (S : Type 0) : Type 0 where
  pub features : ℕ
  pub errno : Errno.Status
  pub rest : S

module _ {S : Type 0} (init : Arch → S → S) where
  -- init_mb_mgr_auto, with the value written to `*arch`
  unfoldable pub init_mb_mgr_auto : AutoMgr S → AutoMgr S × Arch
  init_mb_mgr_auto state =
      let cleared = record state { errno = Errno.set_errno state.errno 0 } in
      if supports state.features avx512
      then (record cleared { rest = init avx512 state.rest }, avx512)
      else if supports state.features avx2
      then (record cleared { rest = init avx2 state.rest }, avx2)
      else if supports state.features avx
      then (record cleared { rest = init avx state.rest }, avx)
      else if supports state.features sse
      then (record cleared { rest = init sse state.rest }, sse)
      else if supports state.features noaesni
      then (record cleared { rest = init noaesni state.rest }, noaesni)
      else (record cleared { errno = Errno.set_errno cleared.errno Errno.enodev }, none_detected)
