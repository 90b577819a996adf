-- ===== src/Auto/Best.antt =====
-- What init_mb_mgr_auto of lib/mb_mgr_auto.c chooses.
use intel_ipsec_mb.Base.{ℕ, ◌≤◌, ◌≡◌, true, arith}
use intel_ipsec_mb.Errno.{get_errno, set_errno, enodev}
use intel_ipsec_mb.Auto.{
  Arch, none_detected, noaesni, sse, avx, avx2, avx512, supports, AutoMgr, init_mb_mgr_auto,
}

-- The order of preference
abbrev pub rank : Arch → ℕ
rank none_detected = 0
rank noaesni = 1
rank sse = 2
rank avx = 3
rank avx2 = 4
rank avx512 = 5

-- The error number that is reported
abbrev pub errno_for : Arch → ℕ
errno_for none_detected = enodev
errno_for _ = 0

abbrev pub init_for : {S : Type 0} → (Arch → S → S) → Arch → S → S
init_for init none_detected s = s
init_for init arch s = init arch s

module _ {S : Type 0} (init : Arch → S → S) where
  -- init_mb_mgr_auto chooses an instruction set that the processor supports, of the highest rank among
  -- those, initializes the manager for it, and reports no error; if none is supported it leaves the manager
  -- as it is and reports ENODEV.
  pub init_mb_mgr_auto-best :
      (state : AutoMgr S) (other : Arch)
      → supports state.features other ≡ true
      → let (state', arch) = init_mb_mgr_auto init state in
        (supports state.features arch ≡ true)
        × (rank other ≤ rank arch)
        × (state'.rest ≡ init_for init arch state.rest)
        × (get_errno state'.errno ≡ errno_for arch)
  unfolding init_mb_mgr_auto get_errno set_errno
  init_mb_mgr_auto-best state avx512 h = ground arith
  init_mb_mgr_auto-best state avx2 h = ground arith
  init_mb_mgr_auto-best state avx h = ground arith
  init_mb_mgr_auto-best state sse h = ground arith
  init_mb_mgr_auto-best state noaesni h = ground arith
  init_mb_mgr_auto-best state none_detected h = ground arith
