-- ===== src/Auto/Tests.antt =====
-- The choice of an instruction set on a concrete processor.
use intel_ipsec_mb.Base.{ℕ, ◌≤◌, ◌≡◌, refl, true, some}
use intel_ipsec_mb.Errno.{get_errno}
use intel_ipsec_mb.Auto.{sse, supports, AutoMgr, init_mb_mgr_auto}
use intel_ipsec_mb.Auto.Best.{rank, errno_for, init_for, init_mb_mgr_auto-best}

-- A processor with everything up to AVX2, and a manager that notes how it was initialized
abbrev haswell : AutoMgr ℕ
haswell = record {
  features = 126;
  errno = record { mgr_errno = some 5; global_errno = 0 };
  rest = 9;
}

init_mb_mgr_auto-best_example :
    let (state', arch) = init_mb_mgr_auto (λ a s. rank a) haswell in
    (supports haswell.features arch ≡ true)
    × (rank sse ≤ rank arch)
    × (state'.rest ≡ init_for (λ a s. rank a) arch haswell.rest)
    × (get_errno state'.errno ≡ errno_for arch)
init_mb_mgr_auto-best_example = init_mb_mgr_auto-best (λ a s. rank a) haswell sse refl
