-- ===== src/Alloc/Tests.antt =====
-- The allocation of a manager on a concrete heap.
use intel_ipsec_mb.Base.{
  ℕ, ◌+◌, ◌*◌, Bool, true, false, ◌≡◌, ◌≢◌, refl, Option, some, ltb, ◌&&◌, if◌then◌else◌, not,
}
use intel_ipsec_mb.Alloc.{Heap, MbMgr, Memalign, alloc_mb_mgr}
use intel_ipsec_mb.Alloc.Release.{IsAllocator}
use intel_ipsec_mb.Alloc.Result.{IsOutcome, alloc_mb_mgr-IsOutcome}

-- An allocator that takes the next address where that is free, for its first 40 calls
abbrev next_address : Memalign
next_address n live size = if ltb n 40 && not (live (4096 + n * 64)) then 4096 + n * 64 else 0

next_address-IsAllocator : IsAllocator next_address
next_address-IsAllocator n live size = taken (ltb n 40) (4096 + n * 64) (live (4096 + n * 64)) refl
  where
    taken :
        (ok : Bool) (q : ℕ) (l : Bool)
        → live q ≡ l
        → (if ok && not l then q else 0) ≢ 0
        → live (if ok && not l then q else 0) ≡ false
    taken true q false e ne = e
    taken true q true e ne = absurd (ne refl)
    taken false q l e ne = absurd (ne refl)

abbrev empty : Heap
empty = record { live = λ x. false; road_block = λ x. 0; calls = 0; imb_errno = 5 }

alloc_mb_mgr-IsOutcome_example :
    (result : Option MbMgr × Heap) × (alloc_mb_mgr next_address (λ s. 64) 127 2 empty ≡ some result)
    × IsOutcome empty 127 2 result
alloc_mb_mgr-IsOutcome_example =
    alloc_mb_mgr-IsOutcome next_address (λ s. 64) 127 2 empty next_address-IsAllocator
