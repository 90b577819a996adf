-- ===== src/Alloc/Result.antt =====
-- About alloc_mb_mgr and free_mb_mgr of lib/alloc.c.
use intel_ipsec_mb.Base.{
  ℕ, suc, ◌<◌, Bool, true, false, ◌==◌, if◌then◌else◌, Option, none, some, update, ◌≡◌, ◌≢◌, refl,
  ap, ◌∙◌, sym, fun_ext, arith, update_self, Bool-cases, inl, inr, subst,
}
use native.Mathlib.Decide.{ℕ_discrete}
use intel_ipsec_mb.Cpu.{cpu_feature_adjust}
use intel_ipsec_mb.Alloc.{
  Structure, imb_mgr, order, Heap, MbMgr, Memalign, enomem, ooo_road_block, free_mem, free_from,
  free_mb_mgr, set_ooo_mgr_road_block, alloc_aligned_mem, alloc_from, alloc_mb_mgr, ◌>>=◌,
}
use intel_ipsec_mb.Alloc.Release.{IsAllocator, without, with_live, free_live, free_from-alloc_from}
use intel_ipsec_mb.Alloc.Loop.{road_block_rest, road_block_set, alloc_from_errno, alloc_from_done}

without_none : (live : ℕ → Bool) → without live (λ x. false) ≡ live
without_none live = fun_ext (λ x. ground arith)

-- The calls of free_mem for all pointers, when none has been freed
all_freed :
    (memalign : Memalign) (sizeof : Structure → ℕ) (heap other : Heap)
    → IsAllocator memalign
    → let (done, ooo, heap') = alloc_from memalign sizeof order 0 (λ k. 0) heap in
      other.live ≡ heap'.live → free_from order 0 ooo other ≡ some (with_live other heap.live)
all_freed memalign sizeof heap other a e =
    let r = alloc_from memalign sizeof order 0 (λ k. 0) heap in
    let freed =
      free_from-alloc_from memalign sizeof order 0 (λ k. 0) heap other (λ x. false) a (λ i l. refl)
        (λ x h. ground (arith, h)) in
    ap (λ live. free_from order 0 r.1 (with_live other live)) (e ∙ sym (without_none r.2.live))
    ∙ (freed ∙ ap (λ live. some (with_live other live)) (without_none heap.live))

freed_again :
    (live : ℕ → Bool) (p : ℕ) → live p ≡ false → update (update live p true) p false ≡ live
freed_again live p h = fun_ext (λ x. elim (ℕ_discrete x p) [
  | yes same ↦
      subst (λ y. update (update live p true) p false y ≡ live y) (sym same) (ground (arith, h))
  | no other ↦ ground arith
])

-- What alloc_mb_mgr promises, where it returns NULL and where it does not
abbrev pub IsOutcome : Heap → ℕ → ℕ → Option MbMgr × Heap → Type 0
IsOutcome heap detected flags (none, after) = (after.live ≡ heap.live) × (after.imb_errno ≡ enomem)
IsOutcome heap detected flags (some mgr, after) =
    (mgr.address ≢ 0)
    × ((i : ℕ) → i < 25 → (mgr.ooo i ≢ 0) × (after.road_block (mgr.ooo i) ≡ ooo_road_block))
    × (mgr.features ≡ cpu_feature_adjust flags detected)
    × (mgr.errno ≡ 0)
    × (after.imb_errno ≡ 0)
    × ((freed : Heap) × (free_mb_mgr mgr after ≡ some freed) × (freed.live ≡ heap.live))

module _ (memalign : Memalign) (sizeof : Structure → ℕ) (detected flags : ℕ) (heap : Heap) where
  abbrev p : ℕ
  p = memalign heap.calls heap.live (sizeof imb_mgr)

  -- The heap with the IMB_MGR, and the allocations after it
  abbrev heap1 : Heap
  heap1 = record {
    live = update heap.live p true;
    road_block = update heap.road_block p 0;
    calls = suc heap.calls;
    imb_errno = 0;
  }

  abbrev loop : Bool × (ℕ → ℕ) × Heap
  loop = alloc_from memalign sizeof order 0 (λ k. 0) heap1

  abbrev made : MbMgr
  made = record {
    address = p;
    errno = 0;
    flags = flags;
    features = cpu_feature_adjust flags detected;
    ooo = loop.1;
  }

  abbrev finish : Bool → Option (Option MbMgr × Heap)
  finish done =
      if◌then◌else◌ {A = Option (Option MbMgr × Heap)} done
        (some (some made, set_ooo_mgr_road_block order 0 loop.1 loop.2))
        (free_from order 0 loop.1 (record loop.2 { imb_errno = enomem }) >>= λ heap3.
          (free_mem p heap3 >>= λ heap4. some (none, heap4)))

  no_manager :
      p ≡ 0
      → alloc_mb_mgr memalign sizeof detected flags heap
        ≡ some (none, record heap { calls = suc heap.calls; imb_errno = enomem })
  unfolding alloc_mb_mgr alloc_aligned_mem
  no_manager h = rw h refl

  with_manager : p ≢ 0 → alloc_mb_mgr memalign sizeof detected flags heap ≡ finish loop.0
  unfolding alloc_mb_mgr alloc_aligned_mem
  with_manager h = let test : (p == 0) ≡ false = ground (arith, h) in rw (test, test) refl

  -- The IMB_MGR is still allocated at the end of the loop.
  free_manager :
      (other : Heap)
      → IsAllocator memalign
      → p ≢ 0
      → other.live ≡ heap1.live
      → (freed : Heap) × (free_mem p other ≡ some freed)
        × (freed.live ≡ heap.live)
        × (freed.imb_errno ≡ other.imb_errno)
  free_manager other a found e = (
    with_live other (update other.live p false),
    free_live p other found (ap (λ l. l p) e ∙ update_self heap.live p true),
    ap (λ l. update l p false) e
        ∙ freed_again heap.live p (a heap.calls heap.live (sizeof imb_mgr) found),
    refl,
  )

  cut_short :
      IsAllocator memalign
      → p ≢ 0
      → loop.0 ≡ false
      → (result : Option MbMgr × Heap) × (alloc_mb_mgr memalign sizeof detected flags heap
          ≡ some result)
        × IsOutcome heap detected flags result
  cut_short a found cut =
      let failed : Heap = record loop.2 { imb_errno = enomem } in
      let all = all_freed memalign sizeof heap1 failed a refl in
      let last = free_manager (with_live failed heap1.live) a found refl in
      (
        (none, last.0),
        with_manager found
            ∙ (ap finish cut
                ∙ (ap (λ o. o >>= λ heap3. (free_mem p heap3 >>= λ heap4. some (none, heap4))) all
                    ∙ ap (λ o. o >>= λ heap4. some (none, heap4)) last.1)),
        (last.2, last.3),
      )

  complete :
      IsAllocator memalign
      → p ≢ 0
      → loop.0 ≡ true
      → (result : Option MbMgr × Heap) × (alloc_mb_mgr memalign sizeof detected flags heap
          ≡ some result)
        × IsOutcome heap detected flags result
  unfolding free_mb_mgr
  complete a found done =
      let after : Heap = set_ooo_mgr_road_block order 0 loop.1 loop.2 in
      let rest = road_block_rest order 0 loop.1 loop.2 in
      let all = all_freed memalign sizeof heap1 after a rest.0 in
      let last = free_manager (with_live after heap1.live) a found refl in
      (
        (some made, after),
        with_manager found ∙ ap finish done,
        (
          found,
          (λ i l. (
            alloc_from_done memalign sizeof order 0 (λ k. 0) heap1 i done (omega arith) l,
            road_block_set order 0 loop.1 loop.2 i (omega arith) l,
          )),
          refl,
          refl,
          rest.1 ∙ alloc_from_errno memalign sizeof order 0 (λ k. 0) heap1,
          (last.0, ap (λ o. o >>= free_mem p) all ∙ last.1, last.2),
        ),
      )

-- Where posix_memalign gives addresses of new blocks, alloc_mb_mgr frees nothing that is not allocated, and
-- either returns NULL with ENOMEM in the global error status and nothing left allocated, or a manager without
-- error that has its address, 25 pointers that are not null to blocks with the road block at their ends, and
-- the adjusted features, for which free_mb_mgr frees exactly what was allocated.
pub alloc_mb_mgr-IsOutcome :
    (memalign : Memalign) (sizeof : Structure → ℕ) (detected flags : ℕ) (heap : Heap)
    → IsAllocator memalign
    → (result : Option MbMgr × Heap) × (alloc_mb_mgr memalign sizeof detected flags heap
        ≡ some result)
      × IsOutcome heap detected flags result
alloc_mb_mgr-IsOutcome memalign sizeof detected flags heap a =
    let p = p memalign sizeof detected flags heap in
    elim (ℕ_discrete p 0) [
      | yes failed ↦ (_, no_manager memalign sizeof detected flags heap failed, (refl, refl))
      | no found ↦ elim (Bool-cases (loop memalign sizeof detected flags heap).0) [
        | inl done ↦ complete memalign sizeof detected flags heap a found done
        | inr cut ↦ cut_short memalign sizeof detected flags heap a found cut
      ]
    ]
