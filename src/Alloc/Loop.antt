-- ===== src/Alloc/Loop.antt =====
-- About the loops of lib/alloc.c: the road blocks, and the addresses that the allocations give.
use intel_ipsec_mb.Base.{
  ℕ, suc, ◌+◌, ◌≤◌, ◌<◌, true, false, List, [], ◌∷◌, update, ◌≡◌, ◌≢◌, refl, ap, ◌∙◌, sym, arith,
  update_self, subst, length,
}
use native.Mathlib.Decide.{ℕ_discrete}
use intel_ipsec_mb.Alloc.{
  Structure, Ooo, structure, Heap, Memalign, ooo_road_block, set_ooo_mgr_road_block,
  alloc_aligned_mem, alloc_from,
}
use intel_ipsec_mb.Alloc.Release.{alloc_from_before, alloc_from_fail, alloc_from_next, first, grown}

-- set_ooo_mgr_road_block changes nothing but the road blocks.
pub road_block_rest :
    (os : List Ooo) (k : ℕ) (ooo : ℕ → ℕ) (heap : Heap)
    → ((set_ooo_mgr_road_block os k ooo heap).live ≡ heap.live)
      × ((set_ooo_mgr_road_block os k ooo heap).imb_errno ≡ heap.imb_errno)
unfolding set_ooo_mgr_road_block
road_block_rest [] k ooo heap = (refl, refl)
road_block_rest (o ∷ os) k ooo heap =
    road_block_rest os (suc k) ooo
      (record heap { road_block = update heap.road_block (ooo k) ooo_road_block })

road_block_kept :
    (os : List Ooo) (k : ℕ) (ooo : ℕ → ℕ) (heap : Heap) (x : ℕ)
    → heap.road_block x ≡ ooo_road_block
    → (set_ooo_mgr_road_block os k ooo heap).road_block x ≡ ooo_road_block
unfolding set_ooo_mgr_road_block
road_block_kept [] k ooo heap x h = h
road_block_kept (o ∷ os) k ooo heap x h =
    road_block_kept os (suc k) ooo
      (record heap { road_block = update heap.road_block (ooo k) ooo_road_block }) x
      (ground (arith, h))

pub road_block_set :
    (os : List Ooo) (k : ℕ) (ooo : ℕ → ℕ) (heap : Heap) (i : ℕ)
    → k ≤ i
    → i < k + length os
    → (set_ooo_mgr_road_block os k ooo heap).road_block (ooo i) ≡ ooo_road_block
unfolding set_ooo_mgr_road_block
road_block_set [] k ooo heap i l l' = absurd (omega arith)
road_block_set (o ∷ os) k ooo heap i l l' =
    let next : Heap = record heap { road_block = update heap.road_block (ooo k) ooo_road_block } in
    elim (ℕ_discrete k i) [
      | yes same ↦ road_block_kept os (suc k) ooo next (ooo i) (
          subst (λ j. next.road_block (ooo j) ≡ ooo_road_block) same
            (update_self heap.road_block (ooo k) ooo_road_block))
      | no other ↦ road_block_set os (suc k) ooo next i (omega arith) (omega arith)
    ]

module _ (memalign : Memalign) (sizeof : Structure → ℕ) where
  pub alloc_from_errno :
      (os : List Ooo) (k : ℕ) (ooo : ℕ → ℕ) (heap : Heap)
      → (alloc_from memalign sizeof os k ooo heap).2.imb_errno ≡ heap.imb_errno
  unfolding alloc_from alloc_aligned_mem
  alloc_from_errno [] k ooo heap = refl
  alloc_from_errno (o ∷ os) k ooo heap =
      let done = alloc_aligned_mem memalign sizeof (structure o) heap in
      let rest = alloc_from_errno os (suc k) (update ooo k done.0) done.1 in ground (arith, rest)

  -- A loop that is not cut short gives addresses that are not null.
  pub alloc_from_done :
      (os : List Ooo) (k : ℕ) (ooo : ℕ → ℕ) (heap : Heap) (i : ℕ)
      → (alloc_from memalign sizeof os k ooo heap).0 ≡ true
      → k ≤ i
      → i < k + length os
      → (alloc_from memalign sizeof os k ooo heap).1 i ≢ 0
  alloc_from_done [] k ooo heap i h l l' = absurd (omega arith)
  alloc_from_done (o ∷ os) k ooo heap i h l l' =
      let p = first memalign sizeof o os k ooo heap in
      let next = grown memalign sizeof o os k ooo heap in
      elim (ℕ_discrete p 0) [
        | yes failed ↦ absurd (
            cut_short
              (ap (λ r. r.0) (sym (alloc_from_fail memalign sizeof o os k ooo heap failed)) ∙ h))
        | no found ↦
            let same = alloc_from_next memalign sizeof o os k ooo heap found in
            λ null. elim (ℕ_discrete k i) [
              | yes here ↦ found (
                  sym (update_self ooo k p)
                  ∙ (sym (
                        alloc_from_before memalign sizeof os (suc k) (update ooo k p) next k
                          (omega arith))
                      ∙ (ap (λ r. r.1 k) (sym same)
                          ∙ (ap (alloc_from memalign sizeof (o ∷ os) k ooo heap).1 here ∙ null))))
              | no other ↦
                  alloc_from_done os (suc k) (update ooo k p) next i (ap (λ r. r.0) (sym same) ∙ h)
                    (omega arith) (omega arith) (ap (λ r. r.1 i) (sym same) ∙ null)
            ]
      ]
    where
      cut_short : false ≡ true → ⊥
      cut_short e = ground (arith, e)
