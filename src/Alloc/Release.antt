-- ===== src/Alloc/Release.antt =====
-- About the blocks that a loop of lib/alloc.c allocates and the calls of free_mem for them.
use intel_ipsec_mb.Base.{
  ℕ, suc, ◌≤◌, ◌<◌, Bool, true, false, ◌&&◌, not, ◌==◌, some, List, [], ◌∷◌, update, ◌≡◌, ◌≢◌, refl,
  ap, ◌∙◌, sym, fun_ext, arith, update_self, subst,
}
use native.Mathlib.Decide.{ℕ_discrete}
use intel_ipsec_mb.Alloc.{
  Structure, Ooo, structure, Heap, Memalign, free_mem, free_from, alloc_aligned_mem, alloc_from,
}

-- What posix_memalign documents: the address of a new block is not that of an allocated one.
abbrev pub IsAllocator : Memalign → Type 0
IsAllocator memalign =
    (n : ℕ) (live : ℕ → Bool) (size : ℕ)
    → memalign n live size ≢ 0
    → live (memalign n live size) ≡ false

-- Some addresses left out
abbrev pub without : (ℕ → Bool) → (ℕ → Bool) → ℕ → Bool
without live gone x = live x && not (gone x)

abbrev pub with_live : Heap → (ℕ → Bool) → Heap
with_live heap live = record heap { live = live }

-- The pointers from a place on are null.
abbrev pub AreNull : ℕ → (ℕ → ℕ) → Type 0
AreNull k ooo = (i : ℕ) → k ≤ i → ooo i ≡ 0

free_from_null :
    (os : List Ooo) (k : ℕ) (ooo : ℕ → ℕ) (heap : Heap)
    → AreNull k ooo
    → free_from os k ooo heap ≡ some heap
unfolding free_from free_mem
free_from_null [] k ooo heap h = refl
free_from_null (o ∷ os) k ooo heap h =
    rw (h k (omega arith)) (free_from_null os (suc k) ooo heap (λ i l. h i (omega arith)))

module _ (memalign : Memalign) (sizeof : Structure → ℕ) where
  -- A pointer before the place is not changed.
  pub alloc_from_before :
      (os : List Ooo) (k : ℕ) (ooo : ℕ → ℕ) (heap : Heap) (i : ℕ)
      → i < k
      → (alloc_from memalign sizeof os k ooo heap).1 i ≡ ooo i
  unfolding alloc_from
  alloc_from_before [] k ooo heap i l = refl
  alloc_from_before (o ∷ os) k ooo heap i l =
      let done = alloc_aligned_mem memalign sizeof (structure o) heap in
      let rest = alloc_from_before os (suc k) (update ooo k done.0) done.1 i (omega arith) in
      ground (arith, rest)

  -- What is allocated stays so.
  alloc_from_live :
      (os : List Ooo) (k : ℕ) (ooo : ℕ → ℕ) (heap : Heap) (x : ℕ)
      → heap.live x ≡ true
      → (alloc_from memalign sizeof os k ooo heap).2.live x ≡ true
  unfolding alloc_from alloc_aligned_mem
  alloc_from_live [] k ooo heap x h = h
  alloc_from_live (o ∷ os) k ooo heap x h =
      let done = alloc_aligned_mem memalign sizeof (structure o) heap in
      let kept : done.1.live x ≡ true = ground (arith, h) in
      let rest = alloc_from_live os (suc k) (update ooo k done.0) done.1 x kept in
      ground (arith, kept, rest)

without_next :
    (live gone : ℕ → Bool) (p : ℕ)
    → update (without live gone) p false ≡ without live (update gone p true)
without_next live gone p = fun_ext (λ x. ground arith)

without_new :
    (live gone : ℕ → Bool) (p : ℕ)
    → live p ≡ false
    → without (update live p true) (update gone p true) ≡ without live gone
without_new live gone p h = fun_ext (λ x. elim (ℕ_discrete x p) [
  | yes same ↦
      subst (λ y. without (update live p true) (update gone p true) y ≡ without live gone y)
        (sym same) (ground (arith, h))
  | no other ↦ ground arith
])

-- free_mem of a block that is allocated
pub free_live :
    (p : ℕ) (heap : Heap)
    → p ≢ 0
    → heap.live p ≡ true
    → free_mem p heap ≡ some (with_live heap (update heap.live p false))
unfolding free_mem
free_live p heap ne h = ground (arith, h)

module _ (memalign : Memalign) (sizeof : Structure → ℕ) (o : Ooo) (os : List Ooo) (k : ℕ)
    (ooo : ℕ → ℕ) (heap : Heap) where
  abbrev pub first : ℕ
  first = memalign heap.calls heap.live (sizeof (structure o))

  -- The heap after the first allocation, where it fails and where it does not
  abbrev pub called : Heap
  called = record heap { calls = suc heap.calls }

  abbrev pub grown : Heap
  grown = record called {
    live = update heap.live first true;
    road_block = update heap.road_block first 0;
  }

  pub alloc_from_fail :
      first ≡ 0 → alloc_from memalign sizeof (o ∷ os) k ooo heap ≡ (false, update ooo k 0, called)
  unfolding alloc_from alloc_aligned_mem
  alloc_from_fail h = rw h refl

  pub alloc_from_next :
      first ≢ 0
      → alloc_from memalign sizeof (o ∷ os) k ooo heap
        ≡ alloc_from memalign sizeof os (suc k) (update ooo k first) grown
  unfolding alloc_from alloc_aligned_mem
  alloc_from_next h = let test : (first == 0) ≡ false = ground (arith, h) in rw (test, test) refl

-- The calls of free_mem from the place `k` after a loop, where some addresses have been freed
abbrev Released : List Ooo → ℕ → Heap → (ℕ → Bool) → (ℕ → Bool) → Bool × (ℕ → ℕ) × Heap → Type 0
Released os k other gone live r =
    free_from os k r.1 (with_live other (without r.2.live gone))
    ≡ some (with_live other (without live gone))

-- The call of free_mem for the first pointer
release_first :
    (o : Ooo) (os : List Ooo) (k p : ℕ) (other : Heap) (gone live : ℕ → Bool)
    (r : Bool × (ℕ → ℕ) × Heap)
    → p ≢ 0
    → r.1 k ≡ p
    → r.2.live p ≡ true
    → gone p ≡ false
    → live p ≡ false
    → Released os (suc k) other (update gone p true) (update live p true) r
    → Released (o ∷ os) k other gone live r
unfolding free_from
release_first o os k p other gone live r ne place alive kept new rest =
    let still : without r.2.live gone p ≡ true = ground (arith, alive, kept) in
    rw
      (
        place,
        free_live p (with_live other (without r.2.live gone)) ne still,
        without_next r.2.live gone p,
      )
      (rest ∙ ap (λ l. some (with_live other l)) (without_new live gone p new))

-- The calls of free_mem after the allocations of a loop leave what was allocated before it, also where some of
-- that has been freed meanwhile.
pub free_from-alloc_from :
    (memalign : Memalign) (sizeof : Structure → ℕ) (os : List Ooo) (k : ℕ) (ooo : ℕ → ℕ)
    (heap other : Heap) (gone : ℕ → Bool)
    → IsAllocator memalign
    → AreNull k ooo
    → ((x : ℕ) → gone x ≡ true → heap.live x ≡ true)
    → let (done, ooo', heap') = alloc_from memalign sizeof os k ooo heap in
      free_from os k ooo' (with_live other (without heap'.live gone))
      ≡ some (with_live other (without heap.live gone))
unfolding alloc_from free_from
free_from-alloc_from memalign sizeof [] k ooo heap other gone a null within = refl
free_from-alloc_from memalign sizeof (o ∷ os) k ooo heap other gone a null within =
    let p = first memalign sizeof o os k ooo heap in
    let next = grown memalign sizeof o os k ooo heap in
    elim (ℕ_discrete p 0) [
      | yes failed ↦
          subst (Released (o ∷ os) k other gone heap.live)
            (sym (alloc_from_fail memalign sizeof o os k ooo heap failed))
            (free_from_null (o ∷ os) k (update ooo k 0) (with_live other (without heap.live gone))
              (λ i l. ground (arith, null i l)))
      | no found ↦
          let fresh = a heap.calls heap.live (sizeof (structure o)) found in
          subst (Released (o ∷ os) k other gone heap.live)
            (sym (alloc_from_next memalign sizeof o os k ooo heap found))
            (release_first o os k p other gone heap.live
              (alloc_from memalign sizeof os (suc k) (update ooo k p) next) found
              (alloc_from_before memalign sizeof os (suc k) (update ooo k p) next k (omega arith)
                ∙ update_self ooo k p)
              (alloc_from_live memalign sizeof os (suc k) (update ooo k p) next p
                (update_self heap.live p true))
              (ground (arith, fresh, within p)) fresh
              (free_from-alloc_from memalign sizeof os (suc k) (update ooo k p) next other
                (update gone p true) a (λ i l. ground (arith, null i (omega arith)))
                (λ x h. ground (arith, h, within x))))
    ]
