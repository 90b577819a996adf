-- ===== src/Des/Chaining.antt =====
-- About the loop over the blocks of a buffer, whose output is apart from the input or not after it.
use intel_ipsec_mb.Base.{
  ℕ, zero, suc, ◌+◌, ◌*◌, ◌^◌, ◌≤◌, ◌<◌, ◌⊎◌, inl, ◌≡◌, refl, ap₂, ap, ◌∙◌, List, [], ◌∷◌, arith,
}
use intel_ipsec_mb.Base.Memory.{
  Memory, load, store, load-store, load-lt, AreBytes, store-AreBytes, load_ext, store_outside,
  IsOutside,
}
use intel_ipsec_mb.Des.Modes.{Body, each_block}

-- The blocks from an address
unfoldable pub blocks : Memory → ℕ → ℕ → List ℕ
blocks mem a zero = []
blocks mem a (suc n) = load mem a 8 ∷ blocks mem (a + 8) n

-- A loop's outputs from a list of inputs
unfoldable pub run : Body → ℕ → List ℕ → List ℕ
run body iv [] = []
run body iv (x ∷ xs) = (body iv x).0 ∷ run body (body iv x).1 xs

-- No write to the `n` bytes from `dst` reaches what is still to be read of those from `src`.
abbrev pub AreClear : ℕ → ℕ → ℕ → Type 0
AreClear src dst n = (dst ≤ src) ⊎ (src + n ≤ dst)

-- A body that makes 64-bit blocks of 64-bit blocks
abbrev pub KeepsBlocks : Body → Type 0
KeepsBlocks body =
    (iv x : ℕ) → iv < 2 ^ 64 → x < 2 ^ 64 → ((body iv x).0 < 2 ^ 64) × ((body iv x).1 < 2 ^ 64)

pub block-lt : (mem : Memory) (a : ℕ) → AreBytes mem → load mem a 8 < 2 ^ 64
block-lt mem a h = load-lt mem a 8 h

pub each_block-AreBytes :
    (body : Body) (n : ℕ) (mem : Memory) (src dst iv : ℕ)
    → AreBytes mem
    → AreBytes (each_block body n mem src dst iv)
unfolding each_block
each_block-AreBytes body zero mem src dst iv h = h
each_block-AreBytes body (suc n) mem src dst iv h =
    let done = body iv (load mem src 8) in
    each_block-AreBytes body n (store mem dst 8 done.0) (src + 8) (dst + 8) done.1
      (store-AreBytes mem dst 8 done.0 h)

pub blocks_ext :
    (mem mem' : Memory) (a n : ℕ)
    → ((x : ℕ) → a ≤ x → x < a + 8 * n → mem x ≡ mem' x)
    → blocks mem a n ≡ blocks mem' a n
unfolding blocks
blocks_ext mem mem' a zero h = refl
blocks_ext mem mem' a (suc n) h =
    ap₂ (λ x xs. x ∷ xs) (load_ext mem mem' a 8 (λ x l l'. h x l (omega arith)))
      (blocks_ext mem mem' (a + 8) n (λ x l l'. h x (omega arith) (omega arith)))

pub each_block_outside :
    (body : Body) (n : ℕ) (mem : Memory) (src dst iv x : ℕ)
    → IsOutside dst (8 * n) x
    → each_block body n mem src dst iv x ≡ mem x
unfolding each_block
each_block_outside body zero mem src dst iv x h = refl
each_block_outside body (suc n) mem src dst iv x h =
    let done = body iv (load mem src 8) in
    each_block_outside body n (store mem dst 8 done.0) (src + 8) (dst + 8) done.1 x (ground arith)
    ∙ store_outside mem dst 8 done.0 x (ground arith)

-- The loop writes the outputs for the blocks that it finds.
pub blocks-each_block :
    (body : Body) (n : ℕ) (mem : Memory) (src dst iv : ℕ)
    → KeepsBlocks body
    → iv < 2 ^ 64
    → AreBytes mem
    → AreClear src dst (8 * n)
    → blocks (each_block body n mem src dst iv) dst n ≡ run body iv (blocks mem src n)
unfolding each_block blocks run
blocks-each_block body zero mem src dst iv k l h c = refl
blocks-each_block body (suc n) mem src dst iv k l h c =
    let done = body iv (load mem src 8) in
    let kept = k iv (load mem src 8) l (block-lt mem src h) in
    let mem' = store mem dst 8 done.0 in
    let after = each_block body n mem' (src + 8) (dst + 8) done.1 in
    let first : load after dst 8 ≡ done.0 =
      load_ext after mem' dst 8
        (λ x l l'. each_block_outside body n mem' (src + 8) (dst + 8) done.1 x (inl (omega arith)))
      ∙ load-store mem dst 8 done.0 kept.0 in
    let unread : blocks mem' (src + 8) n ≡ blocks mem (src + 8) n =
      blocks_ext mem' mem (src + 8) n (λ x l l'. store_outside mem dst 8 done.0 x (ground arith)) in
    ap₂ (λ x xs. x ∷ xs) first
      (blocks-each_block body n mem' (src + 8) (dst + 8) done.1 k kept.1
          (store-AreBytes mem dst 8 done.0 h) (ground arith)
        ∙ ap (run body done.1) unread)
