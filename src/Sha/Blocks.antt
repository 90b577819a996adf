-- ===== src/Sha/Blocks.antt =====
-- About the loop of sha_generic of lib/sha_one_block.c over the whole blocks of a message.
use intel_ipsec_mb.Base.{
  ℕ, zero, suc, ◌+◌, ◌*◌, ◌≤◌, ◌<◌, ◌≡◌, refl, ap, ap₂, ◌∙◌, sym, true, false, leb, List, ◌∷◌,
  arith,
}
use intel_ipsec_mb.Base.Memory.{Memory}
use intel_ipsec_mb.Sha.{bytes, whole_blocks}

pub bytes_ext :
    (mem mem' : Memory) (a a' n : ℕ)
    → ((i : ℕ) → i < n → mem (a + i) ≡ mem' (a' + i))
    → bytes mem a n ≡ bytes mem' a' n
bytes_ext mem mem' a a' zero h = refl
bytes_ext mem mem' a a' (suc n) h =
    ap₂ (λ x xs. x ∷ xs) (at_zero (h 0 (omega arith)))
      (bytes_ext mem mem' (suc a) (suc a') n (λ i l. at_next i (h (suc i) (omega arith))))
  where
    at_zero : mem (a + 0) ≡ mem' (a' + 0) → mem a ≡ mem' a'
    at_zero e =
        let left : a + 0 ≡ a = omega arith in
        let right : a' + 0 ≡ a' = omega arith in ap mem (sym left) ∙ (e ∙ ap mem' right)

    at_next : (i : ℕ) → mem (a + suc i) ≡ mem' (a' + suc i) → mem (suc a + i) ≡ mem' (suc a' + i)
    at_next i e =
        let left : suc a + i ≡ a + suc i = omega arith in
        let right : a' + suc i ≡ suc a' + i = omega arith in ap mem left ∙ (e ∙ ap mem' right)

module _ {S : Type 0} (one_block : List ℕ → S → S) (blk_size : ℕ) where
  -- The blocks of a message from an index, one after the other
  unfoldable pub hash_blocks : ℕ → Memory → ℕ → S → S
  hash_blocks zero message idx ld = ld
  hash_blocks (suc n) message idx ld =
      hash_blocks n message (idx + blk_size) (one_block (bytes message idx blk_size) ld)

  further : (idx n : ℕ) → idx + suc n * blk_size ≡ idx + blk_size + n * blk_size
  further idx n = grind arith

  pub hash_blocks_add :
      (n k : ℕ) (message : Memory) (idx : ℕ) (ld : S)
      → hash_blocks (n + k) message idx ld
        ≡ hash_blocks k message (idx + n * blk_size) (hash_blocks n message idx ld)
  unfolding hash_blocks
  hash_blocks_add zero k message idx ld =
      let none_added : 0 + k ≡ k = omega arith in
      let here : idx + 0 * blk_size ≡ idx = grind arith in rw (none_added, here) refl
  hash_blocks_add (suc n) k message idx ld =
      let one_more : suc n + k ≡ suc (n + k) = omega arith in
      rw (one_more, further idx n)
        (hash_blocks_add n k message (idx + blk_size) (one_block (bytes message idx blk_size) ld))

  -- The loop takes the whole blocks, with fuel for them.
  pub whole_blocks_lem :
      (init : S) (pad_size : ℕ) (message mem : Memory) (inp length : ℕ) (n fuel idx r : ℕ) (ld : S)
      → ((i : ℕ) → i < length → message i ≡ mem (inp + i))
      → n ≤ fuel
      → idx + n * blk_size + r ≡ length
      → r < blk_size
      → whole_blocks init one_block blk_size pad_size fuel mem inp length idx ld
        ≡ (idx + n * blk_size, hash_blocks n message idx ld)
  unfolding whole_blocks hash_blocks
  whole_blocks_lem init pad_size message mem inp length zero fuel idx r ld same l e lr =
      let here : idx + 0 * blk_size ≡ idx = grind arith in
      rw here (stops fuel idx (omega (arith, here, e, lr)))
    where
      stops :
          (fuel idx : ℕ)
          → length < idx + blk_size
          → whole_blocks init one_block blk_size pad_size fuel mem inp length idx ld ≡ (idx, ld)
      stops zero idx h = refl
      stops (suc fuel) idx h =
          let last : leb (idx + blk_size) length ≡ false = ground (arith, h) in rw last refl
  whole_blocks_lem init pad_size message mem inp length (suc n) zero idx r ld same l e lr =
      absurd (omega arith)
  whole_blocks_lem init pad_size message mem inp length (suc n) (suc fuel) idx r ld same l e lr =
      let onward : idx + blk_size + n * blk_size + r ≡ length = omega (arith, further idx n, e) in
      let whole : leb (idx + blk_size) length ≡ true = ground (arith, onward) in
      let read : bytes mem (inp + idx) blk_size ≡ bytes message idx blk_size =
        bytes_ext mem message (inp + idx) idx blk_size
          (λ i l. ap mem (assoc inp idx i) ∙ sym (same (idx + i) (omega (arith, onward, l)))) in
      rw (whole, read, further idx n)
        (whole_blocks_lem init pad_size message mem inp length n fuel (idx + blk_size) r
          (one_block (bytes message idx blk_size) ld) same (omega arith) onward lr)
    where
      assoc : (a b c : ℕ) → a + b + c ≡ a + (b + c)
      assoc a b c = omega arith
