-- ===== src/Sha/Padding.antt =====
-- About the padding of sha_generic of lib/sha_one_block.c, against that of FIPS 180-4.
use intel_ipsec_mb.Base.{
  ℕ, zero, suc, ◌+◌, ◌-◌, ◌*◌, ◌/◌, ◌%◌, ◌^◌, ◌≤◌, ◌<◌, ◌≡◌, ap, ap₂, ◌∙◌, sym, true, false, leb,
  ltb, ◌==◌, if◌then◌else◌, List, update, arith, ◌⊎◌, inr,
}
use native.Mathlib.Decide.{dec_le}
use native.Mathlib.Nat.{add-mul-div_right, div-eq_of_lt, mod-lt, mod-add-div', div-le_self}
use intel_ipsec_mb.Base.Memory.{Memory}
use intel_ipsec_mb.Sha.{bytes, bswap8, store8_be, var_memcpy, whole_blocks, sha_generic}
use intel_ipsec_mb.Sha.Blocks.{bytes_ext, hash_blocks, hash_blocks_add, whole_blocks_lem}

-- The padded message of `count` blocks: the message, the byte 0x80, zeros, and the number of its bits as a
-- big-endian number in the last 8 bytes
abbrev pub padded : Memory → ℕ → ℕ → ℕ → Memory
padded mem inp length total i =
    if ltb i length
    then mem (inp + i)
    else if i == length
    then 0x80
    else if ltb i (total - 8)
    then 0
    else length * 8 / 256 ^ (total - 1 - i) % 256

-- The number of bits, as store8_be writes it
store8_byte : (v k : ℕ) → v < 2 ^ 64 → k < 8 → bswap8 v / 256 ^ k % 256 ≡ v / 256 ^ (7 - k) % 256
store8_byte v zero h l = omega arith
store8_byte v (suc zero) h l = omega arith
store8_byte v (suc (suc zero)) h l = omega arith
store8_byte v (suc (suc (suc zero))) h l = omega arith
store8_byte v (suc (suc (suc (suc zero)))) h l = omega arith
store8_byte v (suc (suc (suc (suc (suc zero))))) h l = omega arith
store8_byte v (suc (suc (suc (suc (suc (suc zero)))))) h l = omega arith
store8_byte v (suc (suc (suc (suc (suc (suc (suc zero))))))) h l = omega arith
store8_byte v (suc (suc (suc (suc (suc (suc (suc (suc k)))))))) h l = absurd (omega arith)

module _ (mem : Memory) (inp length blk_size : ℕ) where
  -- The block with the number of bits at its end
  last_block :
      (cb : Memory) (base : ℕ)
      → 8 ≤ blk_size
      → length * 8 < 2 ^ 64
      → length < base + (blk_size - 8)
      → ((i : ℕ) → i < blk_size - 8 → cb i ≡ padded mem inp length (base + blk_size) (base + i))
      → bytes (store8_be cb (blk_size - 8) (length * 8 % 2 ^ 64)) 0 blk_size
        ≡ bytes (padded mem inp length (base + blk_size)) base blk_size
  unfolding store8_be
  last_block cb base h small room before =
      bytes_ext (store8_be cb (blk_size - 8) (length * 8 % 2 ^ 64))
        (padded mem inp length (base + blk_size)) 0 base blk_size
        (λ i l. elim (dec_le (blk_size - 8) i) [
          | no low ↦ ground (arith, before i (omega arith))
          | yes high ↦
              let inside : length * 8 % 2 ^ 64 ≡ length * 8 = omega arith in
              let place : 7 - (i - (blk_size - 8)) ≡ base + blk_size - 1 - (base + i) =
                omega arith in
              let byte : bswap8 (length * 8 % 2 ^ 64) / 256 ^ (i - (blk_size - 8)) % 256
                  ≡ length * 8 / 256 ^ (base + blk_size - 1 - (base + i)) % 256 =
                rw (inside, sym place)
                  (store8_byte (length * 8) (i - (blk_size - 8)) small (omega arith)) in
              ground (arith, byte)
        ])

  -- The block with the rest of the message and the byte after it
  rest_block :
      (base r total i : ℕ)
      → base + r ≡ length
      → (i < r) ⊎ (base + i < total - 8)
      → update (var_memcpy (λ x. 0) mem (inp + base) r) r 0x80 i
        ≡ padded mem inp length total (base + i)
  rest_block base r total i e region =
      let place : inp + base + i ≡ inp + (base + i) = omega arith in ground (arith, ap mem place)

module _ {S : Type 0} (init : S) (one_block : List ℕ → S → S) (blk_size pad_size : ℕ) where
  -- The number of blocks of a padded message
  abbrev pub count : ℕ → ℕ
  count length = (length + pad_size) / blk_size + 1

  count_lem :
      (length q rest : ℕ)
      → length + pad_size ≡ rest + q * blk_size
      → rest < blk_size
      → count length ≡ q + 1
  count_lem length q rest e l =
      ap (λ n. n / blk_size + 1) e
      ∙ (ap (λ n. n + 1) (add-mul-div_right rest q (omega (arith, l)))
          ∙ omega (arith, div-eq_of_lt l))

  -- The two ends of sha_generic
  finish : (mem : Memory) (inp length idx : ℕ) → S → S
  finish mem inp length idx ld =
      let r = length % blk_size in
      let cb = update (var_memcpy (λ x. 0) mem (inp + idx) r) r 0x80 in
      let full = leb (blk_size - pad_size) r in
      let ld = if full then one_block (bytes cb 0 blk_size) ld else ld in
      let cb = if full then (λ x. 0) else cb in
      one_block (bytes (store8_be cb (blk_size - 8) (length * 8 % 2 ^ 64)) 0 blk_size) ld

  sha_generic-finish :
      (mem : Memory) (inp length idx : ℕ) (ld : S)
      → whole_blocks init one_block blk_size pad_size length mem inp length 0 init ≡ (idx, ld)
      → sha_generic init one_block blk_size pad_size mem inp length ≡ finish mem inp length idx ld
  unfolding sha_generic finish
  sha_generic-finish mem inp length idx ld e = ap (λ p. finish mem inp length p.0 p.1) e

  finish_lem :
      (mem : Memory) (inp length q : ℕ)
      → 8 ≤ pad_size
      → pad_size < blk_size
      → length * 8 < 2 ^ 64
      → length % blk_size + q * blk_size ≡ length
      → (k : ℕ) × (count length ≡ q + k)
        × ((ld : S)
            → finish mem inp length (q * blk_size) ld
              ≡ hash_blocks one_block blk_size k
                  (padded mem inp length ((q + k) * blk_size))
                  (q * blk_size)
                  ld)
  unfolding finish hash_blocks
  finish_lem mem inp length q h h' small e =
      elim (dec_le (blk_size - pad_size) (length % blk_size)) [
        | yes full ↦
            let test : leb (blk_size - pad_size) (length % blk_size) ≡ true =
              ground (arith, full) in
            (
              2,
              omega (
                arith,
                count_lem length (q + 1) (length % blk_size + pad_size - blk_size)
                    (omega (arith, two, e, full)) (omega (arith, below)),
              ),
              λ ld.
                  rw (test, three)
                    (ap₂ one_block
                      (last_block mem inp length blk_size (λ x. 0) (q * blk_size + blk_size)
                        (omega arith) small (omega (arith, e, below))
                        (λ i l. ground (arith, e, below, l)))
                      (ap (λ b. one_block b ld)
                        (bytes_ext _ (padded mem inp length (q * blk_size + blk_size + blk_size)) 0
                          (q * blk_size) blk_size
                          (λ i l.
                            ap first_block (none_before i)
                            ∙ rest_block mem inp length blk_size (q * blk_size) (length % blk_size)
                                (q * blk_size + blk_size + blk_size) i (omega (arith, e))
                                (inr (omega (arith, l))))))),
            )
        | no room ↦
            let test : leb (blk_size - pad_size) (length % blk_size) ≡ false =
              ground (arith, room) in
            (
              1,
              count_lem length q (length % blk_size + pad_size) (omega (arith, e))
                  (omega (arith, room)),
              λ ld.
                  rw (test, two)
                    (ap (λ b. one_block b ld)
                      (last_block mem inp length blk_size
                        (update (var_memcpy (λ x. 0) mem (inp + q * blk_size) (length % blk_size))
                          (length % blk_size) 0x80)
                        (q * blk_size) (omega arith) small (omega (arith, e, room))
                        (λ i l.
                          rest_block mem inp length blk_size (q * blk_size) (length % blk_size)
                            (q * blk_size + blk_size) i (omega (arith, e))
                            (inr (omega (arith, l)))))),
            )
      ]
    where
      first_block : Memory
      first_block =
          update (var_memcpy (λ x. 0) mem (inp + q * blk_size) (length % blk_size))
            (length % blk_size) 0x80

      none_before : (i : ℕ) → 0 + i ≡ i
      none_before i = omega arith

      two : (q + 1) * blk_size ≡ q * blk_size + blk_size
      two = grind arith

      three : (q + 2) * blk_size ≡ q * blk_size + blk_size + blk_size
      three = grind arith

      below : length % blk_size < blk_size
      below = mod-lt length (omega arith)

  -- For a message of less than 2 ^ 61 bytes, a pad of at least 8 bytes and a larger block, sha_generic hashes the
  -- blocks of the padded message in order: those that hold the message, the byte 0x80, the zeros and the number
  -- of bits, and no more than these need.
  pub sha_generic-padded :
      (mem : Memory) (inp length : ℕ)
      → 8 ≤ pad_size
      → pad_size < blk_size
      → length * 8 < 2 ^ 64
      → sha_generic init one_block blk_size pad_size mem inp length
        ≡ hash_blocks one_block blk_size
            (count length)
            (padded mem inp length (count length * blk_size))
            0
            init
  sha_generic-padded mem inp length h h' small =
      let q = length / blk_size in
      let e = mod-add-div' length blk_size in
      let start : 0 + q * blk_size ≡ q * blk_size = omega arith in
      let (k, blocks, last) = finish_lem mem inp length q h h' small e in
      let message = padded mem inp length ((q + k) * blk_size) in
      let ld = hash_blocks one_block blk_size q message 0 init in
      let loop =
        whole_blocks_lem one_block blk_size init pad_size message mem inp length q length 0
          (length % blk_size) init (λ i l. ground arith) (div-le_self length blk_size)
          (omega (arith, e)) (mod-lt length (omega arith)) in
      sha_generic-finish mem inp length (q * blk_size) ld (loop ∙ ap (λ i. (i, ld)) start)
      ∙ (last ld
          ∙ (ap (λ i. hash_blocks one_block blk_size k message i ld) (sym start)
              ∙ (sym (hash_blocks_add one_block blk_size q k message 0 init)
                  ∙ ap
                      (λ n.
                        hash_blocks one_block blk_size n (padded mem inp length (n * blk_size)) 0
                          init)
                      (sym blocks))))
