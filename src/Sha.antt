-- ===== src/Sha.antt =====
-- The hash of a whole message: sha_generic of lib/sha_one_block.c, for addresses that are not null. The function
-- that hashes one block is assembly: a parameter that takes the bytes of the block.
use intel_ipsec_mb.Base.{
  ℕ, zero, suc, ◌+◌, ◌-◌, ◌*◌, ◌/◌, ◌%◌, ◌^◌, Bool, leb, ltb, ◌==◌, ◌||◌, ◌&&◌, if◌then◌else◌,
  Option, none, some, List, [], ◌∷◌, update,
}
use intel_ipsec_mb.Base.Memory.{Memory}
pub mod Blocks
pub mod Padding
mod Tests

-- The `n` bytes from an address
abbrev pub bytes : Memory → ℕ → ℕ → List ℕ
bytes mem a zero = []
bytes mem a (suc n) = mem a ∷ bytes mem (suc a) n

-- bswap4 and bswap8
abbrev pub bswap4 : ℕ → ℕ
bswap4 v = v % 256 * 2 ^ 24 + v / 2 ^ 8 % 256 * 2 ^ 16 + v / 2 ^ 16 % 256 * 2 ^ 8 + v / 2 ^ 24 % 256

abbrev pub bswap8 : ℕ → ℕ
bswap8 v = bswap4 (v % 2 ^ 32) * 2 ^ 32 + bswap4 (v / 2 ^ 32)

-- store8_be: a 64-bit store of the swapped value on a little-endian machine
unfoldable pub store8_be : Memory → ℕ → ℕ → Memory
store8_be mem a v x = if leb a x && ltb x (a + 8) then bswap8 v / 256 ^ (x - a) % 256 else mem x

-- var_memcpy
abbrev pub var_memcpy : Memory → Memory → ℕ → ℕ → Memory
var_memcpy dst mem src len x = if ltb x len then mem (src + x) else dst x

module _ {S : Type 0} (init : S) (one_block : List ℕ → S → S) (blk_size pad_size : ℕ) where
  -- for (idx = 0; (idx + blk_size) <= length; idx += blk_size), with fuel
  unfoldable pub whole_blocks : ℕ → Memory → ℕ → ℕ → ℕ → S → ℕ × S
  whole_blocks zero mem inp length idx ld = (idx, ld)
  whole_blocks (suc fuel) mem inp length idx ld =
      let rest =
        whole_blocks fuel mem inp length (idx + blk_size)
          (one_block (bytes mem (inp + idx) blk_size) ld) in
      if leb (idx + blk_size) length then rest else (idx, ld)

  -- sha_generic up to sha_generic_write_digest: the local digest
  unfoldable pub sha_generic : Memory → ℕ → ℕ → S
  sha_generic mem inp length =
      let (idx, ld) = whole_blocks length mem inp length 0 init in
      let r = length % blk_size in
      let cb = update (var_memcpy (λ x. 0) mem (inp + idx) r) r 0x80 in
      let full = leb (blk_size - pad_size) r in
      let ld = if full then one_block (bytes cb 0 blk_size) ld else ld in
      let cb = if full then (λ x. 0) else cb in
      let cb = store8_be cb (blk_size - 8) (length * 8 % 2 ^ 64) in
      one_block (bytes cb 0 blk_size) ld
