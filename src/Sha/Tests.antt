-- ===== src/Sha/Tests.antt =====
-- The padding of a message of 60 bytes, which needs two blocks.
use intel_ipsec_mb.Base.{ℕ, ◌+◌, ◌*◌, ◌%◌, List, nth, ◌≡◌, arith}
use intel_ipsec_mb.Base.Memory.{Memory}
use intel_ipsec_mb.Sha.{sha_generic}
use intel_ipsec_mb.Sha.Blocks.{hash_blocks}
use intel_ipsec_mb.Sha.Padding.{count, padded, sha_generic-padded}

abbrev message : Memory
message x = x * 7 % 256

-- A stand-in for the assembly that depends on the bytes of a block
abbrev mix : List ℕ → ℕ → ℕ
mix block ld = ld * 31 + nth 0 block 63 + nth 0 block 5

sha_generic-padded_example :
    sha_generic 1 mix 64 8 message 4096 60
    ≡ hash_blocks mix 64
        (count 1 mix 64 8 60)
        (padded message 4096 60 (count 1 mix 64 8 60 * 64))
        0
        1
sha_generic-padded_example =
    sha_generic-padded 1 mix 64 8 message 4096 60 (omega arith) (omega arith) (omega arith)
