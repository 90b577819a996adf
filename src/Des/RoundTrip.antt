-- ===== src/Des/RoundTrip.antt =====
-- About the modes of DES in both directions.
use intel_ipsec_mb.Base.{
  ℕ, zero, suc, ◌+◌, ◌*◌, ◌/◌, ◌^◌, ◌≤◌, ◌<◌, ◌⊎◌, ◌≢◌, bit_xor, ◌≡◌, refl, ap, ◌∙◌, true, false,
  List, ◌∷◌, arith,
}
use intel_ipsec_mb.Base.Memory.{Memory, load, AreBytes, load_ext}
use intel_ipsec_mb.Base.Digit.{xor_twice}
use intel_ipsec_mb.Base.Shift.{xor-lt}
use intel_ipsec_mb.Des.Block.{enc_dec_1}
use intel_ipsec_mb.Des.OneBlock.{enc_dec_1-lt, enc_dec_1_round_trip}
use intel_ipsec_mb.Des.Modes.{
  Body, each_block, enc_body, dec_body, enc3_body, dec3_body, cbc_basic, not_null,
  des_enc_cbc_basic, des_dec_cbc_basic, des3_enc_cbc_basic, des3_dec_cbc_basic,
}
use intel_ipsec_mb.Des.Chaining.{
  blocks, run, AreClear, KeepsBlocks, block-lt, each_block-AreBytes, each_block_outside,
  blocks-each_block,
}

-- The second body undoes the first and keeps the same chaining values.
abbrev pub Undoes : Body → Body → Type 0
Undoes back body =
    (iv x : ℕ) → iv < 2 ^ 64 → x < 2 ^ 64 → back iv (body iv x).0 ≡ (x, (body iv x).1)

run_back :
    (back body : Body) (iv : ℕ) (mem : Memory) (a n : ℕ)
    → Undoes back body
    → KeepsBlocks body
    → iv < 2 ^ 64
    → AreBytes mem
    → run back iv (run body iv (blocks mem a n)) ≡ blocks mem a n
unfolding run blocks
run_back back body iv mem a zero u k l h = refl
run_back back body iv mem a (suc n) u k l h =
    let x = load mem a 8 in
    let next = (k iv x l (block-lt mem a h)).1 in
    rw (u iv x l (block-lt mem a h))
      (ap (λ xs. x ∷ xs) (run_back back body (body iv x).1 mem (a + 8) n u k next h))

-- A loop over what another loop has written
pub each_block_back :
    (back body : Body) (n : ℕ) (mem : Memory) (src dst dst' iv : ℕ)
    → Undoes back body
    → KeepsBlocks body
    → KeepsBlocks back
    → iv < 2 ^ 64
    → AreBytes mem
    → AreClear src dst (8 * n)
    → AreClear dst dst' (8 * n)
    → blocks (each_block back n (each_block body n mem src dst iv) dst dst' iv) dst' n
      ≡ blocks mem src n
each_block_back back body n mem src dst dst' iv u k k' l h c c' =
    blocks-each_block back n (each_block body n mem src dst iv) dst dst' iv k' l
      (each_block-AreBytes body n mem src dst iv h) c'
    ∙ (ap (run back iv) (blocks-each_block body n mem src dst iv k l h c)
        ∙ run_back back body iv mem src n u k l h)

pub enc-KeepsBlocks : (ks : List ℕ) → KeepsBlocks (enc_body ks)
enc-KeepsBlocks ks iv x l h = let bound = enc_dec_1-lt (bit_xor x iv) ks true in (bound, bound)

pub dec-KeepsBlocks : (ks : List ℕ) → KeepsBlocks (dec_body ks)
dec-KeepsBlocks ks iv x l h = (xor-lt 64 _ iv (enc_dec_1-lt x ks false) l, h)

pub dec-enc-Undoes : (ks : List ℕ) → Undoes (dec_body ks) (enc_body ks)
dec-enc-Undoes ks iv x l h =
    let back = enc_dec_1_round_trip (bit_xor x iv) ks true (xor-lt 64 x iv h l) in
    ap (λ b. (b, enc_dec_1 (bit_xor x iv) ks true)) (ap (λ b. bit_xor b iv) back ∙ xor_twice x iv)

enc3-KeepsBlocks : (ks1 ks2 ks3 : List ℕ) → KeepsBlocks (enc3_body ks1 ks2 ks3)
enc3-KeepsBlocks ks1 ks2 ks3 iv x l h =
    let bound = enc_dec_1-lt (enc_dec_1 (enc_dec_1 (bit_xor x iv) ks1 true) ks2 false) ks3 true in
    (bound, bound)

dec3-KeepsBlocks : (ks1 ks2 ks3 : List ℕ) → KeepsBlocks (dec3_body ks1 ks2 ks3)
dec3-KeepsBlocks ks1 ks2 ks3 iv x l h =
    (xor-lt 64 _ iv (enc_dec_1-lt (enc_dec_1 (enc_dec_1 x ks3 false) ks2 true) ks1 false) l, h)

dec3-enc3-Undoes : (ks1 ks2 ks3 : List ℕ) → Undoes (dec3_body ks1 ks2 ks3) (enc3_body ks1 ks2 ks3)
dec3-enc3-Undoes ks1 ks2 ks3 iv x l h =
    let a = enc_dec_1 (bit_xor x iv) ks1 true in
    let b = enc_dec_1 a ks2 false in
    let c = enc_dec_1 b ks3 true in
    ap (λ t. (bit_xor t iv, c))
      (ap (λ t. enc_dec_1 (enc_dec_1 t ks2 true) ks1 false)
          (enc_dec_1_round_trip b ks3 true (enc_dec_1-lt a ks2 false))
        ∙ (ap (λ t. enc_dec_1 t ks1 false)
              (enc_dec_1_round_trip a ks2 false (enc_dec_1-lt (bit_xor x iv) ks1 true))
            ∙ enc_dec_1_round_trip (bit_xor x iv) ks1 true (xor-lt 64 x iv h l)))
    ∙ ap (λ t. (t, c)) (xor_twice x iv)

-- Buffers that a call may be given: addresses that are not null, an output that a loop from its start does not
-- read after writing, and an initialization vector that is apart from the output
abbrev pub AreBuffers : ℕ → ℕ → ℕ → ℕ → Type 0
AreBuffers src dst size ivec =
    (src ≢ 0)
    × (dst ≢ 0)
    × (ivec ≢ 0)
    × AreClear src dst size
    × ((ivec + 8 ≤ dst) ⊎ (dst + size ≤ ivec))

-- The blocks are no more than the size.
pub clear_less : (src dst size : ℕ) → AreClear src dst size → AreClear src dst (8 * (size / 8))
clear_less src dst size c = ground arith

-- The initialization vector after a loop
pub iv-each_block :
    (body : Body) (mem : Memory) (src dst size ivec iv : ℕ)
    → ((ivec + 8 ≤ dst) ⊎ (dst + size ≤ ivec))
    → load (each_block body (size / 8) mem src dst iv) ivec 8 ≡ load mem ivec 8
iv-each_block body mem src dst size ivec iv b =
    load_ext (each_block body (size / 8) mem src dst iv) mem ivec 8
      (λ x l l'. each_block_outside body (size / 8) mem src dst iv x (ground arith))

cbc_back :
    (back body : Body) (mem : Memory) (src dst dst' size ivec : ℕ)
    → Undoes back body
    → KeepsBlocks body
    → KeepsBlocks back
    → AreBytes mem
    → AreBuffers src dst size ivec
    → AreBuffers dst dst' size ivec
    → blocks
        (cbc_basic back (cbc_basic body mem src dst size ivec) dst dst' size ivec)
        dst'
        (size / 8)
      ≡ blocks mem src (size / 8)
unfolding cbc_basic
cbc_back back body mem src dst dst' size ivec u k k' h b b' =
    let iv = load mem ivec 8 in
    let n = size / 8 in
    rw
      (
        not_null src dst ivec b.0 b.1 b.2,
        not_null dst dst' ivec b'.0 b'.1 b'.2,
        iv-each_block body mem src dst size ivec iv b.4,
      )
      (each_block_back back body n mem src dst dst' iv u k k' (block-lt mem ivec h) h
        (clear_less src dst size b.3) (clear_less dst dst' size b'.3))

-- For any key schedule, des_dec_cbc_basic on the output of des_enc_cbc_basic writes the blocks that were
-- encrypted. The memory is of bytes, the addresses are not null, the initialization vector is apart from the
-- outputs, and each output is apart from its input or does not start after it (as where the two are the same).
pub des_cbc_round_trip :
    (mem : Memory) (src dst dst' size ivec : ℕ) (ks : List ℕ)
    → AreBytes mem
    → AreBuffers src dst size ivec
    → AreBuffers dst dst' size ivec
    → let done = des_enc_cbc_basic mem src dst size ks ivec in
      blocks (des_dec_cbc_basic done dst dst' size ks ivec) dst' (size / 8)
      ≡ blocks mem src (size / 8)
des_cbc_round_trip mem src dst dst' size ivec ks h b b' =
    cbc_back (dec_body ks) (enc_body ks) mem src dst dst' size ivec (dec-enc-Undoes ks)
      (enc-KeepsBlocks ks) (dec-KeepsBlocks ks) h b b'

-- For any three key schedules, des3_dec_cbc_basic on the output of des3_enc_cbc_basic writes the blocks that
-- were encrypted, for buffers as in `des_cbc_round_trip`.
pub des3_cbc_round_trip :
    (mem : Memory) (src dst dst' size ivec : ℕ) (ks1 ks2 ks3 : List ℕ)
    → AreBytes mem
    → AreBuffers src dst size ivec
    → AreBuffers dst dst' size ivec
    → let done = des3_enc_cbc_basic mem src dst size ks1 ks2 ks3 ivec in
      blocks (des3_dec_cbc_basic done dst dst' size ks1 ks2 ks3 ivec) dst' (size / 8)
      ≡ blocks mem src (size / 8)
des3_cbc_round_trip mem src dst dst' size ivec ks1 ks2 ks3 h b b' =
    cbc_back (dec3_body ks1 ks2 ks3) (enc3_body ks1 ks2 ks3) mem src dst dst' size ivec
      (dec3-enc3-Undoes ks1 ks2 ks3) (enc3-KeepsBlocks ks1 ks2 ks3) (dec3-KeepsBlocks ks1 ks2 ks3) h
      b b'
