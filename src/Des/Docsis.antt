-- ===== src/Des/Docsis.antt =====
-- About DOCSIS DES in place: docsis_des_enc_basic and docsis_des_dec_basic of lib/des_basic.c.
use intel_ipsec_mb.Base.{
  ℕ, zero, suc, ◌+◌, ◌-◌, ◌*◌, ◌/◌, ◌^◌, ◌≤◌, ◌<◌, ◌⊎◌, ◌≢◌, bit_and, inl, inr, ◌≡◌, ap, ◌∙◌,
  fun_ext, true, ◌==◌, List, [], ◌∷◌, arith, Bool-cases,
}
use native.Mathlib.Decide.{dec_le}
use intel_ipsec_mb.Base.Bits.{three_low_bits}
use intel_ipsec_mb.Base.Memory.{Memory, load, AreBytes, load_ext, load_bytes, IsOutside}
use intel_ipsec_mb.Des.Block.{enc_dec_1}
use intel_ipsec_mb.Des.Modes.{
  Body, each_block, enc_body, dec_body, not_null, cfb_one_basic, docsis_des_enc_basic,
  docsis_des_dec_basic,
}
use intel_ipsec_mb.Des.Chaining.{
  blocks, KeepsBlocks, block-lt, each_block-AreBytes, each_block_outside,
}
use intel_ipsec_mb.Des.Cfb.{xor_bytes}
use intel_ipsec_mb.Des.Partial.{cfb_one_basic-xor_bytes, xor_bytes_twice, xor_bytes-AreBytes}
use intel_ipsec_mb.Des.RoundTrip.{
  Undoes, each_block_back, iv-each_block, enc-KeepsBlocks, dec-KeepsBlocks, dec-enc-Undoes,
}

-- Memories with the same blocks have the same bytes there.
blocks_bytes :
    (mem mem' : Memory) (a n : ℕ)
    → AreBytes mem
    → AreBytes mem'
    → blocks mem a n ≡ blocks mem' a n
    → (x : ℕ) → a ≤ x
    → x < a + 8 * n
    → mem x ≡ mem' x
unfolding blocks
blocks_bytes mem mem' a zero h h' e x l l' = absurd (omega arith)
blocks_bytes mem mem' a (suc n) h h' e x l l' = elim (dec_le (a + 8) x) [
  | no low ↦ load_bytes mem mem' a 8 h h' (head e) x l (omega arith)
  | yes high ↦ blocks_bytes mem mem' (a + 8) n h h' (tail e) x high (omega arith)
]
  where
    head : {x y : ℕ} {xs ys : List ℕ} → x ∷ xs ≡ y ∷ ys → x ≡ y
    head {x = x} e = ap (λ l. elim l [ [] ↦ x | z ∷ zs ↦ z ]) e

    tail : {x y : ℕ} {xs ys : List ℕ} → x ∷ xs ≡ y ∷ ys → xs ≡ ys
    tail e = ap (λ l. elim l [ [] ↦ [] | z ∷ zs ↦ zs ]) e

-- The whole memory after the loops of both directions in place
pub each_block_restores :
    (back body : Body) (n : ℕ) (mem : Memory) (p iv : ℕ)
    → Undoes back body
    → KeepsBlocks body
    → KeepsBlocks back
    → iv < 2 ^ 64
    → AreBytes mem
    → each_block back n (each_block body n mem p p iv) p p iv ≡ mem
each_block_restores back body n mem p iv u k k' l h =
    let done = each_block body n mem p p iv in
    let h' = each_block-AreBytes body n mem p p iv h in
    let same =
      each_block_back back body n mem p p p iv u k k' l h (inl (omega arith)) (inl (omega arith)) in
    fun_ext (λ x. elim (inside p (8 * n) x) [
      | inl out ↦
          each_block_outside back n done p p iv x out ∙ each_block_outside body n mem p p iv x out
      | inr within ↦
          blocks_bytes (each_block back n done p p iv) mem p n
            (each_block-AreBytes back n done p p iv h') h same x within.0 within.1
    ])
  where
    inside : (a n x : ℕ) → IsOutside a n x ⊎ ((a ≤ x) × (x < a + n))
    inside a n x = elim (dec_le a x) [
      | no low ↦ inl (inl (omega arith))
      | yes high ↦ elim (dec_le (a + n) x) [
        | yes after ↦ inl (inr after)
        | no within ↦ inr (high, omega arith)
      ]
    ]

-- cfb_one_basic in place on less than 8 bytes
cfb_one :
    (mem : Memory) (p size ivec : ℕ) (ks : List ℕ)
    → AreBytes mem
    → size < 8
    → p ≢ 0
    → ivec ≢ 0
    → cfb_one_basic mem p p size ks ivec
      ≡ xor_bytes mem p p size (enc_dec_1 (load mem ivec 8) ks true)
cfb_one mem p size ivec ks h l ne ne' =
    cfb_one_basic-xor_bytes mem p p size ivec ks h l ne ne ne' (inl (omega arith))

-- A block apart from the bytes of a partial block
load-xor_bytes :
    (mem : Memory) (p size t a : ℕ)
    → (a + 8 ≤ p) ⊎ (p + size ≤ a)
    → load (xor_bytes mem p p size t) a 8 ≡ load mem a 8
load-xor_bytes mem p size t a h =
    load_ext (xor_bytes mem p p size t) mem a 8 (λ x l l'. ground arith)

-- cfb_one_basic done twice in place
cfb_twice :
    (mem : Memory) (p size ivec : ℕ) (ks : List ℕ)
    → AreBytes mem
    → size < 8
    → p ≢ 0
    → ivec ≢ 0
    → (ivec + 8 ≤ p) ⊎ (p + size ≤ ivec)
    → cfb_one_basic (cfb_one_basic mem p p size ks ivec) p p size ks ivec ≡ mem
cfb_twice mem p size ivec ks h l ne ne' apart =
    let t = enc_dec_1 (load mem ivec 8) ks true in
    let once = cfb_one mem p size ivec ks h l ne ne' in
    let done = xor_bytes mem p p size t in
    let again = cfb_one done p size ivec ks (xor_bytes-AreBytes mem p p size t h) l ne ne' in
    ap (λ m. cfb_one_basic m p p size ks ivec) once
    ∙ (again
        ∙ (ap (λ v. xor_bytes done p p size (enc_dec_1 v ks true))
              (load-xor_bytes mem p size t ivec apart)
            ∙ xor_bytes_twice mem p size t))

module _ (mem : Memory) (p size ivec : ℕ) (ks : List ℕ) where
  abbrev whole : Memory
  whole = each_block (enc_body ks) (size / 8) mem p p (load mem ivec 8)

  whole-AreBytes : AreBytes mem → AreBytes whole
  whole-AreBytes h = each_block-AreBytes (enc_body ks) (size / 8) mem p p (load mem ivec 8) h

  -- The whole blocks, decrypted with what is loaded as the initialization vector
  whole_restored :
      (iv : ℕ)
      → iv ≡ load mem ivec 8
      → AreBytes mem
      → each_block (dec_body ks) (size / 8) whole p p iv ≡ mem
  whole_restored iv e h =
      ap (each_block (dec_body ks) (size / 8) whole p p) e
      ∙ each_block_restores (dec_body ks) (enc_body ks) (size / 8) mem p (load mem ivec 8)
          (dec-enc-Undoes ks) (enc-KeepsBlocks ks) (dec-KeepsBlocks ks) (block-lt mem ivec h) h

  no_whole : size / 8 ≡ 0 → whole ≡ mem
  unfolding each_block
  no_whole e = ap (λ n. each_block (enc_body ks) n mem p p (load mem ivec 8)) e

  abbrev end : ℕ
  end = p + 8 * (size / 8)

  abbrev with_tail : Memory
  with_tail = cfb_one_basic whole end end (bit_and size 7) ks (p + (8 * (size / 8) - 8))

  -- The tail, chained to the last whole block
  tail_restored :
      AreBytes mem
      → p ≢ 0
      → size / 8 ≢ 0
      → cfb_one_basic with_tail end end (bit_and size 7) ks (p + (8 * (size / 8) - 8)) ≡ whole
  tail_restored h ne some_blocks =
      cfb_twice whole end (bit_and size 7) (p + (8 * (size / 8) - 8)) ks (whole-AreBytes h)
        (omega (arith, three_low_bits size)) (λ e. ne (omega arith)) (λ e. ne (omega arith))
        (inl (omega arith))

  -- The initialization vector is as it was after the tail.
  iv-with_tail :
      AreBytes mem
      → p ≢ 0
      → ((ivec + 8 ≤ p) ⊎ (p + size ≤ ivec))
      → load with_tail ivec 8 ≡ load mem ivec 8
  iv-with_tail h ne apart =
      let last = p + (8 * (size / 8) - 8) in
      let low = three_low_bits size in
      ap (λ m. load m ivec 8)
        (cfb_one whole end (bit_and size 7) last ks (whole-AreBytes h) (omega (arith, low))
          (λ e. ne (omega arith)) (λ e. ne (omega arith)))
      ∙ (load-xor_bytes whole end (bit_and size 7) (enc_dec_1 (load whole last 8) ks true) ivec
            (ground (arith, low))
          ∙ iv-each_block (enc_body ks) mem p p size ivec (load mem ivec 8) apart)

-- docsis_des_dec_basic after docsis_des_enc_basic in place gives back the whole memory, for any size and key
-- schedule. The memory is of bytes, the addresses are not null and the initialization vector is apart from the
-- buffer.
pub docsis_des_round_trip :
    (mem : Memory) (p size ivec : ℕ) (ks : List ℕ)
    → AreBytes mem
    → p ≢ 0
    → ivec ≢ 0
    → (ivec + 8 ≤ p) ⊎ (p + size ≤ ivec)
    → docsis_des_dec_basic (docsis_des_enc_basic mem p p size ks ivec) p p size ks ivec ≡ mem
unfolding docsis_des_enc_basic docsis_des_dec_basic
docsis_des_round_trip mem p size ivec ks h ne ne' apart =
    let low = three_low_bits size in
    rw (not_null p p ivec ne ne ne') (elim (Bool-cases (bit_and size 7 == 0)) [
      | inl none_left ↦ rw none_left (
          whole_restored mem p size ivec ks _
            (iv-each_block (enc_body ks) mem p p size ivec (load mem ivec 8) apart) h)
      | inr tail ↦ elim (Bool-cases (size / 8 == 0)) [
        | inl no_blocks ↦
            let bare = no_whole mem p size ivec ks (ground arith) in
            rw (tail, no_blocks, bare)
              (cfb_twice mem p (bit_and size 7) ivec ks h (omega (arith, low)) ne ne'
                (ground (arith, low)))
        | inr blocks ↦
            let ne_zero : size / 8 ≢ 0 = ground arith in
            rw (tail, blocks, tail_restored mem p size ivec ks h ne ne_zero)
              (whole_restored mem p size ivec ks _ (iv-with_tail mem p size ivec ks h ne apart) h)
      ]
    ])
