-- ===== src/Des/Modes.antt =====
-- The modes of DES: the functions of lib/des_basic.c after enc_dec_1, as changes of a memory of bytes, in the
-- build with SAFE_PARAM. A size is not negative.
use intel_ipsec_mb.Base.{
  ◌≡◌, ◌≢◌, arith, ℕ, zero, suc, ◌+◌, ◌-◌, ◌*◌, ◌/◌, ◌%◌, ◌^◌, bit_and, bit_xor, Bool, true, false,
  ◌||◌, ◌==◌, if◌then◌else◌, List,
}
use intel_ipsec_mb.Base.Memory.{Memory, load, store}
use intel_ipsec_mb.Des.Block.{enc_dec_1}

-- The body of a loop over blocks: from `iv` and a block of the input, a block of the output and the next `iv`
abbrev pub Body : Type 0
Body = ℕ → ℕ → ℕ × ℕ

-- for (n = 0; n < nblocks; n++), with the memory after it
unfoldable pub each_block : Body → ℕ → Memory → ℕ → ℕ → ℕ → Memory
each_block body zero mem src dst iv = mem
each_block body (suc n) mem src dst iv =
    let done = body iv (load mem src 8) in
    each_block body n (store mem dst 8 done.0) (src + 8) (dst + 8) done.1

-- The loop of des_enc_cbc_basic and docsis_des_enc_basic
abbrev pub enc_body : List ℕ → Body
enc_body ks iv x = let c = enc_dec_1 (bit_xor x iv) ks true in (c, c)

-- The loop of des_dec_cbc_basic and docsis_des_dec_basic
abbrev pub dec_body : List ℕ → Body
dec_body ks iv x = (bit_xor (enc_dec_1 x ks false) iv, x)

-- The loop of des3_enc_cbc_basic
abbrev pub enc3_body : List ℕ → List ℕ → List ℕ → Body
enc3_body ks1 ks2 ks3 iv x =
    let t = enc_dec_1 (bit_xor x iv) ks1 true in
    let t = enc_dec_1 t ks2 false in let t = enc_dec_1 t ks3 true in (t, t)

-- The loop of des3_dec_cbc_basic
abbrev pub dec3_body : List ℕ → List ℕ → List ℕ → Body
dec3_body ks1 ks2 ks3 iv x =
    let t = enc_dec_1 x ks3 false in
    let t = enc_dec_1 t ks2 true in let t = enc_dec_1 t ks1 false in (bit_xor t iv, x)

-- The checks under SAFE_PARAM on the addresses; a key schedule is given by its words and is not null.
abbrev pub is_null : ℕ → ℕ → ℕ → Bool
is_null input output ivec = input == 0 || output == 0 || ivec == 0

pub not_null : (src dst ivec : ℕ) → src ≢ 0 → dst ≢ 0 → ivec ≢ 0 → is_null src dst ivec ≡ false
not_null src dst ivec h h' h'' = ground arith

-- The functions with a loop over the whole blocks only
unfoldable pub cbc_basic : Body → Memory → ℕ → ℕ → ℕ → ℕ → Memory
cbc_basic body mem input output size ivec =
    if is_null input output ivec
    then mem
    else each_block body (size / 8) mem input output (load mem ivec 8)

-- des_enc_cbc_basic
abbrev pub des_enc_cbc_basic : Memory → ℕ → ℕ → ℕ → List ℕ → ℕ → Memory
des_enc_cbc_basic mem input output size ks ivec = cbc_basic (enc_body ks) mem input output size ivec

-- des_dec_cbc_basic
abbrev pub des_dec_cbc_basic : Memory → ℕ → ℕ → ℕ → List ℕ → ℕ → Memory
des_dec_cbc_basic mem input output size ks ivec = cbc_basic (dec_body ks) mem input output size ivec

-- des3_enc_cbc_basic
abbrev pub des3_enc_cbc_basic : Memory → ℕ → ℕ → ℕ → List ℕ → List ℕ → List ℕ → ℕ → Memory
des3_enc_cbc_basic mem input output size ks1 ks2 ks3 ivec =
    cbc_basic (enc3_body ks1 ks2 ks3) mem input output size ivec

-- des3_dec_cbc_basic
abbrev pub des3_dec_cbc_basic : Memory → ℕ → ℕ → ℕ → List ℕ → List ℕ → List ℕ → ℕ → Memory
des3_dec_cbc_basic mem input output size ks1 ks2 ks3 ivec =
    cbc_basic (dec3_body ks1 ks2 ks3) mem input output size ivec

-- *out = *in ^ t, for a type of `n` bytes
abbrev pub xor_copy : Memory → ℕ → ℕ → ℕ → ℕ → Memory
xor_copy mem src dst n t = store mem dst n (bit_xor (load mem src n) (t % 256 ^ n))

-- cfb_one_basic after the encryption, with what remains of `t` and the addresses
unfoldable pub cfb_xor : Memory → ℕ → ℕ → ℕ → ℕ → Memory
cfb_xor mem src dst size t =
    let one = bit_and size 1 in
    let two = bit_and size 2 in
    let four = bit_and size 4 in
    let mem1 = if one == 0 then mem else xor_copy mem src dst 1 t in
    let t1 = t / 256 ^ one in
    let mem2 = if two == 0 then mem1 else xor_copy mem1 (src + one) (dst + one) 2 t1 in
    let t2 = t1 / 256 ^ two in
    if four == 0 then mem2 else xor_copy mem2 (src + one + two) (dst + one + two) 4 t2

-- cfb_one_basic
unfoldable pub cfb_one_basic : Memory → ℕ → ℕ → ℕ → List ℕ → ℕ → Memory
cfb_one_basic mem input output size ks ivec =
    if is_null input output ivec
    then mem
    else cfb_xor mem input output size (enc_dec_1 (load mem ivec 8) ks true)

-- docsis_des_enc_basic
unfoldable pub docsis_des_enc_basic : Memory → ℕ → ℕ → ℕ → List ℕ → ℕ → Memory
docsis_des_enc_basic mem input output size ks ivec =
    let nblocks = size / 8 in
    let partial = bit_and size 7 in
    let done = each_block (enc_body ks) nblocks mem input output (load mem ivec 8) in
    let ahead = 8 * nblocks in
    if is_null input output ivec
    then mem
    else if partial == 0
    then done
    else if nblocks == 0
    then cfb_one_basic done input output partial ks ivec
    else cfb_one_basic done (input + ahead) (output + ahead) partial ks (output + (ahead - 8))

-- docsis_des_dec_basic
unfoldable pub docsis_des_dec_basic : Memory → ℕ → ℕ → ℕ → List ℕ → ℕ → Memory
docsis_des_dec_basic mem input output size ks ivec =
    let nblocks = size / 8 in
    let partial = bit_and size 7 in
    let iv = load mem ivec 8 in
    let ahead = 8 * nblocks in
    let tail =
      cfb_one_basic mem (input + ahead) (output + ahead) partial ks (input + (ahead - 8)) in
    if is_null input output ivec
    then mem
    else if partial == 0
    then each_block (dec_body ks) nblocks mem input output iv
    else if nblocks == 0
    then cfb_one_basic mem input output partial ks ivec
    else each_block (dec_body ks) nblocks tail input output iv
