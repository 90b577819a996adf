-- ===== src/Alloc.antt =====
-- The allocation of a manager: lib/alloc.c in the LINUX build. posix_memalign, the sizes of the structures and
-- the detected features are parameters.
use intel_ipsec_mb.Base.{
  ℕ, suc, Bool, true, false, ◌==◌, if◌then◌else◌, Option, none, some, List, [], ◌∷◌, update,
}
use intel_ipsec_mb.Cpu.{cpu_feature_adjust}
pub mod Release
mod Loop
pub mod Result
mod Tests

-- What follows a call that may be undefined
infixl 5 ◌>>=◌
abbrev pub ◌>>=◌ : {A B : Type 0} → Option A → (A → Option B) → Option B
some a >>= f = f a
none >>= f = none

-- The structures that are allocated
pub data Structure : Type 0 where
  imb_mgr aes_ooo docsis_aes_ooo des_ooo zuc_ooo hmac_sha_1 hmac_sha_256 hmac_sha_512 hmac_md5 :
      Structure
  aes_xcbc ccm cmac : Structure

-- The pointers to out-of-order managers in an IMB_MGR
pub data Ooo : Type 0 where
  aes128_ooo aes192_ooo aes256_ooo docsis128_sec_ooo docsis128_crc32_sec_ooo : Ooo
  docsis256_sec_ooo docsis256_crc32_sec_ooo des_enc_ooo des_dec_ooo des3_enc_ooo : Ooo
  des3_dec_ooo docsis_des_enc_ooo docsis_des_dec_ooo zuc_eea3_ooo hmac_sha_1_ooo : Ooo
  hmac_sha_224_ooo hmac_sha_256_ooo hmac_sha_384_ooo hmac_sha_512_ooo hmac_md5_ooo : Ooo
  aes_xcbc_ooo aes_ccm_ooo aes_cmac_ooo zuc_eia3_ooo aes128_cbcs_ooo : Ooo

-- The structure that alloc_mb_mgr allocates for a pointer
abbrev pub structure : Ooo → Structure
structure aes128_ooo = aes_ooo
structure aes192_ooo = aes_ooo
structure aes256_ooo = aes_ooo
structure docsis128_sec_ooo = docsis_aes_ooo
structure docsis128_crc32_sec_ooo = docsis_aes_ooo
structure docsis256_sec_ooo = docsis_aes_ooo
structure docsis256_crc32_sec_ooo = docsis_aes_ooo
structure des_enc_ooo = des_ooo
structure des_dec_ooo = des_ooo
structure des3_enc_ooo = des_ooo
structure des3_dec_ooo = des_ooo
structure docsis_des_enc_ooo = des_ooo
structure docsis_des_dec_ooo = des_ooo
structure zuc_eea3_ooo = zuc_ooo
structure hmac_sha_1_ooo = hmac_sha_1
structure hmac_sha_224_ooo = hmac_sha_256
structure hmac_sha_256_ooo = hmac_sha_256
structure hmac_sha_384_ooo = hmac_sha_512
structure hmac_sha_512_ooo = hmac_sha_512
structure hmac_md5_ooo = hmac_md5
structure aes_xcbc_ooo = aes_xcbc
structure aes_ccm_ooo = ccm
structure aes_cmac_ooo = cmac
structure zuc_eia3_ooo = zuc_ooo
structure aes128_cbcs_ooo = aes_ooo

-- The order in which alloc_mb_mgr allocates and in which both functions free
abbrev pub order : List Ooo
order =
    aes128_ooo ∷ aes192_ooo ∷ aes256_ooo ∷ docsis128_sec_ooo ∷ docsis128_crc32_sec_ooo
    ∷ docsis256_sec_ooo ∷ docsis256_crc32_sec_ooo ∷ des_enc_ooo ∷ des_dec_ooo ∷ des3_enc_ooo
    ∷ des3_dec_ooo ∷ docsis_des_enc_ooo ∷ docsis_des_dec_ooo ∷ zuc_eea3_ooo ∷ hmac_sha_1_ooo
    ∷ hmac_sha_224_ooo ∷ hmac_sha_256_ooo ∷ hmac_sha_384_ooo ∷ hmac_sha_512_ooo ∷ hmac_md5_ooo
    ∷ aes_xcbc_ooo ∷ aes_ccm_ooo ∷ aes_cmac_ooo ∷ zuc_eia3_ooo ∷ aes128_cbcs_ooo ∷ []

-- The heap: the addresses that are allocated, the last 8 bytes of each block, the calls of posix_memalign so
-- far, and the global imb_errno
pub record Heap : Type 0 where
  pub live : ℕ → Bool
  pub road_block : ℕ → ℕ
  pub calls : ℕ
  pub imb_errno : ℕ

-- An IMB_MGR: its address, its error status and the pointers at their places in `order`
pub record MbMgr : Type 0 where
  pub address : ℕ
  pub errno : ℕ
  pub flags : ℕ
  pub features : ℕ
  pub ooo : ℕ → ℕ

abbrev pub enomem : ℕ
enomem = 12

-- IMB_OOO_ROAD_BLOCK
abbrev pub ooo_road_block : ℕ
ooo_road_block = 0xdeadcafedeadcafe

-- posix_memalign: the address of a block of a size, 0 where it fails, from the calls before and what is allocated
abbrev pub Memalign : Type 0
Memalign = ℕ → (ℕ → Bool) → ℕ → ℕ

-- free_mem; `none` is a call with an address that is not allocated
unfoldable pub free_mem : ℕ → Heap → Option Heap
free_mem ptr heap =
    if ptr == 0
    then some heap
    else if heap.live ptr
    then some (record heap { live = update heap.live ptr false })
    else none

-- The calls of free_mem for the pointers from the place `k`
unfoldable pub free_from : List Ooo → ℕ → (ℕ → ℕ) → Heap → Option Heap
free_from [] k ooo heap = some heap
free_from (o ∷ os) k ooo heap = do heap ← free_mem (ooo k) heap; free_from os (suc k) ooo heap

-- set_ooo_mgr_road_block
unfoldable pub set_ooo_mgr_road_block : List Ooo → ℕ → (ℕ → ℕ) → Heap → Heap
set_ooo_mgr_road_block [] k ooo heap = heap
set_ooo_mgr_road_block (o ∷ os) k ooo heap =
    set_ooo_mgr_road_block os (suc k) ooo
      (record heap { road_block = update heap.road_block (ooo k) ooo_road_block })

-- free_mb_mgr, of a pointer that is not null
unfoldable pub free_mb_mgr : MbMgr → Heap → Option Heap
free_mb_mgr mgr heap = do heap ← free_from order 0 mgr.ooo heap; free_mem mgr.address heap

module _ (memalign : Memalign) (sizeof : Structure → ℕ) where
  -- alloc_aligned_mem; memset clears the block
  unfoldable pub alloc_aligned_mem : Structure → Heap → ℕ × Heap
  alloc_aligned_mem s heap =
      let ptr = memalign heap.calls heap.live (sizeof s) in
      let called = record heap { calls = suc heap.calls } in
      if ptr == 0 then (0, called) else (
        ptr,
        record called {
          live = update heap.live ptr true;
          road_block = update heap.road_block ptr 0;
        },
      )

  -- The allocations for the pointers from the place `k`, up to the first that fails
  unfoldable pub alloc_from : List Ooo → ℕ → (ℕ → ℕ) → Heap → Bool × (ℕ → ℕ) × Heap
  alloc_from [] k ooo heap = (true, ooo, heap)
  alloc_from (o ∷ os) k ooo heap =
      let (ptr, heap') = alloc_aligned_mem (structure o) heap in
      let ooo' = update ooo k ptr in
      let rest = alloc_from os (suc k) ooo' heap' in if ptr == 0 then (false, ooo', heap') else rest

  -- alloc_mb_mgr, with what cpu_feature_detect returns; `none` for NULL
  unfoldable pub alloc_mb_mgr : ℕ → ℕ → Heap → Option (Option MbMgr × Heap)
  alloc_mb_mgr detected flags heap =
      let (ptr, heap1) = alloc_aligned_mem imb_mgr heap in
      let (done, ooo, heap2) = alloc_from order 0 (λ k. 0) (record heap1 { imb_errno = 0 }) in
      let mgr : MbMgr = record {
        address = ptr;
        errno = 0;
        flags = flags;
        features = cpu_feature_adjust flags detected;
        ooo = ooo;
      } in
      if ptr == 0
      then some (none, record heap1 { imb_errno = enomem })
      else if done
      then some (some mgr, set_ooo_mgr_road_block order 0 ooo heap2)
      else do
        heap3 ← free_from order 0 ooo (record heap2 { imb_errno = enomem })
        heap4 ← free_mem ptr heap3
        some (none, heap4)
