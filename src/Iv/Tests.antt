-- ===== src/Iv/Tests.antt =====
-- The theorems on the initialization vectors at concrete parameters.
use intel_ipsec_mb.Base.{ℕ, ◌≡◌, some, List, arith}
use intel_ipsec_mb.Iv.{zuc_eea3_iv_gen, zuc_eia3_iv_gen, snow3g_f8_iv_gen, snow3g_f9_iv_gen}
use intel_ipsec_mb.Iv.Snow3g.{snow3g_f8-zuc_eea3, IsSnow3gF9, snow3g_f9_iv_gen-IsSnow3gF9}
use intel_ipsec_mb.Iv.Decode.{IsEea3, zuc_eea3_iv_gen-IsEea3, IsEia3, zuc_eia3_iv_gen-IsEia3}

zuc_eea3_iv_gen-IsEea3_example :
    (bytes : List ℕ) × (zuc_eea3_iv_gen 0x66035492 15 1 4096 ≡ some bytes)
    × IsEea3 0x66035492 15 1 bytes
zuc_eea3_iv_gen-IsEea3_example =
    zuc_eea3_iv_gen-IsEea3 0x66035492 15 1 4096 (omega arith) (omega arith) (omega arith)
      (λ e. omega arith)

zuc_eia3_iv_gen-IsEia3_example :
    (bytes : List ℕ) × (zuc_eia3_iv_gen 0xa94059da 10 1 4096 ≡ some bytes)
    × IsEia3 0xa94059da 10 1 bytes
zuc_eia3_iv_gen-IsEia3_example =
    zuc_eia3_iv_gen-IsEia3 0xa94059da 10 1 4096 (omega arith) (omega arith) (omega arith)
      (λ e. omega arith)

abbrev buffer : ℕ
buffer = 4096

snow3g_f8-zuc_eea3_example :
    snow3g_f8_iv_gen 0x66035492 15 1 buffer ≡ zuc_eea3_iv_gen 0x66035492 15 1 buffer
snow3g_f8-zuc_eea3_example = snow3g_f8-zuc_eea3 0x66035492 15 1 buffer

snow3g_f9_iv_gen-IsSnow3gF9_example :
    (bytes : List ℕ) × (snow3g_f9_iv_gen 0x38a6f056 0x05d2ec49 1 buffer ≡ some bytes)
    × IsSnow3gF9 0x38a6f056 0x05d2ec49 1 bytes
snow3g_f9_iv_gen-IsSnow3gF9_example =
    snow3g_f9_iv_gen-IsSnow3gF9 0x38a6f056 0x05d2ec49 1 buffer (omega arith) (omega arith)
      (omega arith) (λ e. omega arith)
