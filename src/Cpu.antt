-- ===== src/Cpu.antt =====
-- The detection of processor features: lib/cpu_feature.c. The CPUID instruction is a parameter.
use intel_ipsec_mb.Base.{
  ℕ, ◌-◌, ◌^◌, bit_and, bit_or, Bool, ltb, leb, ◌==◌, ◌!=◌, if◌then◌else◌, List, [], ◌∷◌,
}
pub mod Bits
mod Weighted
pub mod Detect
pub mod Disabled
mod Tests

-- struct cpuid_regs
pub record CpuidRegs : Type 0 where
  pub eax : ℕ
  pub ebx : ℕ
  pub ecx : ℕ
  pub edx : ℕ

-- The static variables cpuid_1_0 and cpuid_7_0
pub record Leaves : Type 0 where
  pub cpuid_1_0 : CpuidRegs
  pub cpuid_7_0 : CpuidRegs

abbrev pub detect_shani : Leaves → ℕ
detect_shani leaves = bit_and leaves.cpuid_7_0.ebx (2 ^ 29)

abbrev pub detect_aesni : Leaves → ℕ
detect_aesni leaves = bit_and leaves.cpuid_1_0.ecx (2 ^ 25)

abbrev pub detect_pclmulqdq : Leaves → ℕ
detect_pclmulqdq leaves = bit_and leaves.cpuid_1_0.ecx (2 ^ 1)

abbrev pub detect_cmov : Leaves → ℕ
detect_cmov leaves = bit_and leaves.cpuid_1_0.edx (2 ^ 15)

abbrev pub detect_sse42 : Leaves → ℕ
detect_sse42 leaves = bit_and leaves.cpuid_1_0.ecx (2 ^ 20)

abbrev pub detect_avx : Leaves → ℕ
detect_avx leaves = bit_and leaves.cpuid_1_0.ecx (2 ^ 28)

abbrev pub detect_avx2 : Leaves → ℕ
detect_avx2 leaves = bit_and leaves.cpuid_7_0.ebx (2 ^ 5)

abbrev pub detect_avx512f : Leaves → ℕ
detect_avx512f leaves = bit_and leaves.cpuid_7_0.ebx (2 ^ 16)

abbrev pub detect_avx512dq : Leaves → ℕ
detect_avx512dq leaves = bit_and leaves.cpuid_7_0.ebx (2 ^ 17)

abbrev pub detect_avx512cd : Leaves → ℕ
detect_avx512cd leaves = bit_and leaves.cpuid_7_0.ebx (2 ^ 28)

abbrev pub detect_avx512bw : Leaves → ℕ
detect_avx512bw leaves = bit_and leaves.cpuid_7_0.ebx (2 ^ 30)

abbrev pub detect_avx512vl : Leaves → ℕ
detect_avx512vl leaves = bit_and leaves.cpuid_7_0.ebx (2 ^ 31)

abbrev pub detect_vaes : Leaves → ℕ
detect_vaes leaves = bit_and leaves.cpuid_7_0.ecx (2 ^ 9)

abbrev pub detect_vpclmulqdq : Leaves → ℕ
detect_vpclmulqdq leaves = bit_and leaves.cpuid_7_0.ecx (2 ^ 10)

abbrev pub detect_gfni : Leaves → ℕ
detect_gfni leaves = bit_and leaves.cpuid_7_0.ecx (2 ^ 8)

-- A row of feat_tab; IMB_FEATURE_x is a power of two
pub record Feat : Type 0 where
  pub req_leaf_number : ℕ
  pub feat : ℕ
  pub detect_fn : Leaves → ℕ

abbrev row : ℕ → ℕ → (Leaves → ℕ) → Feat
row leaf bit fn = record { req_leaf_number = leaf; feat = 2 ^ bit; detect_fn = fn }

abbrev pub feat_tab : List Feat
feat_tab =
    row 7 0 detect_shani
    ∷ row 1 1 detect_aesni
    ∷ row 1 2 detect_pclmulqdq
    ∷ row 1 3 detect_cmov
    ∷ row 1 4 detect_sse42
    ∷ row 1 5 detect_avx
    ∷ row 7 6 detect_avx2
    ∷ row 7 7 detect_avx512f
    ∷ row 7 8 detect_avx512dq
    ∷ row 7 9 detect_avx512cd
    ∷ row 7 10 detect_avx512bw
    ∷ row 7 11 detect_avx512vl
    ∷ row 7 12 detect_vaes
    ∷ row 7 13 detect_vpclmulqdq
    ∷ row 7 16 detect_gfni
    ∷ []

-- The loop of cpu_feature_detect
unfoldable pub detect_rows : ℕ → Leaves → List Feat → ℕ → ℕ
detect_rows hi_leaf_number leaves [] features = features
detect_rows hi_leaf_number leaves (f ∷ rows) features =
    let found = if f.detect_fn leaves != 0 then bit_or features f.feat else features in
    detect_rows hi_leaf_number leaves rows
      (if ltb hi_leaf_number f.req_leaf_number then features else found)

-- cpu_feature_detect, with the static variables before it and the build options SAFE_DATA and SAFE_PARAM; the
-- result is the features and the static variables after it
unfoldable pub cpu_feature_detect : (ℕ → ℕ → CpuidRegs) → Bool → Bool → Leaves → ℕ × Leaves
cpu_feature_detect cpuid safe_data safe_param leaves =
    let hi = (cpuid 0 0).eax in
    let leaves = if leb 1 hi then record leaves { cpuid_1_0 = cpuid 1 0 } else leaves in
    let leaves = if leb 7 hi then record leaves { cpuid_7_0 = cpuid 7 0 } else leaves in
    let features = detect_rows hi leaves feat_tab 0 in
    let features = if safe_data then bit_or features (2 ^ 14) else features in
    (if safe_param then bit_or features (2 ^ 15) else features, leaves)

-- cpu_feature_adjust; `~x` of a 64-bit x is 2 ^ 64 - 1 less x
unfoldable pub cpu_feature_adjust : ℕ → ℕ → ℕ
cpu_feature_adjust flags features =
    let shani = 2 ^ 64 - 1 - 2 ^ 0 in
    let aesni = 2 ^ 64 - 1 - 2 ^ 1 in
    let features = if bit_and flags (2 ^ 0) != 0 then bit_and features shani else features in
    if bit_and flags (2 ^ 1) != 0 then bit_and features aesni else features
