-- ===== src/Cpu/Detect.antt =====
-- About the features that cpu_feature_detect of lib/cpu_feature.c reports.
use intel_ipsec_mb.Base.{
  ℕ, ◌*◌, ◌^◌, max, bit_and, bit_or, Bool, true, false, ◌&&◌, ◌≡◌, refl, ◌∙◌, ap, ◌==◌, ◌!=◌, leb,
  ltb, if◌then◌else◌, List, [], ◌∷◌, nth, arith,
}
use intel_ipsec_mb.Base.Digit.{digit, digit-bit_or, digit-zero}
use intel_ipsec_mb.Cpu.{CpuidRegs, Leaves, Feat, feat_tab, detect_rows, cpu_feature_detect}
use intel_ipsec_mb.Cpu.Bits.{bit_test}
use intel_ipsec_mb.Cpu.Weighted.{one_if, weighted, one_bit}

-- What a row of the table adds to a bit
abbrev adds : ℕ → Leaves → ℕ → Feat → ℕ
adds hi leaves k f = one_if (leb f.req_leaf_number hi && (f.detect_fn leaves != 0)) * digit k f.feat

all_add : ℕ → Leaves → ℕ → List Feat → ℕ
all_add hi leaves k [] = 0
all_add hi leaves k (f ∷ rows) = max (adds hi leaves k f) (all_add hi leaves k rows)

rows_digit :
    (hi : ℕ) (leaves : Leaves) (k : ℕ) (rows : List Feat) (features : ℕ)
    → digit k (detect_rows hi leaves rows features)
      ≡ max (digit k features) (all_add hi leaves k rows)
unfolding detect_rows all_add
rows_digit hi leaves k [] features = omega arith
rows_digit hi leaves k (f ∷ rows) features =
    let found = if f.detect_fn leaves != 0 then bit_or features f.feat else features in
    let next = if ltb hi f.req_leaf_number then features else found in
    rows_digit hi leaves k rows next ∙ ground (arith, digit-bit_or k features f.feat)

-- The feature with the bit k: the CPUID leaf, its register and the bit of that, or a build option
abbrev pub is_present : (ℕ → ℕ → CpuidRegs) → Bool → Bool → ℕ → Bool
is_present cpuid safe_data safe_param k =
    let hi = (cpuid 0 0).eax in
    let ecx_1 = (λ (b : ℕ). leb 1 hi && (digit b (cpuid 1 0).ecx == 1)) in
    let edx_1 = (λ (b : ℕ). leb 1 hi && (digit b (cpuid 1 0).edx == 1)) in
    let ebx_7 = (λ (b : ℕ). leb 7 hi && (digit b (cpuid 7 0).ebx == 1)) in
    let ecx_7 = (λ (b : ℕ). leb 7 hi && (digit b (cpuid 7 0).ecx == 1)) in
    nth false
      (ebx_7 29
        ∷ ecx_1 25
        ∷ ecx_1 1
        ∷ edx_1 15
        ∷ ecx_1 20
        ∷ ecx_1 28
        ∷ ebx_7 5
        ∷ ebx_7 16
        ∷ ebx_7 17
        ∷ ebx_7 28
        ∷ ebx_7 30
        ∷ ebx_7 31
        ∷ ecx_7 9
        ∷ ecx_7 10
        ∷ safe_data
        ∷ safe_param
        ∷ ecx_7 8
        ∷ [])
      k

-- A test of a register that is read where its leaf is
read_test :
    (known : Bool) (b x y : ℕ)
    → (known ≡ true → x ≡ y)
    → (known && (bit_and x (2 ^ b) != 0)) ≡ (known && (digit b y == 1))
read_test true b x y h = rw (h refl) (bit_test b y)
read_test false b x y h = refl

module _ (cpuid : ℕ → ℕ → CpuidRegs) (leaves : Leaves) where
  abbrev hi : ℕ
  hi = (cpuid 0 0).eax

  abbrev read : Leaves
  read =
      let leaves = if leb 1 hi then record leaves { cpuid_1_0 = cpuid 1 0 } else leaves in
      if leb 7 hi then record leaves { cpuid_7_0 = cpuid 7 0 } else leaves

  read_1 : leb 1 hi ≡ true → read.cpuid_1_0 ≡ cpuid 1 0
  read_1 h = ground arith

  read_7 : leb 7 hi ≡ true → read.cpuid_7_0 ≡ cpuid 7 0
  read_7 h = ground arith

  abbrev raw_ecx_1 : ℕ → Bool
  raw_ecx_1 b = leb 1 hi && (bit_and read.cpuid_1_0.ecx (2 ^ b) != 0)

  abbrev raw_edx_1 : ℕ → Bool
  raw_edx_1 b = leb 1 hi && (bit_and read.cpuid_1_0.edx (2 ^ b) != 0)

  abbrev raw_ebx_7 : ℕ → Bool
  raw_ebx_7 b = leb 7 hi && (bit_and read.cpuid_7_0.ebx (2 ^ b) != 0)

  abbrev raw_ecx_7 : ℕ → Bool
  raw_ecx_7 b = leb 7 hi && (bit_and read.cpuid_7_0.ecx (2 ^ b) != 0)

  ecx_1 : (b : ℕ) → raw_ecx_1 b ≡ (leb 1 hi && (digit b (cpuid 1 0).ecx == 1))
  ecx_1 b =
      read_test (leb 1 hi) b read.cpuid_1_0.ecx (cpuid 1 0).ecx (λ h. ap (λ r. r.ecx) (read_1 h))

  edx_1 : (b : ℕ) → raw_edx_1 b ≡ (leb 1 hi && (digit b (cpuid 1 0).edx == 1))
  edx_1 b =
      read_test (leb 1 hi) b read.cpuid_1_0.edx (cpuid 1 0).edx (λ h. ap (λ r. r.edx) (read_1 h))

  ebx_7 : (b : ℕ) → raw_ebx_7 b ≡ (leb 7 hi && (digit b (cpuid 7 0).ebx == 1))
  ebx_7 b =
      read_test (leb 7 hi) b read.cpuid_7_0.ebx (cpuid 7 0).ebx (λ h. ap (λ r. r.ebx) (read_7 h))

  ecx_7 : (b : ℕ) → raw_ecx_7 b ≡ (leb 7 hi && (digit b (cpuid 7 0).ecx == 1))
  ecx_7 b =
      read_test (leb 7 hi) b read.cpuid_7_0.ecx (cpuid 7 0).ecx (λ h. ap (λ r. r.ecx) (read_7 h))

  -- The tests of the table in the order of the bits, before and after
  tests_lem :
      (safe_data safe_param : Bool) (k : ℕ)
      → nth false
          (raw_ebx_7 29
            ∷ raw_ecx_1 25
            ∷ raw_ecx_1 1
            ∷ raw_edx_1 15
            ∷ raw_ecx_1 20
            ∷ raw_ecx_1 28
            ∷ raw_ebx_7 5
            ∷ raw_ebx_7 16
            ∷ raw_ebx_7 17
            ∷ raw_ebx_7 28
            ∷ raw_ebx_7 30
            ∷ raw_ebx_7 31
            ∷ raw_ecx_7 9
            ∷ raw_ecx_7 10
            ∷ safe_data
            ∷ safe_param
            ∷ raw_ecx_7 8
            ∷ [])
          k
        ≡ is_present cpuid safe_data safe_param k
  tests_lem safe_data safe_param k =
      rw
        (
          ebx_7 29,
          ecx_1 25,
          ecx_1 1,
          edx_1 15,
          ecx_1 20,
          ecx_1 28,
          ebx_7 5,
          ebx_7 16,
          ebx_7 17,
          ebx_7 28,
          ebx_7 30,
          ebx_7 31,
          ecx_7 9,
          ecx_7 10,
          ecx_7 8,
        )
        refl

  -- The loop over the table
  table_digit :
      (k : ℕ)
      → digit k (detect_rows hi read feat_tab 0)
        ≡ weighted k
            (raw_ebx_7 29
              ∷ raw_ecx_1 25
              ∷ raw_ecx_1 1
              ∷ raw_edx_1 15
              ∷ raw_ecx_1 20
              ∷ raw_ecx_1 28
              ∷ raw_ebx_7 5
              ∷ raw_ebx_7 16
              ∷ raw_ebx_7 17
              ∷ raw_ebx_7 28
              ∷ raw_ebx_7 30
              ∷ raw_ebx_7 31
              ∷ raw_ecx_7 9
              ∷ raw_ecx_7 10
              ∷ raw_ecx_7 8
              ∷ [])
            (0 ∷ 1 ∷ 2 ∷ 3 ∷ 4 ∷ 5 ∷ 6 ∷ 7 ∷ 8 ∷ 9 ∷ 10 ∷ 11 ∷ 12 ∷ 13 ∷ 16 ∷ [])
  unfolding all_add
  table_digit k =
      rows_digit hi read k feat_tab 0
      ∙ ap (λ d. max d (all_add hi read k feat_tab)) (digit-zero k)
      ∙ max_zero (all_add hi read k feat_tab)
    where
      max_zero : (x : ℕ) → max 0 x ≡ x
      max_zero x = omega arith

option_digit :
    (k j features : ℕ) (on : Bool)
    → digit k (if on then bit_or features (2 ^ j) else features)
      ≡ max (digit k features) (one_if on * digit k (2 ^ j))
option_digit k j features true = omega (arith, digit-bit_or k features (2 ^ j))
option_digit k j features false = omega arith

-- For each bit, cpu_feature_detect sets it where the feature with that bit is present: the highest leaf is no
-- less than the feature's leaf and the feature's bit of a register of that leaf is set, or the build option is
-- on. What was in the static variables before does not matter.
pub digit-cpu_feature_detect :
    (cpuid : ℕ → ℕ → CpuidRegs) (safe_data safe_param : Bool) (leaves : Leaves) (k : ℕ)
    → digit k (cpu_feature_detect cpuid safe_data safe_param leaves).0
      ≡ (if is_present cpuid safe_data safe_param k then 1 else 0)
unfolding cpu_feature_detect
digit-cpu_feature_detect cpuid safe_data safe_param leaves k =
    let features = detect_rows (hi cpuid leaves) (read cpuid leaves) feat_tab 0 in
    let with_data = if safe_data then bit_or features (2 ^ 14) else features in
    option_digit k 15 with_data safe_param
    ∙ ap (λ d. max d (one_if safe_param * digit k (2 ^ 15)))
        (option_digit k 14 features safe_data
          ∙ ap (λ d. max d (one_if safe_data * digit k (2 ^ 14))) (table_digit cpuid leaves k))
    ∙ one_bit (raw_ebx_7 cpuid leaves 29) (raw_ecx_1 cpuid leaves 25) (raw_ecx_1 cpuid leaves 1)
        (raw_edx_1 cpuid leaves 15) (raw_ecx_1 cpuid leaves 20) (raw_ecx_1 cpuid leaves 28)
        (raw_ebx_7 cpuid leaves 5) (raw_ebx_7 cpuid leaves 16) (raw_ebx_7 cpuid leaves 17)
        (raw_ebx_7 cpuid leaves 28) (raw_ebx_7 cpuid leaves 30) (raw_ebx_7 cpuid leaves 31)
        (raw_ecx_7 cpuid leaves 9) (raw_ecx_7 cpuid leaves 10) (raw_ecx_7 cpuid leaves 8) safe_data
        safe_param k
    ∙ ap one_if (tests_lem cpuid leaves safe_data safe_param k)
