-- ===== src/Cpu/Tests.antt =====
-- The detection of features on a concrete processor.
use intel_ipsec_mb.Base.{
  ℕ, ◌==◌, ◌&&◌, ltb, if◌then◌else◌, true, false, ◌≡◌, ◌⊎◌, refl, some, arith,
}
use intel_ipsec_mb.Base.Digit.{digit}
use intel_ipsec_mb.Auto.{noaesni, none_detected, AutoMgr, init_mb_mgr_auto}
use intel_ipsec_mb.Auto.Best.{rank}
use intel_ipsec_mb.Cpu.{CpuidRegs, Leaves, cpu_feature_detect, cpu_feature_adjust}
use intel_ipsec_mb.Cpu.Bits.{digit-cpu_feature_adjust}
use intel_ipsec_mb.Cpu.Detect.{is_present, digit-cpu_feature_detect}
use intel_ipsec_mb.Cpu.Disabled.{no_aesni_chosen}

-- Every register has its upper 16 bits set, and the highest leaf is large.
abbrev cpuid : ℕ → ℕ → CpuidRegs
cpuid leaf subleaf = record {
  eax = 0xffff0000;
  ebx = 0xffff0000;
  ecx = 0xffff0000;
  edx = 0xffff0000;
}

abbrev unread : Leaves
unread = record { cpuid_1_0 = cpuid 0 0; cpuid_7_0 = cpuid 0 0 }

digit-cpu_feature_detect_example :
    digit 11 (cpu_feature_detect cpuid true false unread).0
    ≡ (if is_present cpuid true false 11 then 1 else 0)
digit-cpu_feature_detect_example = digit-cpu_feature_detect cpuid true false unread 11

digit-cpu_feature_adjust_example :
    digit 1 (cpu_feature_adjust 2 127) ≡ (if ltb 1 2 && (digit 1 2 == 1) then 0 else digit 1 127)
digit-cpu_feature_adjust_example = digit-cpu_feature_adjust 2 127 1 (omega arith)

abbrev manager : AutoMgr ℕ
manager = record {
  features = cpu_feature_adjust 2 127;
  errno = record { mgr_errno = some 0; global_errno = 0 };
  rest = 9;
}

no_aesni_chosen_example :
    let arch = (init_mb_mgr_auto (λ a s. rank a) manager).1 in
    (arch ≡ noaesni) ⊎ (arch ≡ none_detected)
no_aesni_chosen_example = no_aesni_chosen (λ a s. rank a) manager 2 127 refl refl
