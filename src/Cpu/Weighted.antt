-- ===== src/Cpu/Weighted.antt =====
-- About bits that are set one by one: each row of the table of lib/cpu_feature.c has a bit of its own.
use intel_ipsec_mb.Base.{
  ℕ, zero, suc, ◌*◌, ◌^◌, max, Bool, false, ◌≡◌, if◌then◌else◌, List, [], ◌∷◌, nth, arith,
}
use intel_ipsec_mb.Base.Digit.{digit, digit-zero}

abbrev pub one_if : Bool → ℕ
one_if b = if b then 1 else 0

-- The rows of the table and the build options, one bit each
abbrev pub weighted : ℕ → List Bool → List ℕ → ℕ
weighted k [] bits = 0
weighted k (c ∷ cs) [] = 0
weighted k (c ∷ cs) (b ∷ bits) = max (one_if c * digit k (2 ^ b)) (weighted k cs bits)

pub one_bit :
    (c0 c1 c2 c3 c4 c5 c6 c7 c8 c9 c10 c11 c12 c13 c16 sd sp : Bool) (k : ℕ)
    → let rows =
        weighted k
          (c0 ∷ c1 ∷ c2 ∷ c3 ∷ c4 ∷ c5 ∷ c6 ∷ c7 ∷ c8 ∷ c9 ∷ c10 ∷ c11 ∷ c12 ∷ c13 ∷ c16 ∷ [])
          (0 ∷ 1 ∷ 2 ∷ 3 ∷ 4 ∷ 5 ∷ 6 ∷ 7 ∷ 8 ∷ 9 ∷ 10 ∷ 11 ∷ 12 ∷ 13 ∷ 16 ∷ []) in
      max (max rows (one_if sd * digit k (2 ^ 14))) (one_if sp * digit k (2 ^ 15))
      ≡ one_if (
          nth false
            (c0 ∷ c1 ∷ c2 ∷ c3 ∷ c4 ∷ c5 ∷ c6 ∷ c7 ∷ c8 ∷ c9 ∷ c10 ∷ c11 ∷ c12 ∷ c13 ∷ sd ∷ sp ∷ c16
              ∷ [])
            k)
one_bit c0 c1 c2 c3 c4 c5 c6 c7 c8 c9 c10 c11 c12 c13 c16 sd sp zero = omega arith
one_bit c0 c1 c2 c3 c4 c5 c6 c7 c8 c9 c10 c11 c12 c13 c16 sd sp (suc zero) = omega arith
one_bit c0 c1 c2 c3 c4 c5 c6 c7 c8 c9 c10 c11 c12 c13 c16 sd sp (suc (suc zero)) = omega arith
one_bit c0 c1 c2 c3 c4 c5 c6 c7 c8 c9 c10 c11 c12 c13 c16 sd sp (suc (suc (suc zero))) = omega arith
one_bit c0 c1 c2 c3 c4 c5 c6 c7 c8 c9 c10 c11 c12 c13 c16 sd sp (suc (suc (suc (suc zero)))) =
    omega arith
one_bit c0 c1 c2 c3 c4 c5 c6 c7 c8 c9 c10 c11 c12 c13 c16 sd sp (suc (suc (suc (suc (suc zero))))) =
    omega arith
one_bit c0 c1 c2 c3 c4 c5 c6 c7 c8 c9 c10 c11 c12 c13 c16 sd sp
      (suc (suc (suc (suc (suc (suc zero)))))) =
    omega arith
one_bit c0 c1 c2 c3 c4 c5 c6 c7 c8 c9 c10 c11 c12 c13 c16 sd sp
      (suc (suc (suc (suc (suc (suc (suc zero))))))) =
    omega arith
one_bit c0 c1 c2 c3 c4 c5 c6 c7 c8 c9 c10 c11 c12 c13 c16 sd sp
      (suc (suc (suc (suc (suc (suc (suc (suc zero)))))))) =
    omega arith
one_bit c0 c1 c2 c3 c4 c5 c6 c7 c8 c9 c10 c11 c12 c13 c16 sd sp
      (suc (suc (suc (suc (suc (suc (suc (suc (suc zero))))))))) =
    omega arith
one_bit c0 c1 c2 c3 c4 c5 c6 c7 c8 c9 c10 c11 c12 c13 c16 sd sp
      (suc (suc (suc (suc (suc (suc (suc (suc (suc (suc zero)))))))))) =
    omega arith
one_bit c0 c1 c2 c3 c4 c5 c6 c7 c8 c9 c10 c11 c12 c13 c16 sd sp
      (suc (suc (suc (suc (suc (suc (suc (suc (suc (suc (suc zero))))))))))) =
    omega arith
one_bit c0 c1 c2 c3 c4 c5 c6 c7 c8 c9 c10 c11 c12 c13 c16 sd sp
      (suc (suc (suc (suc (suc (suc (suc (suc (suc (suc (suc (suc zero)))))))))))) =
    omega arith
one_bit c0 c1 c2 c3 c4 c5 c6 c7 c8 c9 c10 c11 c12 c13 c16 sd sp
      (suc (suc (suc (suc (suc (suc (suc (suc (suc (suc (suc (suc (suc zero))))))))))))) =
    omega arith
one_bit c0 c1 c2 c3 c4 c5 c6 c7 c8 c9 c10 c11 c12 c13 c16 sd sp
      (suc (suc (suc (suc (suc (suc (suc (suc (suc (suc (suc (suc (suc (suc zero)))))))))))))) =
    omega arith
one_bit c0 c1 c2 c3 c4 c5 c6 c7 c8 c9 c10 c11 c12 c13 c16 sd sp
      (suc
        (suc (suc (suc (suc (suc (suc (suc (suc (suc (suc (suc (suc (suc (suc zero))))))))))))))) =
    omega arith
one_bit c0 c1 c2 c3 c4 c5 c6 c7 c8 c9 c10 c11 c12 c13 c16 sd sp
      (suc (
        suc (
          suc
            (suc (suc (suc (suc (suc (suc (suc (suc (suc (suc (suc (suc (suc zero)))))))))))))))) =
    omega arith
one_bit c0 c1 c2 c3 c4 c5 c6 c7 c8 c9 c10 c11 c12 c13 c16 sd sp
      (suc (
        suc (
          suc (
            suc
              (suc (suc (suc (suc (suc (suc (suc (suc (suc (suc (suc (suc (suc k))))))))))))))))) =
    rw (digit-zero k) (omega arith)
