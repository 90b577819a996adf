-- ===== src/Des/Boxes.antt =====
-- The tables of lib/des_basic.c that join an S box with the permutation after it.
use intel_ipsec_mb.Base.{ℕ, List, [], ◌∷◌}

abbrev pub sbox0p : List ℕ
sbox0p =
    0x00410100 ∷ 0x00010000 ∷ 0x40400000 ∷ 0x40410100 ∷ 0x00400000 ∷ 0x40010100 ∷ 0x40010000
    ∷ 0x40400000 ∷ 0x40010100 ∷ 0x00410100 ∷ 0x00410000 ∷ 0x40000100 ∷ 0x40400100 ∷ 0x00400000
    ∷ 0x00000000 ∷ 0x40010000 ∷ 0x00010000 ∷ 0x40000000 ∷ 0x00400100 ∷ 0x00010100 ∷ 0x40410100
    ∷ 0x00410000 ∷ 0x40000100 ∷ 0x00400100 ∷ 0x40000000 ∷ 0x00000100 ∷ 0x00010100 ∷ 0x40410000
    ∷ 0x00000100 ∷ 0x40400100 ∷ 0x40410000 ∷ 0x00000000 ∷ 0x00000000 ∷ 0x40410100 ∷ 0x00400100
    ∷ 0x40010000 ∷ 0x00410100 ∷ 0x00010000 ∷ 0x40000100 ∷ 0x00400100 ∷ 0x40410000 ∷ 0x00000100
    ∷ 0x00010100 ∷ 0x40400000 ∷ 0x40010100 ∷ 0x40000000 ∷ 0x40400000 ∷ 0x00410000 ∷ 0x40410100
    ∷ 0x00010100 ∷ 0x00410000 ∷ 0x40400100 ∷ 0x00400000 ∷ 0x40000100 ∷ 0x40010000 ∷ 0x00000000
    ∷ 0x00010000 ∷ 0x00400000 ∷ 0x40400100 ∷ 0x00410100 ∷ 0x40000000 ∷ 0x40410000 ∷ 0x00000100
    ∷ 0x40010100 ∷ []

abbrev pub sbox1p : List ℕ
sbox1p =
    0x08021002 ∷ 0x00000000 ∷ 0x00021000 ∷ 0x08020000 ∷ 0x08000002 ∷ 0x00001002 ∷ 0x08001000
    ∷ 0x00021000 ∷ 0x00001000 ∷ 0x08020002 ∷ 0x00000002 ∷ 0x08001000 ∷ 0x00020002 ∷ 0x08021000
    ∷ 0x08020000 ∷ 0x00000002 ∷ 0x00020000 ∷ 0x08001002 ∷ 0x08020002 ∷ 0x00001000 ∷ 0x00021002
    ∷ 0x08000000 ∷ 0x00000000 ∷ 0x00020002 ∷ 0x08001002 ∷ 0x00021002 ∷ 0x08021000 ∷ 0x08000002
    ∷ 0x08000000 ∷ 0x00020000 ∷ 0x00001002 ∷ 0x08021002 ∷ 0x00020002 ∷ 0x08021000 ∷ 0x08001000
    ∷ 0x00021002 ∷ 0x08021002 ∷ 0x00020002 ∷ 0x08000002 ∷ 0x00000000 ∷ 0x08000000 ∷ 0x00001002
    ∷ 0x00020000 ∷ 0x08020002 ∷ 0x00001000 ∷ 0x08000000 ∷ 0x00021002 ∷ 0x08001002 ∷ 0x08021000
    ∷ 0x00001000 ∷ 0x00000000 ∷ 0x08000002 ∷ 0x00000002 ∷ 0x08021002 ∷ 0x00021000 ∷ 0x08020000
    ∷ 0x08020002 ∷ 0x00020000 ∷ 0x00001002 ∷ 0x08001000 ∷ 0x08001002 ∷ 0x00000002 ∷ 0x08020000
    ∷ 0x00021000 ∷ []

abbrev pub sbox2p : List ℕ
sbox2p =
    0x20800000 ∷ 0x00808020 ∷ 0x00000020 ∷ 0x20800020 ∷ 0x20008000 ∷ 0x00800000 ∷ 0x20800020
    ∷ 0x00008020 ∷ 0x00800020 ∷ 0x00008000 ∷ 0x00808000 ∷ 0x20000000 ∷ 0x20808020 ∷ 0x20000020
    ∷ 0x20000000 ∷ 0x20808000 ∷ 0x00000000 ∷ 0x20008000 ∷ 0x00808020 ∷ 0x00000020 ∷ 0x20000020
    ∷ 0x20808020 ∷ 0x00008000 ∷ 0x20800000 ∷ 0x20808000 ∷ 0x00800020 ∷ 0x20008020 ∷ 0x00808000
    ∷ 0x00008020 ∷ 0x00000000 ∷ 0x00800000 ∷ 0x20008020 ∷ 0x00808020 ∷ 0x00000020 ∷ 0x20000000
    ∷ 0x00008000 ∷ 0x20000020 ∷ 0x20008000 ∷ 0x00808000 ∷ 0x20800020 ∷ 0x00000000 ∷ 0x00808020
    ∷ 0x00008020 ∷ 0x20808000 ∷ 0x20008000 ∷ 0x00800000 ∷ 0x20808020 ∷ 0x20000000 ∷ 0x20008020
    ∷ 0x20800000 ∷ 0x00800000 ∷ 0x20808020 ∷ 0x00008000 ∷ 0x00800020 ∷ 0x20800020 ∷ 0x00008020
    ∷ 0x00800020 ∷ 0x00000000 ∷ 0x20808000 ∷ 0x20000020 ∷ 0x20800000 ∷ 0x20008020 ∷ 0x00000020
    ∷ 0x00808000 ∷ []

abbrev pub sbox3p : List ℕ
sbox3p =
    0x00080201 ∷ 0x02000200 ∷ 0x00000001 ∷ 0x02080201 ∷ 0x00000000 ∷ 0x02080000 ∷ 0x02000201
    ∷ 0x00080001 ∷ 0x02080200 ∷ 0x02000001 ∷ 0x02000000 ∷ 0x00000201 ∷ 0x02000001 ∷ 0x00080201
    ∷ 0x00080000 ∷ 0x02000000 ∷ 0x02080001 ∷ 0x00080200 ∷ 0x00000200 ∷ 0x00000001 ∷ 0x00080200
    ∷ 0x02000201 ∷ 0x02080000 ∷ 0x00000200 ∷ 0x00000201 ∷ 0x00000000 ∷ 0x00080001 ∷ 0x02080200
    ∷ 0x02000200 ∷ 0x02080001 ∷ 0x02080201 ∷ 0x00080000 ∷ 0x02080001 ∷ 0x00000201 ∷ 0x00080000
    ∷ 0x02000001 ∷ 0x00080200 ∷ 0x02000200 ∷ 0x00000001 ∷ 0x02080000 ∷ 0x02000201 ∷ 0x00000000
    ∷ 0x00000200 ∷ 0x00080001 ∷ 0x00000000 ∷ 0x02080001 ∷ 0x02080200 ∷ 0x00000200 ∷ 0x02000000
    ∷ 0x02080201 ∷ 0x00080201 ∷ 0x00080000 ∷ 0x02080201 ∷ 0x00000001 ∷ 0x02000200 ∷ 0x00080201
    ∷ 0x00080001 ∷ 0x00080200 ∷ 0x02080000 ∷ 0x02000201 ∷ 0x00000201 ∷ 0x02000000 ∷ 0x02000001
    ∷ 0x02080200 ∷ []

abbrev pub sbox4p : List ℕ
sbox4p =
    0x01000000 ∷ 0x00002000 ∷ 0x00000080 ∷ 0x01002084 ∷ 0x01002004 ∷ 0x01000080 ∷ 0x00002084
    ∷ 0x01002000 ∷ 0x00002000 ∷ 0x00000004 ∷ 0x01000004 ∷ 0x00002080 ∷ 0x01000084 ∷ 0x01002004
    ∷ 0x01002080 ∷ 0x00000000 ∷ 0x00002080 ∷ 0x01000000 ∷ 0x00002004 ∷ 0x00000084 ∷ 0x01000080
    ∷ 0x00002084 ∷ 0x00000000 ∷ 0x01000004 ∷ 0x00000004 ∷ 0x01000084 ∷ 0x01002084 ∷ 0x00002004
    ∷ 0x01002000 ∷ 0x00000080 ∷ 0x00000084 ∷ 0x01002080 ∷ 0x01002080 ∷ 0x01000084 ∷ 0x00002004
    ∷ 0x01002000 ∷ 0x00002000 ∷ 0x00000004 ∷ 0x01000004 ∷ 0x01000080 ∷ 0x01000000 ∷ 0x00002080
    ∷ 0x01002084 ∷ 0x00000000 ∷ 0x00002084 ∷ 0x01000000 ∷ 0x00000080 ∷ 0x00002004 ∷ 0x01000084
    ∷ 0x00000080 ∷ 0x00000000 ∷ 0x01002084 ∷ 0x01002004 ∷ 0x01002080 ∷ 0x00000084 ∷ 0x00002000
    ∷ 0x00002080 ∷ 0x01002004 ∷ 0x01000080 ∷ 0x00000084 ∷ 0x00000004 ∷ 0x00002084 ∷ 0x01002000
    ∷ 0x01000004 ∷ []

abbrev pub sbox5p : List ℕ
sbox5p =
    0x10000008 ∷ 0x00040008 ∷ 0x00000000 ∷ 0x10040400 ∷ 0x00040008 ∷ 0x00000400 ∷ 0x10000408
    ∷ 0x00040000 ∷ 0x00000408 ∷ 0x10040408 ∷ 0x00040400 ∷ 0x10000000 ∷ 0x10000400 ∷ 0x10000008
    ∷ 0x10040000 ∷ 0x00040408 ∷ 0x00040000 ∷ 0x10000408 ∷ 0x10040008 ∷ 0x00000000 ∷ 0x00000400
    ∷ 0x00000008 ∷ 0x10040400 ∷ 0x10040008 ∷ 0x10040408 ∷ 0x10040000 ∷ 0x10000000 ∷ 0x00000408
    ∷ 0x00000008 ∷ 0x00040400 ∷ 0x00040408 ∷ 0x10000400 ∷ 0x00000408 ∷ 0x10000000 ∷ 0x10000400
    ∷ 0x00040408 ∷ 0x10040400 ∷ 0x00040008 ∷ 0x00000000 ∷ 0x10000400 ∷ 0x10000000 ∷ 0x00000400
    ∷ 0x10040008 ∷ 0x00040000 ∷ 0x00040008 ∷ 0x10040408 ∷ 0x00040400 ∷ 0x00000008 ∷ 0x10040408
    ∷ 0x00040400 ∷ 0x00040000 ∷ 0x10000408 ∷ 0x10000008 ∷ 0x10040000 ∷ 0x00040408 ∷ 0x00000000
    ∷ 0x00000400 ∷ 0x10000008 ∷ 0x10000408 ∷ 0x10040400 ∷ 0x10040000 ∷ 0x00000408 ∷ 0x00000008
    ∷ 0x10040008 ∷ []

abbrev pub sbox6p : List ℕ
sbox6p =
    0x00000800 ∷ 0x00000040 ∷ 0x00200040 ∷ 0x80200000 ∷ 0x80200840 ∷ 0x80000800 ∷ 0x00000840
    ∷ 0x00000000 ∷ 0x00200000 ∷ 0x80200040 ∷ 0x80000040 ∷ 0x00200800 ∷ 0x80000000 ∷ 0x00200840
    ∷ 0x00200800 ∷ 0x80000040 ∷ 0x80200040 ∷ 0x00000800 ∷ 0x80000800 ∷ 0x80200840 ∷ 0x00000000
    ∷ 0x00200040 ∷ 0x80200000 ∷ 0x00000840 ∷ 0x80200800 ∷ 0x80000840 ∷ 0x00200840 ∷ 0x80000000
    ∷ 0x80000840 ∷ 0x80200800 ∷ 0x00000040 ∷ 0x00200000 ∷ 0x80000840 ∷ 0x00200800 ∷ 0x80200800
    ∷ 0x80000040 ∷ 0x00000800 ∷ 0x00000040 ∷ 0x00200000 ∷ 0x80200800 ∷ 0x80200040 ∷ 0x80000840
    ∷ 0x00000840 ∷ 0x00000000 ∷ 0x00000040 ∷ 0x80200000 ∷ 0x80000000 ∷ 0x00200040 ∷ 0x00000000
    ∷ 0x80200040 ∷ 0x00200040 ∷ 0x00000840 ∷ 0x80000040 ∷ 0x00000800 ∷ 0x80200840 ∷ 0x00200000
    ∷ 0x00200840 ∷ 0x80000000 ∷ 0x80000800 ∷ 0x80200840 ∷ 0x80200000 ∷ 0x00200840 ∷ 0x00200800
    ∷ 0x80000800 ∷ []

abbrev pub sbox7p : List ℕ
sbox7p =
    0x04100010 ∷ 0x04104000 ∷ 0x00004010 ∷ 0x00000000 ∷ 0x04004000 ∷ 0x00100010 ∷ 0x04100000
    ∷ 0x04104010 ∷ 0x00000010 ∷ 0x04000000 ∷ 0x00104000 ∷ 0x00004010 ∷ 0x00104010 ∷ 0x04004010
    ∷ 0x04000010 ∷ 0x04100000 ∷ 0x00004000 ∷ 0x00104010 ∷ 0x00100010 ∷ 0x04004000 ∷ 0x04104010
    ∷ 0x04000010 ∷ 0x00000000 ∷ 0x00104000 ∷ 0x04000000 ∷ 0x00100000 ∷ 0x04004010 ∷ 0x04100010
    ∷ 0x00100000 ∷ 0x00004000 ∷ 0x04104000 ∷ 0x00000010 ∷ 0x00100000 ∷ 0x00004000 ∷ 0x04000010
    ∷ 0x04104010 ∷ 0x00004010 ∷ 0x04000000 ∷ 0x00000000 ∷ 0x00104000 ∷ 0x04100010 ∷ 0x04004010
    ∷ 0x04004000 ∷ 0x00100010 ∷ 0x04104000 ∷ 0x00000010 ∷ 0x00100010 ∷ 0x04004000 ∷ 0x04104010
    ∷ 0x00100000 ∷ 0x04100000 ∷ 0x04000010 ∷ 0x00104000 ∷ 0x00004010 ∷ 0x04004010 ∷ 0x04100000
    ∷ 0x00000010 ∷ 0x04104000 ∷ 0x00104010 ∷ 0x00000000 ∷ 0x04000000 ∷ 0x04100010 ∷ 0x00004000
    ∷ 0x00104010 ∷ []
