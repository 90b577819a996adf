-- ===== src/Des/Tests.antt =====
-- The theorems on DES at concrete keys and buffers, and a known answer.
use intel_ipsec_mb.Base.{
  ℕ, ◌*◌, ◌/◌, ◌%◌, ◌^◌, ◌<◌, true, ◌≡◌, refl, List, [], ◌∷◌, map, nth, not, arith, inl, inr,
}
use intel_ipsec_mb.Base.Memory.{Memory, load}
use intel_ipsec_mb.Des.Block.{
  enc_dec_1, ip_z, fp_z, enc_rounds, two_rounds, round_l, round_r, f_rk, e_phase, left_first,
  right_first,
}
use intel_ipsec_mb.Des.Schedule.{
  des_key_schedule, ks_rounds, expand_8x6_to_8x8, permute_64b, rotate28, load64_reflect, reflect_8b,
  bit_get64b, bit_set64b, permute_from, pc1c_table_fips46_3, pc1d_table_fips46_3,
}
use intel_ipsec_mb.Des.Modes.{
  des_enc_cbc_basic, des_dec_cbc_basic, des3_enc_cbc_basic, des3_dec_cbc_basic, cfb_one_basic,
  docsis_des_enc_basic, docsis_des_dec_basic,
}
use intel_ipsec_mb.Des.OneBlock.{enc_dec_1_round_trip}
use intel_ipsec_mb.Des.Chaining.{blocks}
use intel_ipsec_mb.Des.RoundTrip.{AreBuffers, des_cbc_round_trip, des3_cbc_round_trip}
use intel_ipsec_mb.Des.Docsis.{docsis_des_round_trip}
use intel_ipsec_mb.Des.Cfb.{xor_bytes}
use intel_ipsec_mb.Des.Partial.{cfb_one_basic-xor_bytes}
use intel_ipsec_mb.Des.Select.{select}
use intel_ipsec_mb.Des.Subkeys.{subkey, totals, des_key_schedule_lem}
use intel_ipsec_mb.Des.SixBits.{des_key_schedule_bound}

abbrev key : List ℕ
key = 0x13 ∷ 0x34 ∷ 0x57 ∷ 0x79 ∷ 0x9b ∷ 0xbc ∷ 0xdf ∷ 0xf1 ∷ []

abbrev ks : List ℕ
ks = des_key_schedule key

abbrev bytes : Memory
bytes x = x * 7 % 256

-- A block whose encryption is published
known_answer : enc_dec_1 0xefcdab8967452301 ks true ≡ 0x05b40a0f5413e885
unfolding enc_dec_1 ip_z fp_z enc_rounds two_rounds round_l round_r f_rk e_phase left_first
    right_first des_key_schedule ks_rounds expand_8x6_to_8x8 permute_64b rotate28 load64_reflect
    reflect_8b bit_get64b bit_set64b permute_from
known_answer = refl

enc_dec_1_round_trip_example :
    enc_dec_1 (enc_dec_1 0xefcdab8967452301 ks true) ks (not true) ≡ 0xefcdab8967452301
enc_dec_1_round_trip_example = enc_dec_1_round_trip 0xefcdab8967452301 ks true (omega arith)

apart_buffers : AreBuffers 4096 8192 24 64
apart_buffers = (
  (λ e. omega arith),
  (λ e. omega arith),
  (λ e. omega arith),
  inr (omega arith),
  inl (omega arith),
)

same_buffer : AreBuffers 8192 8192 24 64
same_buffer = (
  (λ e. omega arith),
  (λ e. omega arith),
  (λ e. omega arith),
  inl (omega arith),
  inl (omega arith),
)

des_cbc_round_trip_example :
    let done = des_enc_cbc_basic bytes 4096 8192 24 ks 64 in
    blocks (des_dec_cbc_basic done 8192 8192 24 ks 64) 8192 (24 / 8) ≡ blocks bytes 4096 (24 / 8)
des_cbc_round_trip_example =
    des_cbc_round_trip bytes 4096 8192 8192 24 64 ks (λ x. omega arith) apart_buffers same_buffer

des3_cbc_round_trip_example :
    let done = des3_enc_cbc_basic bytes 4096 8192 24 ks [] ks 64 in
    blocks (des3_dec_cbc_basic done 8192 8192 24 ks [] ks 64) 8192 (24 / 8)
    ≡ blocks bytes 4096 (24 / 8)
des3_cbc_round_trip_example =
    des3_cbc_round_trip bytes 4096 8192 8192 24 64 ks [] ks (λ x. omega arith) apart_buffers
      same_buffer

docsis_des_round_trip_example :
    docsis_des_dec_basic (docsis_des_enc_basic bytes 4096 4096 21 ks 64) 4096 4096 21 ks 64 ≡ bytes
docsis_des_round_trip_example =
    docsis_des_round_trip bytes 4096 21 64 ks (λ x. omega arith) (λ e. omega arith)
      (λ e. omega arith) (inl (omega arith))

cfb_one_basic-xor_bytes_example :
    cfb_one_basic bytes 4096 8192 7 ks 64
    ≡ xor_bytes bytes 4096 8192 7 (enc_dec_1 (load bytes 64 8) ks true)
cfb_one_basic-xor_bytes_example =
    cfb_one_basic-xor_bytes bytes 4096 8192 7 64 ks (λ x. omega arith) (omega arith)
      (λ e. omega arith) (λ e. omega arith) (λ e. omega arith) (inr (omega arith))

des_key_schedule_lem_example :
    let t = load64_reflect key in
    des_key_schedule key
    ≡ map (subkey (select pc1c_table_fips46_3 t) (select pc1d_table_fips46_3 t)) totals
des_key_schedule_lem_example = des_key_schedule_lem key

des_key_schedule_bound_example : nth 0 (des_key_schedule key) 15 / 256 ^ 7 % 256 < 64
des_key_schedule_bound_example = des_key_schedule_bound key 15 7 (omega arith)
