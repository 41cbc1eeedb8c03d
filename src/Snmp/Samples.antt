-- ===== src/Snmp/Samples.antt =====
-- Concrete records and numbers of SNMP messages.
use native.Mathlib.Decide.{dec_lt}
use netpulse_monitor.Base.{ℕ, ◌≡◌, refl, ◌≢◌, [], ◌∷◌, ◌++◌, ◌<◌, zero, suc, length, some, arith}
use netpulse_monitor.Snmp.Ber.{
  Bytes, tlv, enc_len, septets, lt_acc, octets, sign_pad, int_enc, int_bytes, tlv_parse,
}
use netpulse_monitor.Snmp.Messages.{parse_snmp_response, out_of_fuel}
use netpulse_monitor.Snmp.Messages.Responses.{parse_snmp_response-Total}
use netpulse_monitor.Snmp.Ber.Long.{tlv_parse-long}

int_enc_128 : int_enc 128 ≡ 2 ∷ 2 ∷ 0 ∷ 128 ∷ []
unfolding int_enc tlv enc_len septets lt_acc int_bytes octets sign_pad dec_lt
int_enc_128 = refl

-- A string of n bytes.
abbrev zeros : ℕ → Bytes
zeros zero = []
zeros (suc n) = 0 ∷ zeros n

tlv_parse-long_example :
    (c : Bytes) × (end : ℕ) × (tlv_parse (tlv 0x30 (zeros 200) ++ []) 0 ≡ some (0x30, c, end))
    × (length (tlv 0x30 (zeros 200)) < end)
tlv_parse-long_example = tlv_parse-long 0x30 (zeros 200) [] (omega arith)

parse_snmp_response-Total_example :
    parse_snmp_response (λ bs. bs) (0x30 ∷ 0x02 ∷ 0x02 ∷ 0x00 ∷ []) ≢ out_of_fuel
parse_snmp_response-Total_example =
    parse_snmp_response-Total (λ bs. bs) (0x30 ∷ 0x02 ∷ 0x02 ∷ 0x00 ∷ [])
