-- ===== src/Snmp/Messages/Responses.antt =====
-- The loop of `parse_snmp_response` ends within its fuel.
use netpulse_monitor.Base.{
  ℕ, zero, suc, ◌+◌, ◌≤◌, ◌≡◌, ◌≢◌, inl, inr, none, some, arith, length, ltb, Bool-cases,
  Option-cases, ◌==◌, not,
}
use netpulse_monitor.Text.{Text}
use netpulse_monitor.Dict.{Dict}
use netpulse_monitor.Snmp.Ber.{Bytes, header, tlv_parse}
use netpulse_monitor.Snmp.Messages.{
  Value, out_of_fuel, parse_varbind, parse_varbinds, answer, finish, parse_list,
  parse_snmp_response,
}

header-size : (buf : Bytes) (pos ln : ℕ) → 2 ≤ (header buf pos ln).0
unfolding header
header-size buf pos ln = ground arith

-- A record that is read takes two bytes or more.
tlv_parse-end :
    (buf : Bytes) (pos tag : ℕ) (c : Bytes) (end : ℕ)
    → tlv_parse buf pos ≡ some (tag, c, end)
    → pos + 2 ≤ end
unfolding tlv_parse
tlv_parse-end buf pos tag c end e = grind (arith, header-size)

module _ (decode : Bytes → Text) where
  parse_varbind-end :
      (vblist : Bytes) (q q' : ℕ) (out out' : Dict Value)
      → parse_varbind decode vblist q out ≡ some (some q', out')
      → q + 2 ≤ q'
  unfolding parse_varbind
  parse_varbind-end vblist q q' out out' e = elim (Option-cases (tlv_parse vblist q)) [
    | inl e0 ↦ ground arith
    | inr ((tag1, c1, q1), e0) ↦
        let far = tlv_parse-end vblist q tag1 c1 q1 e0 in
        (elim (Bool-cases (not (tag1 == 0x30))) [
          | inl stop ↦ let e' = (rw (e0, stop) at e) in ground arith
          | inr on ↦ elim (Option-cases (tlv_parse c1 0)) [
            | inl e1 ↦ let e' = (rw (e0, on, e1) at e) in ground arith
            | inr ((t2, oid_c, q2), e1) ↦ elim (Option-cases (tlv_parse c1 q2)) [
              | inl e2 ↦ let e' = (rw (e0, on, e1, e2) at e) in ground arith
              | inr ((vtag, vraw, q3), e2) ↦ let e' = (rw (e0, on, e1, e2) at e) in ground arith
            ]
          ]
        ])
  ]

  parse_varbinds-Total :
      (fuel : ℕ) (vblist : Bytes) (q : ℕ) (out : Dict Value)
      → length vblist + 1 ≤ q + fuel
      → 1 ≤ fuel
      → parse_varbinds decode fuel vblist q out ≢ out_of_fuel
  unfolding parse_varbinds
  parse_varbinds-Total zero vblist q out h p = ground arith
  parse_varbinds-Total (suc fuel) vblist q out h p = elim (Bool-cases (ltb q (length vblist))) [
    | inl lt ↦ elim (Option-cases (parse_varbind decode vblist q out)) [
      | inl e ↦ rw (lt, e) (λ w. ground arith)
      | inr ((none, out'), e) ↦ rw (lt, e) (λ w. ground arith)
      | inr ((some q', out'), e) ↦
          let next = parse_varbind-end vblist q q' out out' e in
          rw (lt, e) (parse_varbinds-Total fuel vblist q' out' (omega arith) (ground arith))
    ]
    | inr le ↦ rw le (λ w. ground arith)
  ]

  -- No datagram keeps the reader of responses in its loop.
  pub parse_snmp_response-Total :
      (data_bytes : Bytes) → parse_snmp_response decode data_bytes ≢ out_of_fuel
  unfolding parse_snmp_response parse_list finish answer
  parse_snmp_response-Total data_bytes = grind (arith, parse_varbinds-Total)
