-- ===== src/Snmp/Messages.antt =====
-- The request of `snmp_get` and `parse_snmp_response` of netpulse/infra.py. The socket is left out:
-- the request is the packet that is sent, and the response the datagram that is received.
-- `bytes.decode("utf-8", "replace")` is a parameter.
pub mod Responses
use netpulse_monitor.Base.{
  ℕ, zero, suc, ◌+◌, Bool, true, false, not, ◌||◌, ◌&&◌, Option, none, some, List, [], ◌∷◌, ◌++◌,
  map, ltb, ◌==◌, if◌then◌else◌, length, any_of, ◌%◌, ◌/◌, ◌-◌,
}
use netpulse_monitor.Text.{Text, text_of, same, strip}
use netpulse_monitor.Dict.{Dict, insert}
use netpulse_monitor.Snmp.Ber.{Bytes, tlv, int_enc, oid_bytes, tlv_parse, oid_dec, from_bytes}

-- `OIDS`, with its keys parsed.
abbrev pub oids : List (List ℕ × Text)
oids =
    (1 ∷ 3 ∷ 6 ∷ 1 ∷ 2 ∷ 1 ∷ 1 ∷ 1 ∷ 0 ∷ [], text_of "sysDescr")
    ∷ (1 ∷ 3 ∷ 6 ∷ 1 ∷ 2 ∷ 1 ∷ 1 ∷ 2 ∷ 0 ∷ [], text_of "sysObjectID")
    ∷ (1 ∷ 3 ∷ 6 ∷ 1 ∷ 2 ∷ 1 ∷ 1 ∷ 3 ∷ 0 ∷ [], text_of "sysUpTime")
    ∷ (1 ∷ 3 ∷ 6 ∷ 1 ∷ 2 ∷ 1 ∷ 1 ∷ 4 ∷ 0 ∷ [], text_of "sysContact")
    ∷ (1 ∷ 3 ∷ 6 ∷ 1 ∷ 2 ∷ 1 ∷ 1 ∷ 5 ∷ 0 ∷ [], text_of "sysName")
    ∷ (1 ∷ 3 ∷ 6 ∷ 1 ∷ 2 ∷ 1 ∷ 1 ∷ 6 ∷ 0 ∷ [], text_of "sysLocation")
    ∷ (1 ∷ 3 ∷ 6 ∷ 1 ∷ 2 ∷ 1 ∷ 2 ∷ 1 ∷ 0 ∷ [], text_of "ifNumber")
    ∷ []

infixl 5 ◌>>=◌
abbrev pub ◌>>=◌ {ℓ κ} : {A : Type ℓ} {B : Type κ} → Option A → (A → Option B) → Option B
none >>= f = none
some a >>= f = f a

-- `_tlv(0x30, _oid_enc(oid) + _tlv(0x05, b""))`, for each identifier.
unfoldable pub varbinds_of : List (List ℕ × Text) → Option Bytes
varbinds_of [] = some []
varbinds_of ((oid, _) ∷ l) = do
  bs ← oid_bytes oid
  rest ← varbinds_of l
  some (tlv 0x30 (tlv 0x06 bs ++ tlv 0x05 []) ++ rest)

unfoldable pub pdu_of : ℕ → Bytes → Bytes
pdu_of req_id varbinds =
    tlv 0xA0 (int_enc req_id ++ (int_enc 0 ++ (int_enc 0 ++ tlv 0x30 varbinds)))

unfoldable pub message_of : ℕ → Bytes → Bytes → Bytes
message_of req_id community varbinds = int_enc 1 ++ (tlv 0x04 community ++ pdu_of req_id varbinds)

-- The packet of `snmp_get`.
unfoldable pub request : ℕ → Bytes → Option Bytes
request req_id community = do
  varbinds ← varbinds_of oids
  some (tlv 0x30 (message_of req_id community varbinds))

-- A value of the answer. `error_status n` is the text `SNMP errstatus n`.
pub data Value : Type 0 where
  text : Text → Value
  number : ℕ → Value
  error_status : ℕ → Value

abbrev hex_digit : ℕ → ℕ
hex_digit d = if ltb d 10 then b'0' + d else b'a' + d - 10

-- `raw.hex()`
unfoldable pub hex : Bytes → Text
hex [] = []
hex (b ∷ bs) = hex_digit (b / 16) ∷ hex_digit (b % 16) ∷ hex bs

pub data Parsed : Type 0 where
  parsed : Dict Value → Parsed
  nothing raised out_of_fuel : Parsed

unfoldable pub same_oid : List ℕ → List ℕ → Bool
same_oid = same

unfoldable pub oid_name : List ℕ → List (List ℕ × Text) → Option Text
unfolding same_oid
oid_name oid [] = none
oid_name oid ((o, name) ∷ l) = if same_oid o oid then some name else oid_name oid l

abbrev is_number_tag : ℕ → Bool
is_number_tag tag = any_of (λ t. tag == t) (0x02 ∷ 0x41 ∷ 0x43 ∷ 0x46 ∷ 0x47 ∷ 0x48 ∷ [])

module _ (decode : Bytes → Text) where
  -- `_val_convert`
  unfoldable pub val_convert : ℕ → Bytes → Value
  val_convert tag raw =
      if tag == 0x04 || tag == 0x16
      then text (strip (decode raw))
      else if is_number_tag tag
      then number (from_bytes 0 raw)
      else if tag == 0x05
      then text []
      else text (hex raw)

  -- `out[OIDS[oid]] = …` for an identifier that is asked for. The identifier "?" is not.
  unfoldable pub store_value : Option (List ℕ) → ℕ → Bytes → Dict Value → Dict Value
  store_value none vtag vraw out = out
  store_value (some oid) vtag vraw out = elim (oid_name oid oids) [
    | none ↦ out
    | some name ↦ insert name (val_convert vtag vraw) out
  ]

  -- The body of the loop over the list of bindings: the position of the next and the values, or the
  -- values alone where the loop breaks.
  unfoldable pub parse_varbind : Bytes → ℕ → Dict Value → Option (Option ℕ × Dict Value)
  parse_varbind vblist q out = do
    (tag1, c1, q') ← tlv_parse vblist q
    if not (tag1 == 0x30) then some (none, out) else (do
      (_, oid_c, q2) ← tlv_parse c1 0
      (vtag, vraw, _) ← tlv_parse c1 q2
      some (some q', store_value (oid_dec oid_c) vtag vraw out))

  -- `while q < len(vblist)`, with fuel.
  unfoldable pub parse_varbinds : ℕ → Bytes → ℕ → Dict Value → Parsed
  parse_varbinds zero vblist q out = out_of_fuel
  parse_varbinds (suc fuel) vblist q out =
      if ltb q (length vblist)
      then elim (parse_varbind vblist q out) [
        | none ↦ raised
        | some (none, out') ↦ parsed out'
        | some (some q', out') ↦ parse_varbinds fuel vblist q' out'
      ]
      else parsed out

  -- `return out or None`
  unfoldable pub answer : Dict Value → Parsed
  answer [] = nothing
  answer (e ∷ out) = parsed (e ∷ out)

  -- From the end of the loop.
  unfoldable pub finish : ℕ → Parsed → Parsed
  finish errv (parsed out) =
      answer (if ltb 0 errv then insert (text_of "_error") (error_status errv) out else out)
  finish errv other = other

  -- The fields of the response PDU before the list of bindings: the error status, and the tag and
  -- the content of the list.
  unfoldable pub parse_pdu : Bytes → Option (ℕ × ℕ × Bytes)
  parse_pdu pdu_c = do
    (_, _, p1) ← tlv_parse pdu_c 0
    (_, err, p2) ← tlv_parse pdu_c p1
    (_, _, p3) ← tlv_parse pdu_c p2
    (vtag, vblist, _) ← tlv_parse pdu_c p3
    some (from_bytes 0 err, vtag, vblist)

  -- The message around the PDU: the tag and the content of the PDU.
  unfoldable pub parse_message : Bytes → Option (ℕ × Bytes)
  parse_message data_bytes = do
    (_, outer, _) ← tlv_parse data_bytes 0
    (_, _, p1) ← tlv_parse outer 0
    (_, _, p2) ← tlv_parse outer p1
    (ptag, pdu_c, _) ← tlv_parse outer p2
    some (ptag, pdu_c)

  -- The list of bindings, with a step for each of its bytes and one to leave the loop.
  unfoldable pub parse_list : ℕ → ℕ → Bytes → Parsed
  parse_list errv vtag vblist =
      if vtag == 0x30
      then finish errv (parse_varbinds (suc (length vblist)) vblist 0 [])
      else nothing

  -- `parse_snmp_response`. The handler of its exceptions names a variable `ip` that the function
  -- does not have, and so raises another.
  unfoldable pub parse_snmp_response : Bytes → Parsed
  parse_snmp_response data_bytes = elim (parse_message data_bytes) [
    | none ↦ raised
    | some (ptag, pdu_c) ↦
        if ptag == 0xA2
        then elim (parse_pdu pdu_c) [
          | none ↦ raised
          | some (errv, vtag, vblist) ↦ parse_list errv vtag vblist
        ]
        else nothing
  ]
