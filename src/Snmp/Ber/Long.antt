-- ===== src/Snmp/Ber/Long.antt =====
-- Lengths from 128 on: `_len` writes groups of seven bits, and `_tlv_parse` reads groups of eight.
use netpulse_monitor.Base.{
  ℕ, zero, suc, ◌+◌, ◌-◌, ◌*◌, ◌/◌, ◌%◌, ◌<◌, ◌≤◌, ◌≡◌, refl, true, some, [], ◌∷◌, ◌++◌, arith, leb,
  length, length-append, take-length-append,
}
use mathlib.Core.WellFounded.{Acc}
use native.Mathlib.Decide.{dec_lt}
use native.Mathlib.Nat.{zero-add}
use mathlib.Core.List.{append_assoc}
use netpulse_monitor.Base.{ltb-false}
use native.Mathlib.Nat.{le_trans}
use netpulse_monitor.Snmp.Ber.Loops.{next_acc, septets_step, septets_done}
use netpulse_monitor.Snmp.Ber.{
  Bytes, septets, lt_acc, enc_len, tlv, from_bytes, slice, header, tlv_parse,
}

from_bytes_mono : (v w : ℕ) (bs : Bytes) → v ≤ w → from_bytes v bs ≤ from_bytes w bs
unfolding from_bytes
from_bytes_mono v w [] h = h
from_bytes_mono v w (b ∷ bs) h = from_bytes_mono (v * 256 + b) (w * 256 + b) bs (omega arith)

from_bytes_strict : (v w : ℕ) (bs : Bytes) → v < w → from_bytes v bs < from_bytes w bs
unfolding from_bytes
from_bytes_strict v w [] h = h
from_bytes_strict v w (b ∷ bs) h = from_bytes_strict (v * 256 + b) (w * 256 + b) bs (omega arith)

-- What is read is at least what was written,
septets-ge :
    (k n : ℕ) (out : Bytes) (a : Acc ◌<◌ n)
    → n < k
    → from_bytes n out ≤ from_bytes 0 (septets 0 n out a)
unfolding from_bytes
septets-ge zero n out a h = elim h [ ]
septets-ge (suc k) n out a h = elim (dec_lt 0 n) [
  | yes p ↦ rw (septets_step 0 n out a p) (
      le_trans (from_bytes_mono n (n / 128 * 256 + (0 + n % 128)) out (omega arith))
        (septets-ge k (n / 128) ((0 + n % 128) ∷ out) (next_acc n a p) (omega arith)))
  | no p ↦ rw (septets_done 0 n out a p) (from_bytes_mono n 0 out (omega arith))
]

-- and more from 128 on.
septets-gt :
    (n : ℕ) (out : Bytes) (a : Acc ◌<◌ n)
    → 128 ≤ n
    → from_bytes n out < from_bytes 0 (septets 0 n out a)
unfolding from_bytes
septets-gt n out a h =
    let p : 0 < n = omega arith in
    rw (septets_step 0 n out a p) (
      le_trans (from_bytes_strict n (n / 128 * 256 + (0 + n % 128)) out (omega arith))
        (septets-ge (suc (n / 128)) (n / 128) ((0 + n % 128) ∷ out) (next_acc n a p) (omega arith)))

septets_grows : (n : ℕ) → 128 ≤ n → n < from_bytes 0 (septets 0 n [] (lt_acc n))
unfolding from_bytes
septets_grows n h = septets-gt n [] (lt_acc n) h

enc_len_long :
    (n : ℕ)
    → 128 ≤ n
    → enc_len n ≡ (128 + length (septets 0 n [] (lt_acc n))) ∷ septets 0 n [] (lt_acc n)
unfolding enc_len
enc_len_long n h = rw (ltb-false n 128 h)

-- Reading a long header: the groups are taken for bytes.
parse_long :
    (tag : ℕ) (out xs : Bytes)
    → tlv_parse (tag ∷ (128 + length out) ∷ (out ++ xs)) 0
      ≡ some (
        tag,
        slice (tag ∷ (128 + length out) ∷ (out ++ xs)) (2 + length out) (from_bytes 0 out),
        2 + length out + from_bytes 0 out,
      )
unfolding tlv_parse header
parse_long tag out xs =
    let long : leb 128 (128 + length out) ≡ true = ground arith in
    let size : 128 + length out - 128 ≡ length out = omega arith in
    rw (long, size, take-length-append out xs, zero-add) refl

-- A record with a content of 128 bytes or more is read back as one that ends too late: the reader
-- takes the groups of seven bits for bytes, and so a greater length.
pub tlv_parse-long :
    (tag : ℕ) (content rest : Bytes)
    → 128 ≤ length content
    → (c : Bytes) × (end : ℕ) × (tlv_parse (tlv tag content ++ rest) 0 ≡ some (tag, c, end))
      × (length (tlv tag content) < end)
unfolding tlv
tlv_parse-long tag content rest h =
    let out = septets 0 (length content) [] (lt_acc (length content)) in
    (
      slice (tag ∷ (128 + length out) ∷ (out ++ (content ++ rest))) (2 + length out)
          (from_bytes 0 out),
      2 + length out + from_bytes 0 out,
      rw (enc_len_long (length content) h, append_assoc out content rest)
          (parse_long tag out (content ++ rest)),
      rw (enc_len_long (length content) h)
          (omega (arith, length-append out content, septets_grows (length content) h)),
    )
