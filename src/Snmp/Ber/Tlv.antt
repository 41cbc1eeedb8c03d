-- ===== src/Snmp/Ber/Tlv.antt =====
-- Reading a record back: exact for contents below 128 bytes, and wrong from there on.
use netpulse_monitor.Base.{
  ℕ, ◌+◌, ◌<◌, ◌≡◌, refl, false, some, [], ◌∷◌, ◌++◌, arith, leb, length, take, drop,
  take-length-append,
}
use native.Mathlib.Nat.{suc-add, zero-add, add-zero}
use netpulse_monitor.Base.{lt→ltb}
use netpulse_monitor.Snmp.Ber.{Bytes, enc_len, tlv, byte_at, header, tlv_parse}

drop-append : (pre xs : Bytes) (k : ℕ) → drop (length pre + k) (pre ++ xs) ≡ drop k xs
drop-append [] xs k = rw zero-add
drop-append (x ∷ pre) xs k = rw suc-add (drop-append pre xs k)

byte_at-append : (pre xs : Bytes) (k : ℕ) → byte_at (pre ++ xs) (length pre + k) ≡ byte_at xs k
byte_at-append [] xs k = rw zero-add
byte_at-append (x ∷ pre) xs k = rw suc-add (byte_at-append pre xs k)

tlv_short :
    (tag : ℕ) (content : Bytes)
    → length content < 128
    → tlv tag content ≡ tag ∷ length content ∷ content
unfolding tlv enc_len
tlv_short tag content h = rw (lt→ltb (length content) 128 h)

parse_short :
    (pre xs : Bytes) (tag n : ℕ)
    → n < 128
    → tlv_parse (pre ++ tag ∷ n ∷ xs) (length pre) ≡ some (tag, take n xs, length pre + 2 + n)
unfolding tlv_parse header
parse_short pre xs tag n h =
    let at_tag : byte_at (pre ++ tag ∷ n ∷ xs) (length pre) ≡ some tag =
      (rw add-zero at (byte_at-append pre (tag ∷ n ∷ xs) 0)) in
    let short : leb 128 n ≡ false = ground arith in
    rw
      (
        at_tag,
        tlv_parse,
        byte_at-append pre (tag ∷ n ∷ xs) 1,
        short,
        drop-append pre (tag ∷ n ∷ xs) 2,
      )
      refl

-- A record with a content below 128 bytes, anywhere in a buffer, is read back with its tag and its
-- content, up to where it ends.
pub tlv_parse-tlv :
    (pre rest content : Bytes) (tag : ℕ)
    → length content < 128
    → tlv_parse (pre ++ (tlv tag content ++ rest)) (length pre)
      ≡ some (tag, content, length pre + length (tlv tag content))
tlv_parse-tlv pre rest content tag h =
    rw
      (
        tlv_short tag content h,
        parse_short pre (content ++ rest) tag (length content) h,
        take-length-append content rest,
      )
      (ground arith)
