-- ===== src/Snmp/Ber.antt =====
-- The BER routines of netpulse/infra.py. A byte string is a list of numbers. On naturals `x & 0x7F`,
-- `x & 0xFF`, `x >> 7` and `x >> 8` are remainders and quotients, and `0x80 | x` of an `x` below 128
-- is a sum. An object identifier is the list of its parts. `none` is an exception: an index out of
-- range, or a byte out of range.
pub mod Tlv
pub mod Numbers
pub mod Loops
pub mod Long
use mathlib.Core.Logic.{dite}
use mathlib.Core.WellFounded.{Acc, WellFounded}
use native.Mathlib.Decide.{dec_lt}
use netpulse_monitor.Base.{
  ℕ, zero, suc, ◌+◌, ◌-◌, ◌*◌, ◌/◌, ◌%◌, ◌<◌, Bool, true, false, Option, none, some, List, [], ◌∷◌,
  ◌++◌, arith, ltb, leb, ◌==◌, if◌then◌else◌, length, take, drop,
}

abbrev pub Bytes : Type 0
Bytes = List ℕ

Acc-below : (k n : ℕ) → n < k → Acc ◌<◌ n
Acc-below zero n h = elim h [ ]
Acc-below (suc k) n h = Acc.intro n (λ m hm. Acc-below k m (omega arith))

-- `while n: out = bytes([n & 0x7F]) + out; n >>= 7`, with `mark` for the bits that are added.
unfoldable pub septets : (mark n : ℕ) → Bytes → Acc ◌<◌ n → Bytes
septets mark n out (Acc.intro _ smaller) =
    dite (dec_lt 0 n)
      (λ h. septets mark (n / 128) ((mark + n % 128) ∷ out) (smaller (n / 128) (omega arith)))
      (λ _. out)

-- The same loop with eight bits to a byte.
unfoldable pub octets : (n : ℕ) → Bytes → Acc ◌<◌ n → Bytes
octets n out (Acc.intro _ smaller) =
    dite (dec_lt 0 n) (λ h. octets (n / 256) ((n % 256) ∷ out) (smaller (n / 256) (omega arith)))
      (λ _. out)

unfoldable pub lt_acc : (n : ℕ) → Acc ◌<◌ n
unfolding Acc-below
lt_acc n = Acc-below (suc n) n (omega arith)

-- `_len`
unfoldable pub enc_len : ℕ → Bytes
enc_len n =
    let out = septets 0 n [] (lt_acc n) in if ltb n 128 then n ∷ [] else (128 + length out) ∷ out

-- `_tlv`
unfoldable pub tlv : ℕ → Bytes → Bytes
tlv tag content = tag ∷ (enc_len (length content) ++ content)

-- `if out and out[0] & 0x80: out = b"\x00" + out`
unfoldable pub sign_pad : Bytes → Bytes
sign_pad [] = []
sign_pad (b ∷ out) = if leb 128 b then 0 ∷ b ∷ out else b ∷ out

-- The content of `_int_enc`: at least one byte, and a zero byte before a set sign bit.
unfoldable pub int_bytes : ℕ → Bytes
int_bytes v = sign_pad (octets (v / 256) ((v % 256) ∷ []) (lt_acc (v / 256)))

unfoldable pub int_enc : ℕ → Bytes
int_enc v = tlv 0x02 (int_bytes v)

-- `chunk[:-1] + bytes([chunk[-1] & 0x7F])`
unfoldable pub mask_last : Bytes → Bytes
mask_last [] = []
mask_last (b ∷ []) = (b % 128) ∷ []
mask_last (b ∷ c ∷ out) = b ∷ mask_last (c ∷ out)

unfoldable pub sub_identifier : ℕ → Bytes
sub_identifier p = if ltb p 128 then p ∷ [] else mask_last (septets 128 p [] (lt_acc p))

unfoldable pub sub_identifiers : List ℕ → Bytes
sub_identifiers [] = []
sub_identifiers (p ∷ ps) = sub_identifier p ++ sub_identifiers ps

-- The content of `_oid_enc`.
unfoldable pub oid_bytes : List ℕ → Option Bytes
oid_bytes (x ∷ y ∷ parts) =
    if ltb (40 * x + y) 256 then some ((40 * x + y) ∷ sub_identifiers parts) else none
oid_bytes _ = none

-- `int.from_bytes(…, "big")`, from the value read so far; also the loop of `_val_convert`.
unfoldable pub from_bytes : ℕ → Bytes → ℕ
from_bytes v [] = v
from_bytes v (b ∷ bs) = from_bytes (v * 256 + b) bs

abbrev pub byte_at : Bytes → ℕ → Option ℕ
byte_at [] i = none
byte_at (b ∷ bs) zero = some b
byte_at (b ∷ bs) (suc i) = byte_at bs i

-- `buf[i:i + n]`
abbrev pub slice : Bytes → ℕ → ℕ → Bytes
slice buf i n = take n (drop i buf)

-- The length of the header and of the content, from the length byte at `pos + 1`.
unfoldable pub header : Bytes → ℕ → ℕ → ℕ × ℕ
header buf pos ln =
    if leb 128 ln then (2 + (ln - 128), from_bytes 0 (slice buf (pos + 2) (ln - 128))) else (2, ln)

-- `_tlv_parse`
unfoldable pub tlv_parse : Bytes → ℕ → Option (ℕ × Bytes × ℕ)
tlv_parse buf pos = elim (byte_at buf pos) [
  | none ↦ none
  | some tag ↦ elim (byte_at buf (pos + 1)) [
    | none ↦ none
    | some ln ↦
        let (hlen, size) = header buf pos ln in
        some (tag, slice buf (pos + hlen) size, pos + hlen + size)
  ]
]

-- The loop of `_oid_dec`, from the value read so far.
unfoldable pub oid_parts : ℕ → Bytes → List ℕ
oid_parts v [] = []
oid_parts v (b ∷ bs) =
    let v' = v * 128 + b % 128 in
    let more = oid_parts v' bs in let next = oid_parts 0 bs in if leb 128 b then more else v' ∷ next

-- `_oid_dec`; `none` is its answer "?".
unfoldable pub oid_dec : Bytes → Option (List ℕ)
oid_dec [] = none
oid_dec (b ∷ bs) = some (b / 40 ∷ b % 40 ∷ oid_parts 0 bs)
