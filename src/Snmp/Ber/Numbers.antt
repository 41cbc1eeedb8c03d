-- ===== src/Snmp/Ber/Numbers.antt =====
-- Round trips of integers and of object identifiers.
use mathlib.Core.WellFounded.{Acc}
use native.Mathlib.Decide.{dec_lt}
use netpulse_monitor.Base.{
  ℕ, zero, suc, ◌+◌, ◌*◌, ◌/◌, ◌%◌, ◌<◌, ◌≡◌, refl, ◌∙◌, ap, true, false, some, List, [], ◌∷◌, ◌++◌,
  arith, ltb, leb, Bool-cases, inl, inr, ltb→lt, lt→ltb,
}
use netpulse_monitor.Snmp.Ber.{
  Bytes, septets, octets, lt_acc, sign_pad, int_bytes, from_bytes, sub_identifier, sub_identifiers,
  mask_last, oid_bytes, oid_parts, oid_dec,
}
use netpulse_monitor.Snmp.Ber.Loops.{next_acc, septets_step, septets_done, octets_step, octets_done}

from_bytes-octets :
    (k n : ℕ) (out : Bytes) (a : Acc ◌<◌ n)
    → n < k
    → from_bytes 0 (octets n out a) ≡ from_bytes n out
unfolding from_bytes
from_bytes-octets zero n out a h = elim h [ ]
from_bytes-octets (suc k) n out a h = elim (dec_lt 0 n) [
  | yes p ↦
      let (a', e) = octets_step n out a p in
      rw e (
        from_bytes-octets k (n / 256) ((n % 256) ∷ out) a' (omega arith)
        ∙ ap (λ v. from_bytes v out) (omega arith))
  | no p ↦ rw (octets_done n out a p) (ap (λ v. from_bytes v out) (omega arith))
]

from_bytes-sign_pad : (bs : Bytes) → from_bytes 0 (sign_pad bs) ≡ from_bytes 0 bs
unfolding from_bytes sign_pad
from_bytes-sign_pad [] = refl
from_bytes-sign_pad (b ∷ out) = ground arith

-- The bytes that `_int_enc` writes for a number are read back as that number.
pub from_bytes-int_bytes : (v : ℕ) → from_bytes 0 (int_bytes v) ≡ v
unfolding from_bytes int_bytes
from_bytes-int_bytes v =
    from_bytes-sign_pad (octets (v / 256) ((v % 256) ∷ []) (lt_acc (v / 256)))
    ∙ from_bytes-octets (suc (v / 256)) (v / 256) ((v % 256) ∷ []) (lt_acc (v / 256)) (omega arith)
    ∙ omega arith

oid_parts-marked :
    (v x : ℕ) (out : Bytes)
    → oid_parts v ((128 + x % 128) ∷ out) ≡ oid_parts (v * 128 + x % 128) out
unfolding oid_parts
oid_parts-marked v x out =
    let marked : leb 128 (128 + x % 128) ≡ true = ground arith in
    rw marked (ap (λ w. oid_parts w out) (omega arith))

oid_parts-unmarked :
    (v x : ℕ) (out : Bytes) → x < 128 → oid_parts v (x ∷ out) ≡ (v * 128 + x) ∷ oid_parts 0 out
unfolding oid_parts
oid_parts-unmarked v x out h =
    let last : leb 128 x ≡ false = ground arith in
    rw last (ap (λ w. w ∷ oid_parts 0 out) (omega arith))

-- Reading marked groups goes on with the number they stand for.
oid_parts-septets :
    (k n : ℕ) (out : Bytes) (a : Acc ◌<◌ n)
    → n < k
    → oid_parts 0 (septets 128 n out a) ≡ oid_parts n out
oid_parts-septets zero n out a h = elim h [ ]
oid_parts-septets (suc k) n out a h = elim (dec_lt 0 n) [
  | yes p ↦ rw (septets_step 128 n out a p) (
      oid_parts-septets k (n / 128) ((128 + n % 128) ∷ out) (next_acc n a p) (omega arith)
      ∙ oid_parts-marked (n / 128) n out
      ∙ ap (λ v. oid_parts v out) (omega arith))
  | no p ↦ rw (septets_done 128 n out a p) (ap (λ v. oid_parts v out) (omega arith))
]

mask_last-septets :
    (k n x : ℕ) (out : Bytes) (a : Acc ◌<◌ n)
    → n < k
    → mask_last (septets 128 n (x ∷ out) a) ≡ septets 128 n (mask_last (x ∷ out)) a
unfolding mask_last
mask_last-septets zero n x out a h = elim h [ ]
mask_last-septets (suc k) n x out a h = elim (dec_lt 0 n) [
  | yes p ↦
      rw (septets_step 128 n (x ∷ out) a p, septets_step 128 n (mask_last (x ∷ out)) a p)
        (mask_last-septets k (n / 128) (128 + n % 128) (x ∷ out) (next_acc n a p) (omega arith))
  | no p ↦ rw (septets_done 128 n (x ∷ out) a p, septets_done 128 n (mask_last (x ∷ out)) a p) refl
]

append-septets :
    (k n : ℕ) (out rest : Bytes) (a : Acc ◌<◌ n)
    → n < k
    → septets 128 n out a ++ rest ≡ septets 128 n (out ++ rest) a
append-septets zero n out rest a h = elim h [ ]
append-septets (suc k) n out rest a h = elim (dec_lt 0 n) [
  | yes p ↦
      rw (septets_step 128 n out a p, septets_step 128 n (out ++ rest) a p)
        (append-septets k (n / 128) ((128 + n % 128) ∷ out) rest (next_acc n a p) (omega arith))
  | no p ↦ rw (septets_done 128 n out a p, septets_done 128 n (out ++ rest) a p) refl
]

oid_parts-sub_identifier :
    (p : ℕ) (rest : Bytes) → oid_parts 0 (sub_identifier p ++ rest) ≡ p ∷ oid_parts 0 rest
unfolding sub_identifier mask_last
oid_parts-sub_identifier p rest = elim (Bool-cases (ltb p 128)) [
  | inl e ↦
      rw e (
        oid_parts-unmarked 0 p rest (ltb→lt p 128 e) ∙ ap (λ w. w ∷ oid_parts 0 rest) (omega arith))
  | inr e ↦
      let h : 0 < p = ground arith in
      let q = next_acc p (lt_acc p) h in
      rw
        (
          e,
          septets_step 128 p [] (lt_acc p) h,
          mask_last-septets (suc (p / 128)) (p / 128) (128 + p % 128) [] q (omega arith),
          append-septets (suc (p / 128)) (p / 128) (mask_last ((128 + p % 128) ∷ [])) rest q
              (omega arith),
        )
        (oid_parts-septets (suc (p / 128)) (p / 128) (mask_last ((128 + p % 128) ∷ []) ++ rest) q
            (omega arith)
          ∙ oid_parts-unmarked (p / 128) ((128 + p % 128) % 128) rest (omega arith)
          ∙ ap (λ w. w ∷ oid_parts 0 rest) (omega arith))
]

oid_parts-sub_identifiers : (ps : List ℕ) → oid_parts 0 (sub_identifiers ps) ≡ ps
unfolding sub_identifiers oid_parts
oid_parts-sub_identifiers [] = refl
oid_parts-sub_identifiers (p ∷ ps) =
    oid_parts-sub_identifier p (sub_identifiers ps) ∙ ap (◌∷◌ p) (oid_parts-sub_identifiers ps)

-- An object identifier whose second part is below 40, and whose first two parts fit a byte, is
-- written without error and read back as it is, with sub-identifiers of any size.
pub oid_dec-oid_bytes :
    (x y : ℕ) (parts : List ℕ)
    → y < 40
    → 40 * x + y < 256
    → (bs : Bytes) × (oid_bytes (x ∷ y ∷ parts) ≡ some bs) × (oid_dec bs ≡ some (x ∷ y ∷ parts))
unfolding oid_bytes oid_dec
oid_dec-oid_bytes x y parts h k =
    ((40 * x + y) ∷ sub_identifiers parts, rw (lt→ltb (40 * x + y) 256 k) refl, first_two)
  where
    first_two :
        some ((40 * x + y) / 40 ∷ (40 * x + y) % 40 ∷ oid_parts 0 (sub_identifiers parts))
        ≡ some (x ∷ y ∷ parts)
    first_two = ground (arith, oid_parts-sub_identifiers parts)
