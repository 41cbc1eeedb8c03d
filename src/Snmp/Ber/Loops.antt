-- ===== src/Snmp/Ber/Loops.antt =====
-- One round of the two loops over the digits of a number, and their end.
use mathlib.Core.Logic.{dif_pos, dif_neg}
use mathlib.Core.WellFounded.{Acc}
use native.Mathlib.Decide.{dec_lt}
use native.Mathlib.Bridge.{le_prop}
use netpulse_monitor.Base.{ℕ, ◌+◌, ◌/◌, ◌%◌, ◌<◌, ◌≡◌, ◌∷◌, arith}
use netpulse_monitor.Snmp.Ber.{Bytes, septets, octets}

-- The proof that the next round ends.
pub next_acc : (n : ℕ) → Acc ◌<◌ n → 0 < n → Acc ◌<◌ (n / 128)
next_acc n (Acc.intro _ smaller) h = smaller (n / 128) (omega arith)

pub septets_step :
    (mark n : ℕ) (out : Bytes) (a : Acc ◌<◌ n) (h : 0 < n)
    → septets mark n out a ≡ septets mark (n / 128) ((mark + n % 128) ∷ out) (next_acc n a h)
unfolding septets next_acc
septets_step mark n out (Acc.intro _ smaller) h = dif_pos (dec_lt 0 n) le_prop h _ _

pub septets_done :
    (mark n : ℕ) (out : Bytes) (a : Acc ◌<◌ n) → ¬ (0 < n) → septets mark n out a ≡ out
unfolding septets
septets_done mark n out (Acc.intro _ smaller) h = dif_neg (dec_lt 0 n) h _ _

pub octets_step :
    (n : ℕ) (out : Bytes) (a : Acc ◌<◌ n)
    → 0 < n
    → (a' : Acc ◌<◌ (n / 256)) × (octets n out a ≡ octets (n / 256) ((n % 256) ∷ out) a')
unfolding octets
octets_step n out (Acc.intro _ smaller) h =
    (smaller (n / 256) (omega arith), dif_pos (dec_lt 0 n) le_prop h _ _)

pub octets_done : (n : ℕ) (out : Bytes) (a : Acc ◌<◌ n) → ¬ (0 < n) → octets n out a ≡ out
unfolding octets
octets_done n out (Acc.intro _ smaller) h = dif_neg (dec_lt 0 n) h _ _
