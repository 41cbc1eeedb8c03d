-- ===== src/Updates/Install/Chain.antt =====
-- Updates one after the other, as `_validate_transition` lets them through.
use netpulse_monitor.Base.{◌≡◌, refl, true, false, none, List, [], ◌∷◌, arith, All}
use netpulse_monitor.Text.{Text, same_iff}
use netpulse_monitor.Text.Names.{has, NoRepeat}
use netpulse_monitor.Updates.Versions.{is_newer}
use netpulse_monitor.Updates.Versions.Order.{is_newer-irreflexive, is_newer-transitive}
use netpulse_monitor.Updates.Install.{validate_transition}

-- Without leave to downgrade, only a newer version is let through.
validate_transition-newer :
    (current target : Text)
    → validate_transition current target false false ≡ none
    → is_newer target current ≡ true
unfolding validate_transition
validate_transition-newer current target h = ground arith

-- The versions of `l` are let through one after the other, from `current` on.
abbrev IsUpgrades : Text → List Text → Type 0
IsUpgrades current [] = Unit
IsUpgrades current (t ∷ l) = (validate_transition current t false false ≡ none) × IsUpgrades t l

newer_than :
    (current : Text) (l : List Text) (older : Text)
    → is_newer current older ≡ true
    → IsUpgrades current l
    → All (λ t. is_newer t older ≡ true) l
newer_than current [] older n h = tt
newer_than current (t ∷ l) older n h =
    let m = is_newer-transitive t current older (validate_transition-newer current t h.0) n in
    (m, newer_than t l older m h.1)

newer-fresh :
    (current : Text) (l : List Text)
    → All (λ t. is_newer t current ≡ true) l
    → has current l ≡ false
newer-fresh current [] h = refl
newer-fresh current (t ∷ l) h =
    ground (arith, same_iff current t, is_newer-irreflexive current, newer-fresh current l h.1)

upgrades_newer :
    (current : Text) (l : List Text) → IsUpgrades current l → All (λ t. is_newer t current ≡ true) l
upgrades_newer current [] h = tt
upgrades_newer current (t ∷ l) h =
    let n = validate_transition-newer current t h.0 in (n, newer_than t l current n h.1)

-- Updates that are let through one after the other, without leave to downgrade, only lead to versions
-- newer than the first, and to no version twice.
IsUpgrades-newer :
    (current : Text) (l : List Text)
    → IsUpgrades current l
    → All (λ t. is_newer t current ≡ true) l × NoRepeat (current ∷ l)
IsUpgrades-newer current [] h = (tt, (refl, tt))
IsUpgrades-newer current (t ∷ l) h =
    let n = upgrades_newer current (t ∷ l) h in
    (n, (newer-fresh current (t ∷ l) n, (IsUpgrades-newer t l h.1).1))
