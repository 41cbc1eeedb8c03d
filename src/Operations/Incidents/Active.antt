-- ===== src/Operations/Incidents/Active.antt =====
-- Which incident is the active one of a key, after a new row and after an update of a row.
use netpulse_monitor.Base.{◌≡◌, inl, inr, true, false, ◌&&◌, none, some, [], ◌∷◌, arith, Bool-cases}
use netpulse_monitor.Text.{Text, same, same_iff}
use netpulse_monitor.Dict.{Dict, lookup, insert}
use netpulse_monitor.Dict.Distinct.{Distinct}
use netpulse_monitor.Operations.{Incident, is_active}
use netpulse_monitor.Operations.Incidents.{find_active}
use netpulse_monitor.Operations.Incidents.Unique.{Unique}

-- What `find_active` finds is a row of the table, active and of the key.
pub find_active-some :
    (key i : Text) (r : Incident) (d : Dict Incident)
    → Distinct d
    → find_active key d ≡ some (i, r)
    → (lookup i d ≡ some r) × (is_active r ≡ true) × (r.event_key ≡ key)
unfolding find_active lookup
find_active-some key i r [] h e = absurd (cc)
find_active-some key i r ((j, q) ∷ d) h e =
    elim (Bool-cases (is_active q && same q.event_key key)) [
      | inl a ↦ ground (arith, same_iff j i, same_iff q.event_key key)
      | inr a ↦
          let (row, active, k) = find_active-some key i r d h.1 (ground arith) in
          (ground (arith, same_iff j i), active, k)
    ]

pub find_active-insert_new :
    (key ident : Text) (r : Incident) (d : Dict Incident)
    → lookup ident d ≡ none
    → find_active key d ≡ none
    → is_active r ≡ true
    → r.event_key ≡ key
    → find_active key (insert ident r d) ≡ some (ident, r)
unfolding find_active insert lookup
find_active-insert_new key ident r [] f h a k = ground (arith, same_iff r.event_key key)
find_active-insert_new key ident r ((i, q) ∷ d) f h a k = elim (Bool-cases (same i ident)) [
  | inl s ↦ absurd (ground arith)
  | inr s ↦ rw s (ground (arith, find_active-insert_new key ident r d))
]

-- A row of another key does not show.
pub find_active-insert_new_ne :
    (key ident : Text) (r : Incident) (d : Dict Incident)
    → lookup ident d ≡ none
    → same r.event_key key ≡ false
    → find_active key (insert ident r d) ≡ find_active key d
unfolding find_active insert lookup
find_active-insert_new_ne key ident r [] f k = ground arith
find_active-insert_new_ne key ident r ((i, q) ∷ d) f k = elim (Bool-cases (same i ident)) [
  | inl s ↦ absurd (ground arith)
  | inr s ↦ rw s (ground (arith, find_active-insert_new_ne key ident r d))
]

pub find_active-insert_old_ne :
    (key ident : Text) (r r' : Incident) (d : Dict Incident)
    → lookup ident d ≡ some r
    → r'.event_key ≡ r.event_key
    → same r.event_key key ≡ false
    → find_active key (insert ident r' d) ≡ find_active key d
unfolding find_active insert lookup
find_active-insert_old_ne key ident r r' [] e k n = absurd (cc)
find_active-insert_old_ne key ident r r' ((i, q) ∷ d) e k n = elim (Bool-cases (same i ident)) [
  | inl s ↦ rw s (ground (arith, k))
  | inr s ↦ rw s (ground (arith, find_active-insert_old_ne key ident r r' d))
]

pub find_active-insert_old :
    (key i : Text) (r r' : Incident) (d : Dict Incident)
    → Distinct d
    → find_active key d ≡ some (i, r)
    → is_active r' ≡ true
    → r'.event_key ≡ key
    → find_active key (insert i r' d) ≡ some (i, r')
unfolding find_active insert lookup
find_active-insert_old key i r r' [] h e a k = absurd (cc)
find_active-insert_old key i r r' ((j, q) ∷ d) h e a k =
    elim (Bool-cases (is_active q && same q.event_key key)) [
      | inl b ↦ ground (arith, same_iff j i, same_iff r'.event_key key)
      | inr b ↦
          let row = find_active-some key i r d h.1 (ground arith) in
          ground (arith, same_iff j i, row.0, find_active-insert_old key i r r' d h.1)
    ]

-- Closing the active incident of a key leaves the key without one.
pub find_active-insert_inactive :
    (key i : Text) (r r' : Incident) (d : Dict Incident)
    → Distinct d
    → Unique d
    → find_active key d ≡ some (i, r)
    → is_active r' ≡ false
    → find_active key (insert i r' d) ≡ none
unfolding find_active insert lookup
find_active-insert_inactive key i r r' [] h u e a = absurd (cc)
find_active-insert_inactive key i r r' ((j, q) ∷ d) h u e a =
    elim (Bool-cases (is_active q && same q.event_key key)) [
      | inl b ↦ ground (arith, same_iff j i, same_iff q.event_key key, u.0)
      | inr b ↦
          let row = find_active-some key i r d h.1 (ground arith) in
          ground (arith, same_iff j i, row.0, find_active-insert_inactive key i r r' d h.1 u.1)
    ]
