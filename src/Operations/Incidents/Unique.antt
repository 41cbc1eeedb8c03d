-- ===== src/Operations/Incidents/Unique.antt =====
-- The table of incidents under the unique index: at most one active incident of an event key.
use netpulse_monitor.Base.{
  ◌≡◌, refl, inl, inr, true, false, ◌&&◌, none, some, [], ◌∷◌, arith, Bool-cases,
}
use netpulse_monitor.Text.{Text, same, same_iff}
use netpulse_monitor.Dict.{Dict, lookup, insert}
use netpulse_monitor.Operations.{Incident, is_active}
use netpulse_monitor.Operations.Incidents.{find_active}

abbrev pub Unique : Dict Incident → Type 0
Unique [] = Unit
Unique ((i, r) ∷ d) = (is_active r ≡ true → find_active r.event_key d ≡ none) × Unique d

-- The row of an identifier is no active row of a key that has none.
find_active-lookup :
    (key ident : Text) (d : Dict Incident) (r : Incident)
    → find_active key d ≡ none
    → lookup ident d ≡ some r
    → (is_active r && same r.event_key key) ≡ false
unfolding find_active lookup
find_active-lookup key ident [] r h e = cc
find_active-lookup key ident ((i, q) ∷ d) r h e = elim (Bool-cases (same i ident)) [
  | inl s ↦ ground arith
  | inr s ↦ find_active-lookup key ident d r (ground arith) (ground arith)
]

pub find_active-insert :
    (key ident : Text) (r : Incident) (d : Dict Incident)
    → find_active key d ≡ none
    → (is_active r && same r.event_key key) ≡ false
    → find_active key (insert ident r d) ≡ none
unfolding find_active insert
find_active-insert key ident r [] h n = ground arith
find_active-insert key ident r ((i, q) ∷ d) h n = elim (Bool-cases (same i ident)) [
  | inl s ↦ rw s (ground arith)
  | inr s ↦ rw s (ground (arith, find_active-insert key ident r d))
]

-- A row whose key has no active incident keeps the index.
pub insert_new-Unique :
    (ident : Text) (r : Incident) (d : Dict Incident)
    → find_active r.event_key d ≡ none
    → Unique d
    → Unique (insert ident r d)
unfolding insert find_active
insert_new-Unique ident r [] h u = (λ _. refl, tt)
insert_new-Unique ident r ((i, q) ∷ d) h u = elim (Bool-cases (same i ident)) [
  | inl s ↦ rw s (λ _. ground arith, u.1)
  | inr s ↦ rw s (
    λ a.
        find_active-insert q.event_key ident r d (u.0 a)
          (ground (arith, same_iff q.event_key r.event_key, same_iff r.event_key q.event_key)),
    insert_new-Unique ident r d (ground arith) u.1,
  )
]

-- So does an update that keeps the key and activates nothing.
pub insert_old-Unique :
    (ident : Text) (r r' : Incident) (d : Dict Incident)
    → lookup ident d ≡ some r
    → r'.event_key ≡ r.event_key
    → (is_active r' ≡ true → is_active r ≡ true)
    → Unique d
    → Unique (insert ident r' d)
unfolding insert lookup
insert_old-Unique ident r r' [] e k a u = cc
insert_old-Unique ident r r' ((i, q) ∷ d) e k a u = elim (Bool-cases (same i ident)) [
  | inl s ↦ rw s (λ b. ground (arith, a b, u.0, k), u.1)
  | inr s ↦ rw s (
    λ b.
        find_active-insert q.event_key ident r' d (u.0 b)
          (ground (arith, a, k, find_active-lookup q.event_key ident d r (u.0 b) (ground arith))),
    insert_old-Unique ident r r' d (ground arith) k a u.1,
  )
]
