-- ===== src/Operations/Incidents/Moves.antt =====
-- What the actions of `change_incident` do to a row, and the rows that they refuse.
use netpulse_monitor.Base.{ℕ, ◌≡◌, ◌≢◌, refl, ◌⊎◌, inl, inr, true, false, some, arith}
use netpulse_monitor.Text.{Text, is_empty}
use netpulse_monitor.Operations.{
  Error, Result, ok, raise, Value, text, Incident, IncidentStatus, opened, acknowledged, resolved,
}
use netpulse_monitor.Operations.Incidents.{
  Action, acknowledge, resolve, assign, comment, change_row,
}

-- The moves of an incident: each action from the statuses where it is allowed.
pub data Move : Action → IncidentStatus → IncidentStatus → Type 0 where
  confirms : Move acknowledge opened acknowledged
  closes : Move resolve opened resolved
  closes_confirmed : Move resolve acknowledged resolved
  assigns : (s : IncidentStatus) → Move assign s s
  comments : (s : IncidentStatus) → Move comment s s

-- What an action writes into a row, and into the note of its event.
abbrev pub Revised : ℕ → Action → Value → (message note : Text) → Incident → Incident → Type 0
Revised now acknowledge owner message note r r' =
    (note ≡ message)
    × (r' ≡ record r { status = acknowledged; acknowledged_at = some now; updated = now })
Revised now resolve owner message note r r' =
    (note ≡ message) × (r' ≡ record r { status = resolved; resolved_at = some now; updated = now })
Revised now assign owner message note r r' =
    (text owner 160 ≡ ok note) × (r' ≡ record r { owner = note; updated = now })
Revised now comment owner message note r r' =
    (note ≡ message) × (is_empty message ≡ false) × (r' ≡ r)

pub change_row-Move :
    (now : ℕ) (a : Action) (owner : Value) (message note : Text) (r r' : Incident)
    (status status' : IncidentStatus)
    → change_row now a owner message r ≡ ok (r', note)
    → r.status ≡ status
    → r'.status ≡ status'
    → Move a status status'
unfolding change_row
change_row-Move now acknowledge owner message note r r' opened acknowledged e q q' = confirms
change_row-Move now acknowledge owner message note r r' _ _ e q q' = absurd (ground arith)
change_row-Move now resolve owner message note r r' opened resolved e q q' = closes
change_row-Move now resolve owner message note r r' acknowledged resolved e q q' = closes_confirmed
change_row-Move now resolve owner message note r r' _ _ e q q' = absurd (ground arith)
change_row-Move now assign owner message note r r' opened opened e q q' = assigns opened
change_row-Move now assign owner message note r r' acknowledged acknowledged e q q' =
    assigns acknowledged
change_row-Move now assign owner message note r r' resolved resolved e q q' = assigns resolved
change_row-Move now assign owner message note r r' _ _ e q q' = absurd (ground arith)
change_row-Move now comment owner message note r r' opened opened e q q' = comments opened
change_row-Move now comment owner message note r r' acknowledged acknowledged e q q' =
    comments acknowledged
change_row-Move now comment owner message note r r' resolved resolved e q q' = comments resolved
change_row-Move now comment owner message note r r' _ _ e q q' = absurd (ground arith)

pub change_row-Revised :
    (now : ℕ) (a : Action) (owner : Value) (message note : Text) (r r' : Incident)
    → change_row now a owner message r ≡ ok (r', note)
    → Revised now a owner message note r r'
unfolding change_row
change_row-Revised now acknowledge owner message note r r' e = ground arith
change_row-Revised now resolve owner message note r r' e = ground arith
change_row-Revised now assign owner message note r r' e = ground arith
change_row-Revised now comment owner message note r r' e = ground arith

pub Result-cases :
    {A : Type 0} (r : Result A) → ((e : Error) × (r ≡ raise e)) ⊎ ((a : A) × (r ≡ ok a))
Result-cases (raise e) = inl (e, refl)
Result-cases (ok a) = inr (a, refl)

-- The rows that an action refuses.
abbrev pub Barred : Action → Value → (message : Text) → Incident → Type 0
Barred acknowledge owner message r = r.status ≢ opened
Barred resolve owner message r = r.status ≡ resolved
Barred assign owner message r = (e : Error) × (text owner 160 ≡ raise e)
Barred comment owner message r = is_empty message ≡ true

pub change_row-Barred :
    (now : ℕ) (a : Action) (owner : Value) (message : Text) (r : Incident) (e : Error)
    → change_row now a owner message r ≡ raise e
    → Barred a owner message r
unfolding change_row
change_row-Barred now acknowledge owner message r e h = λ o. ground arith
change_row-Barred now resolve owner message r e h = ground arith
change_row-Barred now assign owner message r e h = elim (Result-cases (text owner 160)) [
  | inl q ↦ q
  | inr (o, q) ↦ absurd (ground arith)
]
change_row-Barred now comment owner message r e h = ground arith
