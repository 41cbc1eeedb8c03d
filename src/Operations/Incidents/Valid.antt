-- ===== src/Operations/Incidents/Valid.antt =====
-- The invariant of the incident tables, and that both methods keep it, also when they raise.
use netpulse_monitor.Base.{
  ℕ, ◌+◌, ◌≤◌, ◌≡◌, refl, ◌⊎◌, inl, inr, true, Option, none, some, List, arith, Option-cases,
}
use netpulse_monitor.Text.{Text}
use netpulse_monitor.Dict.{lookup, insert}
use netpulse_monitor.Dict.Laws.{Entries, insert-Entries, lookup-Entries}
use netpulse_monitor.Dict.Distinct.{Distinct, insert-Distinct}
use netpulse_monitor.Operations.{
  Error, Result, ok, raise, Value, str, IncidentStatus, opened, acknowledged, resolved, Incident,
  Event, Store, M, text, is_active,
}
use netpulse_monitor.Operations.Incidents.{
  find_active, add_event, insert_incident, update_incident, new_incident, open_keyed, open_incident,
  Action, acknowledge, resolve, assign, comment, Body, change_row, change_found, change_incident,
  incident,
}
use netpulse_monitor.Operations.Incidents.Unique.{Unique, insert_new-Unique, insert_old-Unique}
use netpulse_monitor.Operations.Incidents.Active.{find_active-some}

-- The time stamps of a status.
abbrev pub Stamped : IncidentStatus → Option ℕ → Option ℕ → Type 0
Stamped opened a r = (a ≡ none) × (r ≡ none)
Stamped acknowledged a r = ((t : ℕ) × (a ≡ some t)) × (r ≡ none)
Stamped resolved a r = (t : ℕ) × (r ≡ some t)

pub record IsWell (ident : Text) (r : Incident) : Type 0 where
  pub stamped : Stamped r.status r.acknowledged_at r.resolved_at
  pub counted : 1 ≤ r.occurrences
  -- Requests name the row by its identifier as it is.
  pub named : text (str ident) 64 ≡ ok ident

pub record IsValid (s : Store) : Type 0 where
  pub rows : Entries IsWell s.incidents
  pub unique : Unique s.incidents
  pub distinct : Distinct s.incidents

-- A new row of a key with no active incident, and an update of a row.
insert_new-IsValid :
    (ident : Text) (r : Incident) (s : Store)
    → IsWell ident r
    → find_active r.event_key s.incidents ≡ none
    → IsValid s
    → IsValid (record s { incidents = insert ident r s.incidents })
insert_new-IsValid ident r s w f v = record {
  rows = insert-Entries IsWell ident r s.incidents w v.rows;
  unique = insert_new-Unique ident r s.incidents f v.unique;
  distinct = insert-Distinct ident r s.incidents v.distinct;
}

update-IsValid :
    (ident : Text) (r r' : Incident) (s : Store)
    → IsWell ident r'
    → lookup ident s.incidents ≡ some r
    → r'.event_key ≡ r.event_key
    → (is_active r' ≡ true → is_active r ≡ true)
    → IsValid s
    → IsValid (update_incident ident r' s).1
unfolding update_incident
update-IsValid ident r r' s w e k a v = record {
  rows = insert-Entries IsWell ident r' s.incidents w v.rows;
  unique = insert_old-Unique ident r r' s.incidents e k a v.unique;
  distinct = insert-Distinct ident r' s.incidents v.distinct;
}

insert_incident-IsValid :
    (ident : Text) (r : Incident) (s : Store)
    → IsWell ident r
    → IsValid s
    → IsValid (insert_incident ident r s).1
unfolding insert_incident
insert_incident-IsValid ident r s w v = ground (arith, insert_new-IsValid ident r s w)

add_event-IsValid :
    (now : ℕ) (ident actor action message : Text) (s : Store)
    → IsValid s
    → IsValid (add_event now ident actor action message s).1
unfolding add_event
add_event-IsValid now ident actor action message s v = record {
  rows = v.rows;
  unique = v.unique;
  distinct = v.distinct;
}

new_incident-IsWell :
    (now : ℕ) (ident key device_id title severity : Text)
    → text (str ident) 64 ≡ ok ident
    → IsWell ident (new_incident now key device_id title severity)
unfolding new_incident
new_incident-IsWell now ident key device_id title severity named = record {
  stamped = (refl, refl);
  counted = omega arith;
  named = named;
}

-- A method that keeps the invariant, whether it returns or raises.
abbrev pub Keeps : {A : Type 0} → M A → Type 0
Keeps m = (s : Store) → IsValid s → IsValid (m s).1

timeline-IsValid : (l : List Event) (s : Store) → IsValid s → IsValid (record s { timeline = l })
timeline-IsValid l s v = record { rows = v.rows; unique = v.unique; distinct = v.distinct }

open_keyed-IsValid :
    (now : ℕ) (ident key device_id title severity actor : Text)
    → text (str ident) 64 ≡ ok ident
    → Keeps (open_keyed now ident key device_id title severity actor)
unfolding open_keyed insert_incident add_event update_incident new_incident
open_keyed-IsValid now ident key device_id title severity actor named s v =
    elim (Option-cases (find_active key s.incidents)) [
      | inl e ↦
          let r = new_incident now key device_id title severity in
          let w =
            insert_new-IsValid ident r s
              (new_incident-IsWell now ident key device_id title severity named) e v in
          rw (e, open_keyed) (ground (arith, timeline-IsValid _ _ w))
      | inr ((i, r), e) ↦
          let (row, active, k) = find_active-some key i r s.incidents v.distinct e in
          let w = lookup-Entries IsWell i s.incidents r row v.rows in
          let more : Incident = record r { updated = now; occurrences = r.occurrences + 1 } in
          rw (e, open_keyed)
            (update-IsValid i r more s
              (record { stamped = w.stamped; counted = omega arith; named = w.named }) row refl
              (λ a. a) v)
    ]

-- `open_incident` keeps the invariant, for an identifier that `text` accepts as it is.
pub open_incident-IsValid :
    (now : ℕ) (uuid_key ident : Text) (device_id title : Value) (severity : Text)
    (event_key : Option Text) (actor : Text)
    → text (str ident) 64 ≡ ok ident
    → Keeps (open_incident now uuid_key ident device_id title severity event_key actor)
unfolding open_incident
open_incident-IsValid now uuid_key ident device_id title severity event_key actor named s v =
    grind (arith, open_keyed-IsValid)

acknowledged-IsWell :
    (now : ℕ) (ident : Text) (r : Incident)
    → IsWell ident r
    → r.status ≡ opened
    → IsWell ident (record r { status = acknowledged; acknowledged_at = some now; updated = now })
acknowledged-IsWell now ident r w e = record {
  stamped = ((now, refl), ground (arith, w.stamped));
  counted = w.counted;
  named = w.named;
}

resolved-IsWell :
    (now : ℕ) (ident : Text) (r : Incident)
    → IsWell ident r
    → IsWell ident (record r { status = resolved; resolved_at = some now; updated = now })
resolved-IsWell now ident r w = record {
  stamped = (now, refl);
  counted = w.counted;
  named = w.named;
}

assigned-IsWell :
    (now : ℕ) (ident : Text) (r : Incident)
    → IsWell ident r
    → (o : Text) → IsWell ident (record r { owner = o; updated = now })
assigned-IsWell now ident r w o = record {
  stamped = w.stamped;
  counted = w.counted;
  named = w.named;
}

change_row-IsWell :
    (now : ℕ) (ident : Text) (a : Action) (owner : Value) (message note : Text) (r r' : Incident)
    → change_row now a owner message r ≡ ok (r', note)
    → IsWell ident r
    → IsWell ident r' × (r'.event_key ≡ r.event_key) × (is_active r' ≡ true → is_active r ≡ true)
unfolding change_row
change_row-IsWell now ident acknowledge owner message note r r' e w =
    ground (arith, acknowledged-IsWell now ident r w, w.stamped)
change_row-IsWell now ident resolve owner message note r r' e w =
    ground (arith, resolved-IsWell now ident r w)
change_row-IsWell now ident assign owner message note r r' e w =
    ground (arith, assigned-IsWell now ident r w)
change_row-IsWell now ident comment owner message note r r' e w = ground (arith)

pub Result-cases :
    {A : Type 0} (r : Result A) → ((e : Error) × (r ≡ raise e)) ⊎ ((a : A) × (r ≡ ok a))
Result-cases (raise e) = inl (e, refl)
Result-cases (ok a) = inr (a, refl)

change_found-IsValid :
    (now : ℕ) (ident : Text) (action : Action) (owner : Value) (message actor : Text)
    → Keeps (change_found now ident action owner message actor)
unfolding change_found add_event update_incident
change_found-IsValid now ident action owner message actor s v =
    elim (Option-cases (lookup ident s.incidents)) [
      | inl e ↦ rw (e, change_found) v
      | inr (r, e) ↦ elim (Result-cases (change_row now action owner message r)) [
        | inl (x, q) ↦ rw (e, change_found, q) v
        | inr ((r', note), q) ↦
            let (w, k, a) =
              change_row-IsWell now ident action owner message note r r' q
                (lookup-Entries IsWell ident s.incidents r e v.rows) in
            rw (e, change_found, q) (timeline-IsValid _ _ (update-IsValid ident r r' s w e k a v))
      ]
    ]

incident-state : (ident : Text) (s : Store) → (incident ident s).1 ≡ s
unfolding incident
incident-state ident s = ground arith

-- `change_incident` keeps the invariant.
pub change_incident-IsValid :
    (now : ℕ) (body : Body) (actor : Text) → Keeps (change_incident now body actor)
unfolding change_incident
change_incident-IsValid now body actor s v = grind (arith, change_found-IsValid, incident-state)
