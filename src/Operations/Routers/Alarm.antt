-- ===== src/Operations/Routers/Alarm.antt =====
-- When a router's poll opens an incident, closes it, or leaves the incidents alone.
use netpulse_monitor.Base.{
  ℕ, ◌≤◌, ◌≡◌, ◌≢◌, refl, ◌∙◌, ◌⊎◌, inl, inr, Bool, true, false, Option, none, some, List, [], ◌++◌,
  arith, Option-cases, if◌then◌else◌,
}
use netpulse_monitor.Text.{Text, text_of, same, is_empty, strip, lstrip, rstrip, is_space}
use netpulse_monitor.Dict.{lookup}
use netpulse_monitor.Dict.Laws.{lookup-Entries, lookup-insert_self}
use netpulse_monitor.Operations.{ok, str, text, Incident, Event, Store, resolved, is_active}
use netpulse_monitor.Operations.Incidents.{
  find_active, open_keyed, open_incident, change_incident, parse_action, resolve, add_event,
  update_incident, event_key_or_manual, action_name,
}
use netpulse_monitor.Operations.Incidents.Active.{find_active-some, find_active-insert_inactive}
use netpulse_monitor.Operations.Incidents.Valid.{IsValid}
use netpulse_monitor.Operations.Incidents.Changing.{incident-row, closed, change_found-resolve}
use netpulse_monitor.Operations.Incidents.Opening.{Opened, open_keyed-Opened}
use netpulse_monitor.Operations.Incidents.{events_of}
use netpulse_monitor.Operations.Incidents.Valid.{IsWell}
use netpulse_monitor.Operations.Routers.{
  Poll, device_of, key_of, failures_of, new_health, in_maintenance, record_health, recovery,
  close_router, open_router, observe_router,
}

record_health-IsValid :
    (now : ℕ) (row : Poll) (s : Store) → IsValid s → IsValid (record_health now row s)
unfolding record_health
record_health-IsValid now row s v = record {
  rows = v.rows;
  unique = v.unique;
  distinct = v.distinct;
}

active-ne-resolved : (r : Incident) → is_active r ≡ true → r.status ≢ resolved
active-ne-resolved r a e = ground arith

note : Text
note = text_of "Связь восстановлена"

note_lem : text (str (text_of "Связь восстановлена")) 2000 ≡ ok note
unfolding text strip lstrip rstrip is_space note
note_lem = refl

resolve_lem : parse_action (some (str (text_of "resolve"))) ≡ ok resolve
unfolding parse_action same
resolve_lem = refl

-- The store after the collector closed the incident `i`.
recovered : ℕ → Text → Incident → Store → Store
recovered now i r s =
    (add_event now i (text_of "collector") (action_name resolve) note
      (update_incident i (closed now r) s).1).1

change_recovery :
    (now : ℕ) (i : Text) (r : Incident) (s : Store)
    → lookup i s.incidents ≡ some r
    → r.status ≢ resolved
    → text (str i) 64 ≡ ok i
    → (x : Incident × List Event) × (change_incident now (recovery i) (text_of "collector") s
        ≡ (ok x, recovered now i r s))
unfolding change_incident recovered update_incident add_event
change_recovery now i r s found active named = (
  (closed now r, events_of i (recovered now i r s).timeline),
  rw (named, resolve_lem, note_lem, change_incident)
      (rw (change_found-resolve now i (str []) note (text_of "collector") s r found active) (
        incident-row i (closed now r) (recovered now i r s)
          (lookup-insert_self i (closed now r) s.incidents))),
)

close_router-none :
    (now : ℕ) (row : Poll) (s : Store)
    → find_active (key_of row) s.incidents ≡ none
    → close_router now row s ≡ (ok none, s)
unfolding close_router
close_router-none now row s e = rw (e, close_router)

closed-inactive : (now : ℕ) (r : Incident) → is_active (closed now r) ≡ false
unfolding closed
closed-inactive now r = refl

close_router_lem :
    (now : ℕ) (row : Poll) (i : Text) (r : Incident) (s : Store)
    → IsValid s
    → find_active (key_of row) s.incidents ≡ some (i, r)
    → close_router now row s ≡ (ok (some (text_of "resolved")), recovered now i r s)
unfolding close_router
close_router_lem now row i r s v e =
    let (found, active, k) = find_active-some (key_of row) i r s.incidents v.distinct e in
    let w = lookup-Entries IsWell i s.incidents r found v.rows in
    let (x, q) = change_recovery now i r s found (active-ne-resolved r active) w.named in
    rw (e, close_router) (rw q refl)

abbrev pub outcome_up : Option (Text × Incident) → Option Text
outcome_up none = none
outcome_up (some _) = some (text_of "resolved")

module _ (now : ℕ) (uuid_key ident : Text) (row : Poll) (s : Store) where
  observe_up :
      row.reachable ≡ true
      → observe_router now uuid_key ident row s ≡ close_router now row (record_health now row s)
  unfolding observe_router
  observe_up up = ground arith

  observe_down :
      row.reachable ≡ false
      → in_maintenance now (lookup (device_of row) s.contexts) ≡ false
      → 1 ≤ failures_of (lookup (device_of row) s.health)
      → observe_router now uuid_key ident row s
        ≡ open_router now uuid_key ident row (record_health now row s)
  unfolding observe_router new_health
  observe_down down open_window again = ground arith

  observe_quiet :
      row.reachable ≡ false
      → (in_maintenance now (lookup (device_of row) s.contexts) ≡ true)
        ⊎ (failures_of (lookup (device_of row) s.health) ≡ 0)
      → observe_router now uuid_key ident row s ≡ (ok none, record_health now row s)
  unfolding observe_router new_health
  observe_quiet down quiet = ground arith

-- On a valid store a poll that the router answers never raises, and leaves no active incident for
-- it; it reports `resolved` exactly when there was one.
pub observe_router-up :
    (now : ℕ) (uuid_key ident : Text) (row : Poll) (s : Store)
    → IsValid s
    → row.reachable ≡ true
    → (s' : Store) × (observe_router now uuid_key ident row s
        ≡ (ok (outcome_up (find_active (key_of row) s.incidents)), s'))
      × (find_active (key_of row) s'.incidents ≡ none)
unfolding recovered record_health add_event update_incident
observe_router-up now uuid_key ident row s v up =
    elim (Option-cases (find_active (key_of row) s.incidents)) [
      | inl e ↦ (
        record_health now row s,
        rw e (
            observe_up now uuid_key ident row s up
            ∙ close_router-none now row (record_health now row s) e),
        e,
      )
      | inr ((i, r), e) ↦
          let s1 = record_health now row s in
          (
            recovered now i r s1,
            rw e (
                observe_up now uuid_key ident row s up
                ∙ close_router_lem now row i r s1 (record_health-IsValid now row s v) e),
            find_active-insert_inactive (key_of row) i r (closed now r) s.incidents v.distinct
                v.unique e (closed-inactive now r),
          )
    ]

-- What a poll needs to open an incident: texts within the limits, and a fresh identifier.
pub record CanOpen (ident : Text) (row : Poll) (s : Store) : Type 0 where
  pub fresh : lookup ident s.incidents ≡ none
  pub device : text (str (device_of row)) 64 ≡ ok (device_of row)
  pub title :
      (t : Text) × (text (str (text_of "Нет связи: " ++ row.name)) 300 ≡ ok t)
      × (is_empty t ≡ false)

open_router_lem :
    (now : ℕ) (uuid_key ident : Text) (row : Poll) (s : Store) (c : CanOpen ident row s) (i : Text)
    (created : Bool) (s' : Store)
    → open_keyed now ident
        (key_of row)
        (device_of row)
        c.title.0
        (text_of "critical")
        (text_of "system")
        s
      ≡ (ok (i, created), s')
    → open_router now uuid_key ident row s
      ≡ (ok (if created then some (text_of "opened") else none), s')
unfolding open_router open_incident event_key_or_manual same
open_router_lem now uuid_key ident row s c i created s' e =
    rw (c.device, c.title.1, c.title.2, open_router, open_incident) (rw e refl)

-- A poll that the router does not answer, outside maintenance and after a failure, opens the
-- incident of the router or counts it once more, and reports `opened` exactly when it is new.
pub observe_router-down :
    (now : ℕ) (uuid_key ident : Text) (row : Poll) (s : Store)
    → IsValid s
    → CanOpen ident row s
    → row.reachable ≡ false
    → in_maintenance now (lookup (device_of row) s.contexts) ≡ false
    → 1 ≤ failures_of (lookup (device_of row) s.health)
    → (i : Text) × (created : Bool) × (s' : Store) × (observe_router now uuid_key ident row s
        ≡ (ok (if created then some (text_of "opened") else none), s'))
      × Opened now (key_of row) i created s s'
unfolding record_health
observe_router-down now uuid_key ident row s v c down open_window again =
    let s1 = record_health now row s in
    let (i, created, s', e, o) =
      open_keyed-Opened now ident (key_of row) (device_of row) c.title.0 (text_of "critical")
        (text_of "system") s1 (record_health-IsValid now row s v) c.fresh in
    (
      i,
      created,
      s',
      observe_down now uuid_key ident row s down open_window again
          ∙ open_router_lem now uuid_key ident row s1
              (record { fresh = c.fresh; device = c.device; title = c.title }) i created s' e,
      record { active = o.active; new = o.new; others = o.others; events = o.events },
    )
