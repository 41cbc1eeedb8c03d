-- ===== src/Operations/Samples.antt =====
-- A store with one router in trouble: tests of the methods, and the theorems at concrete stores.
use netpulse_monitor.Base.{
  ◌≡◌, refl, Bool, true, false, none, some, [], ◌∷◌, arith, if◌then◌else◌, ◌⊎◌,
}
use netpulse_monitor.Text.{Text, text_of, same, strip, lstrip, rstrip, is_space}
use netpulse_monitor.Dict.{lookup, insert}
use netpulse_monitor.Operations.{Error, not_open, ok, raise, str, Incident, opened, Store, text}
use netpulse_monitor.Operations.Incidents.{
  find_active, add_event, update_incident, insert_incident, new_incident, open_keyed, open_incident,
  change_incident, change_found, change_row, incident, events_of, Body, Action, parse_action,
  action_name, event_key_or_manual, get_value,
}
use netpulse_monitor.Operations.Incidents.Valid.{IsValid}
use netpulse_monitor.Operations.Incidents.Opening.{Opened, open_keyed-Opened}
use netpulse_monitor.Operations.Incidents.Changing.{
  Changed, Refused, Requested, change_incident-cases,
}
use netpulse_monitor.Operations.Routers.{
  Poll, key_of, new_health, in_maintenance, record_health, close_router, open_router,
  observe_router,
}
use netpulse_monitor.Operations.Routers.Alarm.{
  CanOpen, outcome_up, observe_router-up, observe_router-down,
}

program : Unit {0}
unfolding same strip lstrip rstrip is_space lookup insert text find_active add_event update_incident
    insert_incident new_incident open_keyed open_incident change_incident change_found change_row
    incident events_of parse_action action_name event_key_or_manual new_health in_maintenance
    record_health close_router open_router observe_router
program = tt

abbrev edge : Bool → Poll
edge up = record { ident = text_of "edge"; name = text_of "Office"; reachable = up }

abbrev empty : Store
empty = record { incidents = []; timeline = []; health = []; contexts = [] }

abbrev failed_once : Store
failed_once = record empty {
  health =
      (text_of "router:edge", record { failures = 1; last_success = none; last_check = 5 }) ∷ [];
}

abbrev outage : Incident
outage = record {
  event_key = text_of "router-unreachable:edge";
  device_id = text_of "router:edge";
  title = text_of "Нет связи: Office";
  severity = text_of "critical";
  status = opened;
  owner = [];
  opened = 9;
  updated = 9;
  acknowledged_at = none;
  resolved_at = none;
  occurrences = 1;
}

abbrev alarmed : Store
alarmed = record {
  incidents = (text_of "id1", outage) ∷ [];
  timeline =
      record {
        incident_id = text_of "id1";
        ts = 9;
        actor = text_of "system";
        action = text_of "opened";
        message = text_of "Нет связи: Office";
      }
      ∷ [];
  health =
      (text_of "router:edge", record { failures = 2; last_success = none; last_check = 9 }) ∷ [];
  contexts = [];
}

first_failure :
    observe_router 5 (text_of "k") (text_of "id1") (edge false) empty ≡ (ok none, failed_once)
unfolding program
first_failure = refl

second_failure :
    observe_router 9 (text_of "k") (text_of "id1") (edge false) failed_once
    ≡ (ok (some (text_of "opened")), alarmed)
unfolding program
second_failure = refl

request : Text → Body
request action = record {
  ident = some (str (text_of "id1"));
  action = some (str action);
  message = none;
  owner = none;
}

acknowledged_twice :
    (change_incident 11
      (request (text_of "acknowledge"))
      (text_of "op")
      (change_incident 10 (request (text_of "acknowledge")) (text_of "op") alarmed).1).0
    ≡ raise not_open
unfolding program request
acknowledged_twice = refl

empty-IsValid : IsValid empty
empty-IsValid = record { rows = tt; unique = tt; distinct = tt }

failed_once-IsValid : IsValid failed_once
failed_once-IsValid = record { rows = tt; unique = tt; distinct = tt }

alarmed-IsValid : IsValid alarmed
unfolding program
alarmed-IsValid = record {
  rows = (record { stamped = (refl, refl); counted = omega arith; named = refl }, tt);
  unique = (λ _. refl, tt);
  distinct = (refl, tt);
}

open_keyed-Opened_example :
    (i : Text) × (created : Bool) × (s' : Store) × (open_keyed 20
        (text_of "id2")
        (text_of "router-unreachable:edge")
        (text_of "router:edge")
        (text_of "t")
        (text_of "critical")
        (text_of "system")
        alarmed
      ≡ (ok (i, created), s'))
    × Opened 20 (text_of "router-unreachable:edge") i created alarmed s'
unfolding program
open_keyed-Opened_example =
    open_keyed-Opened 20 (text_of "id2") (text_of "router-unreachable:edge") (text_of "router:edge")
      (text_of "t") (text_of "critical") (text_of "system") alarmed alarmed-IsValid refl

change_incident-cases_example :
    ((e : Error) × (change_incident 20 (request (text_of "resolve")) (text_of "op") alarmed
        ≡ (raise e, alarmed))
      × Refused (request (text_of "resolve")) alarmed)
    ⊎ ((ident : Text) × (a : Action) × (message : Text) × (s' : Store) × (r : Incident) × Requested
          (request (text_of "resolve"))
          ident
          a
          message
        × (change_incident 20 (request (text_of "resolve")) (text_of "op") alarmed
            ≡ (ok (r, events_of ident s'.timeline), s'))
        × (lookup ident s'.incidents ≡ some r)
        × Changed 20 ident a
            (get_value (request (text_of "resolve")).owner (str []))
            message
            (text_of "op")
            alarmed
            s')
change_incident-cases_example =
    change_incident-cases 20 (request (text_of "resolve")) (text_of "op") alarmed

observe_router-up_example :
    (s' : Store) × (observe_router 30 (text_of "k") (text_of "id2") (edge true) alarmed
      ≡ (ok (outcome_up (find_active (key_of (edge true)) alarmed.incidents)), s'))
    × (find_active (key_of (edge true)) s'.incidents ≡ none)
observe_router-up_example =
    observe_router-up 30 (text_of "k") (text_of "id2") (edge true) alarmed alarmed-IsValid refl

edge-CanOpen : CanOpen (text_of "id1") (edge false) failed_once
unfolding program
edge-CanOpen = record {
  fresh = refl;
  device = refl;
  title = (text_of "Нет связи: Office", refl, refl);
}

observe_router-down_example :
    (i : Text) × (created : Bool) × (s' : Store) × (observe_router 9
        (text_of "k")
        (text_of "id1")
        (edge false)
        failed_once
      ≡ (ok (if created then some (text_of "opened") else none), s'))
    × Opened 9 (key_of (edge false)) i created failed_once s'
unfolding program
observe_router-down_example =
    observe_router-down 9 (text_of "k") (text_of "id1") (edge false) failed_once failed_once-IsValid
      edge-CanOpen refl refl (omega arith)
