-- ===== src/Operations/Alerts/Samples.antt =====
-- Batches of alerts.
use netpulse_monitor.Base.{false, ◌+◌, ◌<◌, arith, ℕ, ◌≡◌, refl, some, List, [], ◌∷◌}
use netpulse_monitor.Text.{Text, text_of, same, strip, lstrip, rstrip, is_space}
use netpulse_monitor.Dict.{lookup, insert}
use netpulse_monitor.Operations.{bad_incident, Result, ok, raise, str, text, Store}
use netpulse_monitor.Operations.Incidents.{
  find_active, add_event, update_incident, insert_incident, new_incident, open_keyed, open_incident,
  change_incident, change_found, change_row, incident, events_of, parse_action, action_name,
  event_key_or_manual,
}
use netpulse_monitor.Operations.Incidents.Valid.{IsValid}
use netpulse_monitor.Operations.Routers.{in_maintenance}
use netpulse_monitor.Operations.Alerts.Complete.{IsAccepted, AreFresh, receive_alerts-done}
use netpulse_monitor.Operations.Alerts.{
  firing, resolving, absent, fields, Alert, alert, Labels, Outcome, ignore, notify_opened,
  notify_resolved, parse_status, dictionary, label_of, labels_of, title_of, named_labels, validate,
  validate_all, bind_result, router_of, alert_device, is_shared, alert_key, receive_firing,
  still_failing, receive_resolved, receive, receive_all, receive_alerts, after_opening,
  after_closing,
}
use netpulse_monitor.Operations.Alerts.Received.{Counts}

program : Unit {0}
unfolding same strip lstrip rstrip is_space lookup insert text find_active add_event update_incident
    insert_incident new_incident open_keyed open_incident change_incident change_found change_row
    incident events_of parse_action action_name event_key_or_manual in_maintenance ignore
    notify_opened notify_resolved parse_status dictionary label_of labels_of title_of named_labels
    validate validate_all bind_result router_of alert_device is_shared alert_key receive_firing
    still_failing receive_resolved receive receive_all receive_alerts after_opening after_closing
program = tt

abbrev empty : Store
empty = record { incidents = []; timeline = []; health = []; contexts = [] }

abbrev down : Text → Alert
down summary =
    alert (some (str (text_of "firing")))
      (fields ((text_of "alertname", str (text_of "Down")) ∷ []))
      (fields ((text_of "summary", str summary) ∷ []))

abbrev up : Alert
up =
    alert (some (str (text_of "resolved")))
      (fields ((text_of "alertname", str (text_of "Down")) ∷ [])) absent

abbrev digest : Labels → Text
digest labels = labels.alertname

abbrev fresh : ℕ → Text
fresh i = text_of "id1"

abbrev outcome_of : List Alert → Result Outcome
outcome_of l = (receive_alerts [] digest 7 fresh (some l) empty).0

-- An alert fires, fires again and is resolved.
outcome_of-down :
    outcome_of (down (text_of "x") ∷ down (text_of "x") ∷ up ∷ [])
    ≡ ok (record {
      opened = 1;
      resolved = 1;
      ignored = 1;
      notifications =
          (text_of "ALERT_OPENED", text_of "x") ∷ (text_of "ALERT_RESOLVED", text_of "Down") ∷ [];
    })
unfolding program
outcome_of-down = refl

-- A summary of blanks is refused by `open_incident` only, after the alerts before it.
outcome_of-blank : outcome_of (down (text_of " ") ∷ []) ≡ raise bad_incident
unfolding program
outcome_of-blank = refl

empty-IsValid : IsValid empty
unfolding program
empty-IsValid = record { rows = tt; unique = tt; distinct = tt }

fresh_lem : (i : ℕ) → text (str (fresh i)) 64 ≡ ok (fresh i)
unfolding program
fresh_lem i = refl

-- Names of one letter.
abbrev letter : ℕ → Text
letter i = (100 + i) ∷ []

abbrev batch : List Alert
batch = down (text_of "x") ∷ up ∷ []

abbrev down_labels : Labels
down_labels = record { alertname = text_of "Down"; job = []; instance_name = []; router = [] }

batch_lem :
    validate_all batch
    ≡ ok ((firing, down_labels, text_of "x") ∷ (resolving, down_labels, text_of "Down") ∷ [])
unfolding program
batch_lem = refl

letter_named : (i : ℕ) → text (str (letter i)) 64 ≡ ok (letter i)
unfolding program
letter_named i = ground arith

letter_distinct : (i j : ℕ) → i < j → same (letter j) (letter i) ≡ false
unfolding program
letter_distinct i j l = ground arith

letter-AreFresh : AreFresh [] digest 7 2 letter empty
unfolding program
letter-AreFresh = record { named = letter_named; free = λ i l. refl; distinct = letter_distinct }

x-IsAccepted : IsAccepted (alert_device [] digest down_labels) (text_of "x")
unfolding program
x-IsAccepted = record { device_fits = refl; title_fits = refl; titled = refl }

receive_alerts-done_example :
    (o : Outcome) × ((receive_alerts [] digest 7 letter (some batch) empty).0 ≡ ok o) × Counts 2 o
receive_alerts-done_example =
    receive_alerts-done [] digest 7 letter batch
      ((firing, down_labels, text_of "x") ∷ (resolving, down_labels, text_of "Down") ∷ []) empty
      empty-IsValid (omega arith) batch_lem (x-IsAccepted, (tt, tt)) letter-AreFresh
