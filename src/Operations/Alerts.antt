-- ===== src/Operations/Alerts.antt =====
-- `receive_alerts` of netpulse/operations.py: a batch of alerts is validated, and then each of them
-- opens an incident or closes one. The identifiers of the configured routers, the digest of the
-- labels and the identifiers that `uuid4` draws are arguments.
pub mod Received
pub mod Complete
mod Samples
use netpulse_monitor.Base.{
  ℕ, zero, suc, ◌+◌, Bool, true, false, not, ◌&&◌, ◌||◌, Option, none, some, List, [], ◌∷◌, ◌++◌,
  if◌then◌else◌, ltb, length, any_of, ◌==◌,
}
use netpulse_monitor.Text.{Text, text_of, same, is_empty}
use netpulse_monitor.Dict.{Dict, lookup}
use netpulse_monitor.Operations.{
  Error, bad_alerts, bad_alert, no_alertname, Result, ok, raise, Value, str, other, Incident, Event,
  continue, Health, Context, Store, M, text,
}
use netpulse_monitor.Operations.Incidents.{
  find_active, open_incident, change_incident, Body, get_value,
}
use netpulse_monitor.Operations.Routers.{in_maintenance, failures_of}

-- The labels or annotations of an alert: a dictionary, nothing (or a value that is false), or another value.
pub data Fields : Type 0 where
  absent : Fields
  fields : Dict Value → Fields
  ill_typed : Fields

pub data Alert : Type 0 where
  alert : (status : Option Value) (labels annotations : Fields) → Alert
  no_dict : Alert

pub data AlertStatus : Type 0 where
  firing resolving : AlertStatus

pub record Labels : Type 0 where
  pub alertname : Text
  pub job : Text
  pub instance_name : Text
  pub router : Text

unfoldable pub bind_result : {A B : Type 0} → Result A → (A → Result B) → Result B
bind_result (raise e) f = raise e
bind_result (ok a) f = f a

unfoldable pub parse_status : Option Value → Result AlertStatus
parse_status (some (str a)) =
    if same a (text_of "firing")
    then ok firing
    else if same a (text_of "resolved")
    then ok resolving
    else raise bad_alert
parse_status _ = raise bad_alert

-- `value or {}`, which has to be a dictionary.
unfoldable pub dictionary : Fields → Result (Dict Value)
dictionary absent = ok []
dictionary (fields d) = ok d
dictionary ill_typed = raise bad_alert

unfoldable pub label_of : Dict Value → Text → Result Text
label_of d key = text (get_value (lookup key d) (str [])) 256

unfoldable pub labels_of : Dict Value → Result Labels
unfolding bind_result label_of
labels_of d = bind_result (label_of d (text_of "alertname")) (λ a.
    bind_result (label_of d (text_of "job")) (λ j.
      bind_result (label_of d (text_of "instance")) (λ i.
        bind_result (label_of d (text_of "router"))
          (λ r. ok (record { alertname = a; job = j; instance_name = i; router = r })))))

-- `annotations.get('summary') or labels['alertname']`. A value that is false is missing here.
unfoldable pub title_of : Dict Value → Labels → Value
title_of d labels = elim (lookup (text_of "summary") d) [
  | none ↦ str labels.alertname
  | some other ↦ other
  | some (str t) ↦ if is_empty t then str labels.alertname else str t
]

unfoldable pub named_labels : Labels → Result Labels
named_labels labels = if is_empty labels.alertname then raise no_alertname else ok labels

unfoldable pub validate : Alert → Result (AlertStatus × Labels × Text)
unfolding parse_status dictionary labels_of title_of bind_result named_labels
validate no_dict = raise bad_alert
validate (alert status labels annotations) = bind_result (parse_status status) (λ s.
    bind_result (dictionary labels) (λ d. bind_result (labels_of d) (λ l.
      bind_result (named_labels l) (λ l.
        bind_result (dictionary annotations)
          (λ a. bind_result (text (title_of a l) 300) (λ t. ok (s, l, t)))))))

unfoldable pub validate_all : List Alert → Result (List (AlertStatus × Labels × Text))
unfolding bind_result validate
validate_all [] = ok []
validate_all (a ∷ rest) =
    bind_result (validate a) (λ v. bind_result (validate_all rest) (λ vs. ok (v ∷ vs)))

pub record Outcome : Type 0 where
  pub opened : ℕ
  pub resolved : ℕ
  pub ignored : ℕ
  pub notifications : List (Text × Text)

abbrev pub no_outcome : Outcome
no_outcome = record { opened = 0; resolved = 0; ignored = 0; notifications = [] }

unfoldable pub ignore : Outcome → Outcome
ignore o = record o { ignored = o.ignored + 1 }

unfoldable pub notify_opened : Text → Outcome → Outcome
notify_opened title o = record o {
  opened = o.opened + 1;
  notifications = o.notifications ++ (text_of "ALERT_OPENED", title) ∷ [];
}

unfoldable pub notify_resolved : Text → Outcome → Outcome
notify_resolved title o = record o {
  resolved = o.resolved + 1;
  notifications = o.notifications ++ (text_of "ALERT_RESOLVED", title) ∷ [];
}

-- The request that closes the incident of an alert.
abbrev pub alert_recovery : Text → Body
alert_recovery i = record {
  ident = some (str i);
  action = some (str (text_of "resolve"));
  message = some (str (text_of "Alertmanager: восстановление"));
  owner = none;
}

-- The outcome after `open_incident`, whose errors are passed on.
unfoldable pub after_opening :
    Text → Outcome → Result (Text × Bool) × Store → Result Outcome × Store
unfolding notify_opened ignore
after_opening title o (raise e, s) = (raise e, s)
after_opening title o (ok (i, created), s) =
    (ok (if created then notify_opened title o else ignore o), s)

-- The outcome after `change_incident`, whose errors are ignored.
unfoldable pub after_closing :
    Text → Outcome → Result (Incident × List Event) × Store → Result Outcome × Store
unfolding notify_resolved ignore
after_closing title o (raise e, s) = (ok (ignore o), s)
after_closing title o (ok x, s) = (ok (notify_resolved title o), s)

module _ (router_ids : List Text) (digest : Labels → Text) where
  -- The router of the labels, if it is configured, and otherwise the empty name.
  unfoldable pub router_of : Labels → Text
  router_of labels = if any_of (same labels.router) router_ids then labels.router else []

  unfoldable pub alert_device : Labels → Text
  unfolding router_of
  alert_device labels =
      let router = router_of labels in if is_empty router then [] else text_of "router:" ++ router

  -- The key of a router's own incident, which `observe_router` uses too.
  unfoldable pub is_shared : Labels → Bool
  unfolding router_of
  is_shared labels =
      same labels.alertname (text_of "MikroTikUnreachable") && not (is_empty (router_of labels))

  unfoldable pub alert_key : Labels → Text
  unfolding is_shared router_of
  alert_key labels =
      if is_shared labels
      then text_of "router-unreachable:" ++ router_of labels
      else text_of "prometheus:" ++ digest labels

  unfoldable pub receive_firing :
      (now : ℕ) (ident : Text) (contexts : Dict Context) (labels : Labels) (title : Text)
      → Outcome
      → M Outcome
  receive_firing now ident contexts labels title o s =
      if in_maintenance now (lookup (alert_device labels) contexts)
      then (ok (ignore o), s)
      else after_opening title o (
          open_incident now [] ident (str (alert_device labels)) (str title) (text_of "critical")
            (some (alert_key labels)) (text_of "alertmanager") s)

  -- `health and health['failures']`, of a router's own incident.
  unfoldable pub still_failing : Labels → Store → Bool
  still_failing labels s =
      is_shared labels && not (failures_of (lookup (alert_device labels) s.health) == 0)

  unfoldable pub receive_resolved : (now : ℕ) (labels : Labels) (title : Text) → Outcome → M Outcome
  receive_resolved now labels title o s = elim (find_active (alert_key labels) s.incidents) [
    | none ↦ (ok (ignore o), s)
    | some (i, r) ↦
        if still_failing labels s
        then (ok (ignore o), s)
        else after_closing title o
            (change_incident now (alert_recovery i) (text_of "alertmanager") s)
  ]

  unfoldable pub receive :
      (now : ℕ) (ident : Text) (contexts : Dict Context)
      → AlertStatus × Labels × Text
      → Outcome
      → M Outcome
  receive now ident contexts (firing, labels, title) o =
      receive_firing now ident contexts labels title o
  receive now ident contexts (resolving, labels, title) o = receive_resolved now labels title o

  -- The second loop; an error in it leaves what the alerts before did.
  unfoldable pub receive_all :
      (now : ℕ) (fresh : ℕ → Text) (contexts : Dict Context)
      → List (AlertStatus × Labels × Text)
      → Outcome
      → M Outcome
  receive_all now fresh contexts [] o s = (ok o, s)
  receive_all now fresh contexts (v ∷ vs) o s =
      continue (receive_all now fresh contexts vs) (receive now (fresh (length vs)) contexts v o s)

  -- `receive_alerts`; `none` are alerts that are missing, or no list.
  unfoldable pub receive_alerts :
      (now : ℕ) (fresh : ℕ → Text) (alerts : Option (List Alert)) → M Outcome
  receive_alerts now fresh none s = (raise bad_alerts, s)
  receive_alerts now fresh (some alerts) s =
      if ltb 100 (length alerts) then (raise bad_alerts, s) else elim (validate_all alerts) [
        | raise e ↦ (raise e, s)
        | ok validated ↦ receive_all now fresh s.contexts validated no_outcome s
      ]
