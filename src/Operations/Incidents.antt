-- ===== src/Operations/Incidents.antt =====
-- `open_incident`, `incident` and `change_incident` of netpulse/operations.py. The identifiers that
-- `uuid4` draws are arguments.
pub mod Unique
pub mod Moves
pub mod Changing
pub mod Opening
pub mod Valid
pub mod Active
use mathlib.Core.List.{reverse}
use netpulse_monitor.Base.{
  ℕ, ◌+◌, Bool, true, false, not, ◌&&◌, ◌||◌, Option, none, some, List, [], ◌∷◌, ◌++◌,
  if◌then◌else◌, take, keep_if, any_of,
}
use netpulse_monitor.Text.{Text, text_of, same, is_empty}
use netpulse_monitor.Dict.{Dict, lookup, insert}
use netpulse_monitor.Operations.{
  Error, bad_incident, bad_action, no_incident, not_open, already_resolved, empty_comment,
  integrity_error, Result, ok, raise, Value, str, other, IncidentStatus, opened, acknowledged,
  resolved, Incident, Event, Store, M, ◌>>=◌, ◌>>◌, pure, fail, lift, refuse, text, is_active,
}

-- `SELECT id FROM incidents WHERE event_key=? AND status IN ('open','acknowledged')`, the first row.
unfoldable pub find_active : Text → Dict Incident → Option (Text × Incident)
find_active key [] = none
find_active key ((i, r) ∷ d) =
    if is_active r && same r.event_key key then some (i, r) else find_active key d

-- `_timeline`
unfoldable pub add_event : ℕ → Text → Text → Text → Text → M (Unit {0})
add_event now ident actor action message s = (
  ok tt,
  record s {
    timeline =
        s.timeline
        ++ record {
          incident_id = ident;
          ts = now;
          actor = take 160 actor;
          action = action;
          message = take 2000 message;
        }
          ∷ [];
  },
)

-- `INSERT INTO incidents`, with the constraints of the primary key and of the unique index.
unfoldable pub insert_incident : Text → Incident → M (Unit {0})
insert_incident ident r s = elim (lookup ident s.incidents) [
  | some _ ↦ (raise integrity_error, s)
  | none ↦ elim (find_active r.event_key s.incidents) [
    | some _ ↦ (raise integrity_error, s)
    | none ↦ (ok tt, record s { incidents = insert ident r s.incidents })
  ]
]

-- `UPDATE incidents SET … WHERE id=?`
unfoldable pub update_incident : Text → Incident → M (Unit {0})
update_incident ident r s = (ok tt, record s { incidents = insert ident r s.incidents })

abbrev pub severities : List Text
severities = text_of "info" ∷ text_of "warning" ∷ text_of "critical" ∷ []

unfoldable pub new_incident : ℕ → Text → Text → Text → Text → Incident
new_incident now key device_id title severity = record {
  event_key = key;
  device_id = device_id;
  title = title;
  severity = severity;
  status = opened;
  owner = [];
  opened = now;
  updated = now;
  acknowledged_at = none;
  resolved_at = none;
  occurrences = 1;
}

-- `event_key or ('manual:' + uuid4().hex)`
unfoldable pub event_key_or_manual : Option Text → Text → Text
event_key_or_manual none uuid = text_of "manual:" ++ uuid
event_key_or_manual (some k) uuid = if is_empty k then text_of "manual:" ++ uuid else k

-- The transaction: an active incident of the key counts once more, or a new one is opened.
unfoldable pub open_keyed :
    (now : ℕ) (ident key device_id title severity actor : Text) → M (Text × Bool)
open_keyed now ident key device_id title severity actor s = elim (find_active key s.incidents) [
  | some (i, r) ↦
      (do
        update_incident i (record r { updated = now; occurrences = r.occurrences + 1 })
        pure (i, false))
        s
  | none ↦
      (do
        insert_incident ident (new_incident now key device_id title severity)
        add_event now ident actor (text_of "opened") title
        pure (ident, true))
        s
]

unfoldable pub open_incident :
    (now : ℕ) (uuid_key ident : Text) (device_id title : Value) (severity : Text)
    (event_key : Option Text) (actor : Text)
    → M (Text × Bool)
open_incident now uuid_key ident device_id title severity event_key actor = do
  device_id ← lift (text device_id 64)
  title ← lift (text title 300)
  refuse (is_empty title || not (any_of (same severity) severities)) bad_incident
  open_keyed now ident (event_key_or_manual event_key uuid_key) device_id title severity actor

-- The last hundred events of an incident, oldest first.
unfoldable pub events_of : Text → List Event → List Event
events_of ident l = reverse (take 100 (reverse (keep_if (λ e. same e.incident_id ident) l)))

unfoldable pub incident : Text → M (Incident × List Event)
incident ident s = elim (lookup ident s.incidents) [
  | none ↦ (raise no_incident, s)
  | some r ↦ (ok (r, events_of ident s.timeline), s)
]

pub data Action : Type 0 where
  acknowledge resolve assign comment : Action

unfoldable pub action_name : Action → Text
action_name acknowledge = text_of "acknowledge"
action_name resolve = text_of "resolve"
action_name assign = text_of "assign"
action_name comment = text_of "comment"

-- `action not in ('acknowledge', 'resolve', 'assign', 'comment')`
unfoldable pub parse_action : Option Value → Result Action
parse_action none = raise bad_action
parse_action (some other) = raise bad_action
parse_action (some (str a)) =
    if same a (text_of "acknowledge")
    then ok acknowledge
    else if same a (text_of "resolve")
    then ok resolve
    else if same a (text_of "assign")
    then ok assign
    else if same a (text_of "comment")
    then ok comment
    else raise bad_action

-- A request body. `none` is a missing key.
pub record Body : Type 0 where
  pub ident : Option Value
  pub action : Option Value
  pub message : Option Value
  pub owner : Option Value

abbrev pub get_value : Option Value → Value → Value
get_value none d = d
get_value (some v) d = v

-- The branch of the action: the row after it, and the message for the timeline.
unfoldable pub change_row : ℕ → Action → Value → Text → Incident → Result (Incident × Text)
change_row now acknowledge owner message r = elim r.status [
  | opened ↦
      ok (record r { status = acknowledged; acknowledged_at = some now; updated = now }, message)
  | _ ↦ raise not_open
]
change_row now resolve owner message r = elim r.status [
  | resolved ↦ raise already_resolved
  | _ ↦ ok (record r { status = resolved; resolved_at = some now; updated = now }, message)
]
change_row now assign owner message r = elim (text owner 160) [
  | raise e ↦ raise e
  | ok o ↦ ok (record r { owner = o; updated = now }, o)
]
change_row now comment owner message r =
    if is_empty message then raise empty_comment else ok (r, message)

-- The transaction of `change_incident`.
unfoldable pub change_found :
    (now : ℕ) (ident : Text) (action : Action) (owner : Value) (message actor : Text) → M (Unit {0})
change_found now ident action owner message actor s = elim (lookup ident s.incidents) [
  | none ↦ (raise no_incident, s)
  | some r ↦
      (do
        (r', note) ← lift (change_row now action owner message r)
        update_incident ident r'
        add_event now ident actor (action_name action) note)
        s
]

unfoldable pub change_incident : ℕ → Body → Text → M (Incident × List Event)
change_incident now body actor = do
  ident ← lift (text (get_value body.ident other) 64)
  action ← lift (parse_action body.action)
  message ← lift (text (get_value body.message (str [])) 2000)
  change_found now ident action (get_value body.owner (str [])) message actor
  incident ident
