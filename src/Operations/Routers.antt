-- ===== src/Operations/Routers.antt =====
-- `observe_router` of netpulse/operations.py: a router's poll updates its health, opens an incident
-- at the second failure in a row outside a maintenance window, and closes it at the next success.
pub mod Alarm
use netpulse_monitor.Base.{
  ℕ, ◌+◌, Bool, true, false, not, ◌&&◌, Option, none, some, List, [], ◌∷◌, ◌++◌, if◌then◌else◌, ltb,
  leb,
}
use netpulse_monitor.Text.{Text, text_of}
use netpulse_monitor.Dict.{lookup, insert}
use netpulse_monitor.Operations.{
  Result, ok, raise, str, Incident, Health, Context, Store, M, ◌>>=◌, pure, continue,
}
use netpulse_monitor.Operations.Incidents.{find_active, open_incident, change_incident, Body}

-- The part of a poll's row that is read.
pub record Poll : Type 0 where
  pub ident : Text
  pub name : Text
  pub reachable : Bool

abbrev pub device_of : Poll → Text
device_of row = text_of "router:" ++ row.ident

abbrev pub key_of : Poll → Text
key_of row = text_of "router-unreachable:" ++ row.ident

abbrev pub failures_of : Option Health → ℕ
failures_of none = 0
failures_of (some h) = h.failures

abbrev pub last_success_of : Option Health → Option ℕ
last_success_of none = none
last_success_of (some h) = h.last_success

unfoldable pub new_health : ℕ → Poll → Option Health → Health
new_health now row old = record {
  failures = if row.reachable then 0 else failures_of old + 1;
  last_success = if row.reachable then some now else last_success_of old;
  last_check = now;
}

unfoldable pub in_maintenance : ℕ → Option Context → Bool
in_maintenance now none = false
in_maintenance now (some c) = ltb now c.maintenance_until

unfoldable pub record_health : ℕ → Poll → Store → Store
record_health now row s = record s {
  health = insert (device_of row) (new_health now row (lookup (device_of row) s.health)) s.health;
}

-- The request that closes the incident of a router that answers again.
abbrev pub recovery : Text → Body
recovery i = record {
  ident = some (str i);
  action = some (str (text_of "resolve"));
  message = some (str (text_of "Связь восстановлена"));
  owner = none;
}

unfoldable pub close_router : ℕ → Poll → M (Option Text)
close_router now row s = elim (find_active (key_of row) s.incidents) [
  | none ↦ (ok none, s)
  | some (i, r) ↦
      (do
        _ ← change_incident now (recovery i) (text_of "collector")
        pure (some (text_of "resolved")))
        s
]

unfoldable pub open_router : (now : ℕ) (uuid_key ident : Text) → Poll → M (Option Text)
open_router now uuid_key ident row = do
  (i, created) ←
      open_incident now uuid_key ident (str (device_of row))
        (str (text_of "Нет связи: " ++ row.name)) (text_of "critical") (some (key_of row))
        (text_of "system")
  pure (if created then some (text_of "opened") else none)

unfoldable pub observe_router : (now : ℕ) (uuid_key ident : Text) → Poll → M (Option Text)
observe_router now uuid_key ident row s =
    let s' = record_health now row s in
    let failures = (new_health now row (lookup (device_of row) s.health)).failures in
    let maintenance = in_maintenance now (lookup (device_of row) s.contexts) in
    if row.reachable
    then close_router now row s'
    else if not maintenance && leb 2 failures
    then open_router now uuid_key ident row s'
    else (ok none, s')
