-- ===== src/Healing.antt =====
-- netpulse/healing.py: the rules that answer an event with a runbook, at most so often in an hour.
-- `time.time()` is an argument; the runbooks that are executed are a list, and the journal is left
-- out.
pub mod Hourly
pub mod Shown
mod Samples
use netpulse_monitor.Base.{
  ℕ, zero, suc, ◌+◌, ◌-◌, ◌*◌, max, Bool, true, false, not, ◌&&◌, Option, none, some, List, [], ◌∷◌,
  ◌++◌, ltb, ◌==◌, if◌then◌else◌,
}
use netpulse_monitor.Text.{Text, text_of, same}

-- `rule.get("max_per_hour")`: missing (or false), a whole number, where a negative one counts like 0,
-- or what `int` refuses.
pub data Limit : Type 0 where
  missing : Limit
  per_hour : ℕ → Limit
  invalid : Limit

pub record Rule : Type 0 where
  pub on_event : Text
  pub confirm : Bool
  pub max_per_hour : Limit
  pub runbook : Text

-- `none` among the rules is a value that is no dictionary.
pub record Config : Type 0 where
  pub enabled : Bool
  pub rules : List (Option Rule)

pub record Event : Type 0 where
  pub kind : Text
  pub severity : Text
  pub host_name : Option Text

-- `_last_run`, by the number of the rule and the host.
abbrev pub LastRun : Type 0
LastRun = ℕ → Text → Option ℕ

-- An execution of a runbook.
pub record Execution : Type 0 where
  pub at_time : ℕ
  pub rule_idx : ℕ
  pub host : Text
  pub runbook : Text

abbrev pub host_of : Option Text → Text
host_of none = []
host_of (some h) = h

abbrev pub last_of : Option ℕ → ℕ
last_of none = 0
last_of (some t) = t

-- `not now - last < 3600 / max(1, max_per_hour)`, in whole numbers.
unfoldable pub is_due : ℕ → ℕ → Text → ℕ → LastRun → Bool
is_due now rule_idx host max_per_hour runs =
    not (ltb ((now - last_of (runs rule_idx host)) * max 1 max_per_hour) 3600)

unfoldable pub set_run : ℕ → ℕ → Text → LastRun → LastRun
set_run now rule_idx host runs i h = if rule_idx == i && same host h then some now else runs i h

-- `_rate_ok`
unfoldable pub rate_ok : ℕ → ℕ → Text → ℕ → LastRun → Bool × LastRun
unfolding is_due set_run
rate_ok now rule_idx host max_per_hour runs =
    if is_due now rule_idx host max_per_hour runs
    then (true, set_run now rule_idx host runs)
    else (false, runs)

-- `int(rule.get("max_per_hour") or 1)`; `none` where it raises.
unfoldable pub limit_of : Limit → Option ℕ
limit_of missing = some 1
limit_of (per_hour n) = some (if n == 0 then 1 else n)
limit_of invalid = none

unfoldable pub applies : Event → Rule → Bool
applies e r = same r.on_event e.kind && not r.confirm && not (same e.severity (text_of "LOW"))

-- The loop over the rules from a number on; a limit that `int` refuses ends it.
unfoldable pub run_rules : ℕ → Event → ℕ → List (Option Rule) → LastRun → List Execution × LastRun
run_rules now e idx [] runs = ([], runs)
run_rules now e idx (none ∷ rules) runs = run_rules now e (suc idx) rules runs
run_rules now e idx (some r ∷ rules) runs = elim (applies e r) [
  | false ↦ run_rules now e (suc idx) rules runs
  | true ↦ elim (limit_of r.max_per_hour) [
    | none ↦ ([], runs)
    | some m ↦
        let (passed, runs') = rate_ok now idx (host_of e.host_name) m runs in
        let (later, runs'') = run_rules now e (suc idx) rules runs' in
        (
          if passed
              then record {
                at_time = now;
                rule_idx = idx;
                host = host_of e.host_name;
                runbook = r.runbook;
              }
                ∷ later
              else later,
          runs'',
        )
  ]
]

-- `on_event`
unfoldable pub on_event : ℕ → Config → Event → LastRun → List Execution × LastRun
unfolding run_rules
on_event now c e runs = if c.enabled then run_rules now e 0 c.rules runs else ([], runs)

-- The executions of a history of events, each with its time.
unfoldable pub history : Config → List (ℕ × Event) → LastRun → List Execution
unfolding on_event
history c [] runs = []
history c ((now, e) ∷ events) runs =
    let (first, runs') = on_event now c e runs in first ++ history c events runs'

-- The last runs after a history of events.
unfoldable pub last_runs : Config → List (ℕ × Event) → LastRun → LastRun
unfolding on_event
last_runs c [] runs = runs
last_runs c ((now, e) ∷ events) runs = last_runs c events (on_event now c e runs).1

-- A row of `status_list`.
pub record RuleStatus : Type 0 where
  pub on_event : Text
  pub runbook : Text
  pub confirm : Bool
  pub last_run : Option ℕ

-- The loop over the rules from a number on.
unfoldable pub status_rows : ℕ → List (Option Rule) → LastRun → List RuleStatus
status_rows idx [] runs = []
status_rows idx (none ∷ rules) runs = status_rows (suc idx) rules runs
status_rows idx (some r ∷ rules) runs =
    record {
      on_event = r.on_event;
      runbook = r.runbook;
      confirm = r.confirm;
      last_run = runs idx [];
    }
    ∷ status_rows (suc idx) rules runs

unfoldable pub status_list : Config → LastRun → Bool × List RuleStatus
unfolding status_rows
status_list c runs = (c.enabled, status_rows 0 c.rules runs)
