-- ===== src/Healing/Samples.antt =====
-- A rule for full disks, and three events.
use netpulse_monitor.Base.{ℕ, ◌≡◌, refl, true, false, none, some, List, [], ◌∷◌, map}
use netpulse_monitor.Text.{text_of, same}
use netpulse_monitor.Healing.{
  per_hour, Rule, Config, Event, LastRun, is_due, set_run, rate_ok, limit_of, applies, run_rules,
  on_event, history, last_runs, status_rows, status_list,
}
use netpulse_monitor.Healing.Hourly.{times, Limits}
use netpulse_monitor.Healing.Shown.{latest, numbered, status_of, status_list-history}

program : Unit {0}
unfolding same is_due set_run rate_ok limit_of applies run_rules on_event history last_runs
    status_rows status_list
program = tt

abbrev rule : Rule
rule = record {
  on_event = text_of "disk";
  confirm = false;
  max_per_hour = per_hour 2;
  runbook = text_of "cleanup-temp";
}

abbrev config : Config
config = record { enabled = true; rules = some rule ∷ [] }

abbrev full_disk : Event
full_disk = record {
  kind = text_of "disk";
  severity = text_of "HIGH";
  host_name = some (text_of "pc");
}

abbrev never : LastRun
never i h = none

abbrev events : List (ℕ × Event)
events = (10000, full_disk) ∷ (11000, full_disk) ∷ (11800, full_disk) ∷ (13700, full_disk) ∷ []

-- The second event comes too early.
times_lem : times 0 (text_of "pc") (history config events never) ≡ 10000 ∷ 11800 ∷ 13700 ∷ []
unfolding program
times_lem = refl

config-Limits : Limits 0 (text_of "pc") 2 0 config.rules
unfolding program
config-Limits = ((λ e. refl), tt)

-- The rule was executed for a machine, three times; the status shows no run of it.
status_events : status_list config (last_runs config events never) ≡ (
  true,
  record {
    on_event = text_of "disk";
    runbook = text_of "cleanup-temp";
    confirm = false;
    last_run = none;
  }
      ∷ [],
)
unfolding program
status_events = refl

status_list-history_example : status_list config (last_runs config events never) ≡ (
  true,
  map
      (status_of (λ i. latest (times i [] (history config events never)) none))
      (numbered 0 config.rules),
)
status_list-history_example = status_list-history config events never
