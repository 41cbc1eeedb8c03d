-- ===== src/Inventory/Samples.antt =====
-- A disk that fills up, noted several times.
use netpulse_monitor.Base.{
  ℕ, ◌+◌, ◌*◌, ◌≤◌, ◌≡◌, refl, max, true, false, none, some, List, [], ◌∷◌, arith,
}
use netpulse_monitor.Text.{Text, text_of, same, same_option}
use netpulse_monitor.Healing.{
  per_hour, Rule, Config, is_due, set_run, rate_ok, limit_of, applies, run_rules, on_event,
}
use netpulse_monitor.Healing.Hourly.{times, Limits}
use netpulse_monitor.Inventory.{
  HostRow, Inventory, Note, known_severity, is_recent, is_duplicate, row_of, host_name, event_of,
  note_event, run_notes,
}
use netpulse_monitor.Inventory.Apart.{IsApart, run_notes-IsApart}
use netpulse_monitor.Inventory.Healed.{run_notes-length}

program : Unit {0}
unfolding same same_option is_due set_run rate_ok limit_of applies run_rules on_event known_severity
    is_recent is_duplicate row_of host_name event_of note_event run_notes
program = tt

abbrev rule : Rule
rule = record {
  on_event = text_of "disk";
  confirm = false;
  max_per_hour = per_hour 2;
  runbook = text_of "cleanup-temp";
}

abbrev config : Config
config = record { enabled = true; rules = some rule ∷ [] }

abbrev pc : HostRow
pc = record {
  ident = 1;
  name = text_of "pc";
  ip = [];
  os = [];
  online = true;
  first_seen = 0;
  last_seen = 0;
  updated_at = 0;
}

abbrev park : Inventory
park = record { hosts = pc ∷ []; next_host = 2; events = []; last_run = λ i h. none }

abbrev note : Text → Note
note key = record {
  host_id = 1;
  kind = text_of "disk";
  severity = text_of "CRITICAL";
  source = text_of "watchdog";
  text = text_of "full";
  dedup_key = some key;
  dedup_hours = 2;
}

-- The second note repeats the first; the third comes too early for the rule.
abbrev notes : List (ℕ × Note)
notes =
    (200000, note (text_of "c"))
    ∷ (200100, note (text_of "c"))
    ∷ (201000, note (text_of "d"))
    ∷ (202000, note (text_of "e"))
    ∷ []

times_lem : times 0 (text_of "pc") (run_notes (some config) notes park).0 ≡ 200000 ∷ 202000 ∷ []
unfolding program
times_lem = refl

-- At 23:00 a note with a window of two hours is a duplicate of one at midnight.
late_note :
    (run_notes none
      ((86400, note (text_of "c")) ∷ (86400 + 23 * 3600, note (text_of "c")) ∷ [])
      park).1.events
    ≡ row_of 86400 (note (text_of "c")) ∷ []
unfolding program
late_note = refl

config-Limits : Limits 0 (text_of "pc") 2 0 config.rules
unfolding program
config-Limits = ((λ e. refl), tt)

run_notes-length_example : 2 ≤ max 1 2
run_notes-length_example =
    run_notes-length 0 (text_of "pc") 2 config notes park 200000 [] (200000 ∷ 202000 ∷ []) []
      config-Limits times_lem ((omega arith, omega arith), ((omega arith, omega arith), tt))

run_notes-IsApart_example : IsApart (run_notes (some config) notes park).1.events
run_notes-IsApart_example = run_notes-IsApart (some config) notes park tt
