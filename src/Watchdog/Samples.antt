-- ===== src/Watchdog/Samples.antt =====
-- A machine that stops answering, and comes back.
use netpulse_monitor.Base.{◌⊎◌, ◌+◌, ◌<◌, ◌≤◌, ◌≡◌, refl, true, false, none, [], ◌∷◌, map, arith}
use netpulse_monitor.Text.{text_of, same, same_option, strip, lstrip, rstrip, is_space}
use netpulse_monitor.Dict.{lookup, insert}
use netpulse_monitor.Inventory.{
  HostRow, known_severity, is_recent, is_duplicate, row_of, host_name, event_of, note_event,
  find_host, seen_host, update_host, upsert_host, mark_online,
}
use netpulse_monitor.Watchdog.{
  Target, Watch, answered, silent, no_winrm, gone_offline, poll_silent, note_problems,
  poll_answered, poll_host, run_polls, streak_of,
}
use netpulse_monitor.Watchdog.Offline.{IsOffline, silence, run_silence-IsOffline}

program : Unit {0}
unfolding same same_option strip lstrip rstrip is_space lookup insert known_severity is_recent
    is_duplicate row_of host_name event_of note_event find_host seen_host update_host upsert_host
    mark_online no_winrm gone_offline poll_silent note_problems poll_answered poll_host run_polls
program = tt

abbrev target : Target
target = record {
  host = text_of "pc";
  is_local = false;
  my_ip = [];
  offline_after = 3;
  healing = none;
  date = λ now. text_of "20261125";
  decimal = λ n. text_of "3";
}

abbrev watch : Watch
watch = record {
  fail_streak = [];
  inventory = record { hosts = []; next_host = 1; events = []; last_run = λ i h. none };
}

-- The machine is offline after its third silent poll, and online again after an answer.
online_after :
    map
      (λ (h : HostRow). h.online)
      (run_polls target
        (silence target ((60, []) ∷ (120, []) ∷ (180, []) ∷ []))
        watch).1.inventory.hosts
    ≡ false ∷ []
unfolding program
online_after = refl

back_online :
    map
      (λ (h : HostRow). h.online)
      (run_polls target
        ((60, silent false [])
          ∷ (120, silent false [])
          ∷ (180, silent false [])
          ∷ (240, answered (text_of "pc") [] [])
          ∷ [])
        watch).1.inventory.hosts
    ≡ true ∷ []
unfolding program
back_online = refl

run_silence-IsOffline_example :
    let polls = streak_of target.host watch + 3 in
    let v =
      (run_polls target
        (silence target ((60, []) ∷ (120, []) ∷ (180, []) ∷ []))
        watch).1.inventory in
    ((polls < 3) × (v ≡ watch.inventory)) ⊎ ((3 ≤ polls) × IsOffline target v)
unfolding program
run_silence-IsOffline_example =
    run_silence-IsOffline target 60 [] ((120, []) ∷ (180, []) ∷ []) watch refl (omega arith, tt)
