-- ===== src/Healing/Shown.antt =====
-- What `status_list` shows of the executions.
use netpulse_monitor.Base.{
  ℕ, suc, ◌≡◌, refl, sym, ap, ◌∙◌, inl, inr, ◌&&◌, Option, none, some, List, [], ◌∷◌, ◌++◌, ◌==◌,
  Bool-cases, Option-cases, map,
}
use netpulse_monitor.Text.{Text, same}
use netpulse_monitor.Healing.{
  Rule, Config, Event, LastRun, Execution, host_of, is_due, set_run, rate_ok, limit_of, applies,
  run_rules, on_event, history, last_runs, status_rows, status_list, RuleStatus,
}
use netpulse_monitor.Healing.Hourly.{times, times-append}

-- The last of some times, or what there was before them.
abbrev pub latest : List ℕ → Option ℕ → Option ℕ
latest [] o = o
latest (t ∷ ts) o = latest ts (some t)

latest-append : (ts us : List ℕ) (o : Option ℕ) → latest (ts ++ us) o ≡ latest us (latest ts o)
latest-append [] us o = refl
latest-append (t ∷ ts) us o = latest-append ts us (some t)

module _ (i : ℕ) (h : Text) where
  -- The executions explain the last run.
  Explains : LastRun → List Execution × LastRun → Type 0
  Explains runs x = x.1 i h ≡ latest (times i h x.0) (runs i h)

  execution-Explains :
      (now idx : ℕ) (host runbook : Text) (runs : LastRun) (x : List Execution × LastRun)
      → Explains (set_run now idx host runs) x
      → Explains runs
          (record { at_time = now; rule_idx = idx; host = host; runbook = runbook } ∷ x.0, x.1)
  unfolding Explains set_run
  execution-Explains now idx host runbook runs x f = elim (Bool-cases (idx == i && same host h)) [
    | inl e ↦ rw e (rw (set_run, e) at f)
    | inr e ↦ rw e (rw (set_run, e) at f)
  ]

  run_rules-Explains :
      (now : ℕ) (e : Event) (idx : ℕ) (rules : List (Option Rule)) (runs : LastRun)
      → Explains runs (run_rules now e idx rules runs)
  unfolding run_rules rate_ok Explains
  run_rules-Explains now e idx [] runs = refl
  run_rules-Explains now e idx (none ∷ rules) runs = run_rules-Explains now e (suc idx) rules runs
  run_rules-Explains now e idx (some r ∷ rules) runs = elim (Bool-cases (applies e r)) [
    | inr a ↦ rw (run_rules, a) (run_rules-Explains now e (suc idx) rules runs)
    | inl a ↦ elim (Option-cases (limit_of r.max_per_hour)) [
      | inl n ↦ rw (run_rules, a, n) refl
      | inr (k, n) ↦ elim (Bool-cases (is_due now idx (host_of e.host_name) k runs)) [
        | inr d ↦ rw (run_rules, a, n, rate_ok, d) (run_rules-Explains now e (suc idx) rules runs)
        | inl d ↦
            let runs' = set_run now idx (host_of e.host_name) runs in
            rw (run_rules, a, n, rate_ok, d)
              (execution-Explains now idx (host_of e.host_name) r.runbook runs
                (run_rules now e (suc idx) rules runs')
                (run_rules-Explains now e (suc idx) rules runs'))
      ]
    ]
  ]

  on_event-Explains :
      (now : ℕ) (c : Config) (e : Event) (runs : LastRun) → Explains runs (on_event now c e runs)
  unfolding on_event Explains
  on_event-Explains now c e runs = elim (Bool-cases c.enabled) [
    | inl b ↦ rw (on_event, b) (run_rules-Explains now e 0 c.rules runs)
    | inr b ↦ rw (on_event, b) refl
  ]

  last_runs-history :
      (c : Config) (events : List (ℕ × Event)) (runs : LastRun)
      → last_runs c events runs i h ≡ latest (times i h (history c events runs)) (runs i h)
  unfolding last_runs history Explains
  last_runs-history c [] runs = refl
  last_runs-history c ((now, e) ∷ events) runs =
      let x = on_event now c e runs in
      last_runs-history c events x.1
      ∙ ap (latest (times i h (history c events x.1))) (on_event-Explains now c e runs)
      ∙ sym (latest-append (times i h x.0) (times i h (history c events x.1)) (runs i h))
      ∙ ap (λ ts. latest ts (runs i h)) (sym (times-append i h x.0 (history c events x.1)))

-- The rules that are dictionaries, each with its number among all, from a number on.
abbrev pub numbered : ℕ → List (Option Rule) → List (ℕ × Rule)
numbered idx [] = []
numbered idx (none ∷ rules) = numbered (suc idx) rules
numbered idx (some r ∷ rules) = (idx, r) ∷ numbered (suc idx) rules

-- The status of a rule whose last run is known.
abbrev pub status_of : (ℕ → Option ℕ) → ℕ × Rule → RuleStatus
status_of last (i, r) = record {
  on_event = r.on_event;
  runbook = r.runbook;
  confirm = r.confirm;
  last_run = last i;
}

status_rows-numbered :
    (idx : ℕ) (rules : List (Option Rule)) (runs : LastRun) (last : ℕ → Option ℕ)
    → ((i : ℕ) → runs i [] ≡ last i)
    → status_rows idx rules runs ≡ map (status_of last) (numbered idx rules)
unfolding status_rows
status_rows-numbered idx [] runs last e = refl
status_rows-numbered idx (none ∷ rules) runs last e =
    status_rows-numbered (suc idx) rules runs last e
status_rows-numbered idx (some r ∷ rules) runs last e =
    rw (e idx, status_rows-numbered (suc idx) rules runs last e) refl

-- After any events at any times, the status has a row for each rule that is a dictionary, in their
-- order, with the time of the last execution of the rule with its number for an event without a host,
-- or the run that was known before where there was none; executions for an event with a host are not
-- shown.
pub status_list-history :
    (c : Config) (events : List (ℕ × Event)) (runs : LastRun)
    → status_list c (last_runs c events runs) ≡ (
      c.enabled,
      map
          (status_of (λ i. latest (times i [] (history c events runs)) (runs i [])))
          (numbered 0 c.rules),
    )
unfolding status_list
status_list-history c events runs =
    ap (λ l. (c.enabled, l))
      (status_rows-numbered 0 c.rules (last_runs c events runs)
        (λ i. latest (times i [] (history c events runs)) (runs i []))
        (λ i. last_runs-history i [] c events runs))
