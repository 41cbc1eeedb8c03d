-- ===== src/Healing/Hourly.antt =====
-- A rule is executed for a host at most so many times in an hour.
use mathlib.Core.Path.{subst}
use netpulse_monitor.Base.{
  ℕ, zero, suc, ◌+◌, ◌-◌, ◌*◌, ◌≤◌, ◌<◌, max, ◌≡◌, refl, ap, inl, inr, true, ◌&&◌, Option, none,
  some, List, [], ◌∷◌, ◌++◌, ◌==◌, if◌then◌else◌, arith, length, All, Bool-cases, Option-cases,
}
use netpulse_monitor.Text.{Text, same, same_iff}
use netpulse_monitor.Healing.{
  Rule, Config, Event, LastRun, Execution, host_of, last_of, is_due, set_run, rate_ok, limit_of,
  applies, run_rules, on_event, history,
}

-- The limit of the rule with a number.
abbrev pub limit_at : ℕ → List (Option Rule) → ℕ
limit_at i [] = 1
limit_at zero (none ∷ rules) = 1
limit_at zero (some r ∷ rules) = elim (limit_of r.max_per_hour) [ none ↦ 1 | some m ↦ max 1 m ]
limit_at (suc i) (r ∷ rules) = limit_at i rules

-- The times at which a rule was executed for a host.
abbrev pub times : ℕ → Text → List Execution → List ℕ
times i h [] = []
times i h (x ∷ xs) =
    if x.rule_idx == i && same x.host h then x.at_time ∷ times i h xs else times i h xs

-- Each time is far enough from the one before it.
abbrev pub Spaced : ℕ → ℕ → List ℕ → Type 0
Spaced m last [] = Unit
Spaced m last (t ∷ ts) = (3600 ≤ (t - last) * m) × Spaced m t ts

-- A window of less than an hour.
abbrev pub Within : ℕ → List ℕ → Type 0
Within a = All (λ t. (a ≤ t) × (t < a + 3600))

times_le : (d e m : ℕ) → d ≤ e → d * m ≤ e * m
times_le d e m h = grind arith

Spaced-le : (m last t : ℕ) → 3600 ≤ (t - last) * m → last ≤ t
Spaced-le m last t h = let z = times_le (t - last) 0 m in ground arith

step_sum :
    (e d m n : ℕ)
    → 3600 ≤ d * m
    → 3600 * n + (e + d) * m < 3600 * m
    → 3600 * suc n + e * m < 3600 * m
step_sum e d m n h k = omega arith

window_sum : (e m : ℕ) → e < 3600 → 1 ≤ m → e * m < 3600 * m
window_sum e m h k = let z = times_le e 3599 m in omega (arith, z (omega arith))

Spaced-sum :
    (m a last : ℕ) (ts : List ℕ)
    → 1 ≤ m
    → Spaced m last ts
    → Within a ts
    → a ≤ last
    → last < a + 3600
    → 3600 * length ts + (last - a) * m < 3600 * m
Spaced-sum m a last [] p s w l x =
    let z = window_sum (last - a) m (omega arith) p in omega (arith, z)
Spaced-sum m a last (t ∷ ts) p s w l x =
    let h = Spaced-le m last t s.0 in
    let rest = Spaced-sum m a t ts p s.1 w.1 w.0.0 w.0.1 in
    let split : t - a ≡ (last - a) + (t - last) = omega arith in
    step_sum (last - a) (t - last) m (length ts) s.0 (rw split at rest)

-- Times that are spaced, in a window of less than an hour, are at most as many as the limit.
Spaced-length :
    (m a last : ℕ) (ts : List ℕ) → 1 ≤ m → Spaced m last ts → Within a ts → length ts ≤ m
Spaced-length m a last [] p s w = omega arith
Spaced-length m a last (t ∷ ts) p s w =
    let sum = Spaced-sum m a t ts p s.1 w.1 w.0.0 w.0.1 in omega (arith, sum)

Spaced-prefix :
    (m last : ℕ) (inside after : List ℕ) → Spaced m last (inside ++ after) → Spaced m last inside
Spaced-prefix m last [] after s = tt
Spaced-prefix m last (t ∷ inside) after s = (s.0, Spaced-prefix m t inside after s.1)

Spaced-part :
    (m last : ℕ) (before inside after : List ℕ)
    → Spaced m last (before ++ inside ++ after)
    → (l : ℕ) × Spaced m l inside
Spaced-part m last [] inside after s = (last, Spaced-prefix m last inside after s)
Spaced-part m last (t ∷ before) inside after s = Spaced-part m t before inside after s.1

pub times-append :
    (i : ℕ) (h : Text) (xs ys : List Execution)
    → times i h (xs ++ ys) ≡ times i h xs ++ times i h ys
times-append i h [] ys = refl
times-append i h (x ∷ xs) ys = elim (Bool-cases (x.rule_idx == i && same x.host h)) [
  | inl e ↦ rw e (ap (◌∷◌ x.at_time) (times-append i h xs ys))
  | inr e ↦ rw e (times-append i h xs ys)
]

module _ (i : ℕ) (h : Text) (m : ℕ) where
  -- The rule with the number has the limit.
  abbrev pub Limits : ℕ → List (Option Rule) → Type 0
  Limits idx [] = Unit
  Limits idx (none ∷ rules) = Limits (suc idx) rules
  Limits idx (some r ∷ rules) =
      (idx ≡ i → limit_of r.max_per_hour ≡ some m) × Limits (suc idx) rules

  -- Executions after which the rest may follow.
  Follows : LastRun → List Execution × LastRun → Type 0
  Follows runs x =
      (rest : List ℕ)
      → Spaced (max 1 m) (last_of (x.1 i h)) rest
      → Spaced (max 1 m) (last_of (runs i h)) (times i h x.0 ++ rest)

  stops-Follows : (runs : LastRun) → Follows runs ([], runs)
  unfolding Follows
  stops-Follows runs rest s = s

  execution-Follows :
      (now k idx : ℕ) (host runbook : Text) (runs : LastRun) (x : List Execution × LastRun)
      → (idx ≡ i → k ≡ m)
      → is_due now idx host k runs ≡ true
      → Follows (set_run now idx host runs) x
      → Follows runs
          (record { at_time = now; rule_idx = idx; host = host; runbook = runbook } ∷ x.0, x.1)
  unfolding Follows is_due set_run
  execution-Follows now k idx host runbook runs x l d f rest s =
      let later = f rest s in
      elim (Bool-cases (idx == i && same host h)) [
        | inl e ↦
            let number : idx ≡ i = ground arith in
            let name : host ≡ h = ground (arith, same_iff host h) in
            let due : is_due now i h m runs ≡ true = (rw (number, name, l number) at d) in
            rw e (ground arith, rw (set_run, e) at later)
        | inr e ↦ rw e (rw (set_run, e) at later)
      ]

  run_rules-Follows :
      (now : ℕ) (e : Event) (idx : ℕ) (rules : List (Option Rule)) (runs : LastRun)
      → Limits idx rules
      → Follows runs (run_rules now e idx rules runs)
  unfolding run_rules rate_ok
  run_rules-Follows now e idx [] runs l = stops-Follows runs
  run_rules-Follows now e idx (none ∷ rules) runs l = run_rules-Follows now e (suc idx) rules runs l
  run_rules-Follows now e idx (some r ∷ rules) runs l = elim (Bool-cases (applies e r)) [
    | inr a ↦ rw (run_rules, a) (run_rules-Follows now e (suc idx) rules runs l.1)
    | inl a ↦ elim (Option-cases (limit_of r.max_per_hour)) [
      | inl n ↦ rw (run_rules, a, n) (stops-Follows runs)
      | inr (k, n) ↦ elim (Bool-cases (is_due now idx (host_of e.host_name) k runs)) [
        | inr d ↦
            rw (run_rules, a, n, rate_ok, d) (run_rules-Follows now e (suc idx) rules runs l.1)
        | inl d ↦
            let runs' = set_run now idx (host_of e.host_name) runs in
            rw (run_rules, a, n, rate_ok, d)
              (execution-Follows now k idx (host_of e.host_name) r.runbook runs
                (run_rules now e (suc idx) rules runs') (λ q. let z = l.0 q in ground arith) d
                (run_rules-Follows now e (suc idx) rules runs' l.1))
      ]
    ]
  ]

  on_event-Follows :
      (now : ℕ) (c : Config) (e : Event) (runs : LastRun)
      → Limits 0 c.rules
      → Follows runs (on_event now c e runs)
  unfolding on_event
  on_event-Follows now c e runs l = elim (Bool-cases c.enabled) [
    | inl b ↦ rw (on_event, b) (run_rules-Follows now e 0 c.rules runs l)
    | inr b ↦ rw (on_event, b) (stops-Follows runs)
  ]

  history-Spaced :
      (c : Config) (events : List (ℕ × Event)) (runs : LastRun)
      → Limits 0 c.rules
      → Spaced (max 1 m) (last_of (runs i h)) (times i h (history c events runs))
  unfolding history Follows
  history-Spaced c [] runs l = tt
  history-Spaced c ((now, e) ∷ events) runs l =
      let x = on_event now c e runs in
      rw (times-append i h x.0 (history c events x.1)) (
        on_event-Follows now c e runs l (times i h (history c events x.1))
          (history-Spaced c events x.1 l))

  -- Whatever events come at whatever times, in less than an hour a rule is executed for a host at
  -- most as often as its limit says, a limit below 1 counting as 1.
  pub history-length :
      (c : Config) (events : List (ℕ × Event)) (runs : LastRun) (a : ℕ)
      (before inside after : List ℕ)
      → Limits 0 c.rules
      → times i h (history c events runs) ≡ before ++ inside ++ after
      → Within a inside
      → length inside ≤ max 1 m
  history-length c events runs a before inside after l e w =
      let s = subst (Spaced (max 1 m) (last_of (runs i h))) e (history-Spaced c events runs l) in
      let (last, part) = Spaced-part (max 1 m) (last_of (runs i h)) before inside after s in
      Spaced-length (max 1 m) a last inside (omega arith) part w
