-- ===== src/Inventory/Healed.antt =====
-- The rules of self-healing, as `note_event` calls them.
use netpulse_monitor.Base.{
  ℕ, ◌≤◌, max, ◌≡◌, refl, sym, ap, ◌∙◌, inl, inr, some, List, [], ◌∷◌, ◌++◌, if◌then◌else◌,
  Bool-cases, length,
}
use netpulse_monitor.Text.{Text}
use netpulse_monitor.Healing.{Config, Event, on_event, history}
use netpulse_monitor.Healing.Hourly.{times, Within, Limits, history-length}
use netpulse_monitor.Inventory.{Inventory, Note, is_duplicate, event_of, note_event, run_notes}

-- The events of the notes that are no duplicates, with their times.
unfoldable pub passed : Config → List (ℕ × Note) → Inventory → List (ℕ × Event)
unfolding note_event
passed c [] v = []
passed c ((now, n) ∷ l) v =
    let rest = passed c l (note_event (some c) now n v).1 in
    if is_duplicate now n v.events then rest else (now, event_of n v.hosts) ∷ rest

-- The rules see exactly the notes that are no duplicates.
run_notes-history :
    (c : Config) (l : List (ℕ × Note)) (v : Inventory)
    → (run_notes (some c) l v).0 ≡ history c (passed c l v) v.last_run
unfolding run_notes passed history note_event
run_notes-history c [] v = refl
run_notes-history c ((now, n) ∷ l) v = elim (Bool-cases (is_duplicate now n v.events)) [
  | inl e ↦ rw (run_notes, note_event, passed, e) (run_notes-history c l v)
  | inr e ↦
      rw (run_notes, note_event, passed, e)
        (ap (λ x. (on_event now c (event_of n v.hosts) v.last_run).0 ++ x)
          (run_notes-history c l _))
]

-- Whatever is noted at whatever times, in less than an hour a rule of self-healing is executed for a
-- host at most as often as its limit says, a limit below 1 counting as 1.
pub run_notes-length :
    (i : ℕ) (h : Text) (m : ℕ) (c : Config) (l : List (ℕ × Note)) (v : Inventory) (a : ℕ)
    (before inside after : List ℕ)
    → Limits i h m 0 c.rules
    → times i h (run_notes (some c) l v).0 ≡ before ++ inside ++ after
    → Within a inside
    → length inside ≤ max 1 m
run_notes-length i h m c l v a before inside after limits e w =
    history-length i h m c (passed c l v) v.last_run a before inside after limits
      (ap (times i h) (sym (run_notes-history c l v)) ∙ e) w
