-- ===== src/Inventory/Apart.antt =====
-- Events of one key stand apart.
use netpulse_monitor.Base.{
  ℕ, ◌+◌, ◌<◌, max, ◌≡◌, inl, inr, false, Option, none, some, List, [], ◌∷◌, arith, any_of, All,
  Bool-cases,
}
use netpulse_monitor.Text.{Text, same_refl, same_option}
use netpulse_monitor.Healing.{Config}
use netpulse_monitor.Inventory.{
  EventRow, Inventory, Note, key_or_none, is_recent, is_repeat, is_duplicate, is_duplicate_of,
  row_of, note_event, run_notes,
}

-- Of one key, `f` is more than an hour older than a new event at `now`.
abbrev pub IsOlder : ℕ → Option Text → EventRow → Type 0
IsOlder now key f = (k : Text) → key ≡ some k → f.dedup_key ≡ some k → f.timestamp + 3600 < now

-- Events of one key, from the newest on, are more than an hour apart.
abbrev pub IsApart : List EventRow → Type 0
IsApart [] = Unit
IsApart (e ∷ l) = All (IsOlder e.timestamp (key_or_none e.dedup_key)) l × IsApart l

is_repeat-IsOlder :
    (now hours : ℕ) (k : Text) (f : EventRow)
    → is_repeat now (max 1 hours) k f ≡ false
    → IsOlder now (some k) f
unfolding is_recent same_option
is_repeat-IsOlder now hours k f h j e d = ground (arith, same_refl k)

not_duplicate :
    (now hours : ℕ) (k : Text) (l : List EventRow)
    → any_of (is_repeat now (max 1 hours) k) l ≡ false
    → All (IsOlder now (some k)) l
not_duplicate now hours k [] h = tt
not_duplicate now hours k (f ∷ l) h = elim (Bool-cases (is_repeat now (max 1 hours) k f)) [
  | inl e ↦ absurd (cc (rw e at h))
  | inr e ↦ (is_repeat-IsOlder now hours k f e, not_duplicate now hours k l (rw e at h))
]

no_key : (now : ℕ) (l : List EventRow) → All (IsOlder now none) l
no_key now [] = tt
no_key now (f ∷ l) = ((λ k e. absurd cc), no_key now l)

is_duplicate-IsOlder :
    (now hours : ℕ) (key : Option Text) (l : List EventRow)
    → is_duplicate_of now hours key l ≡ false
    → All (IsOlder now key) l
is_duplicate-IsOlder now hours none l h = no_key now l
is_duplicate-IsOlder now hours (some k) l h = not_duplicate now hours k l h

note_event-IsApart :
    (healing : Option Config) (now : ℕ) (n : Note) (v : Inventory)
    → IsApart v.events
    → IsApart (note_event healing now n v).1.events
unfolding note_event is_duplicate row_of
note_event-IsApart healing now n v a = elim (Bool-cases (is_duplicate now n v.events)) [
  | inl e ↦ rw (note_event, e) a
  | inr e ↦
      rw (note_event, e)
        (is_duplicate-IsOlder now n.dedup_hours (key_or_none n.dedup_key) v.events e, a)
]

-- After any notes at any times, two events of one key are more than an hour apart, the newer one
-- first, if those that were there before are.
pub run_notes-IsApart :
    (healing : Option Config) (l : List (ℕ × Note)) (v : Inventory)
    → IsApart v.events
    → IsApart (run_notes healing l v).1.events
unfolding run_notes
run_notes-IsApart healing [] v a = a
run_notes-IsApart healing ((now, n) ∷ l) v a =
    run_notes-IsApart healing l (note_event healing now n v).1
      (note_event-IsApart healing now n v a)
