-- ===== src/Operations/Incidents/Opening.antt =====
-- What `open_incident` promises: one active incident of the key, counted once more or new.
use netpulse_monitor.Base.{
  ℕ, ◌+◌, ◌≡◌, refl, inl, inr, Bool, true, false, Option, none, some, arith, Option-cases,
  if◌then◌else◌, length, length-append,
}
use netpulse_monitor.Text.{Text, text_of, same}
use netpulse_monitor.Dict.{lookup, insert}
use netpulse_monitor.Operations.{ok, Incident, Store}
use netpulse_monitor.Operations.Incidents.{
  find_active, add_event, insert_incident, update_incident, new_incident, open_keyed,
}
use netpulse_monitor.Operations.Incidents.Active.{
  find_active-some, find_active-insert_new, find_active-insert_new_ne, find_active-insert_old,
  find_active-insert_old_ne,
}
use netpulse_monitor.Operations.Incidents.Valid.{IsValid}

abbrev occurrences_of : Option (Text × Incident) → ℕ
occurrences_of none = 0
occurrences_of (some (i, r)) = r.occurrences

abbrev is_none {ℓ} : {A : Type ℓ} → Option A → Bool
is_none none = true
is_none (some a) = false

-- From `s` to `s'` the incident `i` became, or stayed, the active one of `key`.
pub record Opened (now : ℕ) (key i : Text) (created : Bool) (s s' : Store) : Type 0 where
  pub active :
      (r : Incident) × (find_active key s'.incidents ≡ some (i, r))
      × (r.updated ≡ now)
      × (r.occurrences ≡ occurrences_of (find_active key s.incidents) + 1)
  pub new : created ≡ is_none (find_active key s.incidents)
  pub others :
      (k : Text) → same key k ≡ false → find_active k s'.incidents ≡ find_active k s.incidents
  pub events : length s'.timeline ≡ length s.timeline + (if created then 1 else 0)

-- On a valid store, with an identifier that no row has, the transaction of `open_incident` never
-- raises. Afterwards the key has an active incident, the one returned, counted once more than
-- before; it is reported new exactly when the key had none, and only then the timeline grows, by
-- one; the active incidents of the other keys are the same.
pub open_keyed-Opened :
    (now : ℕ) (ident key device_id title severity actor : Text) (s : Store)
    → IsValid s
    → lookup ident s.incidents ≡ none
    → (i : Text) × (created : Bool) × (s' : Store) × (open_keyed now ident key device_id title
          severity actor s
        ≡ (ok (i, created), s'))
      × Opened now key i created s s'
unfolding open_keyed insert_incident add_event update_incident new_incident
open_keyed-Opened now ident key device_id title severity actor s v fresh =
    elim (Option-cases (find_active key s.incidents)) [
      | inl e ↦
          let r = new_incident now key device_id title severity in
          let added : Store = record s { incidents = insert ident r s.incidents } in
          (
            ident,
            true,
            (add_event now ident actor (text_of "opened") title added).1,
            rw (e, open_keyed) (ground arith),
            record {
              active = (
                r,
                find_active-insert_new key ident r s.incidents fresh e refl refl,
                refl,
                rw e refl,
              );
              new = rw e refl;
              others = λ k h. find_active-insert_new_ne k ident r s.incidents fresh h;
              events = length-append s.timeline _;
            },
          )
      | inr ((i, r), e) ↦
          let more : Incident = record r { updated = now; occurrences = r.occurrences + 1 } in
          let (row, active, k) = find_active-some key i r s.incidents v.distinct e in
          (
            i,
            false,
            (update_incident i more s).1,
            rw (e, open_keyed),
            record {
              active = (
                more,
                find_active-insert_old key i r more s.incidents v.distinct e active k,
                refl,
                rw e refl,
              );
              new = rw e refl;
              others = λ j h. find_active-insert_old_ne j i r more s.incidents row refl (rw k h);
              events = omega arith;
            },
          )
    ]
