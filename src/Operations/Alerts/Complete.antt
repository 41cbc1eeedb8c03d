-- ===== src/Operations/Alerts/Complete.antt =====
-- A batch of well-formed alerts is applied as a whole.
use mathlib.Core.Path.{subst}
use netpulse_monitor.Base.{
  ℕ, suc, ◌+◌, ◌<◌, ◌≤◌, ◌≡◌, refl, ap, sym, ◌∙◌, inl, inr, Bool, false, none, some, List, [], ◌∷◌,
  arith, length, if◌then◌else◌, Option-cases, Bool-cases, All, ltb-false,
}
use netpulse_monitor.Text.{Text, text_of, same, same_iff, is_empty}
use netpulse_monitor.Dict.{Dict, lookup}
use netpulse_monitor.Dict.Laws.{lookup-insert}
use netpulse_monitor.Operations.{
  Result, ok, raise, str, text, Incident, Event, Context, Store, continue,
}
use netpulse_monitor.Operations.Incidents.{
  find_active, open_keyed, open_incident, change_incident, insert_incident, update_incident,
  add_event, new_incident, event_key_or_manual,
}
use netpulse_monitor.Operations.Incidents.Active.{find_active-some}
use netpulse_monitor.Operations.Incidents.Valid.{IsValid}
use netpulse_monitor.Operations.Incidents.Changing.{change_incident-cases}
use netpulse_monitor.Operations.Incidents.Opening.{open_keyed-Opened}
use netpulse_monitor.Operations.Routers.{in_maintenance}
use netpulse_monitor.Operations.Alerts.{
  notify_opened, notify_resolved, ignore, Alert, no_outcome, validate_all, receive_alerts,
  AlertStatus, firing, resolving, Labels, Outcome, alert_recovery, alert_device, alert_key,
  still_failing, receive_firing, receive_resolved, receive, receive_all, after_opening,
  after_closing,
}
use netpulse_monitor.Operations.Alerts.Received.{
  Counts, Accounted, receive-Received, receive_alerts-Received,
}

-- A name that no row has, and that is not the new one's, stays free.
lookup-open_keyed :
    (now : ℕ) (ident key device_id title severity actor k : Text) (s : Store)
    → IsValid s
    → lookup ident s.incidents ≡ none
    → lookup k s.incidents ≡ none
    → same ident k ≡ false
    → lookup k (open_keyed now ident key device_id title severity actor s).1.incidents ≡ none
unfolding open_keyed insert_incident add_event update_incident new_incident
lookup-open_keyed now ident key device_id title severity actor k s v f n h =
    elim (Option-cases (find_active key s.incidents)) [
      | inl e ↦
          let z =
            lookup-insert ident k (new_incident now key device_id title severity) s.incidents in
          ground arith
      | inr ((i, r), e) ↦
          let (row, active, q) = find_active-some key i r s.incidents v.distinct e in
          let more : Incident = record r { updated = now; occurrences = r.occurrences + 1 } in
          ground (arith, lookup-insert i k more s.incidents, same_iff i k)
    ]

lookup-change_incident :
    (now : ℕ) (i actor k : Text) (s : Store)
    → lookup k s.incidents ≡ none
    → lookup k (change_incident now (alert_recovery i) actor s).1.incidents ≡ none
lookup-change_incident now i actor k s n =
    elim (change_incident-cases now (alert_recovery i) actor s) [
      | inl (x, e, y) ↦ ap (λ y. lookup k y.1.incidents) e ∙ n
      | inr (j, a, m, s', r, q, e, l, c) ↦
          ap (λ y. lookup k y.1.incidents) e ∙ elim (Bool-cases (same j k)) [
            | inl q ↦ let (x, y, row, rest, w, t) = c.row in ground (arith, same_iff j k)
            | inr q ↦ c.others k q ∙ n
          ]
    ]

-- The texts of an alert are accepted as they are, and its title is not blank.
pub record IsAccepted (device title : Text) : Type 0 where
  pub device_fits : text (str device) 64 ≡ ok device
  pub title_fits : text (str title) 300 ≡ ok title
  pub titled : is_empty title ≡ false

open_incident-IsAccepted :
    (now : ℕ) (ident device title key : Text) (s : Store)
    → IsAccepted device title
    → is_empty key ≡ false
    → open_incident now [] ident
        (str device)
        (str title)
        (text_of "critical")
        (some key)
        (text_of "alertmanager")
        s
      ≡ open_keyed now ident key device title (text_of "critical") (text_of "alertmanager") s
unfolding open_incident event_key_or_manual same
open_incident-IsAccepted now ident device title key s a k =
    rw (a.device_fits, a.title_fits, a.titled, open_incident, event_key_or_manual, k) refl

-- A step that does not raise, and leaves free what was free but for the new name.
abbrev Done : Text → Store → Result Outcome × Store → Type 0
Done ident s x =
    (o : Outcome) × (x.0 ≡ ok o)
    × ((k : Text)
        → lookup k s.incidents ≡ none
        → same ident k ≡ false
        → lookup k x.1.incidents ≡ none)

Done-same : (ident : Text) (o : Outcome) (s : Store) → Done ident s (ok o, s)
Done-same ident o s = (o, refl, λ k n h. n)

after_opening-Done :
    (ident title : Text) (o : Outcome) (s : Store) (i : Text) (created : Bool) (s' : Store)
    (x : Result (Text × Bool) × Store)
    → x ≡ (ok (i, created), s')
    → ((k : Text)
        → lookup k s.incidents ≡ none
        → same ident k ≡ false
        → lookup k x.1.incidents ≡ none)
    → Done ident s (after_opening title o x)
unfolding after_opening
after_opening-Done ident title o s i created s' x e f = (
  if created then notify_opened title o else ignore o,
  ap (λ y. (after_opening title o y).0) e,
  λ k n h.
      ap (λ y. lookup k (after_opening title o y).1.incidents) e
      ∙ sym (ap (λ y. lookup k y.1.incidents) e)
      ∙ f k n h,
)

after_closing-Done :
    (ident title : Text) (o : Outcome) (s : Store) (x : Result (Incident × List Event) × Store)
    → ((k : Text) → lookup k s.incidents ≡ none → lookup k x.1.incidents ≡ none)
    → Done ident s (after_closing title o x)
unfolding after_closing
after_closing-Done ident title o s (raise e, s') f = (ignore o, refl, λ k n h. f k n)
after_closing-Done ident title o s (ok y, s') f = (notify_resolved title o, refl, λ k n h. f k n)

module _ (router_ids : List Text) (digest : Labels → Text) (now : ℕ) where
  alert_key_full : (labels : Labels) → is_empty (alert_key router_ids digest labels) ≡ false
  unfolding alert_key
  alert_key_full labels = ground arith

  receive_firing-Done :
      (ident : Text) (contexts : Dict Context) (labels : Labels) (title : Text) (o : Outcome)
      (s : Store)
      → IsValid s
      → IsAccepted (alert_device router_ids digest labels) title
      → lookup ident s.incidents ≡ none
      → Done ident s (receive_firing router_ids digest now ident contexts labels title o s)
  unfolding receive_firing
  receive_firing-Done ident contexts labels title o s v a f =
      let device = alert_device router_ids digest labels in
      let key = alert_key router_ids digest labels in
      let actor = text_of "alertmanager" in
      let e = open_incident-IsAccepted now ident device title key s a (alert_key_full labels) in
      let (i, created, s', q, rest) =
        open_keyed-Opened now ident key device title (text_of "critical") actor s v f in
      elim (Bool-cases (in_maintenance now (lookup device contexts))) [
        | inl m ↦ rw (m, receive_firing) (Done-same ident (ignore o) s)
        | inr m ↦
            rw (m, receive_firing)
              (after_opening-Done ident title o s i created s'
                (open_incident now [] ident (str device) (str title) (text_of "critical") (some key)
                  actor s)
                (e ∙ q)
                (λ k n h.
                  ap (λ y. lookup k y.1.incidents) e
                  ∙ lookup-open_keyed now ident key device title (text_of "critical") actor k s v f
                      n h))
      ]

  receive_resolved-Done :
      (ident : Text) (labels : Labels) (title : Text) (o : Outcome) (s : Store)
      → Done ident s (receive_resolved router_ids digest now labels title o s)
  unfolding receive_resolved
  receive_resolved-Done ident labels title o s =
      elim (Option-cases (find_active (alert_key router_ids digest labels) s.incidents)) [
        | inl e ↦ rw (e, receive_resolved) (Done-same ident (ignore o) s)
        | inr ((i, r), e) ↦ elim (Bool-cases (still_failing router_ids digest labels s)) [
          | inl f ↦ rw (e, receive_resolved, f) (Done-same ident (ignore o) s)
          | inr f ↦
              rw (e, receive_resolved, f)
                (after_closing-Done ident title o s
                  (change_incident now (alert_recovery i) (text_of "alertmanager") s)
                  (λ k n. lookup-change_incident now i (text_of "alertmanager") k s n))
        ]
      ]

  -- An alert that fires has texts that are accepted.
  abbrev pub Accepted : AlertStatus × Labels × Text → Type 0
  Accepted (firing, labels, title) = IsAccepted (alert_device router_ids digest labels) title
  Accepted (resolving, labels, title) = Unit

  receive-Done :
      (ident : Text) (contexts : Dict Context) (x : AlertStatus × Labels × Text) (o : Outcome)
      (s : Store)
      → IsValid s
      → Accepted x
      → lookup ident s.incidents ≡ none
      → Done ident s (receive router_ids digest now ident contexts x o s)
  unfolding receive
  receive-Done ident contexts (firing, labels, title) o s v a f =
      receive_firing-Done ident contexts labels title o s v a f
  receive-Done ident contexts (resolving, labels, title) o s v a f =
      receive_resolved-Done ident labels title o s

  -- The first so many new names are free, and distinct.
  pub record AreFresh (n : ℕ) (fresh : ℕ → Text) (s : Store) : Type 0 where
    pub named : (i : ℕ) → text (str (fresh i)) 64 ≡ ok (fresh i)
    pub free : (i : ℕ) → i < n → lookup (fresh i) s.incidents ≡ none
    pub distinct : (i j : ℕ) → i < j → same (fresh j) (fresh i) ≡ false

  receive_all-Done :
      (fresh : ℕ → Text) (contexts : Dict Context) (vs : List (AlertStatus × Labels × Text)) (n : ℕ)
      (o : Outcome) (s : Store)
      → IsValid s
      → Counts n o
      → All Accepted vs
      → AreFresh (length vs) fresh s
      → (o' : Outcome) × ((receive_all router_ids digest now fresh contexts vs o s).0 ≡ ok o')
  unfolding receive_all
  receive_all-Done fresh contexts [] n o s v c a f = (o, refl)
  receive_all-Done fresh contexts (x ∷ vs) n o s v c a f =
      let i = length vs in
      let y = receive router_ids digest now (fresh i) contexts x o s in
      let (o', e, kept) = receive-Done (fresh i) contexts x o s v a.0 (f.free i (omega arith)) in
      let (count, valid) =
        receive-Received router_ids digest now (fresh i) contexts x n o s (f.named i) c v in
      let counted : Counts (suc n) o' = subst (Accounted (suc n)) e count in
      let next : AreFresh i fresh y.1 = record {
        named = f.named;
        free = λ j l. kept (fresh j) (f.free j (omega arith)) (f.distinct j i l);
        distinct = f.distinct;
      } in
      let (o'', q) = receive_all-Done fresh contexts vs (suc n) o' y.1 valid counted a.1 next in
      (
        o'',
        ap (λ z. (continue (receive_all router_ids digest now fresh contexts vs) (z, y.1)).0) e ∙ q,
      )

  -- On a valid store a batch of at most a hundred alerts that are validated, whose texts
  -- open_incident accepts, and for which the new names are free and distinct, does not raise, and each of its
  -- alerts is counted.
  pub receive_alerts-done :
      (fresh : ℕ → Text) (alerts : List Alert) (vs : List (AlertStatus × Labels × Text)) (s : Store)
      → IsValid s
      → length alerts ≤ 100
      → validate_all alerts ≡ ok vs
      → All Accepted vs
      → AreFresh (length vs) fresh s
      → (o : Outcome) × ((receive_alerts router_ids digest now fresh (some alerts) s).0 ≡ ok o)
        × Counts (length alerts) o
  unfolding receive_alerts
  receive_alerts-done fresh alerts vs s v l e a f =
      let (o, q) =
        receive_all-Done fresh s.contexts vs 0 no_outcome s v
          (record { total = refl; notified = refl }) a f in
      let p : (receive_alerts router_ids digest now fresh (some alerts) s).0 ≡ ok o =
        rw (receive_alerts, ltb-false 100 (length alerts) l, e) q in
      let r = receive_alerts-Received router_ids digest now fresh (some alerts) s f.named v in
      (o, p, subst (Accounted (length alerts)) p r.0)
