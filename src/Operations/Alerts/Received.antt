-- ===== src/Operations/Alerts/Received.antt =====
-- Every alert of a batch is accounted for, and the store stays valid.
use mathlib.Core.Path.{subst, sym}
use netpulse_monitor.Base.{
  ℕ, suc, ◌+◌, ◌≡◌, refl, ◌∙◌, inl, inr, Bool, true, false, Option, none, some, List, [], ◌∷◌,
  arith, length, length-append, ltb, Option-cases, Bool-cases,
}
use netpulse_monitor.Text.{Text, text_of}
use netpulse_monitor.Dict.{Dict, lookup}
use netpulse_monitor.Operations.{
  Result, ok, raise, str, text, Incident, Event, Context, Store, M, continue,
}
use netpulse_monitor.Operations.Incidents.{find_active, open_incident, change_incident}
use netpulse_monitor.Operations.Incidents.Valid.{
  IsValid, Result-cases, open_incident-IsValid, change_incident-IsValid,
}
use netpulse_monitor.Operations.Routers.{in_maintenance}
use netpulse_monitor.Operations.Alerts.{
  Alert, AlertStatus, firing, resolving, Labels, Outcome, no_outcome, ignore, notify_opened,
  notify_resolved, bind_result, validate, validate_all, alert_recovery, alert_device, alert_key,
  still_failing, receive_firing, receive_resolved, receive, receive_all, receive_alerts,
  after_opening, after_closing,
}

-- The outcome after so many alerts.
pub record Counts (n : ℕ) (o : Outcome) : Type 0 where
  pub total : o.opened + o.resolved + o.ignored ≡ n
  pub notified : length o.notifications ≡ o.opened + o.resolved

-- What a result says, if it is not an error.
abbrev pub Accounted : ℕ → Result Outcome → Type 0
Accounted n (raise e) = Unit
Accounted n (ok o) = Counts n o

ignore-Counts : (n : ℕ) (o : Outcome) → Counts n o → Counts (suc n) (ignore o)
unfolding ignore
ignore-Counts n o c = record { total = omega (arith, c.total); notified = c.notified }

notify_opened-Counts :
    (n : ℕ) (title : Text) (o : Outcome) → Counts n o → Counts (suc n) (notify_opened title o)
unfolding notify_opened
notify_opened-Counts n title o c = record {
  total = omega (arith, c.total);
  notified =
      length-append o.notifications ((text_of "ALERT_OPENED", title) ∷ [])
      ∙ omega (arith, c.notified);
}

notify_resolved-Counts :
    (n : ℕ) (title : Text) (o : Outcome) → Counts n o → Counts (suc n) (notify_resolved title o)
unfolding notify_resolved
notify_resolved-Counts n title o c = record {
  total = omega (arith, c.total);
  notified =
      length-append o.notifications ((text_of "ALERT_RESOLVED", title) ∷ [])
      ∙ omega (arith, c.notified);
}

after_opening-Counts :
    (n : ℕ) (title : Text) (o : Outcome) (x : Result (Text × Bool) × Store)
    → Counts n o
    → Accounted (suc n) (after_opening title o x).0
unfolding after_opening
after_opening-Counts n title o (raise e, s) c = tt
after_opening-Counts n title o (ok (i, true), s) c = notify_opened-Counts n title o c
after_opening-Counts n title o (ok (i, false), s) c = ignore-Counts n o c

after_opening_state :
    (title : Text) (o : Outcome) (x : Result (Text × Bool) × Store)
    → (after_opening title o x).1 ≡ x.1
unfolding after_opening
after_opening_state title o (raise e, s) = refl
after_opening_state title o (ok x, s) = refl

after_closing-Counts :
    (n : ℕ) (title : Text) (o : Outcome) (x : Result (Incident × List Event) × Store)
    → Counts n o
    → Accounted (suc n) (after_closing title o x).0
unfolding after_closing
after_closing-Counts n title o (raise e, s) c = ignore-Counts n o c
after_closing-Counts n title o (ok x, s) c = notify_resolved-Counts n title o c

after_closing_state :
    (title : Text) (o : Outcome) (x : Result (Incident × List Event) × Store)
    → (after_closing title o x).1 ≡ x.1
unfolding after_closing
after_closing_state title o (raise e, s) = refl
after_closing_state title o (ok x, s) = refl

-- What a step leaves: a valid store, and one more alert in the outcome unless it raises.
abbrev pub Received : ℕ → Result Outcome × Store → Type 0
Received n x = Accounted n x.0 × IsValid x.1

continue-Received :
    (n m : ℕ) (f : Outcome → M Outcome) (x : Result Outcome × Store)
    → Received n x
    → ((o : Outcome) (s : Store) → Counts n o → IsValid s → Received m (f o s))
    → Received m (continue f x)
continue-Received n m f (raise e, s) r k = (tt, r.1)
continue-Received n m f (ok o, s) r k = k o s r.0 r.1

abbrev pub batch_size : Option (List Alert) → ℕ
batch_size none = 0
batch_size (some alerts) = length alerts

validate_all-length :
    (alerts : List Alert) (vs : List (AlertStatus × Labels × Text))
    → validate_all alerts ≡ ok vs
    → length vs + 0 ≡ length alerts
unfolding validate_all bind_result
validate_all-length [] vs e = grind arith
validate_all-length (a ∷ rest) vs e = elim (Result-cases (validate a)) [
  | inl (x, q) ↦ grind arith
  | inr (y, q) ↦ elim (Result-cases (validate_all rest)) [
    | inl (x, p) ↦ grind arith
    | inr (ys, p) ↦ let k = validate_all-length rest ys p in grind arith
  ]
]

module _ (router_ids : List Text) (digest : Labels → Text) (now : ℕ) where
  receive_firing-Received :
      (ident : Text) (contexts : Dict Context) (labels : Labels) (title : Text) (n : ℕ)
      (o : Outcome) (s : Store)
      → text (str ident) 64 ≡ ok ident
      → Counts n o
      → IsValid s
      → Received (suc n) (receive_firing router_ids digest now ident contexts labels title o s)
  unfolding receive_firing
  receive_firing-Received ident contexts labels title n o s named c v =
      let device = alert_device router_ids digest labels in
      let key = alert_key router_ids digest labels in
      let x =
        open_incident now [] ident (str device) (str title) (text_of "critical") (some key)
          (text_of "alertmanager") s in
      let w =
        open_incident-IsValid now [] ident (str device) (str title) (text_of "critical") (some key)
          (text_of "alertmanager") named s v in
      elim (Bool-cases (in_maintenance now (lookup device contexts))) [
        | inl e ↦ rw (e, receive_firing) (ignore-Counts n o c, v)
        | inr e ↦
            rw (e, receive_firing)
              (
                after_opening-Counts n title o x c,
                subst IsValid (sym (after_opening_state title o x)) w,
              )
      ]

  receive_resolved-Received :
      (labels : Labels) (title : Text) (n : ℕ) (o : Outcome) (s : Store)
      → Counts n o
      → IsValid s
      → Received (suc n) (receive_resolved router_ids digest now labels title o s)
  unfolding receive_resolved
  receive_resolved-Received labels title n o s c v =
      elim (Option-cases (find_active (alert_key router_ids digest labels) s.incidents)) [
        | inl e ↦ rw (e, receive_resolved) (ignore-Counts n o c, v)
        | inr ((i, r), e) ↦ elim (Bool-cases (still_failing router_ids digest labels s)) [
          | inl f ↦ rw (e, receive_resolved, f) (ignore-Counts n o c, v)
          | inr f ↦
              let x = change_incident now (alert_recovery i) (text_of "alertmanager") s in
              let w = change_incident-IsValid now (alert_recovery i) (text_of "alertmanager") s v in
              rw (e, receive_resolved, f)
                (
                  after_closing-Counts n title o x c,
                  subst IsValid (sym (after_closing_state title o x)) w,
                )
        ]
      ]

  pub receive-Received :
      (ident : Text) (contexts : Dict Context) (x : AlertStatus × Labels × Text) (n : ℕ)
      (o : Outcome) (s : Store)
      → text (str ident) 64 ≡ ok ident
      → Counts n o
      → IsValid s
      → Received (suc n) (receive router_ids digest now ident contexts x o s)
  unfolding receive
  receive-Received ident contexts (firing, labels, title) n o s named c v =
      receive_firing-Received ident contexts labels title n o s named c v
  receive-Received ident contexts (resolving, labels, title) n o s named c v =
      receive_resolved-Received labels title n o s c v

  receive_all-Received :
      (fresh : ℕ → Text) (contexts : Dict Context) (vs : List (AlertStatus × Labels × Text)) (n : ℕ)
      (o : Outcome) (s : Store)
      → ((i : ℕ) → text (str (fresh i)) 64 ≡ ok (fresh i))
      → Counts n o
      → IsValid s
      → Received (length vs + n) (receive_all router_ids digest now fresh contexts vs o s)
  unfolding receive_all
  receive_all-Received fresh contexts [] n o s named c v =
      (record { total = omega (arith, c.total); notified = c.notified }, v)
  receive_all-Received fresh contexts (x ∷ vs) n o s named c v =
      let step = receive-Received (fresh (length vs)) contexts x n o s (named (length vs)) c v in
      subst (λ m. Received m (receive_all router_ids digest now fresh contexts (x ∷ vs) o s))
        (omega arith)
        (continue-Received (suc n) (length vs + suc n)
          (receive_all router_ids digest now fresh contexts vs)
          (receive router_ids digest now (fresh (length vs)) contexts x o s) step
          (λ o' s' c' v'. receive_all-Received fresh contexts vs (suc n) o' s' named c' v'))

  -- A batch of alerts on a valid store leaves a valid store, also where it raises. If it does not,
  -- each alert of the batch is counted once, as opened, resolved or ignored, and there is one
  -- notification for each that was opened or resolved.
  pub receive_alerts-Received :
      (fresh : ℕ → Text) (alerts : Option (List Alert)) (s : Store)
      → ((i : ℕ) → text (str (fresh i)) 64 ≡ ok (fresh i))
      → IsValid s
      → Received (batch_size alerts) (receive_alerts router_ids digest now fresh alerts s)
  unfolding receive_alerts
  receive_alerts-Received fresh none s named v = (tt, v)
  receive_alerts-Received fresh (some alerts) s named v =
      elim (Bool-cases (ltb 100 (length alerts))) [
        | inl e ↦ rw (e, receive_alerts) (tt, v)
        | inr e ↦ elim (Result-cases (validate_all alerts)) [
          | inl (x, q) ↦ rw (e, receive_alerts, q) (tt, v)
          | inr (vs, q) ↦
              rw (e, receive_alerts, q)
                (subst
                  (λ m.
                    Received m (receive_all router_ids digest now fresh s.contexts vs no_outcome s))
                  (validate_all-length alerts vs q)
                  (receive_all-Received fresh s.contexts vs 0 no_outcome s named
                    (record { total = refl; notified = refl }) v))
        ]
      ]
