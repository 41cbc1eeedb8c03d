-- ===== src/Operations/Incidents/Changing.antt =====
-- What `change_incident` promises: one row moves along its life, one event is written, or nothing.
use netpulse_monitor.Base.{
  ℕ, ◌≡◌, ◌≢◌, refl, ◌⊎◌, inl, inr, true, false, Option, none, some, Bool-cases, [], ◌∷◌, ◌++◌,
  arith, Option-cases, take,
}
use netpulse_monitor.Text.{Text, text_of, same, same_iff}
use netpulse_monitor.Dict.{lookup}
use netpulse_monitor.Dict.Laws.{lookup-insert_self, lookup-insert_ne}
use netpulse_monitor.Operations.{
  Error, no_incident, ok, raise, Value, str, other, text, Incident, Store, resolved,
}
use netpulse_monitor.Operations.Incidents.{
  add_event, update_incident, Action, acknowledge, resolve, assign, comment, action_name, Body,
  get_value, change_row, change_found, change_incident, incident, events_of, parse_action,
}
use netpulse_monitor.Operations.Incidents.Moves.{
  Move, Revised, Barred, change_row-Move, change_row-Revised, change_row-Barred, Result-cases,
}

-- From `s` to `s'` the action moved the incident `ident`, and wrote one event.
pub record Changed (now : ℕ) (ident : Text) (a : Action) (owner : Value) (message actor : Text)
    (s s' : Store) : Type 0 where
  pub note : Text
  pub row :
      (r : Incident) × (r' : Incident) × (lookup ident s.incidents ≡ some r)
      × (lookup ident s'.incidents ≡ some r')
      × Move a r.status r'.status
      × Revised now a owner message note r r'
  pub others : (k : Text) → same ident k ≡ false → lookup k s'.incidents ≡ lookup k s.incidents
  pub event :
      s'.timeline
      ≡ s.timeline
        ++ record {
          incident_id = ident;
          ts = now;
          actor = take 160 actor;
          action = action_name a;
          message = take 2000 note;
        }
          ∷ []
  pub same_health : s'.health ≡ s.health
  pub same_contexts : s'.contexts ≡ s.contexts

pub change_found-cases :
    (now : ℕ) (ident : Text) (a : Action) (owner : Value) (message actor : Text) (s : Store)
    → ((e : Error) × (change_found now ident a owner message actor s ≡ (raise e, s))
        × ((lookup ident s.incidents ≡ none)
            ⊎ ((r : Incident) × (lookup ident s.incidents ≡ some r) × Barred a owner message r)))
      ⊎ ((s' : Store) × (change_found now ident a owner message actor s ≡ (ok tt, s'))
          × Changed now ident a owner message actor s s')
unfolding change_found add_event update_incident
change_found-cases now ident a owner message actor s =
    elim (Option-cases (lookup ident s.incidents)) [
      | inl e ↦ inl (no_incident, rw (e, change_found), inl e)
      | inr (r, e) ↦ elim (Result-cases (change_row now a owner message r)) [
        | inl (x, q) ↦
            inl
              (x, rw (e, change_found, q), inr (r, e, change_row-Barred now a owner message r x q))
        | inr ((r', note), q) ↦
            let moved = (update_incident ident r' s).1 in
            inr (
              (add_event now ident actor (action_name a) note moved).1,
              rw (e, change_found, q),
              record {
                note = note;
                row = (
                  r,
                  r',
                  e,
                  lookup-insert_self ident r' s.incidents,
                  change_row-Move now a owner message note r r' r.status r'.status q refl refl,
                  change_row-Revised now a owner message note r r' q,
                );
                others = λ k h. lookup-insert_ne ident k r' s.incidents h;
                event = refl;
                same_health = refl;
                same_contexts = refl;
              },
            )
      ]
    ]

pub incident-row :
    (ident : Text) (r : Incident) (s : Store)
    → lookup ident s.incidents ≡ some r
    → incident ident s ≡ (ok (r, events_of ident s.timeline), s)
unfolding incident
incident-row ident r s e = rw (e, incident)

parse_action-name :
    (v : Option Value) (a : Action) → parse_action v ≡ ok a → v ≡ some (str (action_name a))
unfolding parse_action action_name
parse_action-name none a h = absurd cc
parse_action-name (some other) a h = absurd cc
parse_action-name (some (str t)) a h = elim (Bool-cases (same t (text_of "acknowledge"))) [
  | inl s ↦ named acknowledge s (rw s at h)
  | inr s ↦ elim (Bool-cases (same t (text_of "resolve"))) [
    | inl s' ↦ named resolve s' (rw (s, s') at h)
    | inr s' ↦ elim (Bool-cases (same t (text_of "assign"))) [
      | inl s'' ↦ named assign s'' (rw (s, s', s'') at h)
      | inr s'' ↦ elim (Bool-cases (same t (text_of "comment"))) [
        | inl s3 ↦ named comment s3 (rw (s, s', s'', s3) at h)
        | inr s3 ↦ absurd (cc (rw (s, s', s'', s3) at h))
      ]
    ]
  ]
]
  where
    named :
        (b : Action)
        → same t (action_name b) ≡ true
        → ok b ≡ ok a
        → some (str t) ≡ some (str (action_name a))
    named b s q = cc ((same_iff t (action_name b)).0 s, q)

parse_action-unknown :
    (v : Option Value) (e : Error)
    → parse_action v ≡ raise e
    → (a : Action) → v ≢ some (str (action_name a))
unfolding parse_action action_name same
parse_action-unknown v e h acknowledge q = absurd (cc (rw q at h))
parse_action-unknown v e h resolve q = absurd (cc (rw q at h))
parse_action-unknown v e h assign q = absurd (cc (rw q at h))
parse_action-unknown v e h comment q = absurd (cc (rw q at h))

-- What a request asks for.
pub record Requested (body : Body) (ident : Text) (a : Action) (message : Text) : Type 0 where
  pub identifier : text (get_value body.ident other) 64 ≡ ok ident
  pub action : body.action ≡ some (str (action_name a))
  pub worded : text (get_value body.message (str [])) 2000 ≡ ok message

-- What a request can be refused for: its identifier, action or message, a row that is not there, or one
-- that the action refuses.
pub data Refused (body : Body) (s : Store) : Type 0 where
  bad_identifier : (e : Error) → text (get_value body.ident other) 64 ≡ raise e → Refused body s
  unknown_action : ((a : Action) → body.action ≢ some (str (action_name a))) → Refused body s
  bad_message : (e : Error) → text (get_value body.message (str [])) 2000 ≡ raise e → Refused body s
  missing_row :
      (ident : Text) (a : Action) (message : Text)
      → Requested body ident a message
      → lookup ident s.incidents ≡ none
      → Refused body s
  barred_row :
      (ident : Text) (a : Action) (message : Text) (r : Incident)
      → Requested body ident a message
      → lookup ident s.incidents ≡ some r
      → Barred a (get_value body.owner (str [])) message r
      → Refused body s

-- Every request either raises, because its identifier, action or message is not accepted, or its row is
-- not there or refuses the action, and leaves the store as it was, or does its action to the row of its
-- identifier: the row moves along an allowed move and gets what the action writes, one event is added
-- and nothing else changes, and the row is returned with its last events.
pub change_incident-cases :
    (now : ℕ) (body : Body) (actor : Text) (s : Store)
    → ((e : Error) × (change_incident now body actor s ≡ (raise e, s)) × Refused body s)
      ⊎ ((ident : Text) × (a : Action) × (message : Text) × (s' : Store) × (r : Incident)
          × Requested body ident a message
          × (change_incident now body actor s ≡ (ok (r, events_of ident s'.timeline), s'))
          × (lookup ident s'.incidents ≡ some r)
          × Changed now ident a (get_value body.owner (str [])) message actor s s')
unfolding change_incident
change_incident-cases now body actor s =
    elim (Result-cases (text (get_value body.ident other) 64)) [
      | inl (x, q) ↦ inl (x, rw (q, change_incident), bad_identifier x q)
      | inr (ident, q) ↦ elim (Result-cases (parse_action body.action)) [
        | inl (x, p) ↦
            inl
              (x, rw (q, p, change_incident), unknown_action (parse_action-unknown body.action x p))
        | inr (a, p) ↦ elim (Result-cases (text (get_value body.message (str [])) 2000)) [
          | inl (x, m) ↦ inl (x, rw (q, p, m, change_incident), bad_message x m)
          | inr (message, m) ↦
              let asked : Requested body ident a message = record {
                identifier = q;
                action = parse_action-name body.action a p;
                worded = m;
              } in
              elim (change_found-cases now ident a (get_value body.owner (str [])) message actor
                s) [
                  | inl (x, f, inl none_there) ↦ inl (
                    x,
                    rw (q, p, m, f, change_incident),
                    missing_row ident a message asked none_there,
                  )
                  | inl (x, f, inr (r, there, b)) ↦ inl (
                    x,
                    rw (q, p, m, f, change_incident),
                    barred_row ident a message r asked there b,
                  )
                  | inr (s', f, c) ↦ inr (
                    ident,
                    a,
                    message,
                    s',
                    c.row.1,
                    asked,
                    rw (q, p, m, f, change_incident) (incident-row ident c.row.1 s' c.row.3),
                    c.row.3,
                    c,
                  )
                ]
        ]
      ]
    ]

-- An active incident can always be resolved.
pub resolve_active :
    (now : ℕ) (ident : Text) (owner : Value) (message actor : Text) (s : Store) (r : Incident)
    → lookup ident s.incidents ≡ some r
    → r.status ≢ resolved
    → (s' : Store) × (change_found now ident resolve owner message actor s ≡ (ok tt, s'))
      × Changed now ident resolve owner message actor s s'
unfolding change_found change_row add_event update_incident
resolve_active now ident owner message actor s r e h =
    elim (change_found-cases now ident resolve owner message actor s) [
      | inl (x, f, y) ↦ absurd (ground arith)
      | inr c ↦ c
    ]

unfoldable pub closed : ℕ → Incident → Incident
closed now r = record r { status = resolved; resolved_at = some now; updated = now }

-- The store that closing an active incident leaves.
pub change_found-resolve :
    (now : ℕ) (ident : Text) (owner : Value) (message actor : Text) (s : Store) (r : Incident)
    → lookup ident s.incidents ≡ some r
    → r.status ≢ resolved
    → change_found now ident resolve owner message actor s
      ≡ add_event now ident actor
          (action_name resolve)
          message
          (update_incident ident (closed now r) s).1
unfolding change_found change_row update_incident add_event closed
change_found-resolve now ident owner message actor s r e h = ground arith
