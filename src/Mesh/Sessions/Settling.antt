-- ===== src/Mesh/Sessions/Settling.antt =====
-- Answers reach their sessions once, and no session is left behind.
use netpulse_monitor.Base.{
  ℕ, ◌≡◌, refl, inl, inr, Bool, false, Option, none, some, List, [], ◌∷◌, if◌then◌else◌, arith,
  Option-cases, Bool-cases, any_of, ap, ◌∙◌,
}
use netpulse_monitor.Text.{Text, same, same_iff, same_refl}
use netpulse_monitor.Dict.{Dict, lookup}
use netpulse_monitor.Dict.Laws.{lookup-remove, lookup-insert_self}
use netpulse_monitor.Dict.Distinct.{Distinct}
use netpulse_monitor.Mesh.Sessions.{
  pending, resolved, SessionMeta, SessionTable, set_object, forget, register_single, resolve_object,
  resolve, cancel_object, cancel, targets_of, cancel_all, cancel_by_service,
}

-- What is left of an entry when the sessions of a service go.
abbrev pub spared : Text → Option SessionMeta → Option SessionMeta
spared service none = none
spared service (some m) = if same m.service service then none else some m

abbrev is_target : Text → Option SessionMeta → Bool
is_target service none = false
is_target service (some m) = same m.service service

targets_of-none :
    (service k : Text) (d : Dict SessionMeta)
    → lookup k d ≡ none
    → any_of (λ l. same l k) (targets_of service d) ≡ false
unfolding targets_of lookup
targets_of-none service k [] e = refl
targets_of-none service k ((j, m) ∷ d) e = ground (arith, targets_of-none service k d)

targets_of-Distinct :
    (service k : Text) (d : Dict SessionMeta)
    → Distinct d
    → any_of (λ l. same l k) (targets_of service d) ≡ is_target service (lookup k d)
unfolding targets_of lookup
targets_of-Distinct service k [] u = refl
targets_of-Distinct service k ((j, m) ∷ d) u = elim (Bool-cases (same j k)) [
  | inl e ↦
      let gone : lookup k d ≡ none = (rw ((same_iff j k).0 e) at u.0) in
      let rest = targets_of-none service k d gone in ground arith
  | inr e ↦ let rest = targets_of-Distinct service k d u.1 in ground arith
]

module _ {D : Type 0} where
  lookup-cancel :
      (label k : Text) (t : SessionTable D)
      → lookup k (cancel label t).meta ≡ (if same label k then none else lookup k t.meta)
  unfolding cancel cancel_object forget set_object
  lookup-cancel label k t = grind (arith, lookup-remove)

  lookup-cancel_all :
      (labels : List Text) (k : Text) (t : SessionTable D)
      → lookup k (cancel_all labels t).meta
        ≡ (if any_of (λ l. same l k) labels then none else lookup k t.meta)
  unfolding cancel_all
  lookup-cancel_all [] k t = refl
  lookup-cancel_all (label ∷ labels) k t =
      lookup-cancel_all labels k (cancel label t) ∙ ground (arith, lookup-cancel label k t)

  -- In a table whose labels are distinct, `cancel_by_service` forgets the sessions of the service,
  -- each of them, and no others.
  pub cancel_by_service-Spared :
      (service k : Text) (t : SessionTable D)
      → Distinct t.meta
      → lookup k (cancel_by_service service t).1.meta ≡ spared service (lookup k t.meta)
  unfolding cancel_by_service
  cancel_by_service-Spared service k t u =
      let all = lookup-cancel_all (targets_of service t.meta) k t in
      let which = targets_of-Distinct service k t.meta u in
      all
      ∙ elim (Option-cases (lookup k t.meta)) [ inl e ↦ ground arith | inr (m, e) ↦ ground arith ]

  pub registered :
      (label service method : Text) (t : SessionTable D)
      → (lookup label (register_single label service method t).1.table ≡ some t.next)
        × ((register_single label service method t).1.objects t.next ≡ pending)
  unfolding register_single set_object
  registered label service method t = (lookup-insert_self label t.next t.table, ground arith)

  pub resolve_pending :
      (label : Text) (d : D) (i : ℕ) (t : SessionTable D)
      → lookup label t.table ≡ some i
      → t.objects i ≡ pending
      → resolve label d t ≡ forget label (set_object i (resolved d) t)
  unfolding resolve resolve_object
  resolve_pending label d i t e p = rw (resolve, e, p) refl

  pub forgotten :
      (label : Text) (i : ℕ) (d : D) (t : SessionTable D)
      → ((forget label (set_object i (resolved d) t)).objects i ≡ resolved d)
        × (lookup label (forget label (set_object i (resolved d) t)).table ≡ none)
        × (lookup label (forget label (set_object i (resolved d) t)).meta ≡ none)
  unfolding forget set_object
  forgotten label i d t = (
    ground arith,
    lookup-remove label label t.table ∙ rw (same_refl label) refl,
    lookup-remove label label t.meta ∙ rw (same_refl label) refl,
  )

  resolve-none :
      (label : Text) (d : D) (t : SessionTable D)
      → lookup label t.table ≡ none
      → resolve label d t ≡ t
  unfolding resolve
  resolve-none label d t e = rw (resolve, e) refl

  -- A future that is registered and then resolved has the answer, and both tables forget its label;
  -- a second answer changes nothing.
  pub resolve-register_single :
      (label service method : Text) (d d' : D) (t : SessionTable D)
      → ((resolve label d (register_single label service method t).1).objects t.next ≡ resolved d)
        × (lookup label (resolve label d (register_single label service method t).1).table ≡ none)
        × (lookup label (resolve label d (register_single label service method t).1).meta ≡ none)
        × (resolve label d' (resolve label d (register_single label service method t).1)
            ≡ resolve label d (register_single label service method t).1)
  resolve-register_single label service method d d' t =
      let t' = (register_single label service method t).1 in
      let (e, p) = registered label service method t in
      let r = resolve_pending label d t.next t' e p in
      let (a, b, c) = forgotten label t.next d t' in
      (
        ap (λ s. s.objects t.next) r ∙ a,
        ap (λ s. lookup label s.table) r ∙ b,
        ap (λ s. lookup label s.meta) r ∙ c,
        resolve-none label d' (resolve label d t') (ap (λ s. lookup label s.table) r ∙ b),
      )
