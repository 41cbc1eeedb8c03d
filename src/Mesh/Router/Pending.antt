-- ===== src/Mesh/Router/Pending.antt =====
-- The requests of web clients that no answer came to.
use netpulse_monitor.Base.{
  ℕ, ◌-◌, ◌≡◌, refl, ◌∙◌, inl, inr, Bool, false, Option, none, some, List, [], ◌∷◌, arith, ltb,
  if◌then◌else◌, any_of, Bool-cases, Option-cases,
}
use netpulse_monitor.Text.{Text, same, same_iff}
use netpulse_monitor.Dict.{Dict, lookup, remove}
use netpulse_monitor.Dict.Laws.{lookup-remove}
use netpulse_monitor.Dict.Distinct.{Distinct}
use netpulse_monitor.Mesh.Router.{Router}
use netpulse_monitor.Mesh.Router.Passing.{stale, pop_all, sweep_ws_pending}

-- An entry is kept while it is not older than the limit.
abbrev pub recent : ℕ → ℕ → Option (ℕ × ℕ) → Option (ℕ × ℕ)
recent now max_age none = none
recent now max_age (some (ws, created)) =
    if ltb max_age (now - created) then none else some (ws, created)

abbrev is_stale : ℕ → ℕ → Option (ℕ × ℕ) → Bool
is_stale now max_age none = false
is_stale now max_age (some (ws, created)) = ltb max_age (now - created)

lookup-pop_all {ℓ} :
    {V : Type ℓ} (ks : List Text) (k : Text) (d : Dict V)
    → lookup k (pop_all ks d) ≡ (if any_of (λ l. same l k) ks then none else lookup k d)
unfolding pop_all
lookup-pop_all [] k d = refl
lookup-pop_all (j ∷ ks) k d = lookup-pop_all ks k (remove j d) ∙ ground (arith, lookup-remove j k d)

stale-none :
    (now max_age : ℕ) (k : Text) (d : Dict (ℕ × ℕ))
    → lookup k d ≡ none
    → any_of (λ l. same l k) (stale now max_age d) ≡ false
unfolding stale lookup
stale-none now max_age k [] e = refl
stale-none now max_age k ((j, (ws, created)) ∷ d) e = ground (arith, stale-none now max_age k d)

stale-Distinct :
    (now max_age : ℕ) (k : Text) (d : Dict (ℕ × ℕ))
    → Distinct d
    → any_of (λ l. same l k) (stale now max_age d) ≡ is_stale now max_age (lookup k d)
unfolding stale lookup
stale-Distinct now max_age k [] u = refl
stale-Distinct now max_age k ((j, (ws, created)) ∷ d) u = elim (Bool-cases (same j k)) [
  | inl e ↦
      let gone : lookup k d ≡ none = (rw ((same_iff j k).0 e) at u.0) in
      let rest = stale-none now max_age k d gone in ground arith
  | inr e ↦ let rest = stale-Distinct now max_age k d u.1 in ground arith
]

-- In a table whose labels are distinct, `sweep_ws_pending` drops the entries that are older than the
-- limit, each of them, and keeps the others as they are.
pub sweep_ws_pending-recent :
    (now max_age : ℕ) (k : Text) (r : Router)
    → Distinct r.ws_pending
    → lookup k (sweep_ws_pending now max_age r).ws_pending
      ≡ recent now max_age (lookup k r.ws_pending)
unfolding sweep_ws_pending
sweep_ws_pending-recent now max_age k r u =
    let kept = lookup-pop_all (stale now max_age r.ws_pending) k r.ws_pending in
    let which = stale-Distinct now max_age k r.ws_pending u in
    kept ∙ elim (Option-cases (lookup k r.ws_pending)) [
      | inl e ↦ ground arith
      | inr ((ws, created), e) ↦ ground arith
    ]
