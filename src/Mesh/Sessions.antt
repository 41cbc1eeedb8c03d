-- ===== src/Mesh/Sessions.antt =====
-- netpulse/p2p_core/networking/sessions.py: the requests that wait for an answer. Futures and queues
-- are shared objects: a session is a number, and the table has what each number stands for. Queues
-- have no bound.
pub mod Settling
mod Samples
use netpulse_monitor.Base.{
  ℕ, zero, suc, ◌+◌, Bool, true, false, Option, none, some, List, [], ◌∷◌, ◌++◌, if◌then◌else◌,
  ◌==◌, length,
}
use netpulse_monitor.Text.{Text, same}
use netpulse_monitor.Dict.{Dict, lookup, insert, remove}

-- A future, or a queue with its items; `none` is the sentinel.
pub data Session (D : Type 0) : Type 0 where
  pending : Session D
  resolved : D → Session D
  cancelled : Session D
  queue : List (Option D) → Session D

pub record SessionMeta : Type 0 where
  pub service : Text
  pub method : Text

pub record SessionTable (D : Type 0) : Type 0 where
  pub objects : ℕ → Session D
  pub next : ℕ
  pub table : Dict ℕ
  pub meta : Dict SessionMeta

-- `[label for label, meta in self._meta.items() if meta.service == service_name]`
unfoldable pub targets_of : Text → Dict SessionMeta → List Text
targets_of service [] = []
targets_of service ((label, m) ∷ d) =
    if same m.service service then label ∷ targets_of service d else targets_of service d

module _ {D : Type 0} where
  unfoldable pub set_object : ℕ → Session D → SessionTable D → SessionTable D
  set_object i x t = record t { objects = λ j. if j == i then x else t.objects j }

  unfoldable pub forget : Text → SessionTable D → SessionTable D
  forget label t = record t { table = remove label t.table; meta = remove label t.meta }

  -- `register_single`: the future, and the table.
  unfoldable pub register_single : Text → Text → Text → SessionTable D → ℕ × SessionTable D
  unfolding set_object
  register_single label service method t =
      let t' = set_object t.next pending t in
      (
        t.next,
        record t' {
          next = t.next + 1;
          table = insert label t.next t.table;
          meta = insert label (record { service = service; method = method }) t.meta;
        },
      )

  unfoldable pub resolve_object : Text → D → ℕ → Session D → SessionTable D → SessionTable D
  unfolding set_object forget
  resolve_object label d i pending t = forget label (set_object i (resolved d) t)
  resolve_object label d i (queue items) t = set_object i (queue (items ++ some d ∷ [])) t
  resolve_object label d i _ t = t

  -- `resolve`
  unfoldable pub resolve : Text → D → SessionTable D → SessionTable D
  unfolding resolve_object
  resolve label d t = elim (lookup label t.table) [
    | none ↦ t
    | some i ↦ resolve_object label d i (t.objects i) t
  ]

  unfoldable pub cancel_object : ℕ → Session D → SessionTable D → SessionTable D
  unfolding set_object
  cancel_object i pending t = set_object i cancelled t
  cancel_object i (queue items) t = set_object i (queue (none ∷ [])) t
  cancel_object i _ t = t

  -- `cancel`
  unfoldable pub cancel : Text → SessionTable D → SessionTable D
  unfolding cancel_object forget
  cancel label t =
      let t' = forget label t in
      elim (lookup label t.table) [ none ↦ t' | some i ↦ cancel_object i (t.objects i) t' ]

  unfoldable pub cancel_all : List Text → SessionTable D → SessionTable D
  unfolding cancel
  cancel_all [] t = t
  cancel_all (label ∷ labels) t = cancel_all labels (cancel label t)

  -- `cancel_by_service`
  unfoldable pub cancel_by_service : Text → SessionTable D → ℕ × SessionTable D
  unfolding cancel_all
  cancel_by_service service t =
      let targets = targets_of service t.meta in (length targets, cancel_all targets t)
