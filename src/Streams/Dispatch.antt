-- ===== src/Streams/Dispatch.antt =====
-- `Dispatcher` of memory.py, which hands the items of a generator to pipes: the pipe that it
-- chooses for an item, and what it does to the pipes at the end. The generator's thread and its
-- queue are left out.
pub mod Placing
pub mod Ending
use netpulse_monitor.Base.{
  ℕ, zero, suc, ◌+◌, ◌≤◌, ◌≡◌, refl, ap, sym, ◌∙◌, ◌⊎◌, inl, inr, Bool, true, false, not, Option,
  none, some, List, [], ◌∷◌, ◌++◌, arith, length, ltb, if◌then◌else◌, keep_if, keep_if-All, All,
  List-cases, Bool-cases, Option-cases,
}
use netpulse_monitor.Text.{Text, same, same_iff, same_refl}
use netpulse_monitor.Dict.{Dict, lookup, insert}
use netpulse_monitor.Dict.Laws.{Entries}
use netpulse_monitor.Dict.Distinct.{Distinct}
use netpulse_monitor.Streams.{
  Pipe, Next, raises, size, is_full, put, put_nowait, put_sentinel, close, fail, finish, drain,
}
use netpulse_monitor.Streams.Drain.{until_end, drain-closed}

module _ {A : Type 0} where
  unfoldable pub candidates : Dict (Pipe A) → Dict (Pipe A)
  candidates d = keep_if (λ e. not (is_full e.1)) d

  -- `min(…, key=lambda p: p.size)`: the first of the smallest.
  unfoldable pub smallest : Text × Pipe A → Dict (Pipe A) → Text × Pipe A
  smallest best [] = best
  smallest best (e ∷ d) = smallest (if ltb (size e.1) (size best.1) then e else best) d

  unfoldable pub least_loaded : Dict (Pipe A) → Option (Text × Pipe A)
  unfolding candidates smallest
  least_loaded d = elim (candidates d) [ [] ↦ none | e ∷ rest ↦ some (smallest e rest) ]

  -- The placing of an item: `none` where the loop pauses, or would wait in `put`.
  unfoldable pub place : A → Dict (Pipe A) → Option (Dict (Pipe A))
  place a d = elim (least_loaded d) [
    | none ↦ none
    | some (k, p) ↦ elim (put (some a) p) [ none ↦ none | some p' ↦ some (insert k p' d) ]
  ]

  -- The end of `run` for a pipe, after a failure of the generator or without one.
  unfoldable pub end_pipe : Option Text → Pipe A → Pipe A
  end_pipe none p = close (put_sentinel p)
  end_pipe (some e) p = fail e p

  unfoldable pub end_pipes : Option Text → Dict (Pipe A) → Dict (Pipe A)
  unfolding end_pipe
  end_pipes failure [] = []
  end_pipes failure ((k, p) ∷ d) = (k, end_pipe failure p) ∷ end_pipes failure d
