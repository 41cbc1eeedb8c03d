-- ===== src/Streams/Registry.antt =====
-- netpulse/p2p_core/networking/stream_registry.py: the streams that come in, each with its pipe. A
-- pipe is shared with its consumer, so it is a number, and the registry goes with what the numbers
-- stand for. A call that waits is `none`; the events and log lines are left out.
pub mod Laws
use netpulse_monitor.Base.{
  ℕ, ◌+◌, ◌==◌, ◌≡◌, refl, inl, inr, Bool, true, false, Option, none, some, List, [], ◌∷◌, ◌++◌,
  arith, if◌then◌else◌, Option-cases,
}
use netpulse_monitor.Text.{Text, same, same_iff}
use netpulse_monitor.Dict.{Dict, lookup, insert, remove}
use netpulse_monitor.Dict.Laws.{lookup-insert, lookup-remove}
use netpulse_monitor.Streams.{Pipe, Next, put, put_nowait, fail}

pub record InboundStream : Type 0 where
  pub label : Text
  pub pipe : ℕ

pub record StreamRegistry (A : Type 0) : Type 0 where
  pub streams : Dict InboundStream
  pub pipes : ℕ → Pipe A
  pub next : ℕ

module _ {A : Type 0} where
  unfoldable pub set_pipe : ℕ → Pipe A → StreamRegistry A → StreamRegistry A
  set_pipe i p t = record t { pipes = λ j. if j == i then p else t.pipes j }

  -- `register` of a new pipe.
  unfoldable pub register : Text → Pipe A → StreamRegistry A → StreamRegistry A
  unfolding set_pipe
  register label p t = record (set_pipe t.next p t) {
    streams = insert label (record { label = label; pipe = t.next }) t.streams;
    next = t.next + 1;
  }

  unfoldable pub get : Text → StreamRegistry A → Option InboundStream
  get label t = lookup label t.streams

  unfoldable pub forget : Text → StreamRegistry A → StreamRegistry A
  forget label t = record t { streams = remove label t.streams }

  unfoldable pub feed : Text → A → StreamRegistry A → Option (StreamRegistry A)
  unfolding set_pipe
  feed label chunk t = elim (lookup label t.streams) [
    | none ↦ some t
    | some stream ↦ elim (put (some chunk) (t.pipes stream.pipe)) [
      | none ↦ none
      | some p ↦ some (set_pipe stream.pipe p t)
    ]
  ]

  -- `close`
  unfoldable pub end_stream : Text → StreamRegistry A → Option (StreamRegistry A)
  unfolding set_pipe forget
  end_stream label t = elim (lookup label t.streams) [
    | none ↦ some t
    | some stream ↦ elim (put none (t.pipes stream.pipe)) [
      | none ↦ none
      | some p ↦ some (forget label (set_pipe stream.pipe (netpulse_monitor.Streams.close p) t))
    ]
  ]

  -- `fail`
  unfoldable pub fail_stream : Text → Text → StreamRegistry A → StreamRegistry A
  unfolding set_pipe forget
  fail_stream label e t = elim (lookup label t.streams) [
    | none ↦ t
    | some stream ↦ forget label (set_pipe stream.pipe (fail e (t.pipes stream.pipe)) t)
  ]
