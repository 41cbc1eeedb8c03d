-- ===== src/Streams.antt =====
-- The pipes of netpulse/p2p_core/internal_modules/memory.py: a bounded queue of asyncio between a
-- producer and a consumer. In the queue `none` is the sentinel. A call that waits is `none`.
pub mod Order
pub mod Drain
pub mod Dispatch
pub mod Registry
pub mod Pump
mod Samples
use netpulse_monitor.Base.{
  ℕ, zero, suc, ◌/◌, Bool, true, false, not, ◌&&◌, Option, none, some, List, [], ◌∷◌, ◌++◌, max,
  leb, ◌==◌, if◌then◌else◌, length,
}
use netpulse_monitor.Text.{Text}

pub record Pipe (A : Type 0) : Type 0 where
  pub pipe_id : Text
  pub buff_len : ℕ
  pub low_watermark : ℕ
  pub queue : List (Option A)
  pub closed : Bool
  pub error : Option Text

-- What `__anext__` does: it waits, gives an item, stops the iteration or raises the pipe's error.
pub data Next (A : Type 0) : Type 0 where
  waits : Next A
  item : A → Next A
  stops : Next A
  raises : Text → Next A

module _ {A : Type 0} where
  -- `Pipe(pipe_id, buff_len)`
  unfoldable pub new_pipe : Text → ℕ → Pipe A
  new_pipe pipe_id buff_len = record {
    pipe_id = pipe_id;
    buff_len = buff_len;
    low_watermark = max 1 (buff_len / 3);
    queue = [];
    closed = false;
    error = none;
  }

  unfoldable pub size : Pipe A → ℕ
  size p = length p.queue

  -- A queue of asyncio with maxsize 0 has no bound.
  unfoldable pub is_full : Pipe A → Bool
  unfolding size
  is_full p = not (p.buff_len == 0) && leb p.buff_len (size p)

  unfoldable pub put_nowait : Option A → Pipe A → Option (Pipe A)
  put_nowait x p = if is_full p then none else some (record p { queue = p.queue ++ x ∷ [] })

  -- `put`: as `put_nowait`, but it waits where that raises QueueFull.
  unfoldable pub put : Option A → Pipe A → Option (Pipe A)
  unfolding put_nowait
  put x p = put_nowait x p

  unfoldable pub close : Pipe A → Pipe A
  close p = record p { closed = true }

  -- `put_nowait` of the sentinel, where QueueFull is passed over.
  unfoldable pub put_sentinel : Pipe A → Pipe A
  unfolding put_nowait
  put_sentinel p = elim (put_nowait none p) [ none ↦ p | some p' ↦ p' ]

  unfoldable pub fail : Text → Pipe A → Pipe A
  unfolding close put_sentinel
  fail e p = close (put_sentinel (record p { error = some e }))

  -- `_raise_if_failed`, and then `raise StopAsyncIteration`.
  unfoldable pub finish : Pipe A → Next A
  finish p = elim p.error [ none ↦ stops | some e ↦ raises e ]

  -- `__anext__`
  unfoldable pub anext : Pipe A → Next A × Pipe A
  unfolding finish
  anext p = elim p.queue [
    | [] ↦ if p.closed then (finish p, p) else (waits, p)
    | none ∷ q ↦ (finish p, record p { queue = q })
    | some a ∷ q ↦ (item a, record p { queue = q })
  ]

  -- `async for`, at most so many times round: the items, and how it ends.
  unfoldable pub drain : ℕ → Pipe A → List A × Next A
  drain zero p = ([], waits)
  drain (suc n) p =
      let (r, p') = anext p in
      elim r [
        | item a ↦ let (got, end) = drain n p' in (a ∷ got, end)
        | waits ↦ ([], waits)
        | stops ↦ ([], stops)
        | raises e ↦ ([], raises e)
      ]
