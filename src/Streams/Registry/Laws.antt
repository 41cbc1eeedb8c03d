-- ===== src/Streams/Registry/Laws.antt =====
-- What the registry does to the pipe of a stream that has room.
use netpulse_monitor.Base.{
  ℕ, ◌+◌, ◌≤◌, ◌≡◌, refl, ◌⊎◌, false, Option, none, some, [], ◌∷◌, ◌++◌, arith, length,
}
use netpulse_monitor.Text.{Text, text_of, same_refl}
use netpulse_monitor.Dict.{lookup}
use netpulse_monitor.Dict.Laws.{lookup-remove}
use netpulse_monitor.Streams.{Pipe, is_full, put, put_nowait, size, close, put_sentinel, fail}
use netpulse_monitor.Streams.Registry.{
  InboundStream, StreamRegistry, feed, end_stream, fail_stream, set_pipe, forget,
}

-- The text of the ERROR of a failed producer.
abbrev pub failed_text : Text → Text
failed_text e = text_of "producer failed: " ++ e

module _ {A : Type 0} where
  -- A chunk or an end for a pipe with room.
  abbrev pub added : Option A → Pipe A → Pipe A
  added x p = record p { queue = p.queue ++ x ∷ [] }

  -- The pipe has so many places left, or no bound.
  unfoldable pub HasPlaces : ℕ → Pipe A → Type 0
  HasPlaces k p = (p.buff_len ≡ 0) ⊎ (length p.queue + k ≤ p.buff_len)

  pub HasPlaces-open : (p : Pipe A) → HasPlaces 1 p → is_full p ≡ false
  unfolding HasPlaces is_full size
  HasPlaces-open p h = ground arith

  -- The pipe after the last packet.
  abbrev pub ended : Option Text → Pipe A → Pipe A
  ended none p = close (added none p)
  ended (some e) p = close (added none (record p { error = some (failed_text e) }))

  pub set_pipe_self : (i : ℕ) (p : Pipe A) (t : StreamRegistry A) → (set_pipe i p t).pipes i ≡ p
  unfolding set_pipe
  set_pipe_self i p t = ground arith

  pub forget-pipes :
      (label : Text) (i : ℕ) (p : Pipe A) (t : StreamRegistry A)
      → (forget label (set_pipe i p t)).pipes i ≡ p
  unfolding forget
  forget-pipes label i p t = set_pipe_self i p t

  pub forget-none :
      (label : Text) (t : StreamRegistry A) → lookup label (forget label t).streams ≡ none
  unfolding forget
  forget-none label t = rw (lookup-remove label label t.streams, same_refl label) refl

  pub feed-open :
      (label : Text) (c : A) (t : StreamRegistry A) (stream : InboundStream)
      → lookup label t.streams ≡ some stream
      → is_full (t.pipes stream.pipe) ≡ false
      → feed label c t
        ≡ some (
            set_pipe stream.pipe
              (record (t.pipes stream.pipe) { queue = (t.pipes stream.pipe).queue ++ some c ∷ [] })
              t)
  unfolding feed put put_nowait
  feed-open label c t stream e h = rw (e, h, feed, put, put_nowait) refl

  pub end_stream-open :
      (label : Text) (t : StreamRegistry A) (stream : InboundStream) (p : Pipe A)
      → lookup label t.streams ≡ some stream
      → t.pipes stream.pipe ≡ p
      → is_full p ≡ false
      → end_stream label t ≡ some (forget label (set_pipe stream.pipe (ended none p) t))
  unfolding end_stream put put_nowait
  end_stream-open label t stream p e q h = rw (e, q, h, end_stream, put, put_nowait) refl

  pub fail_stream-open :
      (label e : Text) (t : StreamRegistry A) (stream : InboundStream) (p : Pipe A)
      → lookup label t.streams ≡ some stream
      → t.pipes stream.pipe ≡ p
      → is_full p ≡ false
      → fail_stream label (failed_text e) t
        ≡ forget label (set_pipe stream.pipe (ended (some e) p) t)
  unfolding fail_stream fail put_sentinel put_nowait is_full size
  fail_stream-open label e t stream p f q h =
      rw (f, q, fail_stream, fail, put_sentinel, put_nowait) (rw h refl)
