-- ===== src/Streams/Dispatch/Ending.antt =====
-- What the consumers get after the dispatcher has ended.
use netpulse_monitor.Base.{
  ℕ, suc, ◌+◌, ◌≡◌, refl, ap, ◌∙◌, Option, none, some, List, [], ◌∷◌, ◌++◌, arith, length,
}
use netpulse_monitor.Text.{Text}
use netpulse_monitor.Dict.{Dict, lookup}
use netpulse_monitor.Streams.{
  Pipe, Next, raises, put_nowait, put_sentinel, close, fail, finish, drain,
}
use netpulse_monitor.Streams.Drain.{until_end, drain-closed}
use netpulse_monitor.Streams.Dispatch.{end_pipe, end_pipes}

module _ {A : Type 0} where
  -- How the iteration over a pipe ends after the end of the dispatcher.
  abbrev pub ends : Option Text → Pipe A → Next A
  ends none p = finish p
  ends (some e) p = raises e

  until_end-sentinel : (q : List (Option A)) → until_end (q ++ none ∷ []) ≡ until_end q
  until_end-sentinel [] = refl
  until_end-sentinel (none ∷ q) = refl
  until_end-sentinel (some a ∷ q) = ap (◌∷◌ a) (until_end-sentinel q)

  put_sentinel-until_end :
      (p : Pipe A)
      → (until_end (put_sentinel p).queue ≡ until_end p.queue) × ((put_sentinel p).error ≡ p.error)
  unfolding put_sentinel put_nowait
  put_sentinel-until_end p = ground (arith, until_end-sentinel p.queue)

  drain-end_pipe :
      (n : ℕ) (failure : Option Text) (p : Pipe A)
      → drain (suc (n + length (end_pipe failure p).queue)) (end_pipe failure p)
        ≡ (until_end p.queue, ends failure p)
  unfolding end_pipe close fail finish
  drain-end_pipe n none p =
      let s = put_sentinel-until_end p in drain-closed n (close (put_sentinel p)) refl ∙ grind arith
  drain-end_pipe n (some e) p =
      let s = put_sentinel-until_end (record p { error = some e }) in
      drain-closed n (fail e p) refl ∙ grind arith

  lookup-end_pipes :
      (failure : Option Text) (k : Text) (d : Dict (Pipe A)) (p : Pipe A)
      → lookup k d ≡ some p
      → lookup k (end_pipes failure d) ≡ some (end_pipe failure p)
  unfolding lookup end_pipes
  lookup-end_pipes failure k [] p e = ground arith
  lookup-end_pipes failure k ((j, q) ∷ d) p e = ground (arith, lookup-end_pipes failure k d p)

  -- After the end of the dispatcher the consumer of each of its pipes never waits: it gets the
  -- items that the pipe still had, up to a sentinel, full or not; then it gets the generator's error
  -- if there was one, and otherwise the end of the iteration, or the error of a pipe that failed
  -- before.
  pub drain-end_pipes :
      (n : ℕ) (failure : Option Text) (k : Text) (d : Dict (Pipe A)) (p : Pipe A)
      → lookup k d ≡ some p
      → (p' : Pipe A) × (lookup k (end_pipes failure d) ≡ some p')
        × (drain (suc (n + length p'.queue)) p' ≡ (until_end p.queue, ends failure p))
  drain-end_pipes n failure k d p e =
      (end_pipe failure p, lookup-end_pipes failure k d p e, drain-end_pipe n failure p)
