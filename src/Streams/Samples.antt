-- ===== src/Streams/Samples.antt =====
-- Two pipes, one of them full.
use netpulse_monitor.Base.{ℕ, suc, ◌≡◌, refl, false, ◌+◌, none, some, [], ◌∷◌, length}
use netpulse_monitor.Text.{text_of, same}
use netpulse_monitor.Dict.{Dict, lookup, insert}
use netpulse_monitor.Dict.Distinct.{Distinct}
use netpulse_monitor.Mesh.Router.{Pack, request, pos}
use netpulse_monitor.Mesh.Sessions.{SessionTable, pending}
use netpulse_monitor.Streams.{
  Pipe, raises, new_pipe, size, is_full, put, put_nowait, put_sentinel, anext, close, fail, finish,
  drain,
}
use netpulse_monitor.Streams.Order.{Run, made, puts, takes, IsQueue, Run-IsQueue}
use netpulse_monitor.Streams.Drain.{until_end}
use netpulse_monitor.Streams.Dispatch.{
  candidates, smallest, least_loaded, place, end_pipe, end_pipes,
}
use netpulse_monitor.Streams.Dispatch.Ending.{ends, drain-end_pipes}

program : Unit {0}
unfolding new_pipe size is_full put put_nowait put_sentinel anext close fail finish drain lookup
    insert same candidates smallest least_loaded place end_pipe end_pipes
program = tt

abbrev fresh : Pipe ℕ
fresh = record {
  pipe_id = text_of "n_1";
  buff_len = 1;
  low_watermark = 1;
  queue = [];
  closed = false;
  error = none;
}

abbrev full : Pipe ℕ
full = record fresh { pipe_id = text_of "n_2"; queue = some 7 ∷ [] }

abbrev pair : Dict (Pipe ℕ)
pair = (text_of "n_2", full) ∷ (text_of "n_1", fresh) ∷ []

-- The item goes to the pipe with room.
place-pair :
    place 5 pair
    ≡ some ((text_of "n_2", full) ∷ (text_of "n_1", record fresh { queue = some 5 ∷ [] }) ∷ [])
unfolding program
place-pair = refl

-- A full pipe that fails: its item, and then the error.
drain_failed : drain 3 (fail (text_of "x") full) ≡ (7 ∷ [], raises (text_of "x"))
unfolding program
drain_failed = refl

history_sample : Run 1 (record fresh { queue = [] }) (7 ∷ []) (7 ∷ [])
unfolding program
history_sample = takes (puts (made (text_of "n_1")) 7 refl) 7 refl

Run-IsQueue_example : IsQueue 1 fresh (7 ∷ []) (7 ∷ [])
Run-IsQueue_example = Run-IsQueue history_sample

pair-Distinct : Distinct pair
unfolding program
pair-Distinct = (refl, (refl, tt))

pair_found : lookup (text_of "n_2") pair ≡ some full
unfolding program
pair_found = refl

drain-end_pipes_example :
    (p' : Pipe ℕ) × (lookup (text_of "n_2") (end_pipes (some (text_of "x")) pair) ≡ some p')
    × (drain (suc (1 + length p'.queue)) p'
        ≡ (until_end full.queue, ends (some (text_of "x")) full))
drain-end_pipes_example =
    drain-end_pipes 1 (some (text_of "x")) (text_of "n_2") pair full pair_found

abbrev template : Pack ℕ
template = record {
  type = request;
  source = text_of "a";
  dst = some (text_of "b");
  service = none;
  method = none;
  payload = 0;
  label = text_of "L";
  error_text = none;
  path = [];
  ttl = pos 16;
}

abbrev sessions : SessionTable ℕ
sessions = record { objects = λ i. pending; next = 0; table = []; meta = [] }
