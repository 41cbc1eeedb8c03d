-- ===== src/Mesh/Node/Samples.antt =====
-- A node at the end of a stream.
use netpulse_monitor.Base.{
  ℕ, suc, ◌+◌, ◌≡◌, refl, inr, Bool, true, false, none, some, List, [], ◌∷◌, length, if◌then◌else◌,
  arith,
}
use netpulse_monitor.Text.{
  Text, text_of, same, canon, strip, lower, lower_char, lstrip, rstrip, is_space,
}
use netpulse_monitor.Dict.{lookup}
use netpulse_monitor.Mesh.Router.{stream_open, response, Pack, Router, get_transport_to, pos}
use netpulse_monitor.Mesh.Sessions.{SessionTable, pending}
use netpulse_monitor.Mesh.Node.{Data, null, value, Node, answer, settle, Services, raised}
use netpulse_monitor.Mesh.Node.Handle.{done, is_remote, touch_source, handle}
use netpulse_monitor.Mesh.Node.Answered.{response-settled}
use netpulse_monitor.Mesh.Router.Returning.{Connected, pass_back}
use netpulse_monitor.Mesh.Node.Iterator.{chunks, chunks-fail}
use netpulse_monitor.Mesh.Node.Transfer.{deliver, IsEnd, last_of, drain-pump}
use netpulse_monitor.Streams.{Pipe, waits, stops, is_full, fail, drain}
use netpulse_monitor.Streams.Registry.{InboundStream}
use netpulse_monitor.Streams.Registry.Laws.{HasPlaces}
use netpulse_monitor.Streams.Pump.{pump}

program : Unit {0}
unfolding is_remote lookup same canon strip lower lower_char lstrip rstrip is_space HasPlaces
    get_transport_to
program = tt

abbrev services : Services ℕ
services = record {
  execute = λ p. raised (text_of "MethodNotFound");
  refusal = λ p. none;
  default_buff = 10;
  invalid_source = text_of "ValidationError";
}

abbrev pipe : Pipe (Data ℕ)
pipe = record {
  pipe_id = text_of "inbound_L";
  buff_len = 10;
  low_watermark = 3;
  queue = [];
  closed = false;
  error = none;
}

abbrev stream : InboundStream
stream = record { label = text_of "L"; pipe = 0 }

abbrev node : Node ℕ
node = record {
  router = record {
    node = text_of "b";
    alias = [];
    neighbors = record { own_node_id = text_of "b"; table = [] };
    nodes = (text_of "a", 1) ∷ [];
    client_ws = [];
    transport_cache = [];
    ws_pending = [];
    stream_routes = [];
  };
  sessions = record { objects = λ i. pending; next = 0; table = []; meta = [] };
  stream_registry = record { streams = (text_of "L", stream) ∷ []; pipes = λ i. pipe; next = 1 };
  certs_index = record { own_node_id = text_of "b"; entries = []; sync_version = 0 };
}

abbrev template : Pack (Data ℕ)
template = record {
  type = stream_open;
  source = text_of "a";
  dst = some (text_of "b");
  service = some (text_of "s");
  method = some (text_of "m");
  payload = null;
  label = text_of "L";
  error_text = none;
  path = [];
  ttl = pos 16;
}

abbrev items : List (Data ℕ)
items = value 5 ∷ value 6 ∷ []

abbrev acks : List Bool
acks = true ∷ true ∷ []

abbrev ack_sessions : SessionTable ℕ
ack_sessions = record { objects = λ i. pending; next = 0; table = []; meta = [] }

node-IsEnd : IsEnd template stream pipe node
unfolding program
node-IsEnd = record { here = refl; found = refl; pipe = refl }

pipe-HasPlaces : HasPlaces 3 pipe
unfolding program
pipe-HasPlaces = inr (omega arith)

drain-pump_example :
    (n' : Node ℕ) × (deliver services 0 0 node
        (pump 1 null 2 template acks items (some (text_of "x")) ack_sessions).0
      ≡ some n')
    × (lookup (text_of "L") n'.stream_registry.streams ≡ none)
    × (drain (suc (0 + length (n'.stream_registry.pipes 0).queue)) (n'.stream_registry.pipes 0)
        ≡ (items, last_of (some (text_of "x"))))
drain-pump_example =
    drain-pump services 0 0 0 2 1 acks ack_sessions template stream pipe items (some (text_of "x"))
      node (refl, (refl, tt)) (omega arith) node-IsEnd pipe-HasPlaces refl refl

-- Two nodes between this one and the one that answers: `d` passes the answer to `c`, `c` to `b`.
abbrev passer : (name next : Text) → Router
passer name next = record node.router { node = name; nodes = (next, 3) ∷ [] }

abbrev response_pack : Pack (Data ℕ)
response_pack = record template {
  type = response;
  source = text_of "d";
  label = text_of "M";
  payload = value 5;
  path = text_of "b" ∷ text_of "c" ∷ text_of "d" ∷ [];
}

no_client : lookup (text_of "M") node.router.ws_pending ≡ none
unfolding program
no_client = refl

passers-Connected :
    Connected node.router
      (passer (text_of "d") (text_of "c") ∷ passer (text_of "c") (text_of "b") ∷ [])
unfolding program
passers-Connected = ((3, refl), ((3, refl), tt))

response-settled_example :
    (q : Pack (Data ℕ)) × (pass_back
        (passer (text_of "d") (text_of "c") ∷ passer (text_of "c") (text_of "b") ∷ [])
        response_pack
      ≡ some q)
    × (handle services 0 0 node q
        ≡ done ([], settle (text_of "M") (answer (value 5)) (touch_source 0 node q)))
response-settled_example =
    response-settled services 0 0 node
      (passer (text_of "d") (text_of "c") ∷ passer (text_of "c") (text_of "b") ∷ []) response_pack
      refl passers-Connected refl no_client

abbrev two : Pipe ℕ
two = record {
  pipe_id = text_of "mesh_L";
  buff_len = 2;
  low_watermark = 1;
  queue = some 5 ∷ some 6 ∷ [];
  closed = false;
  error = none;
}

chunks-fail_example :
    chunks (suc (0 + length (fail (text_of "x") two).queue)) (fail (text_of "x") two) 0
    ≡ (5 ∷ 6 ∷ [], if is_full two then waits else stops)
chunks-fail_example = chunks-fail 0 0 (text_of "x") two (5 ∷ 6 ∷ []) refl
