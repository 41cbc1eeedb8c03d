-- ===== src/Mesh/Node/Calls/Samples.antt =====
-- A node that calls and opens streams.
use netpulse_monitor.Base.{ℕ, ◌≡◌, refl, none, some, [], ◌∷◌, ◌++◌, take}
use netpulse_monitor.Text.{
  text_of, same, same_option, canon, canon_option, strip, lower, lower_char, lstrip, rstrip,
  is_space,
}
use netpulse_monitor.Dict.{lookup, insert, remove}
use netpulse_monitor.Base.Ints.{decrement}
use netpulse_monitor.Mesh.Router.{
  error, stream_open, Pack, pos, Router, forward, forward_to, forward_direct, forward_via,
  forward_by_host, resolve_by_host, socket_of, get_transport_to, stamped, ends_here, last,
}
use netpulse_monitor.Mesh.Sessions.{pending, register_single, set_object}
use netpulse_monitor.Mesh.Node.{Data, null, Node, Services, raised}
use netpulse_monitor.Mesh.Node.Handle.{done, handle}
use netpulse_monitor.Mesh.Node.Calls.{
  sent, open_pack, is_self, forward_or, begin_call, begin_stream, expire_stream, rpc_timeout,
}
use netpulse_monitor.Mesh.Node.Calls.Settled.{
  IsWaiting, IsForgotten, reason_of, begin_stream-refused,
}
use netpulse_monitor.Streams.{new_pipe, fail}
use netpulse_monitor.Streams.Registry.{register, set_pipe}

program : Unit {0}
unfolding same same_option canon canon_option strip lower lower_char lstrip rstrip is_space lookup
    insert remove forward forward_to forward_direct forward_via forward_by_host resolve_by_host
    socket_of get_transport_to stamped ends_here last decrement register_single set_object open_pack
    is_self forward_or begin_call begin_stream register set_pipe
program = tt

abbrev services : Services ℕ
services = record {
  execute = λ p. raised (text_of "MethodNotFound");
  refusal = λ p. none;
  default_buff = 10;
  invalid_source = text_of "ValidationError";
}

abbrev router : Router
router = record {
  node = text_of "b";
  alias = [];
  neighbors = record { own_node_id = text_of "b"; table = [] };
  nodes = (text_of "a", 1) ∷ [];
  client_ws = [];
  transport_cache = [];
  ws_pending = [];
  stream_routes = [];
}

abbrev node : Node ℕ
node = record {
  router = router;
  sessions = record { objects = λ i. pending; next = 0; table = []; meta = [] };
  stream_registry = record { streams = []; pipes = λ i. new_pipe [] 10; next = 0 };
  certs_index = record { own_node_id = text_of "b"; entries = []; sync_version = 0 };
}

abbrev opening : Pack (Data ℕ)
opening = record {
  type = stream_open;
  source = text_of "b";
  dst = some (text_of "a");
  service = some (text_of "s");
  method = some (text_of "m");
  payload = null;
  label = text_of "L";
  error_text = none;
  path = text_of "b" ∷ [];
  ttl = pos 15;
}

abbrev opened : Node ℕ
opened = record node {
  sessions = (register_single (text_of "L") (text_of "s") (text_of "m") node.sessions).1;
  stream_registry = register (text_of "L") (new_pipe (text_of "mesh_L") 10) node.stream_registry;
}

begin_stream_lem :
    begin_stream services node (text_of "L") (text_of "a") (text_of "s") (text_of "m") null
    ≡ sent ((1, opening) ∷ [], opened) 0
unfolding program
begin_stream_lem = refl

abbrev refusal : Pack (Data ℕ)
refusal = record opening {
  type = error;
  source = text_of "a";
  dst = some (text_of "b");
  error_text = some (text_of "Method not found: s.m");
  path = [];
}

begin_stream-refused_example :
    (m : Node ℕ) × (handle services 9 1 opened refusal ≡ done ([], m))
    × IsWaiting (text_of "L") 0 m
    × (lookup (text_of "L") m.stream_registry.streams ≡ none)
    × (m.stream_registry.pipes 0
        ≡ fail
            (reason_of refusal)
            (new_pipe (text_of "mesh_" ++ take 8 (text_of "L")) services.default_buff))
    × ((expire_stream m (text_of "L")).0 ≡ rpc_timeout)
    × IsForgotten (text_of "L") (expire_stream m (text_of "L")).1
begin_stream-refused_example =
    begin_stream-refused services node opened (text_of "a") (text_of "s") (text_of "m") null
      ((1, opening) ∷ []) 0 9 1 refusal begin_stream_lem refl
