-- ===== src/Mesh/Router/Samples.antt =====
-- Three nodes in a row, `a`, `b` and `c`, and packets between them.
use netpulse_monitor.Base.{ℕ, ◌≤◌, ◌≡◌, refl, none, some, List, [], ◌∷◌, ◌++◌, map, length}
use netpulse_monitor.Text.{
  Text, text_of, canon, canon_option, same, strip, lower, lower_char, is_space, lstrip, rstrip,
  same_option,
}
use netpulse_monitor.Text.Names.{NoRepeat}
use netpulse_monitor.Dict.{Dict, lookup}
use netpulse_monitor.Mesh.Neighbors.{Neighbor, known}
use netpulse_monitor.Base.Ints.{ℤ, pos, negsuc, decrement}
use netpulse_monitor.Mesh.Router.{
  PackType, forwarded, stream_open, Pack, Router, forward, forward_to, forward_direct, forward_via,
  socket_of, get_transport_to, stamped, ends_here, last, is_spent,
}
use netpulse_monitor.Mesh.Router.Passing.{on_forwarded, outcome, forward_stream_open}
use netpulse_monitor.Mesh.Router.Transit.{stays, hop, Journey-bounded}
use netpulse_monitor.Mesh.Router.Opening.{choice, sent_over, forward_stream_open-unguarded}

program : Unit {0}
unfolding on_forwarded forward forward_to forward_direct forward_via socket_of get_transport_to
    lookup stamped ends_here last decrement is_spent same canon strip lower lower_char is_space
    lstrip rstrip outcome same_option canon_option
program = tt

abbrev c_known : Neighbor
c_known = record {
  node_id = text_of "c";
  host = text_of "10.0.0.3";
  port = 9000;
  status = known;
  via = some (text_of "b");
  hops = pos 2;
  last_ts = 0;
  session_id = none;
  version = text_of "2.0";
  services = [];
  role = text_of "node";
}

abbrev router : Text → Dict Neighbor → Dict ℕ → Router
router name table peers = record {
  node = name;
  alias = [];
  neighbors = record { own_node_id = name; table = table };
  nodes = peers;
  client_ws = [];
  transport_cache = [];
  ws_pending = [];
  stream_routes = [];
}

abbrev a_router : Router
a_router = router (text_of "a") ((text_of "c", c_known) ∷ []) ((text_of "b", 1) ∷ [])

abbrev b_router : Router
b_router = router (text_of "b") [] ((text_of "a", 2) ∷ (text_of "c", 3) ∷ [])

abbrev c_router : Router
c_router = router (text_of "c") [] ((text_of "b", 4) ∷ [])

abbrev packet : PackType → List Text → ℤ → Pack ℕ
packet t path ttl = record {
  type = t;
  source = text_of "a";
  dst = some (text_of "c");
  service = none;
  method = none;
  payload = 5;
  label = text_of "l";
  error_text = none;
  path = path;
  ttl = ttl;
}

Journey-bounded_example :
    (length (b_router ∷ []) ≤ 15)
    × (text_of "a" ∷ text_of "b" ∷ [] ≡ (text_of "a" ∷ []) ++ map (λ r. r.node) (b_router ∷ []))
    × NoRepeat (map canon (text_of "a" ∷ text_of "b" ∷ []))
unfolding program
Journey-bounded_example =
    Journey-bounded (b_router ∷ []) (packet forwarded (text_of "a" ∷ []) (pos 15))
      (packet forwarded (text_of "a" ∷ text_of "b" ∷ []) (pos 14)) 15
      (hop b_router [] 3 (packet forwarded (text_of "a" ∷ []) (pos 15))
        (packet forwarded (text_of "a" ∷ text_of "b" ∷ []) (pos 14))
        (packet forwarded (text_of "a" ∷ text_of "b" ∷ []) (pos 14)) refl (stays _))
      refl (refl, tt)

-- The packet has been at the node before, and has no hops left.
forward_stream_open-unguarded_example :
    sent_over
      (forward_stream_open 0 b_router
        (packet stream_open (text_of "b" ∷ text_of "a" ∷ []) (negsuc 3))).0
    ≡ choice b_router (text_of "c")
forward_stream_open-unguarded_example =
    forward_stream_open-unguarded 0 b_router
      (packet stream_open (text_of "b" ∷ text_of "a" ∷ []) (negsuc 3)) (text_of "c") refl

abbrev waited : Router
waited = record a_router { ws_pending = (text_of "l", (1, 0)) ∷ (text_of "m", (1, 190)) ∷ [] }
