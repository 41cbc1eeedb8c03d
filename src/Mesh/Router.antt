-- ===== src/Mesh/Router.antt =====
-- netpulse/p2p_core/networking/router.py: how a node passes packets on through the mesh.
-- A web socket is a number, a transport the socket it stands for, and what a packet carries a value
-- of any type. `time.monotonic()` is an argument. Log lines are left out.
pub mod Passing
pub mod Transit
pub mod Returning
pub mod Opening
pub mod Pending
mod Samples
use netpulse_monitor.Base.{
  ℕ, zero, suc, ◌+◌, ◌-◌, Bool, true, false, not, ◌&&◌, ◌||◌, Option, none, some, List, [], ◌∷◌,
  ◌++◌, map, ltb, ◌==◌, if◌then◌else◌, any_of,
}
use netpulse_monitor.Text.{Text, text_of, same, same_option, is_empty, canon, canon_option}
pub use netpulse_monitor.Base.Ints.{ℤ, pos, negsuc, decrement}
use netpulse_monitor.Dict.{Dict, lookup, insert, remove}
use netpulse_monitor.Mesh.Neighbors.{Neighbor, NeighborTable, get, all}

-- `PackType`
pub data PackType : Type 0 where
  request response forwarded : PackType
  stream_open stream_ready stream_chunk stream_ack stream_eof : PackType
  error ping pong hello hello_ack hello_reject gossip announce cert_sync : PackType

-- `ttl <= 0`
unfoldable pub is_spent : ℤ → Bool
is_spent (pos (suc n)) = false
is_spent _ = true

-- `MsgPack`
pub record Pack (D : Type 0) : Type 0 where
  pub type : PackType
  pub source : Text
  pub dst : Option Text
  pub service : Option Text
  pub method : Option Text
  pub payload : D
  pub label : Text
  pub error_text : Option Text
  pub path : List Text
  pub ttl : ℤ

pub record StreamRoute : Type 0 where
  pub label : Text
  pub source : Text
  pub dst : Text
  pub forward_path : List Text
  pub backward_path : List Text
  pub established_at : ℕ

-- The state of a router, with the tables of the node that it reads.
pub record Router : Type 0 where
  pub node : Text
  pub alias : Text
  pub neighbors : NeighborTable
  pub nodes : Dict ℕ
  pub client_ws : Dict ℕ
  pub transport_cache : Dict ℕ
  pub ws_pending : Dict (ℕ × ℕ)
  pub stream_routes : Dict StreamRoute

unfoldable pub invalidate_transport : Router → Text → Router
invalidate_transport r id = record r { transport_cache = remove (canon id) r.transport_cache }

unfoldable pub register_client_ws : Router → Text → ℕ → Router
unfolding invalidate_transport
register_client_ws r id ws =
    invalidate_transport (record r { client_ws = insert (canon id) ws r.client_ws }) (canon id)

unfoldable pub unregister_client_ws : Router → Text → Router
unfolding invalidate_transport
unregister_client_ws r id =
    invalidate_transport (record r { client_ws = remove (canon id) r.client_ws }) (canon id)

-- `NodesManager.get(id)`, and then `self._client_ws.get(id)`.
unfoldable pub socket_of : Router → Text → Option ℕ
socket_of r id = elim (lookup (canon id) r.nodes) [
  | some ws ↦ some ws
  | none ↦ lookup id r.client_ws
]

-- The transport is the answer, and the cache keeps it.
unfoldable pub get_transport_to : Router → Text → Option ℕ × Router
unfolding socket_of
get_transport_to r id = elim (lookup (canon (canon id)) r.transport_cache) [
  | some ws ↦ (some ws, r)
  | none ↦ elim (socket_of r (canon id)) [
    | none ↦ (none, r)
    | some ws ↦ (some ws, record r { transport_cache = insert (canon id) ws r.transport_cache })
  ]
]

-- `path[-1]`
unfoldable pub last : List Text → Option Text
last [] = none
last (x ∷ []) = some x
last (x ∷ y ∷ l) = last (y ∷ l)

-- `path[:-1]`
unfoldable pub init_of : List Text → List Text
init_of [] = []
init_of (x ∷ []) = []
init_of (x ∷ y ∷ l) = x ∷ init_of (y ∷ l)

-- Whether the path ends with this node, under its name or its alias.
unfoldable pub ends_here : Router → List Text → Bool
ends_here r path = elim (last path) [
  | none ↦ false
  | some x ↦ same (canon x) (canon r.node) || same (canon x) (canon r.alias)
]

-- `via` where it is a non-empty name.
abbrev pub via_of : Option Neighbor → Option Text
via_of none = none
via_of (some n) = elim n.via [ none ↦ none | some v ↦ if is_empty v then none else some v ]

unfoldable pub resolve_by_host : List Neighbor → Text → Option Text
resolve_by_host [] host = none
resolve_by_host (n ∷ l) host = if same n.host host then some n.node_id else resolve_by_host l host

abbrev pub as_forwarded : PackType → PackType
as_forwarded request = forwarded
as_forwarded t = t

-- A socket and the packet sent over it; `none` is `NoRouteToHost`.
abbrev pub Forwarded : Type 0 → Type 0
Forwarded D = Option (ℕ × Pack D) × Router

module _ {D : Type 0} where
  -- The packet as each branch of `_forward` sends it.
  unfoldable pub stamped : Router → Pack D → Pack D
  unfolding ends_here decrement
  stamped r pack = record pack {
    path = if ends_here r pack.path then pack.path else pack.path ++ r.node ∷ [];
    ttl = decrement pack.ttl;
  }

  unfoldable pub stamped_via : Router → Pack D → Pack D
  stamped_via r pack = record (stamped r pack) { type = as_forwarded pack.type }

  -- The branches over a next hop.
  unfoldable pub forward_via : Router → Pack D → Text → Forwarded D → Forwarded D
  forward_via r pack via otherwise =
      let (transport, r') = get_transport_to r via in
      elim transport [ some ws ↦ (some (ws, stamped_via r pack), r') | none ↦ otherwise ]

  -- The branches over a direct connection.
  unfoldable pub forward_direct : Router → Pack D → Text → Forwarded D → Forwarded D
  forward_direct r pack id otherwise = elim (socket_of r (canon id)) [
    | some ws ↦ (some (ws, stamped r pack), r)
    | none ↦ otherwise
  ]

  -- The branch that takes `dst` for a host.
  unfoldable pub forward_by_host : Router → Pack D → Text → Forwarded D
  forward_by_host r pack dst = elim (resolve_by_host (all r.neighbors) dst) [
    | none ↦ (none, r)
    | some id ↦ if is_empty id then (none, r) else elim (get r.neighbors id) [
      | none ↦ (none, r)
      | some n ↦ elim (via_of (some n)) [
        | some via ↦ forward_via r pack via (none, r)
        | none ↦ forward_direct r pack id (none, r)
      ]
    ]
  ]

  unfoldable pub forward_to : Router → Pack D → Text → Forwarded D
  forward_to r pack dst = forward_direct r pack dst (elim (via_of (get r.neighbors dst)) [
    | some via ↦ forward_via r pack via (forward_by_host r pack dst)
    | none ↦ forward_by_host r pack dst
  ])

  -- `_forward`
  unfoldable pub forward : Router → Pack D → Forwarded D
  forward r pack = elim pack.dst [ none ↦ (none, r) | some dst ↦ forward_to r pack dst ]
