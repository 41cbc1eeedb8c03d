-- ===== src/Mesh/Neighbors.antt =====
-- netpulse/p2p_core/networking/neighbor_table.py: what a node knows of the other nodes.
-- `time.time()` is an argument of each call. Log lines, and the counters that only they show, are
-- left out. A gossip entry lacks a key (`none`) or has it with a value of the key's type; only its
-- distance is whatever the wire brings.
pub mod Gossip
pub mod Sweep
pub mod Registry
pub mod History
use netpulse_monitor.Base.{
  ℕ, ◌+◌, ◌-◌, Bool, true, false, not, ◌&&◌, ◌||◌, Option, none, some, List, [], ◌∷◌, map, ltb, leb,
  ◌==◌, if◌then◌else◌, keep_if, any_of,
}
use netpulse_monitor.Base.Ints.{ℤ, pos}
use netpulse_monitor.Text.{Text, text_of, same, same_option, is_empty, canon, canon_option}
use netpulse_monitor.Dict.{Dict, lookup, insert, remove, keys, values}

pub data Status : Type 0 where
  connected known unreachable : Status

abbrev pub protocol_version : Text
protocol_version = text_of "2.0"

abbrev pub role_node : Text
role_node = text_of "node"

pub record Neighbor : Type 0 where
  pub node_id : Text
  pub host : Text
  pub port : ℕ
  pub status : Status
  pub via : Option Text
  pub hops : ℤ
  pub last_ts : ℕ
  pub session_id : Option Text
  pub version : Text
  pub services : List Text
  pub role : Text

pub record NeighborTable : Type 0 where
  pub own_node_id : Text
  pub table : Dict Neighbor

abbrev pub is_connected : Status → Bool
is_connected connected = true
is_connected _ = false

abbrev pub is_known : Status → Bool
is_known known = true
is_known _ = false

abbrev pub is_unreachable : Status → Bool
is_unreachable unreachable = true
is_unreachable _ = false

-- `d.get(k, default)`
abbrev pub or_else {ℓ} : {A : Type ℓ} → Option A → A → A
or_else none d = d
or_else (some a) d = a

unfoldable pub init : Text → NeighborTable
init own = record { own_node_id = canon own; table = [] }

unfoldable pub put : NeighborTable → Text → Neighbor → NeighborTable
put t k n = record t { table = insert k n t.table }

-- Mutates the entry, if there is one.
unfoldable pub modify : NeighborTable → Text → (Neighbor → Neighbor) → NeighborTable
unfolding put
modify t k f = elim (lookup k t.table) [ none ↦ t | some n ↦ put t k (f n) ]

unfoldable pub register_connected :
    (now : ℕ) (t : NeighborTable) (node_id host : Text) (port : ℕ) (session_id version : Text)
    (services : Option (List Text)) (role : Text)
    → NeighborTable × Neighbor
unfolding put
register_connected now t node_id host port session_id version services role =
    let info : Neighbor = record {
      node_id = canon node_id;
      host = host;
      port = port;
      status = connected;
      via = none;
      hops = pos 1;
      last_ts = now;
      session_id = some session_id;
      version = version;
      services = or_else services [];
      role = role;
    } in
    (put t (canon node_id) info, info)

-- `_canon(via) if via else via`
canon_via : Option Text → Option Text
canon_via none = none
canon_via (some v) = if is_empty v then some v else some (canon v)

known_info :
    (now : ℕ) (node_id host : Text) (port : ℕ) (via : Option Text) (version : Text)
    (services : Option (List Text)) (role : Text)
    → Neighbor
unfolding canon_via
known_info now node_id host port via version services role = record {
  node_id = canon node_id;
  host = host;
  port = port;
  status = known;
  via = canon_via via;
  hops = pos 2;
  last_ts = now;
  session_id = none;
  version = version;
  services = or_else services [];
  role = role;
}

-- An entry with a direct connection is not replaced.
unfoldable pub register_known :
    (now : ℕ) (t : NeighborTable) (node_id host : Text) (port : ℕ) (via : Option Text)
    (version : Text) (services : Option (List Text)) (role : Text)
    → NeighborTable × Neighbor
unfolding put known_info
register_known now t node_id host port via version services role =
    let info = known_info now node_id host port via version services role in
    elim (lookup (canon node_id) t.table) [
      | none ↦ (put t (canon node_id) info, info)
      | some existing ↦
          if is_connected existing.status then (t, existing) else (put t (canon node_id) info, info)
    ]

unfoldable pub touch : ℕ → NeighborTable → Text → NeighborTable
unfolding modify
touch now t node_id = modify t (canon node_id) (λ n. record n { last_ts = now })

unfoldable pub mark_unreachable : NeighborTable → Text → NeighborTable
unfolding modify
mark_unreachable t node_id = modify t (canon node_id) (λ n. record n { status = unreachable })

unfoldable pub update_services : NeighborTable → Text → List Text → NeighborTable
unfolding modify
update_services t node_id services =
    modify t (canon node_id) (λ n. record n { services = services })

unfoldable pub get : NeighborTable → Text → Option Neighbor
get t node_id = lookup (canon node_id) t.table

-- `connected`, `known` and `all`.
unfoldable pub all_connected : NeighborTable → List Neighbor
all_connected t = keep_if (λ n. is_connected n.status) (values t.table)

unfoldable pub all_known : NeighborTable → List Neighbor
all_known t = keep_if (λ n. is_known n.status) (values t.table)

unfoldable pub all : NeighborTable → List Neighbor
all t = values t.table

unfoldable pub find_by_service : NeighborTable → Text → List Neighbor
find_by_service t service = keep_if (λ n. any_of (same service) n.services) (values t.table)

unfoldable pub to_gossip : NeighborTable → List Neighbor
to_gossip t =
    keep_if (λ n. not (is_unreachable n.status) && not (same n.node_id t.own_node_id))
      (values t.table)
