-- ===== src/Mesh/Neighbors/Gossip.antt =====
-- `merge_gossip` of networking/neighbor_table.py.
pub mod Follows
pub mod Valid
use netpulse_monitor.Base.{
  ℕ, ◌+◌, Bool, true, false, not, ◌&&◌, ◌||◌, Option, none, some, List, [], ◌∷◌, ltb, leb, ◌==◌,
  if◌then◌else◌,
}
use netpulse_monitor.Base.Ints.{ℤ, pos, increment, ltb_ℤ, leb_ℤ, eq_ℤ}
use netpulse_monitor.Text.{Text, same, same_option, is_empty, canon, canon_option}
use netpulse_monitor.Dict.{lookup}
use netpulse_monitor.Mesh.Neighbors.{
  known, Neighbor, NeighborTable, is_connected, is_unreachable, or_else, put, protocol_version,
  role_node,
}

-- `entry.get('hops')`: missing or false, as 0 is; a value of which `int` makes a number, as of -1 or
-- of the text "0"; or one that `int` refuses.
pub data Hops : Type 0 where
  missing : Hops
  whole : ℤ → Hops
  invalid : Hops

-- An entry of a gossip packet, a dictionary off the wire.
pub record Entry : Type 0 where
  pub node_id : Option Text
  pub host : Option Text
  pub port : Option ℕ
  pub via : Option Text
  pub hops : Hops
  pub version : Option Text
  pub services : Option (List Text)
  pub role : Option Text

-- `int(entry.get('hops') or 1) + 1`; `none` where it raises.
unfoldable pub incoming_hops : Hops → Option ℤ
unfolding increment
incoming_hops missing = some (pos 2)
incoming_hops (whole h) = some (increment h)
incoming_hops invalid = none

-- The 2-hop loop guard: the entry's `via`, in our table, is reached through us.
points_back : NeighborTable → Entry → Bool
points_back t e = elim (lookup (canon (or_else e.via [])) t.table) [
  | none ↦ false
  | some v ↦ same_option (canon_option v.via) (some (canon t.own_node_id))
]

new_known : ℕ → Text → Entry → ℤ → Text → Neighbor
new_known now from_node e h node_id = record {
  node_id = node_id;
  host = or_else e.host [];
  port = or_else e.port 9000;
  status = known;
  via = some from_node;
  hops = h;
  last_ts = now;
  session_id = none;
  version = or_else e.version protocol_version;
  services = or_else e.services [];
  role = or_else e.role role_node;
}

-- The assignments that all branches on an existing entry share.
refresh_metadata : ℕ → Entry → Neighbor → Neighbor
refresh_metadata now e n = record n {
  host = or_else e.host n.host;
  port = or_else e.port n.port;
  version = or_else e.version n.version;
  services = or_else e.services n.services;
  role = or_else e.role n.role;
  last_ts = now;
}

-- The branches on an existing entry that is not CONNECTED.
unfoldable pub refresh : ℕ → Text → Entry → ℤ → Neighbor → Neighbor
unfolding refresh_metadata ltb_ℤ eq_ℤ increment
refresh now from_node e h n =
    let fresh = refresh_metadata now e n in
    if ltb_ℤ h n.hops
    then record fresh {
      via = some from_node;
      hops = h;
      status = if is_unreachable n.status then known else n.status;
    }
    else if eq_ℤ h n.hops && not (same_option (canon_option e.via) (canon_option n.via))
    then (if is_unreachable n.status
        then record fresh { via = some from_node; hops = h; status = known }
        else fresh)
    else if is_unreachable n.status && leb_ℤ h (increment (increment n.hops))
    then record fresh { status = known }
    else fresh

-- The loop body below the distance.
merge_known : ℕ → Text → NeighborTable → Entry → ℤ → Text → NeighborTable
unfolding refresh new_known put
merge_known now from_node t e h node_id = elim (lookup node_id t.table) [
  | none ↦ put t node_id (new_known now from_node e h node_id)
  | some n ↦ if is_connected n.status then t else put t node_id (refresh now from_node e h n)
]

-- The part of the loop body below the guards: a distance that `int` refuses raises.
merge_named : ℕ → Text → NeighborTable → Entry → Text → NeighborTable
unfolding merge_known incoming_hops
merge_named now from_node t e node_id = elim (incoming_hops e.hops) [
  | none ↦ t
  | some h ↦ merge_known now from_node t e h node_id
]

-- The guards of the loop body: nameless entries, ourselves, and paths through ourselves.
skipped : NeighborTable → Entry → Text → Bool
unfolding points_back
skipped t e node_id =
    is_empty node_id
    || same node_id (canon t.own_node_id)
    || same_option (canon_option e.via) (some (canon t.own_node_id))
    || points_back t e

merge_entry : ℕ → Text → NeighborTable → Entry → NeighborTable
unfolding merge_named skipped
merge_entry now from_node t e = elim (canon_option e.node_id) [
  | none ↦ t
  | some node_id ↦ if skipped t e node_id then t else merge_named now from_node t e node_id
]

-- The entry passes the guards, and `int` refuses its distance.
is_refused : NeighborTable → Entry → Bool
unfolding skipped incoming_hops
is_refused t e = elim (canon_option e.node_id) [
  | none ↦ false
  | some node_id ↦
      not (skipped t e node_id) && elim (incoming_hops e.hops) [ none ↦ true | some _ ↦ false ]
]

-- An exception ends the loop; the table keeps what was merged before.
merge_loop : ℕ → Text → NeighborTable → List Entry → NeighborTable
unfolding is_refused
merge_loop now from_node t [] = t
merge_loop now from_node t (e ∷ es) = elim (is_refused t e) [
  | true ↦ t
  | false ↦ merge_loop now from_node (merge_entry now from_node t e) es
]

unfoldable pub merge_gossip : ℕ → NeighborTable → List Entry → Text → NeighborTable
unfolding merge_loop merge_entry
merge_gossip now t neighbors from_node = merge_loop now (canon from_node) t neighbors
