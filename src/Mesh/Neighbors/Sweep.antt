-- ===== src/Mesh/Neighbors/Sweep.antt =====
-- `sweep` of networking/neighbor_table.py.
pub mod Entries
pub mod Valid
pub mod Cascade
pub mod Ttl
use netpulse_monitor.Base.{
  ℕ, ◌-◌, Bool, false, not, ◌&&◌, Option, none, some, List, [], ◌∷◌, ltb, if◌then◌else◌,
}
use netpulse_monitor.Text.{Text, is_empty}
use netpulse_monitor.Dict.{Dict, lookup, insert, remove, keys}
use netpulse_monitor.Mesh.Neighbors.{unreachable, Neighbor, NeighborTable, is_known, is_unreachable}

-- The first loop of `sweep`. Both branches on `via_info` set the same status.
unfoldable pub age_entry : ℕ → ℕ → Neighbor → Neighbor
age_entry now ttl_known n =
    if is_known n.status && ltb ttl_known (now - n.last_ts)
    then record n { status = unreachable }
    else n

unfoldable pub age_table : ℕ → ℕ → Dict Neighbor → Dict Neighbor
unfolding age_entry
age_table now ttl_known [] = []
age_table now ttl_known ((k, n) ∷ d) = (k, age_entry now ttl_known n) ∷ age_table now ttl_known d

unfoldable pub is_expired : ℕ → ℕ → Neighbor → Bool
is_expired now ttl_unreach n = is_unreachable n.status && ltb ttl_unreach (now - n.last_ts)

unfoldable pub to_remove : ℕ → ℕ → Dict Neighbor → List Text
unfolding is_expired
to_remove now ttl_unreach [] = []
to_remove now ttl_unreach ((k, n) ∷ d) =
    if is_expired now ttl_unreach n
    then k ∷ to_remove now ttl_unreach d
    else to_remove now ttl_unreach d

unfoldable pub remove_all : List Text → Dict Neighbor → Dict Neighbor
remove_all [] d = d
remove_all (k ∷ ks) d = remove_all ks (remove k d)

unfoldable pub via_unreachable : Dict Neighbor → Option Text → Bool
via_unreachable d none = false
via_unreachable d (some v) =
    not (is_empty v) && elim (lookup v d) [ none ↦ false | some n ↦ is_unreachable n.status ]

orphaned : Dict Neighbor → Neighbor → Bool
unfolding via_unreachable
orphaned d n = is_known n.status && via_unreachable d n.via

-- The last loop of `sweep`, over the keys that are left when it starts.
unfoldable pub cascade_entry : Text → Dict Neighbor → Dict Neighbor
unfolding orphaned
cascade_entry k d = elim (lookup k d) [
  | none ↦ d
  | some n ↦ if orphaned d n then insert k (record n { status = unreachable }) d else d
]

unfoldable pub cascade : List Text → Dict Neighbor → Dict Neighbor
unfolding cascade_entry
cascade [] d = d
cascade (k ∷ ks) d = cascade ks (cascade_entry k d)

unfoldable pub sweep : ℕ → ℕ → ℕ → NeighborTable → NeighborTable
unfolding age_table to_remove remove_all cascade
sweep now ttl_known ttl_unreach t =
    let left : Dict Neighbor =
      remove_all (to_remove now ttl_unreach t.table) (age_table now ttl_known t.table) in
    record t { table = cascade (keys left) left }
