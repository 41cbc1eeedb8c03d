-- ===== src/Mesh/Neighbors/History.antt =====
-- The life of a table: any sequence of the methods of `NeighborTable` that change it.
use netpulse_monitor.Base.{ℕ, Option, List, [], ◌∷◌}
use netpulse_monitor.Text.{Text}
use netpulse_monitor.Mesh.Neighbors.{
  NeighborTable, init, register_connected, register_known, touch, mark_unreachable, update_services,
}
use netpulse_monitor.Mesh.Neighbors.Registry.{
  IsValid, init-IsValid, register_connected-IsValid, register_known-IsValid, touch-IsValid,
  mark_unreachable-IsValid, update_services-IsValid,
}
use netpulse_monitor.Mesh.Neighbors.Gossip.{Entry, merge_gossip}
use netpulse_monitor.Mesh.Neighbors.Gossip.Valid.{merge_gossip-IsValid}
use netpulse_monitor.Mesh.Neighbors.Sweep.{sweep}
use netpulse_monitor.Mesh.Neighbors.Sweep.Valid.{sweep-IsValid}

pub data Call : Type 0 where
  connects :
      (node_id host : Text) (port : ℕ) (session version : Text) (services : Option (List Text))
      (role : Text)
      → Call
  learns :
      (node_id host : Text) (port : ℕ) (via : Option Text) (version : Text)
      (services : Option (List Text)) (role : Text)
      → Call
  touches loses : Text → Call
  announces : Text → List Text → Call
  gossips : List Entry → Text → Call
  sweeps : ℕ → ℕ → Call

-- A call at a time.
pub step : ℕ → NeighborTable → Call → NeighborTable
step now t (connects id host port session version services role) =
    (register_connected now t id host port session version services role).0
step now t (learns id host port via version services role) =
    (register_known now t id host port via version services role).0
step now t (touches id) = touch now t id
step now t (loses id) = mark_unreachable t id
step now t (announces id services) = update_services t id services
step now t (gossips es from_node) = merge_gossip now t es from_node
step now t (sweeps tk tu) = sweep now tk tu t

pub run : NeighborTable → List (ℕ × Call) → NeighborTable
unfolding step
run t [] = t
run t ((now, c) ∷ cs) = run (step now t c) cs

step-IsValid : (now : ℕ) (t : NeighborTable) (c : Call) → IsValid t → IsValid (step now t c)
unfolding step
step-IsValid now t (connects id host port session version services role) v =
    register_connected-IsValid now t id host port session version services role v
step-IsValid now t (learns id host port via version services role) v =
    register_known-IsValid now t id host port via version services role v
step-IsValid now t (touches id) v = touch-IsValid now t id v
step-IsValid now t (loses id) v = mark_unreachable-IsValid t id v
step-IsValid now t (announces id services) v = update_services-IsValid t id services v
step-IsValid now t (gossips es from_node) v = merge_gossip-IsValid now t es from_node v
step-IsValid now t (sweeps tk tu) v = sweep-IsValid now tk tu t v

run-IsValid : (t : NeighborTable) (cs : List (ℕ × Call)) → IsValid t → IsValid (run t cs)
unfolding run
run-IsValid t [] v = v
run-IsValid t ((now, c) ∷ cs) v = run-IsValid (step now t c) cs (step-IsValid now t c v)

-- After any history of calls at any times the table is valid: the node's name is canonical, the
-- keys are distinct and canonical, each entry carries its key's name, and a CONNECTED one is at distance 1 with no next hop.
pub run-init-IsValid : (own : Text) (cs : List (ℕ × Call)) → IsValid (run (init own) cs)
run-init-IsValid own cs = run-IsValid (init own) cs (init-IsValid own)
