-- ===== src/Mesh/Samples.antt =====
-- A small mesh: tests of the table's methods, and the theorems at concrete tables.
use netpulse_monitor.Base.{ℕ, ◌≡◌, refl, none, some, List, [], ◌∷◌, Option}
use netpulse_monitor.Base.Ints.{ℤ, pos, negsuc, increment, ltb_ℤ, eq_ℤ}
use netpulse_monitor.Text.{Text, text_of, same, canon, canon_option, same_option}
use netpulse_monitor.Dict.{lookup, insert, remove}
use netpulse_monitor.Mesh.Neighbors.{
  Neighbor, NeighborTable, Status, connected, known, unreachable, init, register_connected,
  register_known, mark_unreachable, touch,
}
use netpulse_monitor.Mesh.Neighbors.Registry.{IsValid}
use netpulse_monitor.Mesh.Neighbors.History.{
  connects, gossips, loses, sweeps, run, run-init-IsValid,
}
use netpulse_monitor.Mesh.Neighbors.Gossip.{Entry, whole, invalid, incoming_hops, merge_gossip}
use netpulse_monitor.Mesh.Neighbors.Gossip.Follows.{
  Effect, Offered, merge_gossip-Effect, merge_gossip-lost_link,
}
use netpulse_monitor.Mesh.Neighbors.Sweep.{sweep}
use netpulse_monitor.Mesh.Neighbors.Sweep.Entries.{down, left}
use netpulse_monitor.Mesh.Neighbors.Sweep.Ttl.{Swept, sweep-Swept}

program : Unit {0}
unfolding same canon canon_option same_option lookup insert remove init register_connected
    register_known mark_unreachable touch merge_gossip sweep incoming_hops increment ltb_ℤ eq_ℤ
program = tt

-- `a` has `b` directly; `c` is reached through `b`, `d` through `c`.
abbrev node : Text → Status → Option Text → ℤ → ℕ → Neighbor
node name status via hops ts = record {
  node_id = name;
  host = text_of "10.0.0.1";
  port = 9000;
  status = status;
  via = via;
  hops = hops;
  last_ts = ts;
  session_id = none;
  version = text_of "2.0";
  services = [];
  role = text_of "node";
}

abbrev b_name : Text
b_name = text_of "b"

abbrev c_name : Text
c_name = text_of "c"

abbrev d_name : Text
d_name = text_of "d"

abbrev b_node : Neighbor
b_node = node b_name connected none (pos 1) 0

abbrev c_node : Neighbor
c_node = node c_name known (some b_name) (pos 2) 0

abbrev d_node : Neighbor
d_node = node d_name known (some c_name) (pos 3) 90

abbrev sample : NeighborTable
sample = record {
  own_node_id = text_of "a";
  table = (b_name, b_node) ∷ (c_name, c_node) ∷ (d_name, d_node) ∷ [];
}

sample-IsValid : IsValid sample
unfolding program
sample-IsValid = record {
  own = refl;
  entries = (
    record { keyed = refl; canonical = refl; direct = λ _. (refl, refl) },
    (
      record { keyed = refl; canonical = refl; direct = λ e. absurd (cc) },
      (record { keyed = refl; canonical = refl; direct = λ e. absurd (cc) }, tt),
    ),
  );
  distinct = (refl, (refl, (refl, tt)));
}

abbrev entry : Text → Option Text → ℤ → Entry
entry name via hops = record {
  node_id = some name;
  host = some (text_of "10.0.0.9");
  port = none;
  via = via;
  hops = whole hops;
  version = none;
  services = none;
  role = none;
}

-- `b` tells of `d` at distance 1, of `a` itself, of `e`, and of a path through `a`.
abbrev told : List Entry
told =
    entry d_name none (pos 1)
    ∷ entry (text_of " A ") none (pos 1)
    ∷ entry (text_of "E") none (pos 2)
    ∷ entry (text_of "f") (some (text_of "A")) (pos 1)
    ∷ []

merge_told : merge_gossip 7 sample told (text_of " B") ≡ record sample {
  table =
      (b_name, b_node)
      ∷ (c_name, c_node)
      ∷ (
        d_name,
        record d_node { host = text_of "10.0.0.9"; via = some b_name; hops = pos 2; last_ts = 7 },
      )
      ∷ (
        text_of "e",
        record (node (text_of "e") known (some b_name) (pos 3) 7) { host = text_of "10.0.0.9" },
      )
      ∷ [];
}
unfolding program
merge_told = refl

-- Nothing looks at the distance of an entry: -1 hops make one of 0 hops, and another, of a text that
-- is no number, ends the packet.
merge_negative :
    merge_gossip 7
      (record sample { table = [] })
      (entry d_name none (negsuc 0)
        ∷ record (entry c_name none (pos 1)) { hops = invalid }
        ∷ entry (text_of "e") none (pos 1)
        ∷ [])
      b_name
    ≡ record sample {
      table =
          (d_name, record (node d_name known (some b_name) (pos 0) 7) { host = text_of "10.0.0.9" })
          ∷ [];
    }
unfolding program
merge_negative = refl

-- At 100 seconds `c` is stale, and `d` depends on it.
sweep-sample : sweep 100 90 300 sample ≡ record sample {
  table = (b_name, b_node) ∷ (c_name, down c_node) ∷ (d_name, down d_node) ∷ [];
}
unfolding program
sweep-sample = refl

-- The cascade goes over the table once, in its order: here `d` stands before `c`, whose next hop
-- `e` is lost, so `d` stays KNOWN through `c`, which is UNREACHABLE.
abbrev chained : NeighborTable
chained = record sample {
  table =
      (d_name, d_node)
      ∷ (c_name, node c_name known (some (text_of "e")) (pos 2) 90)
      ∷ (text_of "e", node (text_of "e") unreachable none (pos 1) 90)
      ∷ [];
}

sweep-chained : sweep 100 90 300 chained ≡ record sample {
  table =
      (d_name, d_node)
      ∷ (c_name, node c_name unreachable (some (text_of "e")) (pos 2) 90)
      ∷ (text_of "e", node (text_of "e") unreachable none (pos 1) 90)
      ∷ [];
}
unfolding program
sweep-chained = refl

merge_gossip-Effect_example :
    Effect
      (Offered told)
      (canon (text_of " B"))
      (lookup d_name sample.table)
      (lookup d_name (merge_gossip 7 sample told (text_of " B")).table)
merge_gossip-Effect_example = merge_gossip-Effect 7 sample told (text_of " B") d_name

-- The direct connection to `b` is lost; `c` goes on telling of `b`.
abbrev parted : NeighborTable
parted = record sample { table = (b_name, down b_node) ∷ (c_name, c_node) ∷ [] }

merge_gossip-lost_link_example :
    (n' : Neighbor) × (lookup b_name
        (merge_gossip 7 parted (entry b_name none (pos 1) ∷ []) c_name).table
      ≡ some n')
    × (n'.hops ≡ pos 1)
    × (n'.via ≡ none)
unfolding program
merge_gossip-lost_link_example =
    merge_gossip-lost_link 7 parted (entry b_name none (pos 1) ∷ []) c_name b_name (down b_node)
      (refl, tt) refl refl refl

sweep-Swept_example :
    Swept 100 90 300
      (left 100 90 300 sample.table)
      (sweep 100 90 300 sample).table
      (lookup c_name sample.table)
      (lookup c_name (sweep 100 90 300 sample).table)
sweep-Swept_example = sweep-Swept 100 90 300 sample c_name sample-IsValid

run-init-IsValid_example : IsValid (
    run (init (text_of "A")) (
      (0, connects b_name (text_of "h") 9000 (text_of "s") (text_of "2.0") none (text_of "node"))
      ∷ (1, gossips told b_name)
      ∷ (2, loses b_name)
      ∷ (400, sweeps 90 300)
      ∷ []))
run-init-IsValid_example = run-init-IsValid (text_of "A") (
    (0, connects b_name (text_of "h") 9000 (text_of "s") (text_of "2.0") none (text_of "node"))
    ∷ (1, gossips told b_name)
    ∷ (2, loses b_name)
    ∷ (400, sweeps 90 300)
    ∷ [])
