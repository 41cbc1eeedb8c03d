-- ===== src/Mesh/Neighbors/Gossip/Valid.antt =====
-- Gossip keeps the table valid, and never touches the entry of the node itself.
use netpulse_monitor.Base.{
  ℕ, ◌≡◌, refl, ◌∙◌, inl, inr, List, [], ◌∷◌, arith, false, Option-cases, Bool-cases,
}
use netpulse_monitor.Base.Ints.{ℤ}
use netpulse_monitor.Text.{Text, same, canon, canon_option}
use netpulse_monitor.Text.Canon.{canon_option-canonical}
use netpulse_monitor.Dict.{lookup}
use netpulse_monitor.Dict.Laws.{lookup-insert_ne}
use netpulse_monitor.Mesh.Neighbors.{Neighbor, NeighborTable, is_connected, put}
use netpulse_monitor.Mesh.Neighbors.Registry.{IsWell, IsValid, put-IsValid, lookup-IsWell}
use netpulse_monitor.Mesh.Neighbors.Gossip.{
  Entry, refresh, new_known, incoming_hops, merge_known, merge_named, is_refused, merge_entry,
  merge_loop, merge_gossip, skipped,
}
use netpulse_monitor.Mesh.Neighbors.Gossip.Follows.{refresh-Follows}

refresh-IsWell :
    (now : ℕ) (from_node : Text) (e : Entry) (h : ℤ) (k : Text) (n : Neighbor)
    → is_connected n.status ≡ false
    → IsWell k n
    → IsWell k (refresh now from_node e h n)
refresh-IsWell now from_node e h k n c w =
    let f = refresh-Follows (λ _. Unit) now from_node e h n tt (λ d. ground arith) in
    record {
      keyed = f.identity ∙ w.keyed;
      canonical = w.canonical;
      direct = λ d. ground (arith, f.no_new_direct d);
    }

merge_known-IsValid :
    (now : ℕ) (from_node : Text) (t : NeighborTable) (e : Entry) (h : ℤ) (id : Text)
    → canon id ≡ id
    → IsValid t
    → IsValid (merge_known now from_node t e h id)
unfolding merge_known new_known
merge_known-IsValid now from_node t e h id canonical v = elim (Option-cases (lookup id t.table)) [
  | inl q ↦
      rw (q, merge_known)
        (put-IsValid t id _
          (record { keyed = refl; canonical = canonical; direct = λ d. absurd (cc) }) v)
  | inr (n, q) ↦ elim (Bool-cases (is_connected n.status)) [
    | inl c ↦ rw (q, merge_known, c) v
    | inr c ↦
        rw (q, merge_known, c)
          (put-IsValid t id _ (refresh-IsWell now from_node e h id n c (lookup-IsWell t id n q v))
            v)
  ]
]

merge_named-IsValid :
    (now : ℕ) (from_node : Text) (t : NeighborTable) (e : Entry) (id : Text)
    → canon id ≡ id
    → IsValid t
    → IsValid (merge_named now from_node t e id)
unfolding merge_named
merge_named-IsValid now from_node t e id canonical v = elim (Option-cases (incoming_hops e.hops)) [
  | inl q ↦ rw (q, merge_named) v
  | inr (h, q) ↦ rw (q, merge_named) (merge_known-IsValid now from_node t e h id canonical v)
]

merge_entry-IsValid :
    (now : ℕ) (from_node : Text) (t : NeighborTable) (e : Entry)
    → IsValid t
    → IsValid (merge_entry now from_node t e)
unfolding merge_entry
merge_entry-IsValid now from_node t e v = elim (Option-cases (canon_option e.node_id)) [
  | inl q ↦ rw (q, merge_entry) v
  | inr (id, q) ↦ elim (Bool-cases (skipped t e id)) [
    | inl c ↦ rw (q, merge_entry, c) v
    | inr c ↦
        rw (q, merge_entry, c)
          (merge_named-IsValid now from_node t e id (canon_option-canonical e.node_id id q) v)
  ]
]

merge_loop-IsValid :
    (now : ℕ) (from_node : Text) (t : NeighborTable) (es : List Entry)
    → IsValid t
    → IsValid (merge_loop now from_node t es)
unfolding merge_loop
merge_loop-IsValid now from_node t [] v = v
merge_loop-IsValid now from_node t (e ∷ es) v = elim (Bool-cases (is_refused t e)) [
  | inl r ↦ rw (merge_loop, r) v
  | inr r ↦
      rw (merge_loop, r)
        (merge_loop-IsValid now from_node (merge_entry now from_node t e) es
          (merge_entry-IsValid now from_node t e v))
]

pub merge_gossip-IsValid :
    (now : ℕ) (t : NeighborTable) (neighbors : List Entry) (from_node : Text)
    → IsValid t
    → IsValid (merge_gossip now t neighbors from_node)
unfolding merge_gossip
merge_gossip-IsValid now t neighbors from_node =
    merge_loop-IsValid now (canon from_node) t neighbors

merge_named-own_node_id :
    (now : ℕ) (from_node : Text) (t : NeighborTable) (e : Entry) (id : Text)
    → (merge_named now from_node t e id).own_node_id ≡ t.own_node_id
unfolding merge_named merge_known put
merge_named-own_node_id now from_node t e id = ground arith

merge_known-ne :
    (now : ℕ) (from_node : Text) (t : NeighborTable) (e : Entry) (i : ℤ) (id k : Text)
    → same id k ≡ false
    → lookup k (merge_known now from_node t e i id).table ≡ lookup k t.table
unfolding merge_known put
merge_known-ne now from_node t e i id k h = elim (Option-cases (lookup id t.table)) [
  | inl q ↦ rw (q, merge_known) (lookup-insert_ne id k _ t.table h)
  | inr (n, q) ↦ elim (Bool-cases (is_connected n.status)) [
    | inl c ↦ rw (q, merge_known, c)
    | inr c ↦ rw (q, merge_known, c) (lookup-insert_ne id k _ t.table h)
  ]
]

merge_named-ne :
    (now : ℕ) (from_node : Text) (t : NeighborTable) (e : Entry) (id k : Text)
    → same id k ≡ false
    → lookup k (merge_named now from_node t e id).table ≡ lookup k t.table
unfolding merge_named
merge_named-ne now from_node t e id k h = elim (Option-cases (incoming_hops e.hops)) [
  | inl q ↦ rw (q, merge_named)
  | inr (i, q) ↦ rw (q, merge_named) (merge_known-ne now from_node t e i id k h)
]

skipped_own :
    (t : NeighborTable) (e : Entry) (id : Text)
    → skipped t e id ≡ false
    → same id (canon t.own_node_id) ≡ false
unfolding skipped
skipped_own t e id h = ground arith

KeepsOwn : NeighborTable → NeighborTable → Type 0
KeepsOwn t t' =
    (t'.own_node_id ≡ t.own_node_id)
    × (lookup (canon t.own_node_id) t'.table ≡ lookup (canon t.own_node_id) t.table)

merge_entry-KeepsOwn :
    (now : ℕ) (from_node : Text) (t : NeighborTable) (e : Entry)
    → KeepsOwn t (merge_entry now from_node t e)
unfolding merge_entry KeepsOwn
merge_entry-KeepsOwn now from_node t e = elim (Option-cases (canon_option e.node_id)) [
  | inl q ↦ rw (q, merge_entry) (refl, refl)
  | inr (id, q) ↦ elim (Bool-cases (skipped t e id)) [
    | inl c ↦ rw (q, merge_entry, c) (refl, refl)
    | inr c ↦
        rw (q, merge_entry, c)
          (
            merge_named-own_node_id now from_node t e id,
            merge_named-ne now from_node t e id _ (skipped_own t e id c),
          )
  ]
]

merge_loop-KeepsOwn :
    (now : ℕ) (from_node : Text) (t : NeighborTable) (es : List Entry)
    → KeepsOwn t (merge_loop now from_node t es)
unfolding merge_loop KeepsOwn merge_entry
merge_loop-KeepsOwn now from_node t [] = (refl, refl)
merge_loop-KeepsOwn now from_node t (e ∷ es) =
    let first = merge_entry-KeepsOwn now from_node t e in
    let rest = merge_loop-KeepsOwn now from_node (merge_entry now from_node t e) es in
    elim (Bool-cases (is_refused t e)) [
      | inl r ↦ rw (merge_loop, r) (refl, refl)
      | inr r ↦ rw (merge_loop, r) (rest.0 ∙ first.0, (rw first.0 at rest.1) ∙ first.1)
    ]

-- No gossip adds, changes or drops an entry of the node itself, nor its name.
pub merge_gossip-KeepsOwn :
    (now : ℕ) (t : NeighborTable) (neighbors : List Entry) (from_node : Text)
    → ((merge_gossip now t neighbors from_node).own_node_id ≡ t.own_node_id)
      × (lookup (canon t.own_node_id) (merge_gossip now t neighbors from_node).table
          ≡ lookup (canon t.own_node_id) t.table)
unfolding merge_gossip KeepsOwn
merge_gossip-KeepsOwn now t neighbors from_node =
    merge_loop-KeepsOwn now (canon from_node) t neighbors
