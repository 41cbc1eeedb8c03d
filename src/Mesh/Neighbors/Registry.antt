-- ===== src/Mesh/Neighbors/Registry.antt =====
-- The table's invariant, and that the methods on one entry keep it.
use netpulse_monitor.Base.{
  ℕ, ◌≡◌, refl, inl, inr, Option, none, some, List, Option-cases, Bool-cases,
}
use netpulse_monitor.Base.Ints.{pos}
use netpulse_monitor.Text.{Text, canon}
use netpulse_monitor.Text.Canon.{canon_idem}
use netpulse_monitor.Dict.{lookup}
use netpulse_monitor.Dict.Laws.{Entries, insert-Entries, lookup-Entries}
use netpulse_monitor.Dict.Distinct.{Distinct, insert-Distinct}
use netpulse_monitor.Mesh.Neighbors.{
  Neighbor, NeighborTable, connected, is_connected, init, put, modify, register_connected,
  known_info, register_known, touch, mark_unreachable, update_services,
}

-- An entry under its key: a CONNECTED one is one hop away and has no `via`.
pub record IsWell (k : Text) (n : Neighbor) : Type 0 where
  pub keyed : n.node_id ≡ k
  pub canonical : canon k ≡ k
  pub direct : n.status ≡ connected → (n.hops ≡ pos 1) × (n.via ≡ none)

pub record IsValid (t : NeighborTable) : Type 0 where
  pub own : canon t.own_node_id ≡ t.own_node_id
  pub entries : Entries IsWell t.table
  pub distinct : Distinct t.table

pub init-IsValid : (own : Text) → IsValid (init own)
unfolding init
init-IsValid own = record { own = canon_idem own; entries = tt; distinct = tt }

pub put-IsValid :
    (t : NeighborTable) (k : Text) (n : Neighbor) → IsWell k n → IsValid t → IsValid (put t k n)
unfolding put
put-IsValid t k n w v = record {
  own = v.own;
  entries = insert-Entries IsWell k n t.table w v.entries;
  distinct = insert-Distinct k n t.table v.distinct;
}

pub lookup-IsWell :
    (t : NeighborTable) (k : Text) (n : Neighbor)
    → lookup k t.table ≡ some n
    → IsValid t
    → IsWell k n
lookup-IsWell t k n e v = lookup-Entries IsWell k t.table n e v.entries

pub modify-IsValid :
    (t : NeighborTable) (k : Text) (f : Neighbor → Neighbor)
    → ((n : Neighbor) → IsWell k n → IsWell k (f n))
    → IsValid t
    → IsValid (modify t k f)
unfolding modify
modify-IsValid t k f keep v = elim (Option-cases (lookup k t.table)) [
  | inl e ↦ rw (e, modify) v
  | inr (n, e) ↦ rw (e, modify) (put-IsValid t k (f n) (keep n (lookup-IsWell t k n e v)) v)
]

-- A new direct connection replaces whatever was known of the node.
pub register_connected-IsValid :
    (now : ℕ) (t : NeighborTable) (id host : Text) (port : ℕ) (session version : Text)
    (services : Option (List Text)) (role : Text)
    → IsValid t
    → IsValid (register_connected now t id host port session version services role).0
unfolding register_connected
register_connected-IsValid now t id host port session version services role v =
    put-IsValid t (canon id) _
      (record { keyed = refl; canonical = canon_idem id; direct = λ _. (refl, refl) }) v

known_info-IsWell :
    (now : ℕ) (id host : Text) (port : ℕ) (via : Option Text) (version : Text)
    (services : Option (List Text)) (role : Text)
    → IsWell (canon id) (known_info now id host port via version services role)
unfolding known_info
known_info-IsWell now id host port via version services role = record {
  keyed = refl;
  canonical = canon_idem id;
  direct = λ e. absurd (cc);
}

pub register_known-IsValid :
    (now : ℕ) (t : NeighborTable) (id host : Text) (port : ℕ) (via : Option Text) (version : Text)
    (services : Option (List Text)) (role : Text)
    → IsValid t
    → IsValid (register_known now t id host port via version services role).0
unfolding register_known
register_known-IsValid now t id host port via version services role v =
    let info = known_info now id host port via version services role in
    let added =
      put-IsValid t (canon id) info (known_info-IsWell now id host port via version services role)
        v in
    elim (Option-cases (lookup (canon id) t.table)) [
      | inl e ↦ rw (e, register_known) added
      | inr (n, e) ↦ elim (Bool-cases (is_connected n.status)) [
        | inl c ↦ rw (e, register_known, c) v
        | inr c ↦ rw (e, register_known, c) added
      ]
    ]

-- Traffic from a node keeps its entry well formed, and so do the other updates in place.
pub touch-IsValid : (now : ℕ) (t : NeighborTable) (id : Text) → IsValid t → IsValid (touch now t id)
unfolding touch
touch-IsValid now t id =
    modify-IsValid t (canon id) _
      (λ n w. record { keyed = w.keyed; canonical = w.canonical; direct = w.direct })

pub mark_unreachable-IsValid :
    (t : NeighborTable) (id : Text) → IsValid t → IsValid (mark_unreachable t id)
unfolding mark_unreachable
mark_unreachable-IsValid t id =
    modify-IsValid t (canon id) _
      (λ n w. record { keyed = w.keyed; canonical = w.canonical; direct = λ e. absurd (cc) })

pub update_services-IsValid :
    (t : NeighborTable) (id : Text) (services : List Text)
    → IsValid t
    → IsValid (update_services t id services)
unfolding update_services
update_services-IsValid t id services =
    modify-IsValid t (canon id) _
      (λ n w. record { keyed = w.keyed; canonical = w.canonical; direct = w.direct })
