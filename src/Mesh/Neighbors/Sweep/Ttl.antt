-- ===== src/Mesh/Neighbors/Sweep/Ttl.antt =====
-- What `sweep` does to each entry by its age, and to what depends on a lost next hop.
use netpulse_monitor.Base.{
  ℕ, ◌-◌, ◌≤◌, ◌<◌, ◌≡◌, refl, ◌∙◌, ◌⊎◌, inl, inr, true, false, Option, none, some, List, [], ◌∷◌,
  ltb, arith, Option-cases, Bool-cases,
}
use netpulse_monitor.Text.{Text, same, same_iff, is_empty}
use netpulse_monitor.Dict.{Dict, lookup, keys}
use netpulse_monitor.Dict.Laws.{lookup-insert_ne, any_of-keys}
use netpulse_monitor.Mesh.Neighbors.{Neighbor, NeighborTable, Status, connected, known, unreachable}
use netpulse_monitor.Mesh.Neighbors.Registry.{IsValid}
use netpulse_monitor.Mesh.Neighbors.Sweep.{
  age_entry, is_expired, via_unreachable, orphaned, cascade_entry, cascade, sweep,
}
use netpulse_monitor.Mesh.Neighbors.Sweep.Entries.{
  aged, left, lookup-left-aged, down, cascade_entry-Cascaded, cascade-Cascaded,
}
use netpulse_monitor.Mesh.Neighbors.Sweep.Cascade.{cascade-marks}

-- An entry of the given status before the sweep, and what is found under its key afterwards, where
-- `d` is the table that the ageing leaves and `d'` the one after the cascade.
abbrev pub Outlived :
    (now ttl_known ttl_unreach : ℕ) (d d' : Dict Neighbor)
    → Neighbor
    → Status
    → Option Neighbor
    → Type 0
Outlived now tk tu d d' n connected o' = o' ≡ some n
Outlived now tk tu d d' n unreachable o' =
    ((tu < now - n.last_ts) × (o' ≡ none)) ⊎ ((now - n.last_ts ≤ tu) × (o' ≡ some n))
Outlived now tk tu d d' n known o' =
    ((tk < now - n.last_ts) × (o' ≡ some (down n)))
    ⊎ ((now - n.last_ts ≤ tk)
        × (((o' ≡ some n) × (via_unreachable d n.via ≡ false))
            ⊎ ((o' ≡ some (down n)) × (via_unreachable d' n.via ≡ true))))

abbrev pub Swept :
    (now ttl_known ttl_unreach : ℕ) (d d' : Dict Neighbor)
    → Option Neighbor
    → Option Neighbor
    → Type 0
Swept now tk tu d d' none o' = o' ≡ none
Swept now tk tu d d' (some n) o' = Outlived now tk tu d d' n n.status o'

-- What is UNREACHABLE stays so in the cascade.
via_unreachable-cascade :
    (ks : List Text) (d : Dict Neighbor) (via : Option Text)
    → via_unreachable d via ≡ true
    → via_unreachable (cascade ks d) via ≡ true
unfolding via_unreachable
via_unreachable-cascade ks d none h = h
via_unreachable-cascade ks d (some v) h = elim (Option-cases (lookup v d)) [
  | inl e ↦ absurd (ground arith)
  | inr (w, e) ↦ ground (arith, (rw e at (cascade-Cascaded ks v d)))
]

cascade_entry-via :
    (j k : Text) (d : Dict Neighbor) (n : Neighbor)
    → lookup k d ≡ some n
    → n.status ≡ known
    → lookup k (cascade_entry j d) ≡ some (down n)
    → via_unreachable d n.via ≡ true
unfolding cascade_entry orphaned
cascade_entry-via j k d n e s h = elim (Option-cases (lookup j d)) [
  | inl q ↦ absurd (ground arith)
  | inr (m, q) ↦ elim (Bool-cases (orphaned d m)) [
    | inr c ↦ absurd (ground arith)
    | inl c ↦ elim (Bool-cases (same j k)) [
      | inl b ↦ ground (arith, same_iff j k)
      | inr b ↦ absurd (ground (arith, lookup-insert_ne j k (down m) d b))
    ]
  ]
]

-- The next hop that is down.
via_unreachable-some :
    (d : Dict Neighbor) (via : Option Text)
    → via_unreachable d via ≡ true
    → (v : Text) × (w : Neighbor) × (via ≡ some v)
      × (is_empty v ≡ false)
      × (lookup v d ≡ some w)
      × (w.status ≡ unreachable)
unfolding via_unreachable
via_unreachable-some d none h = absurd cc
via_unreachable-some d (some v) h = elim (Option-cases (lookup v d)) [
  | inl e ↦ absurd (ground arith)
  | inr (w, e) ↦ (v, w, refl, ground arith, e, ground arith)
]

module _ (k : Text) (n : Neighbor) (status : n.status ≡ known) where
  cascade-via :
      (ks : List Text) (d : Dict Neighbor)
      → lookup k d ≡ some n
      → lookup k (cascade ks d) ≡ some (down n)
      → via_unreachable (cascade ks d) n.via ≡ true
  unfolding cascade
  cascade-via [] d e h = absurd (ground arith)
  cascade-via (j ∷ ks) d e h = elim (rw e at (cascade_entry-Cascaded j k d)) [
    | inl q ↦ cascade-via ks (cascade_entry j d) q h
    | inr q ↦ via_unreachable-cascade (j ∷ ks) d n.via (cascade_entry-via j k d n e status q.1)
  ]

  -- The cascade marks a KNOWN entry exactly if its next hop is down.
  cascade-marked :
      (d : Dict Neighbor)
      → lookup k d ≡ some n
      → let d' = cascade (keys d) d in
        ((lookup k d' ≡ some n) × (via_unreachable d n.via ≡ false))
        ⊎ ((lookup k d' ≡ some (down n)) × (via_unreachable d' n.via ≡ true))
  cascade-marked d e = elim (rw e at (cascade-Cascaded (keys d) k d)) [
    | inr q ↦ inr (q.1, cascade-via (keys d) d e q.1)
    | inl q ↦ elim (Bool-cases (via_unreachable d n.via)) [
      | inr u ↦ inl (q, u)
      | inl u ↦
          let (v, w, via, named, f, down_w) = via_unreachable-some d n.via u in
          let m =
            cascade-marks k v n status via named (keys d) d w (any_of-keys k n d e) e f down_w in
          absurd (ground arith)
    ]
  ]

aged-Swept :
    (now tk tu : ℕ) (d : Dict Neighbor) (k : Text) (n : Neighbor) (s : Status)
    → n.status ≡ s
    → lookup k d ≡ aged now tk tu (some n)
    → let d' = cascade (keys d) d in Outlived now tk tu d d' n s (lookup k d')
unfolding aged is_expired age_entry
aged-Swept now tk tu d k n connected e h = ground (arith, (rw h at (cascade-Cascaded (keys d) k d)))
aged-Swept now tk tu d k n unreachable e h =
    ground (arith, (rw h at (cascade-Cascaded (keys d) k d)))
aged-Swept now tk tu d k n known e h = elim (Bool-cases (ltb tk (now - n.last_ts))) [
  | inl a ↦ inl (ground arith, ground (arith, (rw h at (cascade-Cascaded (keys d) k d))))
  | inr a ↦ inr (ground arith, cascade-marked k n e d (h ∙ ground arith))
]

-- Every branch of the sweep, under every key of a valid table: a direct connection stays as it is;
-- an UNREACHABLE entry goes exactly when its age is over its limit; a KNOWN one whose age is over its
-- limit becomes UNREACHABLE; another KNOWN one stays as it was only if its next hop is not UNREACHABLE
-- after the ageing of all entries, and becomes UNREACHABLE only if its next hop is so after the sweep.
pub sweep-Swept :
    (now tk tu : ℕ) (t : NeighborTable) (k : Text)
    → IsValid t
    → Swept now tk tu
        (left now tk tu t.table)
        (sweep now tk tu t).table
        (lookup k t.table)
        (lookup k (sweep now tk tu t).table)
unfolding sweep left aged
sweep-Swept now tk tu t k v = elim (Option-cases (lookup k t.table)) [
  | inl e ↦
      let h = rw e at (lookup-left-aged now tk tu t.table k v.distinct) in
      rw e (
        ground (
          arith,
          (rw h at (cascade-Cascaded (keys (left now tk tu t.table)) k (left now tk tu t.table))),
        ))
  | inr (n, e) ↦ rw e (
      aged-Swept now tk tu (left now tk tu t.table) k n n.status refl
        (rw e at (lookup-left-aged now tk tu t.table k v.distinct)))
]
