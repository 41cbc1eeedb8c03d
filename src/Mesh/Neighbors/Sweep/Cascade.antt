-- ===== src/Mesh/Neighbors/Sweep/Cascade.antt =====
-- An entry whose next hop is lost by its age becomes UNREACHABLE in the same sweep.
use netpulse_monitor.Base.{
  ℕ, ◌-◌, ◌≤◌, ◌<◌, ◌≡◌, refl, ◌∙◌, ◌⊎◌, inl, inr, some, List, [], ◌∷◌, arith, true, false,
  Bool-cases, any_of,
}
use netpulse_monitor.Text.{Text, same, same_iff, is_empty}
use netpulse_monitor.Dict.{Dict, lookup, keys}
use netpulse_monitor.Dict.Laws.{lookup-insert_self, any_of-keys}
use netpulse_monitor.Mesh.Neighbors.{Neighbor, NeighborTable, known, unreachable}
use netpulse_monitor.Mesh.Neighbors.Registry.{IsValid}
use netpulse_monitor.Mesh.Neighbors.Sweep.{
  age_entry, is_expired, orphaned, cascade_entry, cascade, sweep,
}
use netpulse_monitor.Mesh.Neighbors.Sweep.Entries.{
  left, aged, lookup-left-aged, down, cascade-Cascaded, cascade_entry-Cascaded,
}

module _ (k v : Text) (n : Neighbor) (status : n.status ≡ known) (via : n.via ≡ some v)
    (named : is_empty v ≡ false) where
  cascade_entry_self :
      (d : Dict Neighbor) (w : Neighbor)
      → lookup k d ≡ some n
      → lookup v d ≡ some w
      → w.status ≡ unreachable
      → lookup k (cascade_entry k d) ≡ some (down n)
  unfolding cascade_entry orphaned
  cascade_entry_self d w e f u = ground (arith, lookup-insert_self k (down n) d)

  stays_down :
      (ks : List Text) (d : Dict Neighbor)
      → lookup k d ≡ some (down n)
      → lookup k (cascade ks d) ≡ some (down n)
  stays_down ks d e = ground (arith, (rw e at (cascade-Cascaded ks k d)))

  stays_unreachable :
      (j : Text) (d : Dict Neighbor) (w : Neighbor)
      → lookup v d ≡ some w
      → w.status ≡ unreachable
      → lookup v (cascade_entry j d) ≡ some w
  stays_unreachable j d w f u = ground (arith, (rw f at (cascade_entry-Cascaded j v d)))

  pub cascade-marks :
      (ks : List Text) (d : Dict Neighbor) (w : Neighbor)
      → any_of (λ j. same j k) ks ≡ true
      → lookup k d ≡ some n
      → lookup v d ≡ some w
      → w.status ≡ unreachable
      → lookup k (cascade ks d) ≡ some (down n)
  unfolding cascade
  cascade-marks [] d w h e f u = cc
  cascade-marks (j ∷ ks) d w h e f u = elim (Bool-cases (same j k)) [
    | inl s ↦
        stays_down ks (cascade_entry j d) (rw ((same_iff j k).0 s) (cascade_entry_self d w e f u))
    | inr s ↦ elim (rw e at (cascade_entry-Cascaded j k d)) [
      | inl q ↦
          cascade-marks ks (cascade_entry j d) w (ground arith) q (stays_unreachable j d w f u) u
      | inr q ↦ stays_down ks (cascade_entry j d) q.1
    ]
  ]

-- The next hop goes down in this sweep, or is down and not yet forgotten.
abbrev pub Lost : (now ttl_known ttl_unreach : ℕ) → Neighbor → Type 0
Lost now tk tu w =
    ((w.status ≡ known) × (tk < now - w.last_ts))
    ⊎ ((w.status ≡ unreachable) × (now - w.last_ts ≤ tu))

aged-Lost :
    (now tk tu : ℕ) (w : Neighbor) → Lost now tk tu w → aged now tk tu (some w) ≡ some (down w)
unfolding aged is_expired age_entry
aged-Lost now tk tu w h = ground arith

aged-known :
    (now tk tu : ℕ) (n : Neighbor)
    → n.status ≡ known
    → (aged now tk tu (some n) ≡ some n) ⊎ (aged now tk tu (some n) ≡ some (down n))
unfolding aged is_expired age_entry
aged-known now tk tu n h = ground arith

-- In a valid table a KNOWN entry whose next hop is a node that is lost at this sweep is
-- UNREACHABLE after the sweep, and otherwise unchanged, however recently it was heard of.
pub sweep_cascade :
    (now tk tu : ℕ) (t : NeighborTable) (k v : Text) (n w : Neighbor)
    → IsValid t
    → lookup k t.table ≡ some n
    → n.status ≡ known
    → n.via ≡ some v
    → is_empty v ≡ false
    → lookup v t.table ≡ some w
    → Lost now tk tu w
    → lookup k (sweep now tk tu t).table ≡ some (down n)
unfolding sweep left
sweep_cascade now tk tu t k v n w valid e status via named f lost =
    elim (aged-known now tk tu n status) [
      | inl q ↦
          cascade-marks k v n status via named (keys d) d (down w) (any_of-keys k n d (ek ∙ q))
            (ek ∙ q) ev refl
      | inr q ↦ stays_down k v n status via named (keys d) d (ek ∙ q)
    ]
  where
    d : Dict Neighbor
    d = left now tk tu t.table

    ek : lookup k d ≡ aged now tk tu (some n)
    ek = rw e at (lookup-left-aged now tk tu t.table k valid.distinct)

    ev : lookup v d ≡ some (down w)
    ev =
        (rw f at (lookup-left-aged now tk tu t.table v valid.distinct)) ∙ aged-Lost now tk tu w lost
