-- ===== src/Mesh/Neighbors/Sweep/Valid.antt =====
-- A sweep keeps the table valid.
use mathlib.Core.Option
use netpulse_monitor.Base.{ℕ, ◌∙◌, ap, inl, inr, List, [], ◌∷◌, arith, Option-cases, Bool-cases}
use netpulse_monitor.Text.{Text}
use netpulse_monitor.Dict.{Dict, lookup, remove, keys}
use netpulse_monitor.Dict.Laws.{Entries, insert-Entries, remove-Entries, lookup-Entries}
use netpulse_monitor.Dict.Distinct.{Distinct, insert-Distinct, remove-Distinct}
use netpulse_monitor.Mesh.Neighbors.{Neighbor, NeighborTable}
use netpulse_monitor.Mesh.Neighbors.Registry.{IsValid, IsWell}
use netpulse_monitor.Mesh.Neighbors.Sweep.{
  age_entry, age_table, to_remove, remove_all, orphaned, cascade_entry, cascade, sweep,
}
use netpulse_monitor.Mesh.Neighbors.Sweep.Entries.{down, lookup-age_table}

-- Both halves of validity, of the table alone.
abbrev Sound : Dict Neighbor → Type 0
Sound d = Entries IsWell d × Distinct d

down-IsWell : (k : Text) (n : Neighbor) → IsWell k n → IsWell k (down n)
down-IsWell k n w = record { keyed = w.keyed; canonical = w.canonical; direct = λ e. absurd (cc) }

age_entry-IsWell :
    (now tk : ℕ) (k : Text) (n : Neighbor) → IsWell k n → IsWell k (age_entry now tk n)
unfolding age_entry
age_entry-IsWell now tk k n w = ground (arith, down-IsWell k n w)

age_table-Sound : (now tk : ℕ) (d : Dict Neighbor) → Sound d → Sound (age_table now tk d)
unfolding age_table
age_table-Sound now tk [] h = h
age_table-Sound now tk ((k, n) ∷ d) h =
    let rest = age_table-Sound now tk d (h.0.1, h.1.1) in
    (
      (age_entry-IsWell now tk k n h.0.0, rest.0),
      (lookup-age_table now tk k d ∙ ap (Option.map (age_entry now tk)) h.1.0, rest.1),
    )

remove_all-Sound : (ks : List Text) (d : Dict Neighbor) → Sound d → Sound (remove_all ks d)
unfolding remove_all
remove_all-Sound [] d h = h
remove_all-Sound (k ∷ ks) d h =
    remove_all-Sound ks (remove k d) (remove-Entries IsWell k d h.0, remove-Distinct k d h.1)

cascade_entry-Sound : (k : Text) (d : Dict Neighbor) → Sound d → Sound (cascade_entry k d)
unfolding cascade_entry
cascade_entry-Sound k d h = elim (Option-cases (lookup k d)) [
  | inl e ↦ rw (e, cascade_entry) h
  | inr (n, e) ↦ elim (Bool-cases (orphaned d n)) [
    | inl c ↦
        rw (e, cascade_entry, c)
          (
            insert-Entries IsWell k (down n) d (down-IsWell k n (lookup-Entries IsWell k d n e h.0))
                h.0,
            insert-Distinct k (down n) d h.1,
          )
    | inr c ↦ rw (e, cascade_entry, c) h
  ]
]

cascade-Sound : (ks : List Text) (d : Dict Neighbor) → Sound d → Sound (cascade ks d)
unfolding cascade
cascade-Sound [] d h = h
cascade-Sound (k ∷ ks) d h = cascade-Sound ks (cascade_entry k d) (cascade_entry-Sound k d h)

pub sweep-IsValid : (now tk tu : ℕ) (t : NeighborTable) → IsValid t → IsValid (sweep now tk tu t)
unfolding sweep
sweep-IsValid now tk tu t v =
    let left = remove_all (to_remove now tu t.table) (age_table now tk t.table) in
    let s = cascade-Sound (keys left) left (
      remove_all-Sound (to_remove now tu t.table) (age_table now tk t.table)
        (age_table-Sound now tk t.table (v.entries, v.distinct))) in
    record { own = v.own; entries = s.0; distinct = s.1 }
