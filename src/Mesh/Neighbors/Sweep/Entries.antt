-- ===== src/Mesh/Neighbors/Sweep/Entries.antt =====
-- What the three loops of `sweep` do under one key.
use mathlib.Core.Option
use netpulse_monitor.Base.{
  ℕ, ◌≡◌, refl, ◌⊎◌, inl, inr, Bool, Option, none, some, List, [], ◌∷◌, arith, true, false,
  Option-cases, Bool-cases, if◌then◌else◌, any_of,
}
use netpulse_monitor.Text.{Text, same, same_iff}
use netpulse_monitor.Dict.{Dict, lookup, insert, remove}
use netpulse_monitor.Dict.Laws.{lookup-insert, lookup-remove}
use netpulse_monitor.Dict.Distinct.{Distinct}
use netpulse_monitor.Mesh.Neighbors.{Neighbor, known, unreachable}
use netpulse_monitor.Mesh.Neighbors.Sweep.{
  age_entry, age_table, is_expired, to_remove, remove_all, orphaned, cascade_entry, cascade,
}

abbrev pub down : Neighbor → Neighbor
down n = record n { status = unreachable }

pub lookup-age_table :
    (now tk : ℕ) (k : Text) (d : Dict Neighbor)
    → lookup k (age_table now tk d) ≡ Option.map (age_entry now tk) (lookup k d)
unfolding age_table lookup
lookup-age_table now tk k [] = refl
lookup-age_table now tk k ((j, n) ∷ d) = ground (arith, lookup-age_table now tk k d)

lookup-remove_all :
    (ks : List Text) (k : Text) (d : Dict Neighbor)
    → lookup k (remove_all ks d) ≡ (if any_of (λ j. same j k) ks then none else lookup k d)
unfolding remove_all
lookup-remove_all [] k d = refl
lookup-remove_all (j ∷ ks) k d =
    rw (lookup-remove_all ks k (remove j d), lookup-remove j k d) (ground arith)

abbrev pub expires : ℕ → ℕ → Option Neighbor → Bool
expires now tu none = false
expires now tu (some n) = is_expired now tu n

to_remove-expires :
    (now tu : ℕ) (k : Text) (d : Dict Neighbor)
    → Distinct d
    → any_of (λ j. same j k) (to_remove now tu d) ≡ expires now tu (lookup k d)
unfolding to_remove lookup
to_remove-expires now tu k [] h = refl
to_remove-expires now tu k ((j, n) ∷ d) h =
    ground (arith, to_remove-expires now tu k d h.1, same_iff j k)

-- Before the cascade: the expired entries are gone, the others are aged.
pub lookup-left :
    (now tk tu : ℕ) (k : Text) (d : Dict Neighbor)
    → Distinct d
    → lookup k (remove_all (to_remove now tu d) (age_table now tk d))
      ≡ (if expires now tu (lookup k d) then none else Option.map (age_entry now tk) (lookup k d))
lookup-left now tk tu k d h = rw (
  lookup-remove_all (to_remove now tu d) k (age_table now tk d),
  to_remove-expires now tu k d h,
  lookup-age_table now tk k d,
)

-- What the ageing leaves for the cascade, as a table and under one key.
unfoldable pub aged : ℕ → ℕ → ℕ → Option Neighbor → Option Neighbor
aged now tk tu o = if expires now tu o then none else Option.map (age_entry now tk) o

unfoldable pub left : ℕ → ℕ → ℕ → Dict Neighbor → Dict Neighbor
left now tk tu d = remove_all (to_remove now tu d) (age_table now tk d)

pub lookup-left-aged :
    (now tk tu : ℕ) (t : Dict Neighbor) (k : Text)
    → Distinct t
    → lookup k (left now tk tu t) ≡ aged now tk tu (lookup k t)
unfolding left aged
lookup-left-aged now tk tu t k v = lookup-left now tk tu k t v

-- The cascade drops nothing, and only turns KNOWN into UNREACHABLE.
abbrev pub Cascaded : Option Neighbor → Option Neighbor → Type 0
Cascaded none o' = o' ≡ none
Cascaded (some n) o' = (o' ≡ some n) ⊎ ((n.status ≡ known) × (o' ≡ some (down n)))

Cascaded-refl : (o : Option Neighbor) → Cascaded o o
Cascaded-refl none = refl
Cascaded-refl (some n) = inl refl

Cascaded-trans : (o o' o'' : Option Neighbor) → Cascaded o o' → Cascaded o' o'' → Cascaded o o''
Cascaded-trans none none o'' f g = g
Cascaded-trans none (some n) o'' f g = absurd (cc)
Cascaded-trans (some n) none o'' f g = absurd (ground arith)
Cascaded-trans (some n) (some m) o'' f g = ground arith

orphaned-known : (d : Dict Neighbor) (n : Neighbor) → orphaned d n ≡ true → n.status ≡ known
unfolding orphaned
orphaned-known d n h = ground arith

insert-down-Cascaded :
    (j k : Text) (d : Dict Neighbor) (n : Neighbor)
    → lookup j d ≡ some n
    → n.status ≡ known
    → Cascaded (lookup k d) (lookup k (insert j (down n) d))
insert-down-Cascaded j k d n e c = elim (Bool-cases (same j k)) [
  | inl s ↦ rw (lookup-insert j k (down n) d, s, ← ((same_iff j k).0 s), e) (inr (c, refl))
  | inr s ↦ rw (lookup-insert j k (down n) d, s) (Cascaded-refl (lookup k d))
]

pub cascade_entry-Cascaded :
    (j k : Text) (d : Dict Neighbor) → Cascaded (lookup k d) (lookup k (cascade_entry j d))
unfolding cascade_entry
cascade_entry-Cascaded j k d = elim (Option-cases (lookup j d)) [
  | inl e ↦ rw (e, cascade_entry) (Cascaded-refl (lookup k d))
  | inr (n, e) ↦ elim (Bool-cases (orphaned d n)) [
    | inl c ↦ rw (e, cascade_entry, c) (insert-down-Cascaded j k d n e (orphaned-known d n c))
    | inr c ↦ rw (e, cascade_entry, c) (Cascaded-refl (lookup k d))
  ]
]

pub cascade-Cascaded :
    (ks : List Text) (k : Text) (d : Dict Neighbor)
    → Cascaded (lookup k d) (lookup k (cascade ks d))
unfolding cascade
cascade-Cascaded [] k d = Cascaded-refl (lookup k d)
cascade-Cascaded (j ∷ ks) k d =
    Cascaded-trans (lookup k d) (lookup k (cascade_entry j d)) _ (cascade_entry-Cascaded j k d)
      (cascade-Cascaded ks k (cascade_entry j d))
