-- ===== src/Dict/Laws.antt =====
-- What a lookup finds after each operation, and invariants of all entries.
use netpulse_monitor.Base.{
  any_of, true, ◌≡◌, refl, inl, inr, false, none, some, [], ◌∷◌, arith, if◌then◌else◌, Bool-cases,
  All,
}
use mathlib.Core.Path.{subst}
use netpulse_monitor.Text.{Text, same, same_iff, same_refl}
use netpulse_monitor.Dict.{Dict, lookup, insert, remove, keys}

module _ {ℓ} {V : Type ℓ} where
  pub lookup-insert :
      (k j : Text) (v : V) (d : Dict V)
      → lookup j (insert k v d) ≡ (if same k j then some v else lookup j d)
  unfolding lookup insert
  lookup-insert k j v [] = refl
  lookup-insert k j v ((i, w) ∷ d) =
      ground (arith, same_iff k j, same_iff i k, same_iff i j, lookup-insert k j v d)

  pub lookup-remove :
      (k j : Text) (d : Dict V) → lookup j (remove k d) ≡ (if same k j then none else lookup j d)
  unfolding lookup remove
  lookup-remove k j [] = ground arith
  lookup-remove k j ((i, w) ∷ d) =
      ground (arith, same_iff k j, same_iff i k, same_iff i j, lookup-remove k j d)

  pub lookup-insert_self : (k : Text) (v : V) (d : Dict V) → lookup k (insert k v d) ≡ some v
  lookup-insert_self k v d = rw (lookup-insert k k v d, same_refl k)

  pub lookup-insert_ne :
      (k j : Text) (v : V) (d : Dict V) → same k j ≡ false → lookup j (insert k v d) ≡ lookup j d
  lookup-insert_ne k j v d h = rw (lookup-insert k j v d, h)

  pub any_of-keys :
      (k : Text) (v : V) (d : Dict V) → lookup k d ≡ some v → any_of (λ j. same j k) (keys d) ≡ true
  unfolding lookup
  any_of-keys k v [] e = cc
  any_of-keys k v ((j, w) ∷ d) e = ground (arith, any_of-keys k v d)

  -- An invariant of every entry.
  abbrev pub Entries {κ} : (Text → V → Type κ) → Dict V → Type κ
  Entries P = All (λ e. P e.0 e.1)

module _ {ℓ κ} {V : Type ℓ} (P : Text → V → Type κ) where
  pub insert-Entries :
      (k : Text) (v : V) (d : Dict V) → P k v → Entries P d → Entries P (insert k v d)
  unfolding insert
  insert-Entries k v [] p h = (p, tt)
  insert-Entries k v ((j, w) ∷ d) p h = elim (Bool-cases (same j k)) [
    | inl e ↦ rw e ((rw ((same_iff j k).0 e) p), h.1)
    | inr e ↦ rw e (h.0, insert-Entries k v d p h.1)
  ]

  pub remove-Entries : (k : Text) (d : Dict V) → Entries P d → Entries P (remove k d)
  unfolding remove
  remove-Entries k [] h = tt
  remove-Entries k ((j, w) ∷ d) h = elim (Bool-cases (same j k)) [
    | inl e ↦ rw e (remove-Entries k d h.1)
    | inr e ↦ rw e (h.0, remove-Entries k d h.1)
  ]

  pub lookup-Entries : (k : Text) (d : Dict V) (v : V) → lookup k d ≡ some v → Entries P d → P k v
  unfolding lookup
  lookup-Entries k [] v e h = cc
  lookup-Entries k ((j, w) ∷ d) v e h = elim (Bool-cases (same j k)) [
    | inl t ↦ subst (P k) (ground arith) (subst (λ i. P i w) ((same_iff j k).0 t) h.0)
    | inr t ↦ lookup-Entries k d v (ground arith) h.1
  ]
