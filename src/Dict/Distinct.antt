-- ===== src/Dict/Distinct.antt =====
-- Dictionaries whose keys are distinct, as those of a running program are.
use netpulse_monitor.Base.{◌≡◌, refl, inl, inr, none, [], ◌∷◌, arith, Bool-cases}
use netpulse_monitor.Text.{Text, same, same_iff}
use netpulse_monitor.Dict.{Dict, lookup, insert, remove}
use netpulse_monitor.Dict.Laws.{lookup-insert, lookup-remove}

module _ {ℓ} {V : Type ℓ} where
  abbrev pub Distinct : Dict V → Type ℓ
  Distinct [] = Unit
  Distinct ((k, v) ∷ d) = (lookup k d ≡ none) × Distinct d

  pub insert-Distinct : (k : Text) (v : V) (d : Dict V) → Distinct d → Distinct (insert k v d)
  unfolding insert lookup
  insert-Distinct k v [] h = (refl, tt)
  insert-Distinct k v ((j, w) ∷ d) h = elim (Bool-cases (same j k)) [
    | inl e ↦ rw e h
    | inr e ↦ rw e (
      ground (arith, lookup-insert k j v d, same_iff j k, same_iff k j),
      insert-Distinct k v d h.1,
    )
  ]

  pub remove-Distinct : (k : Text) (d : Dict V) → Distinct d → Distinct (remove k d)
  unfolding remove
  remove-Distinct k [] h = tt
  remove-Distinct k ((j, w) ∷ d) h = elim (Bool-cases (same j k)) [
    | inl e ↦ rw e (remove-Distinct k d h.1)
    | inr e ↦ rw e (ground (arith, lookup-remove k j d, same_iff k j), remove-Distinct k d h.1)
  ]
