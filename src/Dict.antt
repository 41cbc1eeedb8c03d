-- ===== src/Dict.antt =====
-- Python dictionaries with text keys, in the order of insertion.
pub mod Laws
pub mod Distinct
use netpulse_monitor.Base.{Bool, true, false, Option, none, some, List, [], ◌∷◌, if◌then◌else◌, map}
use netpulse_monitor.Text.{Text, same}

abbrev pub Dict {ℓ} : Type ℓ → Type ℓ
Dict V = List (Text × V)

module _ {ℓ} {V : Type ℓ} where
  -- `d.get(k)`
  unfoldable pub lookup : Text → Dict V → Option V
  lookup k [] = none
  lookup k ((j, v) ∷ d) = if same j k then some v else lookup k d

  -- `d[k] = v`: a new key goes to the end.
  unfoldable pub insert : Text → V → Dict V → Dict V
  insert k v [] = (k, v) ∷ []
  insert k v ((j, w) ∷ d) = if same j k then (j, v) ∷ d else (j, w) ∷ insert k v d

  -- `d.pop(k, None)`
  unfoldable pub remove : Text → Dict V → Dict V
  remove k [] = []
  remove k ((j, w) ∷ d) = if same j k then remove k d else (j, w) ∷ remove k d

  abbrev pub keys : Dict V → List Text
  keys = map (λ e. e.0)

  -- `list(d.values())`
  abbrev pub values : Dict V → List V
  values = map (λ e. e.1)
