-- ===== src/Services.antt =====
-- netpulse/p2p_core/services/manager.py: the table of services, each with its object, its methods and its
-- generators, which stand in one dictionary under their keys.
pub mod Replaced
mod Samples
use netpulse_monitor.Base.{
  ℕ, zero, suc, Bool, true, false, Option, none, some, List, [], ◌∷◌, ◌++◌, ◌==◌, if◌then◌else◌,
  drop,
}
use netpulse_monitor.Text.{Text, text_of}
use netpulse_monitor.Dict.{Dict, lookup, insert, remove}

-- `ServiceManager.services`
abbrev pub ServiceTable : Type 0 → Type 0
ServiceTable A = Dict (Dict A)

-- A service: its name, itself, and what `get_generators` finds in it, in the order of `dir`.
pub record ServiceObject (A : Type 0) : Type 0 where
  pub name : Text
  pub itself : A
  pub generators : List (Text × A)

abbrev pub gen_key : Text → Text
gen_key name = text_of "__gen__" ++ name

-- `k[len(prefix):]` if `k.startswith(prefix)`
unfoldable pub without_prefix : (prefix k : Text) → Option Text
without_prefix [] k = some k
without_prefix (c ∷ p) [] = none
without_prefix (c ∷ p) (d ∷ k) = if c == d then without_prefix p k else none

abbrev pub add_name : Option Text → List Text → List Text
add_name none l = l
add_name (some n) l = n ∷ l

module _ {A : Type 0} where
  abbrev pub entries_of : Option (Dict A) → Dict A
  entries_of none = []
  entries_of (some d) = d

  -- `_set`
  unfoldable pub set_entry : (service key : Text) → A → ServiceTable A → ServiceTable A
  unfolding lookup insert
  set_entry service key value t =
      insert service (insert key value (entries_of (lookup service t))) t

  -- `_get`
  unfoldable pub get_entry : (service key : Text) → ServiceTable A → Option A
  unfolding lookup
  get_entry service key t = lookup key (entries_of (lookup service t))

  -- The loop over the generators.
  unfoldable pub set_generators : Text → List (Text × A) → ServiceTable A → ServiceTable A
  unfolding set_entry
  set_generators service [] t = t
  set_generators service ((name, method) ∷ l) t =
      set_generators service l (set_entry service (gen_key name) method t)

  unfoldable pub register_service : ServiceObject A → ServiceTable A → ServiceTable A
  unfolding set_generators set_entry
  register_service s t =
      set_generators s.name s.generators (set_entry s.name (text_of "self") s.itself t)

  unfoldable pub get_service : Text → ServiceTable A → Option A
  unfolding get_entry
  get_service service t = get_entry service (text_of "self") t

  unfoldable pub remove_service : ServiceObject A → ServiceTable A → ServiceTable A
  unfolding remove
  remove_service s t = remove s.name t

  unfoldable pub replace_service : ServiceObject A → ServiceTable A → ServiceTable A
  unfolding register_service insert
  replace_service s t = register_service s (insert s.name [] t)

  unfoldable pub register_method : ServiceObject A → Text → A → ServiceTable A → ServiceTable A
  unfolding set_entry
  register_method s name method t = set_entry s.name name method t

  unfoldable pub get_method : (service method : Text) → ServiceTable A → Option A
  unfolding get_entry
  get_method service method t = get_entry service method t

  unfoldable pub get_generator : (service name : Text) → ServiceTable A → Option A
  unfolding get_entry
  get_generator service name t = get_entry service (gen_key name) t

  unfoldable pub generator_names : Dict A → List Text
  unfolding without_prefix
  generator_names [] = []
  generator_names ((k, v) ∷ d) = add_name (without_prefix (text_of "__gen__") k) (generator_names d)

  unfoldable pub list_generators : Text → ServiceTable A → List Text
  unfolding generator_names lookup
  list_generators service t = generator_names (entries_of (lookup service t))
