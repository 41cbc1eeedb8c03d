-- ===== src/Services/Replaced.antt =====
-- What a service has after `replace_service`.
use netpulse_monitor.Base.{
  ◌≡◌, refl, sym, ap, ◌∙◌, inl, inr, false, none, some, List, [], ◌∷◌, ◌++◌, arith, map, All,
  Bool-cases, append_nil,
}
use mathlib.Core.List.{append_assoc}
use netpulse_monitor.Text.{Text, text_of, same, same_iff}
use netpulse_monitor.Text.Names.{same-append_both}
use netpulse_monitor.Dict.{Dict, lookup, insert, keys}
use netpulse_monitor.Dict.Laws.{lookup-insert_self}
use netpulse_monitor.Dict.Distinct.{Distinct}
use netpulse_monitor.Services.{
  ServiceTable, ServiceObject, gen_key, set_entry, get_entry, set_generators, register_service,
  replace_service, get_service, get_method, get_generator, list_generators, generator_names,
  without_prefix,
}

without_prefix-append : (p n : Text) → without_prefix p (p ++ n) ≡ some n
unfolding without_prefix
without_prefix-append [] n = refl
without_prefix-append (c ∷ p) n = ground (arith, without_prefix-append p n)

gen_key-other :
    (n m : Text) → without_prefix (text_of "__gen__") m ≡ none → same (gen_key n) m ≡ false
gen_key-other n m h = elim (Bool-cases (same (gen_key n) m)) [
  | inl e ↦
      absurd (cc (h, (same_iff (gen_key n) m).0 e, without_prefix-append (text_of "__gen__") n))
  | inr e ↦ e
]

module _ {A : Type 0} where
  insert-fresh :
      (k : Text) (v : A) (d : Dict A) → lookup k d ≡ none → insert k v d ≡ d ++ (k, v) ∷ []
  unfolding insert lookup
  insert-fresh k v [] h = refl
  insert-fresh k v ((j, w) ∷ d) h = ground (arith, insert-fresh k v d)

  -- The entries of generators.
  abbrev pub gen_entries : List (Text × A) → Dict A
  gen_entries = map (λ g. (gen_key g.0, g.1))

  lookup-gen_entries :
      (n : Text) (gens : List (Text × A)) → lookup (gen_key n) (gen_entries gens) ≡ lookup n gens
  unfolding lookup
  lookup-gen_entries n [] = refl
  lookup-gen_entries n ((m, v) ∷ gens) =
      rw (same-append_both (text_of "__gen__") m n, lookup-gen_entries n gens) refl

  abbrev IsFresh : Dict A → List (Text × A) → Type 0
  IsFresh d = All (λ g. lookup (gen_key g.0) d ≡ none)

  lookup-snoc :
      (k j : Text) (v : A) (d : Dict A)
      → lookup j d ≡ none
      → same k j ≡ false
      → lookup j (d ++ (k, v) ∷ []) ≡ none
  unfolding lookup
  lookup-snoc k j v [] h e = ground arith
  lookup-snoc k j v ((i, w) ∷ d) h e = ground (arith, lookup-snoc k j v d)

  snoc-IsFresh :
      (n : Text) (v : A) (d : Dict A) (gens : List (Text × A))
      → lookup n gens ≡ none
      → IsFresh d gens
      → IsFresh (d ++ (gen_key n, v) ∷ []) gens
  unfolding lookup
  snoc-IsFresh n v d [] h f = tt
  snoc-IsFresh n v d ((m, w) ∷ gens) h f = (
    lookup-snoc (gen_key n) (gen_key m) v d f.0 (
        rw (same-append_both (text_of "__gen__") n m) (ground (arith, same_iff n m, same_iff m n))),
    snoc-IsFresh n v d gens (ground arith) f.1,
  )

  lookup-set_generators :
      (service : Text) (gens : List (Text × A)) (t : ServiceTable A) (d : Dict A)
      → lookup service t ≡ some d
      → Distinct gens
      → IsFresh d gens
      → lookup service (set_generators service gens t) ≡ some (d ++ gen_entries gens)
  unfolding set_generators set_entry
  lookup-set_generators service [] t d e u f = e ∙ ap some (sym (append_nil d))
  lookup-set_generators service ((n, v) ∷ gens) t d e u f =
      lookup-set_generators service gens (set_entry service (gen_key n) v t)
        (d ++ (gen_key n, v) ∷ [])
        (rw (e, insert-fresh (gen_key n) v d f.0)
          (lookup-insert_self service (d ++ (gen_key n, v) ∷ []) t))
        u.1 (snoc-IsFresh n v d gens u.0 f.1)
      ∙ ap some (append_assoc d ((gen_key n, v) ∷ []) (gen_entries gens))

  self-IsFresh : (v : A) (gens : List (Text × A)) → IsFresh ((text_of "self", v) ∷ []) gens
  unfolding lookup same
  self-IsFresh v [] = tt
  self-IsFresh v (g ∷ gens) = (refl, self-IsFresh v gens)

  -- After a reload the service has its object and its current generators, and no other entry.
  lookup-replace_service :
      (s : ServiceObject A) (t : ServiceTable A)
      → Distinct s.generators
      → lookup s.name (replace_service s t)
        ≡ some ((text_of "self", s.itself) ∷ gen_entries s.generators)
  unfolding replace_service register_service set_entry insert
  lookup-replace_service s t u =
      lookup-set_generators s.name s.generators
        (set_entry s.name (text_of "self") s.itself (insert s.name [] t))
        ((text_of "self", s.itself) ∷ [])
        (rw (lookup-insert_self s.name [] t)
          (lookup-insert_self s.name ((text_of "self", s.itself) ∷ []) (insert s.name [] t)))
        u (self-IsFresh s.itself s.generators)

  lookup-gen_entries_other :
      (m : Text) (gens : List (Text × A))
      → without_prefix (text_of "__gen__") m ≡ none
      → lookup m (gen_entries gens) ≡ none
  unfolding lookup
  lookup-gen_entries_other m [] h = refl
  lookup-gen_entries_other m ((n, v) ∷ gens) h =
      rw (gen_key-other n m h) (lookup-gen_entries_other m gens h)

  names-gen_entries : (gens : List (Text × A)) → generator_names (gen_entries gens) ≡ keys gens
  unfolding generator_names
  names-gen_entries [] = refl
  names-gen_entries ((n, v) ∷ gens) = ap (◌∷◌ n) (names-gen_entries gens)

  -- After a reload, whatever was registered before, the service has its object and each of its current
  -- generators, lists them in their order, and has no other method `m`.
  pub replace_service-current :
      (s : ServiceObject A) (t : ServiceTable A) (n m : Text)
      → Distinct s.generators
      → same (text_of "self") m ≡ false
      → without_prefix (text_of "__gen__") m ≡ none
      → let t' = replace_service s t in
        (get_service s.name t' ≡ some s.itself)
        × (get_generator s.name n t' ≡ lookup n s.generators)
        × (list_generators s.name t' ≡ keys s.generators)
        × (get_method s.name m t' ≡ none)
  unfolding get_service get_generator get_method get_entry list_generators
  replace_service-current s t n m u o h =
      let e = lookup-replace_service s t u in
      (
        rw e (unfold lookup same in refl),
        rw e (unfold lookup same in lookup-gen_entries n s.generators),
        rw e (unfold generator_names without_prefix in names-gen_entries s.generators),
        rw e (unfold lookup in rw o (lookup-gen_entries_other m s.generators h)),
      )
