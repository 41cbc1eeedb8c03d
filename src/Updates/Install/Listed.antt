-- ===== src/Updates/Install/Listed.antt =====
-- The versions that `check` lists.
use netpulse_monitor.Base.{
  ◌≡◌, refl, inl, inr, true, false, Option, none, some, List, [], ◌∷◌, ◌++◌, arith, Bool-cases,
  Option-cases, All, map,
}
use mathlib.Core.Path.{subst}
use netpulse_monitor.Text.{Text, same, same_iff, same_refl}
use netpulse_monitor.Text.Names.{has, NoRepeat}
use netpulse_monitor.Dict.{Dict, lookup, insert}
use netpulse_monitor.Dict.Laws.{lookup-insert, lookup-insert_self}
use netpulse_monitor.Updates.Versions.{Version, parse_version, is_newer, is_text_greater}
use netpulse_monitor.Updates.Install.{
  Manifest, Source, Info, Available, Answer, error, found, entry_of, info_of, read_one, Found,
  add_read, read_all, add_answer, probe_all, insert_sorted, sorted, unique_versions, check,
}

All-snoc {κ} :
    (P : Available → Type κ) (l : List Available) (a : Available)
    → All P l
    → P a
    → All P (l ++ a ∷ [])
All-snoc P [] a h p = (p, tt)
All-snoc P (b ∷ l) a h p = (h.0, All-snoc P l a h.1 p)

module _ {κ} (P : Available → Type κ) where
  insert_sorted-All :
      (a : Available) (l : List Available) → P a → All P l → All P (insert_sorted a l)
  unfolding insert_sorted
  insert_sorted-All a [] p h = (p, tt)
  insert_sorted-All a (b ∷ l) p h = elim (Bool-cases (is_text_greater b.version a.version)) [
    | inl e ↦ rw (insert_sorted, e) (h.0, insert_sorted-All a l p h.1)
    | inr e ↦ rw (insert_sorted, e) (p, h)
  ]

  sorted-All : (l : List Available) → All P l → All P (sorted l)
  unfolding sorted
  sorted-All [] h = tt
  sorted-All (a ∷ l) h = insert_sorted-All a (sorted l) h.0 (sorted-All l h.1)

  unique_versions-All :
      (seen : List Text) (l : List Available) → All P l → All P (unique_versions seen l)
  unfolding unique_versions
  unique_versions-All seen [] h = tt
  unique_versions-All seen (a ∷ l) h = elim (Bool-cases (has a.version seen)) [
    | inl e ↦ rw (unique_versions, e) (unique_versions-All seen l h.1)
    | inr e ↦ rw (unique_versions, e) (h.0, unique_versions-All (a.version ∷ seen) l h.1)
  ]

-- A version that was seen does not come again.
unique_versions-unseen :
    (v : Text) (seen : List Text) (l : List Available)
    → has v seen ≡ true
    → has v (map (λ a. a.version) (unique_versions seen l)) ≡ false
unfolding unique_versions
unique_versions-unseen v seen [] h = refl
unique_versions-unseen v seen (a ∷ l) h = elim (Bool-cases (has a.version seen)) [
  | inl e ↦ rw (unique_versions, e) (unique_versions-unseen v seen l h)
  | inr e ↦
      rw (unique_versions, e)
        (ground (arith, same_iff v a.version, unique_versions-unseen v (a.version ∷ seen) l))
]

unique_versions-NoRepeat :
    (seen : List Text) (l : List Available)
    → NoRepeat (map (λ a. a.version) (unique_versions seen l))
unfolding unique_versions
unique_versions-NoRepeat seen [] = tt
unique_versions-NoRepeat seen (a ∷ l) = elim (Bool-cases (has a.version seen)) [
  | inl e ↦ rw (unique_versions, e) (unique_versions-NoRepeat seen l)
  | inr e ↦
      rw (unique_versions, e)
        (
          unique_versions-unseen a.version (a.version ∷ seen) l
              (ground (arith, same_refl a.version)),
          unique_versions-NoRepeat (a.version ∷ seen) l,
        )
]

module _ (current exe_name : Text) where
  -- The version is readable, it is marked as new as it is, and it is known with this manifest's
  -- version.
  abbrev pub IsKnown : Dict Info → Available → Type 0
  IsKnown known a =
      ((v : Version) × (parse_version a.version ≡ some v))
      × (a.is_new ≡ is_newer a.version current)
      × ((i : Info) × (lookup a.version known ≡ some i) × (i.manifest.version ≡ a.version))

  insert-IsKnown :
      (a : Available) (known : Dict Info) (v : Text) (i : Info)
      → i.manifest.version ≡ v
      → IsKnown known a
      → IsKnown (insert v i known) a
  insert-IsKnown a known v i e (r, n, (j, l, m)) = elim (Bool-cases (same v a.version)) [
    | inl s ↦ (
      r,
      n,
      (i, rw (lookup-insert v a.version i known, s) refl, ground (arith, same_iff v a.version)),
    )
    | inr s ↦ (r, n, (j, rw (lookup-insert v a.version i known, s) l, m))
  ]

  insert-IsKnown_each :
      (l : List Available) (known : Dict Info) (v : Text) (i : Info)
      → i.manifest.version ≡ v
      → All (IsKnown known) l
      → All (IsKnown (insert v i known)) l
  insert-IsKnown_each [] known v i e h = tt
  insert-IsKnown_each (a ∷ l) known v i e h =
      (insert-IsKnown a known v i e h.0, insert-IsKnown_each l known v i e h.1)

  abbrev pub IsListed : Found → Type 0
  IsListed c = All (IsKnown c.known) c.available

  entry-IsKnown :
      (s : Source) (rel_dir : Text) (man : Manifest) (v : Version) (known : Dict Info)
      → parse_version man.version ≡ some v
      → IsKnown (insert man.version (info_of exe_name s rel_dir man) known) (entry_of current s man)
  unfolding entry_of info_of
  entry-IsKnown s rel_dir man v known e = (
    (v, e),
    refl,
    (_, lookup-insert_self man.version (info_of exe_name s rel_dir man) known, refl),
  )

  add_read-IsListed :
      (s : Source) (e : Text × Option Manifest) (c : Found)
      → IsListed c
      → IsListed (add_read (read_one current exe_name s e) c)
  unfolding read_one entry_of info_of
  add_read-IsListed s (rel_dir, none) c h = h
  add_read-IsListed s (rel_dir, some man) c h = elim (Option-cases (parse_version man.version)) [
    | inl e ↦ rw (read_one, e) h
    | inr (v, e) ↦
        rw (read_one, e)
          (All-snoc (IsKnown (insert man.version (info_of exe_name s rel_dir man) c.known))
            c.available (entry_of current s man)
            (insert-IsKnown_each c.available c.known man.version (info_of exe_name s rel_dir man)
              refl h)
            (entry-IsKnown s rel_dir man v c.known e))
  ]

  read_all-IsListed :
      (s : Source) (es : List (Text × Option Manifest)) (c : Found)
      → IsListed c
      → IsListed (read_all current exe_name s es c)
  unfolding read_all
  read_all-IsListed s [] c h = h
  read_all-IsListed s (e ∷ es) c h =
      read_all-IsListed s es (add_read (read_one current exe_name s e) c)
        (add_read-IsListed s e c h)

  add_answer-IsListed :
      (s : Source) (a : Answer) (c : Found)
      → IsListed c
      → IsListed (add_answer current exe_name s a c)
  add_answer-IsListed s (error message) c h = h
  add_answer-IsListed s (found entries) c h = read_all-IsListed s entries c h

  probe_all-IsListed :
      (answer : Source → Answer) (ss : List Source) (c : Found)
      → IsListed c
      → IsListed (probe_all current exe_name answer ss c)
  unfolding probe_all
  probe_all-IsListed answer [] c h = h
  probe_all-IsListed answer (s ∷ ss) c h =
      probe_all-IsListed answer ss (add_answer current exe_name s (answer s) c)
        (add_answer-IsListed s (answer s) c h)

  -- What `check` answers: each version that it lists is known, and none is listed twice.
  abbrev pub IsAnswer : Option Found × Dict Info → Type 0
  IsAnswer (none, known) = Unit
  IsAnswer (some c, known) =
      All (IsKnown known) c.available × NoRepeat (map (λ a. a.version) c.available)

  check-IsAnswer :
      (answer : Source → Answer) (ss : List Source) (known : Dict Info)
      → IsAnswer (check current exe_name answer ss known)
  unfolding check
  check-IsAnswer answer [] known = tt
  check-IsAnswer answer (s ∷ ss) known =
      let c : Found =
        probe_all current exe_name answer (s ∷ ss)
          (record { available = []; known = known; errors = [] }) in
      let listed : IsListed c = probe_all-IsListed answer (s ∷ ss) _ tt in
      (
        unique_versions-All (IsKnown c.known) [] (sorted c.available)
            (sorted-All (IsKnown c.known) c.available listed),
        unique_versions-NoRepeat [] (sorted c.available),
      )

  -- Every version that `check` lists is readable, marked as newer where it is, and known afterwards
  -- with a manifest of this version; and none is listed twice.
  pub check-IsListed :
      (answer : Source → Answer) (ss : List Source) (known known' : Dict Info) (c : Found)
      → check current exe_name answer ss known ≡ (some c, known')
      → All (IsKnown known') c.available × NoRepeat (map (λ a. a.version) c.available)
  check-IsListed answer ss known known' c e = subst IsAnswer e (check-IsAnswer answer ss known)
