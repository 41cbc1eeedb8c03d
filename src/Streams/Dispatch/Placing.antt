-- ===== src/Streams/Dispatch/Placing.antt =====
-- Where the dispatcher puts an item.
use netpulse_monitor.Base.{
  ℕ, ◌≤◌, ◌≡◌, refl, ◌⊎◌, inl, inr, Bool, true, false, not, Option, none, some, [], ◌∷◌, ◌++◌,
  arith, ltb, if◌then◌else◌, keep_if, keep_if-All, All, List-cases, Bool-cases,
}
use netpulse_monitor.Text.{Text, same_iff, same_refl}
use netpulse_monitor.Dict.{Dict, lookup, insert}
use netpulse_monitor.Dict.Laws.{Entries}
use netpulse_monitor.Dict.Distinct.{Distinct}
use netpulse_monitor.Streams.{Pipe, size, is_full, put, put_nowait}
use netpulse_monitor.Streams.Dispatch.{candidates, smallest, least_loaded, place}

module _ {A : Type 0} where
  smallest-le : (best : Text × Pipe A) (d : Dict (Pipe A)) → size (smallest best d).1 ≤ size best.1
  unfolding smallest
  smallest-le best [] = omega arith
  smallest-le best (e ∷ d) =
      let rest = smallest-le (if ltb (size e.1) (size best.1) then e else best) d in ground arith

  smallest-Least :
      (best : Text × Pipe A) (d : Dict (Pipe A))
      → Entries (λ j q. size (smallest best d).1 ≤ size q) d
  unfolding smallest
  smallest-Least best [] = tt
  smallest-Least best (e ∷ d) =
      let next = if ltb (size e.1) (size best.1) then e else best in
      let le = smallest-le next d in (ground arith, smallest-Least next d)

  if-keeps :
      (P : Text × Pipe A → Type 0) (b : Bool) (x y : Text × Pipe A)
      → P x
      → P y
      → P (if b then x else y)
  if-keeps P true x y p q = p
  if-keeps P false x y p q = q

  smallest-keeps :
      (P : Text × Pipe A → Type 0) (best : Text × Pipe A) (d : Dict (Pipe A))
      → P best
      → All P d
      → P (smallest best d)
  unfolding smallest
  smallest-keeps P best [] b h = b
  smallest-keeps P best (e ∷ d) b h =
      smallest-keeps P (if ltb (size e.1) (size best.1) then e else best) d
        (if-keeps P (ltb (size e.1) (size best.1)) e best h.0 b) h.1

  lookup-later :
      (k j : Text) (p q : Pipe A) (d : Dict (Pipe A))
      → lookup k d ≡ none
      → lookup j d ≡ some q
      → lookup j ((k, p) ∷ d) ≡ some q
  unfolding lookup
  lookup-later k j p q d n l = ground (arith, same_iff k j)

  -- What holds of every entry that a lookup finds holds of all.
  All-found :
      (P : Text × Pipe A → Type 0) (d : Dict (Pipe A))
      → Distinct d
      → ((e : Text × Pipe A) → lookup e.0 d ≡ some e.1 → P e)
      → All P d
  unfolding lookup
  All-found P [] h f = tt
  All-found P ((k, p) ∷ d) h f = (
    f (k, p) (ground (arith, same_refl k)),
    All-found P d h.1 (λ e l. f e (lookup-later k e.0 p e.1 d h.0 l)),
  )

  -- The pipe of an entry has room.
  abbrev HasRoom : Text × Pipe A → Type 0
  HasRoom e = is_full e.1 ≡ false

  keep_if-HasRoom : (d : Dict (Pipe A)) → All HasRoom (keep_if (λ e. not (is_full e.1)) d)
  keep_if-HasRoom [] = tt
  keep_if-HasRoom (e ∷ d) = elim (Bool-cases (is_full e.1)) [
    | inl f ↦ rw f (keep_if-HasRoom d)
    | inr f ↦ rw f (f, keep_if-HasRoom d)
  ]

  keep_if-full :
      (d : Dict (Pipe A))
      → keep_if (λ e. not (is_full e.1)) d ≡ []
      → Entries (λ j q. is_full q ≡ true) d
  keep_if-full [] h = tt
  keep_if-full (e ∷ d) h = elim (Bool-cases (is_full e.1)) [
    | inl f ↦ (f, keep_if-full d (ground arith))
    | inr f ↦ ground arith
  ]

  keep_if-Least :
      (n : ℕ) (d : Dict (Pipe A))
      → Entries (λ j q. n ≤ size q) (keep_if (λ e. not (is_full e.1)) d)
      → Entries (λ j q. (is_full q ≡ true) ⊎ (n ≤ size q)) d
  keep_if-Least n [] h = tt
  keep_if-Least n (e ∷ d) h = elim (Bool-cases (is_full e.1)) [
    | inl f ↦ (inl f, keep_if-Least n d (rw f at h))
    | inr f ↦ let g = rw f at h in (inr g.0, keep_if-Least n d g.1)
  ]

  -- An item is placed in the dictionary of pipes, or the loop pauses.
  abbrev pub Placed : A → Dict (Pipe A) → Option (Dict (Pipe A)) → Type 0
  Placed a d none = Entries (λ j q. is_full q ≡ true) d
  Placed a d (some d') =
      (k : Text) × (p : Pipe A) × (lookup k d ≡ some p)
      × (is_full p ≡ false)
      × Entries (λ j q. (is_full q ≡ true) ⊎ (size p ≤ size q)) d
      × (d' ≡ insert k (record p { queue = p.queue ++ some a ∷ [] }) d)

  put-HasRoom :
      (a : A) (p : Pipe A)
      → is_full p ≡ false
      → put (some a) p ≡ some (record p { queue = p.queue ++ some a ∷ [] })
  unfolding put put_nowait
  put-HasRoom a p h = rw h refl

  keep_if-found :
      (d : Dict (Pipe A))
      → Distinct d
      → All (λ e. lookup e.0 d ≡ some e.1) (keep_if (λ e. not (is_full e.1)) d)
  keep_if-found d h =
      keep_if-All (λ e. lookup e.0 d ≡ some e.1) (λ e. not (is_full e.1)) d
        (All-found (λ e. lookup e.0 d ≡ some e.1) d h (λ e l. l))

  place-chosen :
      (a : A) (d : Dict (Pipe A)) (e : Text × Pipe A) (rest : Dict (Pipe A))
      → Distinct d
      → keep_if (λ e. not (is_full e.1)) d ≡ e ∷ rest
      → Placed a d (place a d)
  unfolding place least_loaded candidates
  place-chosen a d e rest h c =
      let best = smallest e rest in
      let found = rw c at (keep_if-found d h) in
      let rooms = rw c at (keep_if-HasRoom d) in
      let room = smallest-keeps HasRoom e rest rooms.0 rooms.1 in
      let least =
        keep_if-Least (size best.1) d (rw c (smallest-le e rest, smallest-Least e rest)) in
      let l = smallest-keeps (λ x. lookup x.0 d ≡ some x.1) e rest found.0 found.1 in
      rw (c, put-HasRoom a best.1 room, Placed) (best.0, best.1, l, room, least, refl)

  -- In a dictionary with distinct keys, an item goes at the end of the queue of a pipe that has
  -- room, no fuller than any other that has, and into no other; `put` never waits there. The loop
  -- pauses exactly if every pipe is full.
  pub place-Placed : (a : A) (d : Dict (Pipe A)) → Distinct d → Placed a d (place a d)
  unfolding place least_loaded candidates
  place-Placed a d h = elim (List-cases (keep_if (λ e. not (is_full e.1)) d)) [
    | inl c ↦ rw (c, Placed) (keep_if-full d c)
    | inr (e, rest, c) ↦ place-chosen a d e rest h c
  ]
