-- ===== src/Mesh/Router/Returning.antt =====
-- The way back of an answer: `_route_back`, from node to node.
use netpulse_monitor.Base.{ℕ, ◌≡◌, refl, ap, ◌∙◌, Option, none, some, List, [], ◌∷◌, ◌++◌, arith}
use netpulse_monitor.Text.{Text, same_refl, canon}
use netpulse_monitor.Mesh.Router.{Pack, Router, last, init_of, get_transport_to}
use netpulse_monitor.Mesh.Router.Passing.{finished, returns, broken, way_back, route_back}
use netpulse_monitor.Mesh.Router.Transit.{last-snoc}

init_of-snoc : (l : List Text) (x : Text) → init_of (l ++ x ∷ []) ≡ l
unfolding init_of
init_of-snoc [] x = refl
init_of-snoc (y ∷ []) x = refl
init_of-snoc (y ∷ z ∷ l) x = rw (init_of-snoc (z ∷ l) x) refl

module _ (caller : Router) where
  -- The names of the caller and of the nodes of a list, the last first.
  abbrev pub trail : List Router → List Text
  trail [] = caller.node ∷ []
  trail (r ∷ rs) = trail rs ++ r.node ∷ []

  abbrev pub onward : List Router → Router
  onward [] = caller
  onward (s ∷ rs) = s

  -- Each node has a transport to the next, the last to the caller.
  abbrev pub Connected : List Router → Type 0
  Connected [] = Unit
  Connected (r ∷ rs) =
      ((ws : ℕ) × ((get_transport_to r (onward rs).node).0 ≡ some ws)) × Connected rs

  last-trail : (rs : List Router) → last (trail rs) ≡ some (onward rs).node
  last-trail [] = last-snoc [] caller.node
  last-trail (s ∷ rs) = last-snoc (trail rs) s.node

pub way_back-snoc : (r : Router) (l : List Text) → way_back r (l ++ r.node ∷ []) ≡ l
unfolding way_back
way_back-snoc r l =
    rw (way_back, last-snoc l r.node, same_refl (canon r.node), init_of-snoc l r.node) refl

module _ {D : Type 0} where
  -- The packet that reaches the caller when the nodes of a list pass it back one after the other.
  unfoldable pub pass_back : List Router → Pack D → Option (Pack D)
  pass_back [] p = some p
  pass_back (r ∷ rs) p = elim (route_back r p).0 [
    | finished label q ↦ none
    | broken ↦ none
    | returns ws q ↦ pass_back rs q
  ]

  pub route_back-finished :
      (r : Router) (p : Pack D)
      → last (way_back r p.path) ≡ none
      → route_back r p ≡ (finished p.label p, r)
  unfolding route_back
  route_back-finished r p w = rw (route_back, w) refl

  route_back-returns :
      (r : Router) (p : Pack D) (next_hop : Text) (ws : ℕ)
      → last (way_back r p.path) ≡ some next_hop
      → (get_transport_to r next_hop).0 ≡ some ws
      → (route_back r p).0 ≡ returns ws (record p { path = way_back r p.path })
  unfolding route_back
  route_back-returns r p next_hop ws w t = grind arith

  -- An answer whose path names connected nodes is passed back over them, the last first, and reaches
  -- the caller as it was, with the caller alone on its path.
  pub pass_back-arrives :
      (caller : Router) (rs : List Router) (p : Pack D)
      → Connected caller rs
      → p.path ≡ trail caller rs
      → pass_back rs p ≡ some (record p { path = caller.node ∷ [] })
  unfolding pass_back
  pass_back-arrives caller [] p c e = ap (λ x. some (record p { path = x })) e
  pass_back-arrives caller (r ∷ rs) p ((ws, t), c) e =
      let w = ap (way_back r) e ∙ way_back-snoc r (trail caller rs) in
      let next = ap last w ∙ last-trail caller rs in
      rw (pass_back, route_back-returns r p (onward caller rs).node ws next t)
        (pass_back-arrives caller rs (record p { path = way_back r p.path }) c w)
