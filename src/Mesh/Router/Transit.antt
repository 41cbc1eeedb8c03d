-- ===== src/Mesh/Router/Transit.antt =====
-- Packets in transit: what `on_forwarded` sends, and how long a packet travels.
use mathlib.Core.List.{append_assoc}
use netpulse_monitor.Base.{
  ℕ, zero, suc, ◌≤◌, ◌≡◌, refl, ap, ◌∙◌, sym, ◌⊎◌, inl, inr, true, false, Option, none, some, List,
  [], ◌∷◌, ◌++◌, map, arith, length, any_of, Option-cases, append_nil,
}
use netpulse_monitor.Text.{Text, same, same_refl, canon}
use netpulse_monitor.Text.Names.{NoRepeat, NoRepeat-snoc}
use netpulse_monitor.Base.Ints.{ℤ, pos, decrement}
use netpulse_monitor.Mesh.Router.{
  Pack, Router, is_spent, last, ends_here, stamped, stamped_via, Forwarded, forward, forward_to,
  forward_via, forward_direct, forward_by_host, get_transport_to, socket_of,
}
use netpulse_monitor.Mesh.Router.Passing.{sends, outcome, on_forwarded, visited}

pub last-snoc : (l : List Text) (x : Text) → last (l ++ x ∷ []) ≡ some x
unfolding last
last-snoc [] x = refl
last-snoc (y ∷ []) x = refl
last-snoc (y ∷ z ∷ l) x = last-snoc (z ∷ l) x

map-snoc : (l : List Text) (x : Text) → map canon (l ++ x ∷ []) ≡ map canon l ++ canon x ∷ []
map-snoc [] x = refl
map-snoc (y ∷ l) x = ap (◌∷◌ (canon y)) (map-snoc l x)

ends_here-snoc : (r : Router) (l : List Text) → ends_here r (l ++ r.node ∷ []) ≡ true
unfolding ends_here
ends_here-snoc r l = rw (ends_here, last-snoc l r.node, same_refl (canon r.node)) refl

spent_after :
    (t : ℤ) (n : ℕ) → t ≡ pos n → is_spent t ≡ false → (m : ℕ) × (n ≡ suc m) × (decrement t ≡ pos m)
unfolding is_spent decrement
spent_after t zero e h = ground arith
spent_after t (suc m) e h = (m, refl, rw e refl)

module _ {D : Type 0} where
  -- What `_forward` sends is the packet stamped, in one of two ways.
  abbrev Stamped : Router → Pack D → Option (ℕ × Pack D) → Type 0
  Stamped r pack none = Unit
  Stamped r pack (some (ws, pack')) = (pack' ≡ stamped r pack) ⊎ (pack' ≡ stamped_via r pack)

  forward_via-Stamped :
      (r : Router) (pack : Pack D) (via : Text) (f : Forwarded D)
      → Stamped r pack f.0
      → Stamped r pack (forward_via r pack via f).0
  unfolding forward_via
  forward_via-Stamped r pack via f h = elim (Option-cases (get_transport_to r via).0) [
    | inl e ↦ rw (e, Stamped, forward_via) h
    | inr (ws, e) ↦ rw (e, Stamped, forward_via) (inr refl)
  ]

  forward_direct-Stamped :
      (r : Router) (pack : Pack D) (id : Text) (f : Forwarded D)
      → Stamped r pack f.0
      → Stamped r pack (forward_direct r pack id f).0
  unfolding forward_direct
  forward_direct-Stamped r pack id f h = elim (Option-cases (socket_of r (canon id))) [
    | inl e ↦ rw (e, Stamped, forward_direct) h
    | inr (ws, e) ↦ rw (e, Stamped, forward_direct) (inl refl)
  ]

  forward_by_host-Stamped :
      (r : Router) (pack : Pack D) (dst : Text) → Stamped r pack (forward_by_host r pack dst).0
  unfolding forward_by_host
  forward_by_host-Stamped r pack dst = grind (arith, forward_via-Stamped, forward_direct-Stamped)

  forward-Stamped : (r : Router) (pack : Pack D) → Stamped r pack (forward r pack).0
  unfolding forward forward_to
  forward-Stamped r pack =
      grind (arith, forward_via-Stamped, forward_direct-Stamped, forward_by_host-Stamped)

  -- From `p` to `p'` the packet passed `r`.
  pub record Passed (r : Router) (p p' : Pack D) : Type 0 where
    pub path : p'.path ≡ p.path ++ r.node ∷ []
    pub ttl : p'.ttl ≡ decrement p.ttl
    pub unspent : is_spent p.ttl ≡ false
    pub unvisited : any_of (same (canon r.node)) (map canon p.path) ≡ false
    pub same_label : p'.label ≡ p.label
    pub same_dst : p'.dst ≡ p.dst
    pub same_payload : p'.payload ≡ p.payload

  abbrev with_node : Router → Pack D → Pack D
  with_node r p = record p { path = p.path ++ r.node ∷ [] }

  -- The packet that `on_forwarded` hands to `_forward` ends with the node, and is not stamped again.
  with_node-Passed :
      (r : Router) (p p' : Pack D)
      → is_spent p.ttl ≡ false
      → visited r p ≡ false
      → (p' ≡ stamped r (with_node r p)) ⊎ (p' ≡ stamped_via r (with_node r p))
      → Passed r p p'
  unfolding stamped stamped_via
  with_node-Passed r p p' u v (inl e) = record {
    path = ap (λ q. q.path) e ∙ rw (ends_here-snoc r p.path) refl;
    ttl = ap (λ q. q.ttl) e;
    unspent = u;
    unvisited = v;
    same_label = ap (λ q. q.label) e;
    same_dst = ap (λ q. q.dst) e;
    same_payload = ap (λ q. q.payload) e;
  }
  with_node-Passed r p p' u v (inr e) = record {
    path = ap (λ q. q.path) e ∙ rw (ends_here-snoc r p.path) refl;
    ttl = ap (λ q. q.ttl) e;
    unspent = u;
    unvisited = v;
    same_label = ap (λ q. q.label) e;
    same_dst = ap (λ q. q.dst) e;
    same_payload = ap (λ q. q.payload) e;
  }

  sends-forward :
      (r : Router) (p p' : Pack D) (ws : ℕ)
      → (on_forwarded r p).0 ≡ sends ws p'
      → (is_spent p.ttl ≡ false)
        × (visited r p ≡ false)
        × ((forward r (with_node r p)).0 ≡ some (ws, p'))
  unfolding on_forwarded outcome
  sends-forward r p p' ws e = ground arith

  -- A packet that a node passes on has hops left and has not been there; it leaves with the node at
  -- the end of its path and one hop less, and otherwise as it came.
  pub on_forwarded-Passed :
      (r : Router) (p p' : Pack D) (ws : ℕ) → (on_forwarded r p).0 ≡ sends ws p' → Passed r p p'
  on_forwarded-Passed r p p' ws e =
      let (u, v, f) = sends-forward r p p' ws e in
      with_node-Passed r p p' u v (rw f at (forward-Stamped r (with_node r p)))

  -- A packet passes the nodes of a list, each in the state that it is in when the packet comes.
  pub data Journey : List Router → Pack D → Pack D → Type 0 where
    stays : (p : Pack D) → Journey [] p p
    hop :
        (r : Router) (rs : List Router) (ws : ℕ) (p p' p'' : Pack D)
        → (on_forwarded r p).0 ≡ sends ws p'
        → Journey rs p' p''
        → Journey (r ∷ rs) p p''

  -- A packet in transit with `n` hops left, whose path repeats no name so far, passes at most `n`
  -- nodes. Its path grows by their names, in their order, and no node comes twice.
  pub Journey-bounded :
      (rs : List Router) (p p'' : Pack D) (n : ℕ)
      → Journey rs p p''
      → p.ttl ≡ pos n
      → NoRepeat (map canon p.path)
      → (length rs ≤ n)
        × (p''.path ≡ p.path ++ map (λ r. r.node) rs)
        × NoRepeat (map canon p''.path)
  Journey-bounded rs p p'' n (stays _) t d = (omega arith, sym (append_nil p.path), d)
  Journey-bounded rs p p'' n (hop r rs' ws _ p' _ e j) t d =
      let f = on_forwarded-Passed r p p' ws e in
      let (m, n_is, t') = spent_after p.ttl n t f.unspent in
      let (b, path, d') = Journey-bounded rs' p' p'' m j (f.ttl ∙ t') (
        rw (f.path, map-snoc p.path r.node)
          (NoRepeat-snoc (map canon p.path) (canon r.node) d f.unvisited)) in
      (
        omega arith,
        path ∙ rw (f.path, append_assoc p.path (r.node ∷ []) (map (λ r. r.node) rs')) refl,
        d',
      )
