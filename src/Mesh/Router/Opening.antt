-- ===== src/Mesh/Router/Opening.antt =====
-- The forwarding of STREAM_OPEN packets, which neither the hops left nor the path can stop.
use netpulse_monitor.Base.{
  ℕ, ◌≡◌, refl, ap, ◌∙◌, Option, none, some, [], ◌∷◌, ◌++◌, arith, if◌then◌else◌,
}
use netpulse_monitor.Text.{Text, canon, is_empty}
use netpulse_monitor.Dict.{Dict}
use netpulse_monitor.Mesh.Neighbors.{get, all}
use netpulse_monitor.Base.Ints.{decrement}
use netpulse_monitor.Mesh.Router.{
  Pack, Router, StreamRoute, get_transport_to, socket_of, resolve_by_host, via_of, Forwarded,
  forward, forward_to, forward_via, forward_direct, forward_by_host,
}
use netpulse_monitor.Mesh.Router.Passing.{Outcome, sends, outcome, remembered, forward_stream_open}

abbrev first_of : Option ℕ → Option ℕ → Option ℕ
first_of (some ws) o = some ws
first_of none o = o

-- The socket that a router chooses for a destination: that of the peer itself, that of the next hop
-- to it, or one of these for the node of that host.
unfoldable choice_by_host : Router → Text → Option ℕ
choice_by_host r dst = elim (resolve_by_host (all r.neighbors) dst) [
  | none ↦ none
  | some id ↦ if is_empty id then none else elim (get r.neighbors id) [
    | none ↦ none
    | some n ↦ elim (via_of (some n)) [
      | some via ↦ (get_transport_to r via).0
      | none ↦ socket_of r (canon id)
    ]
  ]
]

unfoldable pub choice : Router → Text → Option ℕ
unfolding choice_by_host
choice r dst = first_of (socket_of r (canon dst)) (elim (via_of (get r.neighbors dst)) [
  | some via ↦ first_of (get_transport_to r via).0 (choice_by_host r dst)
  | none ↦ choice_by_host r dst
])

get_transport_to-stream_routes :
    (r : Router) (d : Dict StreamRoute) (id : Text)
    → (get_transport_to (record r { stream_routes = d }) id).0 ≡ (get_transport_to r id).0
unfolding get_transport_to socket_of
get_transport_to-stream_routes r d id = grind arith

-- The choice does not depend on the routes of streams.
choice-stream_routes :
    (r : Router) (d : Dict StreamRoute) (dst : Text)
    → choice (record r { stream_routes = d }) dst ≡ choice r dst
unfolding choice choice_by_host socket_of
choice-stream_routes r d dst = grind (arith, get_transport_to-stream_routes)

module _ {D : Type 0} where
  -- The socket of a packet that is sent.
  abbrev socket : Option (ℕ × Pack D) → Option ℕ
  socket none = none
  socket (some (ws, p)) = some ws

  abbrev pub sent_over : Outcome D → Option ℕ
  sent_over (sends ws p) = some ws
  sent_over _ = none

  remembered-stream_routes :
      (now : ℕ) (r : Router) (p : Pack D)
      → remembered now r p ≡ record r { stream_routes = (remembered now r p).stream_routes }
  unfolding remembered
  remembered-stream_routes now r p = grind arith

  socket-forward_via :
      (r : Router) (p : Pack D) (via : Text) (f : Forwarded D)
      → socket (forward_via r p via f).0 ≡ first_of (get_transport_to r via).0 (socket f.0)
  unfolding forward_via
  socket-forward_via r p via f = grind arith

  socket-forward_direct :
      (r : Router) (p : Pack D) (id : Text) (f : Forwarded D)
      → socket (forward_direct r p id f).0 ≡ first_of (socket_of r (canon id)) (socket f.0)
  unfolding forward_direct
  socket-forward_direct r p id f = grind arith

  socket-forward_by_host :
      (r : Router) (p : Pack D) (dst : Text)
      → socket (forward_by_host r p dst).0 ≡ choice_by_host r dst
  unfolding forward_by_host choice_by_host
  socket-forward_by_host r p dst = grind (arith, socket-forward_via, socket-forward_direct)

  socket-forward :
      (r : Router) (p : Pack D) (dst : Text)
      → p.dst ≡ some dst
      → socket (forward r p).0 ≡ choice r dst
  unfolding forward forward_to choice
  socket-forward r p dst e =
      grind (arith, socket-forward_via, socket-forward_direct, socket-forward_by_host)

  sent_over-outcome : (f : Forwarded D) → sent_over (outcome f).0 ≡ socket f.0
  unfolding outcome
  sent_over-outcome (none, r) = refl
  sent_over-outcome (some (ws, p), r) = refl

  -- A STREAM_OPEN packet for a destination goes over the socket that the router chooses for it,
  -- however few hops it has left and however often its path names the node.
  pub forward_stream_open-unguarded :
      (now : ℕ) (r : Router) (p : Pack D) (dst : Text)
      → p.dst ≡ some dst
      → sent_over (forward_stream_open now r p).0 ≡ choice r dst
  unfolding forward_stream_open
  forward_stream_open-unguarded now r p dst e =
      let p' : Pack D = record p { path = p.path ++ r.node ∷ []; ttl = decrement p.ttl } in
      let r' = remembered now r p' in
      sent_over-outcome (forward r' p')
      ∙ socket-forward r' p' dst e
      ∙ ap (λ s. choice s dst) (remembered-stream_routes now r p')
      ∙ choice-stream_routes r r'.stream_routes dst
