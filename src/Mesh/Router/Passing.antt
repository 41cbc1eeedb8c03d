-- ===== src/Mesh/Router/Passing.antt =====
-- The handlers of router.py that pass packets on: packets in transit, requests of web clients,
-- packets of a stream, and the way back along a packet's path.
use netpulse_monitor.Base.{
  ℕ, ◌-◌, Bool, ◌||◌, Option, none, some, List, [], ◌∷◌, ◌++◌, map, ltb, if◌then◌else◌, any_of,
}
use netpulse_monitor.Text.{Text, same, same_option, is_empty, canon, canon_option}
use netpulse_monitor.Dict.{Dict, lookup, insert, remove}
use netpulse_monitor.Base.Ints.{decrement}
use netpulse_monitor.Mesh.Router.{
  request, Pack, Router, StreamRoute, Forwarded, forward, is_spent, get_transport_to, last, init_of,
}

-- `label for label, (_, created) in self._ws_pending.items() if now - created > max_age`
unfoldable pub stale : ℕ → ℕ → Dict (ℕ × ℕ) → List Text
stale now max_age [] = []
stale now max_age ((label, (ws, created)) ∷ d) =
    if ltb max_age (now - created) then label ∷ stale now max_age d else stale now max_age d

-- `for label in labels: d.pop(label, None)`
unfoldable pub pop_all {ℓ} : {V : Type ℓ} → List Text → Dict V → Dict V
pop_all [] d = d
pop_all (k ∷ ks) d = pop_all ks (remove k d)

unfoldable pub sweep_ws_pending : ℕ → ℕ → Router → Router
sweep_ws_pending now max_age r = record r {
  ws_pending = pop_all (stale now max_age r.ws_pending) r.ws_pending;
}

unfoldable pub get_stream_route : ℕ → Router → Text → Option StreamRoute × Router
get_stream_route now r label = elim (lookup label r.stream_routes) [
  | none ↦ (none, r)
  | some route ↦
      if ltb 300 (now - route.established_at)
      then (none, record r { stream_routes = remove label r.stream_routes })
      else (let route' = record route { established_at = now } in
          (some route', record r { stream_routes = insert label route' r.stream_routes }))
]

-- `path[path.index(x) + 1]`, where `x` is in the path and not last.
unfoldable pub next_after : Text → List Text → Option Text
next_after x [] = none
next_after x (y ∷ l) = if same y x then elim l [ [] ↦ none | z ∷ _ ↦ some z ] else next_after x l

-- The hop after this node on a route, and its transport.
unfoldable pub next_of : Router → Option StreamRoute → Option ℕ × Router
next_of r none = (none, r)
next_of r (some route) = elim (next_after r.node route.forward_path) [
  | none ↦ (none, r)
  | some next_hop ↦ get_transport_to r next_hop
]

-- `pack.path` without this node at its end.
unfoldable pub way_back : Router → List Text → List Text
way_back r path = elim (last path) [
  | none ↦ path
  | some x ↦ if same (canon x) (canon r.node) then init_of path else path
]

-- What becomes of a packet in transit.
pub data Outcome (D : Type 0) : Type 0 where
  dropped : Outcome D
  executes : Pack D → Outcome D
  sends : ℕ → Pack D → Outcome D
  no_route : Outcome D

-- What becomes of a packet on its way back: `finished` is `sessions.resolve` of its label, with
-- the packet's data or, for an ERROR, its error.
pub data Return (D : Type 0) : Type 0 where
  finished : Text → Pack D → Return D
  returns : ℕ → Pack D → Return D
  broken : Return D

module _ {D : Type 0} where
  -- The route that STREAM_OPEN leaves on its way, unless there is one.
  unfoldable pub remembered : ℕ → Router → Pack D → Router
  remembered now r pack = elim pack.dst [
    | none ↦ r
    | some dst ↦
        if is_empty pack.source || is_empty dst
        then r
        else elim (lookup pack.label r.stream_routes) [
          | some route ↦ r
          | none ↦ record r {
            stream_routes =
                insert pack.label
                  (record {
                    label = pack.label;
                    source = canon pack.source;
                    dst = canon dst;
                    forward_path = map canon pack.path;
                    backward_path = [];
                    established_at = now;
                  })
                  r.stream_routes;
          }
        ]
  ]

  unfoldable pub outcome : Forwarded D → Outcome D × Router
  outcome (some (ws, pack), r) = (sends ws pack, r)
  outcome (none, r) = (no_route, r)

  abbrev pub visited : Router → Pack D → Bool
  visited r pack = any_of (same (canon r.node)) (map canon pack.path)

  -- `_on_forwarded`
  unfoldable pub on_forwarded : Router → Pack D → Outcome D × Router
  unfolding outcome
  on_forwarded r pack =
      if is_spent pack.ttl || visited r pack
      then (dropped, r)
      else (let pack' = record pack { path = pack.path ++ r.node ∷ [] } in
          if same_option (canon_option pack.dst) (some (canon r.node))
          then (executes (record pack' { type = request }), r)
          else outcome (forward r pack'))

  -- `_on_remote_request`; without a route the client gets an ERROR and `no_route` stands for it.
  unfoldable pub on_remote_request : ℕ → ℕ → Router → Pack D → Outcome D × Router
  on_remote_request now client r pack =
      let waiting = record r { ws_pending = insert pack.label (client, now) r.ws_pending } in
      let pack' = record pack { path = pack.path ++ r.node ∷ []; ttl = decrement pack.ttl } in
      let (sent, r') = forward waiting pack' in
      elim sent [
        | some (ws, pack'') ↦ (sends ws pack'', r')
        | none ↦ (no_route, record r' { ws_pending = remove pack.label r'.ws_pending })
      ]

  -- `_forward_stream_open`
  unfoldable pub forward_stream_open : ℕ → Router → Pack D → Outcome D × Router
  unfolding outcome
  forward_stream_open now r pack =
      let pack' = record pack { path = pack.path ++ r.node ∷ []; ttl = decrement pack.ttl } in
      outcome (forward (remembered now r pack') pack')

  -- `_forward_stream_data`
  unfoldable pub forward_stream_data : ℕ → Router → Pack D → Outcome D × Router
  forward_stream_data now r pack =
      let (route, r') = get_stream_route now r pack.label in
      let (transport, r'') = next_of r' route in
      elim transport [ some ws ↦ (sends ws pack, r'') | none ↦ outcome (forward r'' pack) ]

  -- `_route_back`
  unfoldable pub route_back : Router → Pack D → Return D × Router
  route_back r pack = elim (last (way_back r pack.path)) [
    | none ↦ (finished pack.label pack, r)
    | some next_hop ↦
        let (transport, r') = get_transport_to r next_hop in
        elim transport [
          | none ↦ (broken, r')
          | some ws ↦ (returns ws (record pack { path = way_back r pack.path }), r')
        ]
  ]
