-- ===== src/Mesh/Node/Handle.antt =====
-- `handle` of router.py.
use netpulse_monitor.Base.{
  ℕ, Bool, false, ◌&&◌, not, Option, none, some, [], ◌∷◌, ◌++◌, if◌then◌else◌,
}
use netpulse_monitor.Text.{Text, text_of, same, is_empty, canon}
use netpulse_monitor.Dict.{lookup, remove}
use netpulse_monitor.Mesh.Neighbors.{NeighborTable, touch, update_services, or_else}
use netpulse_monitor.Mesh.Neighbors.Gossip.{merge_gossip}
use netpulse_monitor.Mesh.Router.{
  request, response, forwarded, stream_open, stream_ready, stream_chunk, stream_ack, stream_eof,
  error, ping, pong, gossip, announce, cert_sync, Pack, Router,
}
use netpulse_monitor.Mesh.Router.Passing.{
  Outcome, dropped, executes, sends, no_route, on_forwarded, on_remote_request, forward_stream_open,
  forward_stream_data,
}
use netpulse_monitor.Mesh.Certs.{CertsIndex, merge_cert_sync}
use netpulse_monitor.Streams.Registry.{StreamRegistry, get, feed, end_stream, fail_stream}
use netpulse_monitor.Mesh.Node.{
  Data, null, word, gossip_data, announce_data, cert_sync_data, Node, Services, Sent, answer,
  exception, settle, return_pack, answer_back, has_path, reply, on_request, on_stream_open,
  cache_stream_route_on_open, cache_stream_route_on_ready,
}

-- What `handle` does: it sends packets, raises NoRouteToHost, or waits for room in a pipe.
pub data Handled (V : Type 0) : Type 0 where
  done : Sent V → Handled V
  unrouted : Node V → Handled V
  waiting : Handled V

module _ {V : Type 0} where
  -- `pack.dst and _canon(pack.dst) != _canon(NODE)`
  unfoldable pub is_remote : Node V → Pack (Data V) → Bool
  is_remote n pack = elim pack.dst [
    | none ↦ false
    | some dst ↦ not (is_empty dst) && not (same (canon dst) (canon n.router.node))
  ]

  unfoldable pub touch_source : ℕ → Node V → Pack (Data V) → Node V
  touch_source now n pack = if is_empty pack.source then n else record n {
    router = record n.router { neighbors = touch now n.router.neighbors pack.source };
  }

  -- The end of a handler that passes a packet on.
  unfoldable pub passed_on : Services V → Node V → Outcome (Data V) × Router → Handled V
  passed_on s n (way, router) =
      let n' = record n { router = router } in
      elim way [
        | dropped ↦ done ([], n')
        | executes pack ↦ done (on_request s n' pack)
        | sends ws pack ↦ done ((ws, pack) ∷ [], n')
        | no_route ↦ unrouted n'
      ]

  -- `_on_remote_request`, with the ERROR that its client gets.
  unfoldable pub remote_request : ℕ → ℕ → Node V → Pack (Data V) → Handled V
  unfolding reply
  remote_request now client n pack =
      let (way, router) = on_remote_request now client n.router pack in
      let n' = record n { router = router } in
      elim way [
        | sends ws p ↦ done ((ws, p) ∷ [], n')
        | _ ↦
            let e = text_of "No route to host: " ++ or_else pack.dst [] in
            done ((client, record (reply n' error null (some e) pack) { path = [] }) ∷ [], n')
      ]

  -- Over the socket of a waiting client, `_ws_pending.pop(pack.label)`, or else.
  unfoldable pub to_client : Node V → Pack (Data V) → Sent V → Handled V
  to_client n pack other = elim (lookup pack.label n.router.ws_pending) [
    | none ↦ done other
    | some (ws, created) ↦ done (
      (ws, pack) ∷ [],
      record n { router = record n.router { ws_pending = remove pack.label n.router.ws_pending } },
    )
  ]

  -- Back along the path, or to the session of a label.
  unfoldable pub back_or_settle : Node V → Pack (Data V) → Node V → Sent V
  back_or_settle n pack settled = if has_path pack then return_pack n pack else ([], settled)

  unfoldable pub with_registry : Node V → Option (StreamRegistry (Data V)) → Handled V
  with_registry n none = waiting
  with_registry n (some t) = done ([], record n { stream_registry = t })

  unfoldable pub drop_route : Text → Handled V → Handled V
  drop_route label (done (sent, n)) = done (
    sent,
    record n { router = record n.router { stream_routes = remove label n.router.stream_routes } },
  )
  drop_route label h = h

  unfoldable pub with_neighbors : Node V → NeighborTable → Handled V
  with_neighbors n t = done ([], record n { router = record n.router { neighbors = t } })

  unfoldable pub merge_payload : ℕ → Node V → Pack (Data V) → CertsIndex
  merge_payload now n pack = elim pack.payload [
    | cert_sync_data certs version ↦
        merge_cert_sync now pack.source (or_else certs []) (or_else version 0) n.certs_index
    | _ ↦ merge_cert_sync now pack.source [] 0 n.certs_index
  ]

  -- `handle` by the type of the packet; `client` is the socket that it came over.
  unfoldable pub handle_type : Services V → ℕ → ℕ → Node V → Pack (Data V) → Handled V
  unfolding is_remote passed_on remote_request to_client back_or_settle with_registry drop_route
      with_neighbors merge_payload
  handle_type s now client n pack = elim pack.type [
    | forwarded ↦ passed_on s n (on_forwarded n.router pack)
    | request ↦
        if is_remote n pack then remote_request now client n pack else done (on_request s n pack)
    | response ↦
        to_client n pack (back_or_settle n pack (settle pack.label (answer pack.payload) n))
    | stream_open ↦
        if is_remote n pack
        then passed_on s n (forward_stream_open now n.router pack)
        else (let (opened, n') = on_stream_open s n pack in
            done (answer_back (cache_stream_route_on_open now n' pack) opened pack))
    | stream_ready ↦
        let n' = cache_stream_route_on_ready now n pack in
        done (back_or_settle n' pack (settle pack.label (answer pack.payload) n'))
    | stream_chunk ↦
        if is_remote n pack
        then passed_on s n (forward_stream_data now n.router pack)
        else with_registry n (feed pack.label pack.payload n.stream_registry)
    | stream_ack ↦
        if is_remote n pack
        then done (return_pack n pack)
        else done ([], settle (text_of "ack_" ++ pack.label) (answer (word (text_of "ack"))) n)
    | stream_eof ↦
        if is_remote n pack
        then passed_on s n (forward_stream_data now n.router pack)
        else drop_route pack.label (with_registry n (end_stream pack.label n.stream_registry))
    | error ↦ elim (get pack.label n.stream_registry) [
      | some stream ↦
          let e = or_else pack.error_text [] in
          let reason = if is_empty e then text_of "producer failed" else e in
          done ([], record n { stream_registry = fail_stream pack.label reason n.stream_registry })
      | none ↦
          to_client n pack (back_or_settle n pack (settle pack.label (exception pack.error_text) n))
    ]
    | gossip ↦ elim pack.payload [
      | gossip_data entries from_node ↦
          with_neighbors n (
            merge_gossip now n.router.neighbors (or_else entries [])
              (or_else from_node pack.source))
      | _ ↦ with_neighbors n (merge_gossip now n.router.neighbors [] pack.source)
    ]
    | announce ↦ elim pack.payload [
      | announce_data services from_node ↦
          with_neighbors n (
            update_services n.router.neighbors (or_else from_node pack.source)
              (or_else services []))
      | _ ↦ with_neighbors n (update_services n.router.neighbors pack.source [])
    ]
    | cert_sync ↦ done ([], record n { certs_index = merge_payload now n pack })
    | ping ↦ done (answer_back n (reply n pong null none pack) pack)
    | pong ↦ done ([], settle pack.label (answer (word (text_of "pong"))) n)
    | _ ↦ done ([], n)
  ]

  -- `handle`
  unfoldable pub handle : Services V → ℕ → ℕ → Node V → Pack (Data V) → Handled V
  unfolding touch_source handle_type
  handle s now client n pack = handle_type s now client (touch_source now n pack) pack
