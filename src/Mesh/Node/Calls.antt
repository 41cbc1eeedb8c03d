-- ===== src/Mesh/Node/Calls.antt =====
-- `Router.call` and `Router.stream` of router.py. Each is cut where it waits for its answer: what it
-- does before, and what it does with the answer or at its timeout. The label that `uuid4` draws is
-- an argument.
pub mod Settled
mod Samples
use netpulse_monitor.Base.{
  ℕ, Bool, true, false, not, ◌&&◌, ◌||◌, Option, none, some, List, [], ◌∷◌, ◌++◌, take,
  if◌then◌else◌,
}
use netpulse_monitor.Text.{Text, text_of, same, same_option, canon}
use netpulse_monitor.Dict.{remove}
use netpulse_monitor.Mesh.Neighbors.{all}
use netpulse_monitor.Mesh.Router.{
  PackType, request, stream_open, Pack, Router, pos, forward, resolve_by_host,
}
use netpulse_monitor.Mesh.Sessions.{register_single, cancel}
use netpulse_monitor.Mesh.Node.{
  Data, null, Answer, answer, exception, Node, Executed, result, generated, raised, Services, Sent,
}
use netpulse_monitor.Streams.{Pipe, new_pipe}
use netpulse_monitor.Streams.Registry.{register, forget}

-- What a call does before it waits: it has its value or exception (its text) at once, has no route,
-- or has sent its packet and waits for the future with a number.
pub data Begun (V : Type 0) : Type 0 where
  local_value : Data V → Begun V
  local_error : Text → Begun V
  no_route : Node V → Begun V
  sent : Sent V → ℕ → Begun V

-- How a call ends: with a value, with an exception (its text, if it has one), or with RPCTimeout.
pub data Ended (V : Type 0) : Type 0 where
  value_of : Data V → Ended V
  error_of : Option Text → Ended V
  rpc_timeout : Ended V

module _ {V : Type 0} where
  unfoldable pub open_pack :
      Node V → PackType → Text → (dst service method : Text) → Data V → Pack (Data V)
  open_pack n type label dst service method data_ = record {
    type = type;
    source = n.router.node;
    dst = some dst;
    service = some service;
    method = some method;
    payload = data_;
    label = label;
    error_text = none;
    path = n.router.node ∷ [];
    ttl = pos 16;
  }

  -- Whether a name is this node's, its alias or a host whose name in the table is this node's.
  unfoldable pub is_self : Node V → Text → Bool
  is_self n dst =
      same (canon dst) (canon n.router.node)
      || same (canon dst) (canon n.router.alias)
      || same_option (resolve_by_host (all n.router.neighbors) dst) (some n.router.node)

  -- `response.data`; a generator has no `data`.
  unfoldable pub local_result : Executed V → Begun V
  local_result (result p) = local_value p.payload
  local_result (raised e) = local_error e
  local_result (generated chunks e) =
      local_error (text_of "'async_generator' object has no attribute 'data'")

  -- `_forward`, and `cleanup` where it raises NoRouteToHost.
  unfoldable pub forward_or : Node V → Pack (Data V) → (Node V → Node V) → ℕ → Begun V
  forward_or n pack cleanup future =
      let (way, router) = forward n.router pack in
      let n' = record n { router = router } in
      elim way [ none ↦ no_route (cleanup n') | some (ws, p) ↦ sent ((ws, p) ∷ [], n') future ]

  unfoldable pub cancel_label : Text → Node V → Node V
  cancel_label label n = record n { sessions = cancel label n.sessions }

  -- `call` up to where it waits.
  unfoldable pub begin_call :
      Services V → Node V → (label dst service method : Text) → Data V → Begun V
  unfolding open_pack is_self local_result forward_or
  begin_call s n label dst service method data_ =
      let pack = open_pack n request label dst service method data_ in
      if is_self n dst
      then local_result (s.execute pack)
      else (let (future, sessions) = register_single label service method n.sessions in
          forward_or (record n { sessions = sessions }) pack (cancel_label label) future)

  -- `call` after it waited; `none` is a timeout.
  unfoldable pub end_call : Node V → Text → Option (Answer V) → Ended V × Node V
  unfolding cancel_label
  end_call n label none = (rpc_timeout, cancel_label label n)
  end_call n label (some (answer d)) = (value_of d, n)
  end_call n label (some (exception e)) = (error_of e, n)

  unfoldable pub remove_stream : Text → Node V → Node V
  remove_stream label n = record n { stream_registry = forget label n.stream_registry }

  -- `stream` up to where it waits.
  unfoldable pub begin_stream :
      Services V → Node V → (label dst service method : Text) → Data V → Begun V
  unfolding open_pack forward_or
  begin_stream s n label dst service method data_ =
      let pack = open_pack n stream_open label dst service method data_ in
      let (future, sessions) = register_single label service method n.sessions in
      let pipe = new_pipe (text_of "mesh_" ++ take 8 label) s.default_buff in
      forward_or
        (record n { sessions = sessions; stream_registry = register label pipe n.stream_registry })
        pack (λ m. remove_stream label (cancel_label label m)) future

  -- `stream` at its timeout.
  unfoldable pub expire_stream : Node V → Text → Ended V × Node V
  unfolding cancel_label remove_stream
  expire_stream n label =
      let n' = remove_stream label (cancel_label label n) in
      (
        rpc_timeout,
        record n' {
          router = record n'.router { stream_routes = remove label n'.router.stream_routes };
        },
      )
