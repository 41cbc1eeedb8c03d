-- ===== src/Mesh/Node.antt =====
-- `Router.handle` of netpulse/p2p_core/networking/router.py with all its branches, over the tables of a
-- node: routes, sessions, incoming streams and certificates. The services of the node are arguments:
-- what `execute` and `open_stream` do with a packet.
pub mod Handle
pub mod Answered
pub mod Iterator
pub mod Transfer
pub mod Calls
mod Samples
use mathlib.Core.List.{reverse}
use netpulse_monitor.Base.{
  ℕ, ◌+◌, Bool, true, false, ◌&&◌, ◌||◌, not, Option, none, some, List, [], ◌∷◌, ◌++◌, map, take,
  if◌then◌else◌,
}
use netpulse_monitor.Text.{Text, text_of, same, same_option, is_empty, canon, canon_option}
use netpulse_monitor.Dict.{Dict, lookup, insert, remove}
use netpulse_monitor.Mesh.Neighbors.{or_else}
use netpulse_monitor.Mesh.Neighbors.Gossip.{Entry}
use netpulse_monitor.Mesh.Router.{
  PackType, stream_chunk, stream_eof, stream_ready, error, pong, Pack, Router, StreamRoute, pos,
  get_transport_to,
}
use netpulse_monitor.Mesh.Router.Passing.{Return, finished, returns, broken, route_back}
use netpulse_monitor.Mesh.Sessions.{SessionTable, resolve}
use netpulse_monitor.Mesh.Certs.{CertsIndex, Digest}
use netpulse_monitor.Streams.{new_pipe}
use netpulse_monitor.Streams.Registry.{StreamRegistry, register}

-- What a packet carries: `None`, a word of the protocol, a value of a service, or a dictionary that
-- may lack its keys.
pub data Data (V : Type 0) : Type 0 where
  null : Data V
  word : Text → Data V
  value : V → Data V
  gossip_data : (neighbors : Option (List Entry)) (from_node : Option Text) → Data V
  announce_data : (services : Option (List Text)) (from_node : Option Text) → Data V
  cert_sync_data : (certs : Option (List Digest)) (sync_version : Option ℕ) → Data V

-- What a session gets.
pub data Answer (V : Type 0) : Type 0 where
  answer : Data V → Answer V
  exception : Option Text → Answer V

pub record Node (V : Type 0) : Type 0 where
  pub router : Router
  pub sessions : SessionTable (Answer V)
  pub stream_registry : StreamRegistry (Data V)
  pub certs_index : CertsIndex

-- What `execute` does with a packet: a result, chunks and then possibly an exception, or an
-- exception. An exception is its text as the ERROR packet has it.
pub data Executed (V : Type 0) : Type 0 where
  result : Pack (Data V) → Executed V
  generated : List (Data V) → Option Text → Executed V
  raised : Text → Executed V

-- The services: `execute`, why `open_stream` raises for a packet, the length of its buffers, and
-- the text of the validation error of a packet without a source.
pub record Services (V : Type 0) : Type 0 where
  pub execute : Pack (Data V) → Executed V
  pub refusal : Pack (Data V) → Option Text
  pub default_buff : ℕ
  pub invalid_source : Text

-- The packets that are sent, each with its socket, and the node afterwards.
abbrev pub Sent : Type 0 → Type 0
Sent V = List (ℕ × Pack (Data V)) × Node V

module _ {V : Type 0} where
  -- `_resolve_payload`
  unfoldable pub resolve_payload : Pack (Data V) → Answer V
  resolve_payload pack = elim pack.type [
    | error ↦ exception (
        some (elim pack.error_text [
          | none ↦ text_of "unknown error"
          | some e ↦ if is_empty e then text_of "unknown error" else e
        ]))
    | _ ↦ answer pack.payload
  ]

  unfoldable pub settle : Text → Answer V → Node V → Node V
  settle label a n = record n { sessions = resolve label a n.sessions }

  -- `_route_back`
  unfoldable pub return_pack : Node V → Pack (Data V) → Sent V
  unfolding resolve_payload settle
  return_pack n pack =
      let (way, router) = route_back n.router pack in
      let n' = record n { router = router } in
      elim way [
        | finished label p ↦ ([], settle label (resolve_payload p) n')
        | returns ws p ↦ ((ws, p) ∷ [], n')
        | broken ↦ ([], n')
      ]

  -- The packet over the transport to its `dst`, or nowhere.
  unfoldable pub send_direct : Node V → Pack (Data V) → Sent V
  send_direct n pack = elim pack.dst [
    | none ↦ ([], n)
    | some dst ↦
        let (transport, router) = get_transport_to n.router dst in
        elim transport [
          | none ↦ ([], record n { router = router })
          | some ws ↦ ((ws, pack) ∷ [], record n { router = router })
        ]
  ]

  abbrev pub has_path : Pack (Data V) → Bool
  has_path pack = elim pack.path [ [] ↦ false | _ ∷ _ ↦ true ]

  -- `_send_back`
  unfoldable pub answer_back : Node V → Pack (Data V) → Pack (Data V) → Sent V
  unfolding return_pack send_direct
  answer_back n response original =
      if has_path original
      then return_pack n (record response { path = original.path })
      else send_direct n response

  -- `_send_pack`
  unfoldable pub send_pack : Node V → Pack (Data V) → Sent V
  unfolding return_pack send_direct
  send_pack n pack = if has_path pack then return_pack n pack else send_direct n pack

  unfoldable pub send_packs : Node V → List (Pack (Data V)) → Sent V
  unfolding send_pack
  send_packs n [] = ([], n)
  send_packs n (p ∷ ps) =
      let (first, n') = send_pack n p in let (rest, n'') = send_packs n' ps in (first ++ rest, n'')

  -- `MsgPack(type=…, source=NODE, dst=pack.source, label=pack.label, …)`
  unfoldable pub reply : Node V → PackType → Data V → Option Text → Pack (Data V) → Pack (Data V)
  reply n type payload error_text pack = record {
    type = type;
    source = n.router.node;
    dst = some pack.source;
    service = none;
    method = none;
    payload = payload;
    label = pack.label;
    error_text = error_text;
    path = pack.path;
    ttl = pos 16;
  }

  -- The packets that `_on_request` sends.
  unfoldable pub answers : Node V → Pack (Data V) → Executed V → List (Pack (Data V))
  unfolding reply
  answers n pack (result p) = record p { path = pack.path } ∷ []
  answers n pack (raised e) = reply n error null (some e) pack ∷ []
  answers n pack (generated chunks failure) =
      map (λ c. reply n stream_chunk c none pack) chunks
      ++ elim failure [
        | none ↦ reply n stream_eof null none pack
        | some e ↦ reply n error null (some e) pack
      ]
        ∷ []

  unfoldable pub on_request : Services V → Node V → Pack (Data V) → Sent V
  unfolding answers send_packs
  on_request s n pack = send_packs n (answers n pack (s.execute pack))

  -- `_on_stream_open`, with `open_stream` of internal_modules/executor.py: the response, and the node
  -- with the stream registered.
  unfoldable pub stream_error : Node V → Text → Pack (Data V) → Pack (Data V)
  unfolding reply
  stream_error n e pack = record (reply n error null (some e) pack) { path = [] }

  unfoldable pub on_stream_open : Services V → Node V → Pack (Data V) → Pack (Data V) × Node V
  unfolding reply stream_error
  on_stream_open s n pack = elim (s.refusal pack) [
    | some e ↦ (stream_error n e pack, n)
    | none ↦
        let n' = record n {
          stream_registry =
              register pack.label
                (new_pipe (text_of "inbound_" ++ take 8 pack.label) s.default_buff)
                n.stream_registry;
        } in
        elim pack.dst [
          | none ↦ (stream_error n s.invalid_source pack, n')
          | some dst ↦ (
            record (reply n stream_ready (word (text_of "ready")) none pack) {
              source = dst;
              path = [];
            },
            n',
          )
        ]
  ]

  -- A route along a packet's path, `backward_path`, and back; `_cache_stream_route_on_open` and
  -- `_cache_stream_route_on_ready` differ in what is its source.
  unfoldable pub cache_route : ℕ → Text → Text → Node V → Pack (Data V) → Node V
  cache_route now source dst n pack =
      if not (has_path pack) || is_empty pack.source || is_empty (or_else pack.dst [])
      then n
      else record n {
        router = record n.router {
          stream_routes =
              insert pack.label
                (record {
                  label = pack.label;
                  source = canon source;
                  dst = canon dst;
                  forward_path = map canon (reverse pack.path);
                  backward_path = map canon pack.path;
                  established_at = now;
                })
                n.router.stream_routes;
        };
      }

  unfoldable pub cache_stream_route_on_open : ℕ → Node V → Pack (Data V) → Node V
  unfolding cache_route
  cache_stream_route_on_open now n pack = cache_route now pack.source (or_else pack.dst []) n pack

  unfoldable pub cache_stream_route_on_ready : ℕ → Node V → Pack (Data V) → Node V
  unfolding cache_route
  cache_stream_route_on_ready now n pack = cache_route now (or_else pack.dst []) pack.source n pack
