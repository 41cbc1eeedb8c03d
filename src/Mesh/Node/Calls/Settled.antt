-- ===== src/Mesh/Node/Calls/Settled.antt =====
-- What a call leaves among the sessions, and what becomes of a stream that is refused.
use mathlib.Core.Path.{subst}
use netpulse_monitor.Base.{
  ◌++◌, take, if◌then◌else◌, ℕ, ◌≡◌, refl, ap, sym, ◌∙◌, inl, inr, none, some, List, [], arith,
  Bool-cases, Option-cases,
}
use netpulse_monitor.Text.{Text, text_of, is_empty}
use netpulse_monitor.Dict.{lookup}
use netpulse_monitor.Dict.Laws.{lookup-insert_self}
use netpulse_monitor.Mesh.Neighbors.{or_else}
use netpulse_monitor.Mesh.Router.{stream_open, error, Pack, forward}
use netpulse_monitor.Mesh.Sessions.{SessionTable, pending, register_single}
use netpulse_monitor.Mesh.Sessions.Settling.{registered}
use netpulse_monitor.Mesh.Node.{Data, Answer, Node, Services}
use netpulse_monitor.Mesh.Node.Handle.{done, touch_source, handle_type, handle}
use netpulse_monitor.Mesh.Node.Calls.{
  Begun, local_value, local_error, no_route, sent, forward_or, open_pack, cancel_label,
  begin_stream, remove_stream, expire_stream, rpc_timeout,
}
use netpulse_monitor.Streams.{fail, new_pipe}
use netpulse_monitor.Streams.Registry.Laws.{forget-none}
use netpulse_monitor.Streams.Registry.{
  InboundStream, StreamRegistry, register, get, fail_stream, set_pipe, forget,
}
use netpulse_monitor.Streams.Pump.Acks.{cancel-forgets, cancel-forgets_meta}

module _ {V : Type 0} where
  -- The session of a label waits in a node.
  pub record IsWaiting (label : Text) (future : ℕ) (n : Node V) : Type 0 where
    pub session : lookup label n.sessions.table ≡ some future
    pub open_future : n.sessions.objects future ≡ pending

  -- Neither a session nor its metadata is left for the label.
  pub record IsForgotten (label : Text) (n : Node V) : Type 0 where
    pub session : lookup label n.sessions.table ≡ none
    pub metadata : lookup label n.sessions.meta ≡ none

  -- What a call does before it waits: where it cannot be sent it has no session, and where it is
  -- sent its session waits.
  abbrev pub Waits : Text → Begun V → Type 0
  Waits label (local_value d) = Unit
  Waits label (local_error e) = Unit
  Waits label (no_route n) = IsForgotten label n
  Waits label (sent (packs, n) future) = IsWaiting label future n

  cancel_label-forgets : (label : Text) (m : Node V) → IsForgotten label (cancel_label label m)
  unfolding cancel_label
  cancel_label-forgets label m = record {
    session = cancel-forgets label m.sessions;
    metadata = cancel-forgets_meta label m.sessions;
  }

  -- The number of the future is the next one.
  register_single-future :
      (label service method : Text) (t : SessionTable (Answer V))
      → (register_single label service method t).0 ≡ t.next
  unfolding register_single
  register_single-future label service method t = refl

  registered-IsWaiting :
      (label service method : Text) (n m : Node V)
      → m.sessions ≡ (register_single label service method n.sessions).1
      → IsWaiting label (register_single label service method n.sessions).0 m
  registered-IsWaiting label service method n m e =
      let (a, b) = registered label service method n.sessions in
      rw (register_single-future label service method n.sessions) (record {
        session = ap (λ t. lookup label t.table) e ∙ a;
        open_future = ap (λ t. t.objects n.sessions.next) e ∙ b;
      })

  fail_stream-forgets :
      (label e : Text) (t : StreamRegistry (Data V))
      → lookup label (fail_stream label e t).streams ≡ none
  unfolding fail_stream
  fail_stream-forgets label e t = elim (Option-cases (lookup label t.streams)) [
    | inl q ↦ rw (fail_stream, q) q
    | inr (stream, q) ↦
        rw (fail_stream, q)
          (forget-none label (set_pipe stream.pipe (fail e (t.pipes stream.pipe)) t))
  ]

  fail_stream-fails :
      (label e : Text) (t : StreamRegistry (Data V)) (stream : InboundStream)
      → lookup label t.streams ≡ some stream
      → (fail_stream label e t).pipes stream.pipe ≡ fail e (t.pipes stream.pipe)
  unfolding fail_stream forget set_pipe
  fail_stream-fails label e t stream q = rw (fail_stream, q) (ground arith)

  forward_or-sent :
      (n n' : Node V) (pack : Pack (Data V)) (cleanup : Node V → Node V) (future f : ℕ)
      (packs : List (ℕ × Pack (Data V)))
      → forward_or n pack cleanup future ≡ sent (packs, n') f
      → (n'.sessions ≡ n.sessions) × (n'.stream_registry ≡ n.stream_registry) × (f ≡ future)
  unfolding forward_or
  forward_or-sent n n' pack cleanup future f packs h =
      elim (Option-cases (forward n.router pack).0) [
        | inl e ↦ let g = rw (forward_or, e) at h in ground arith
        | inr (x, e) ↦ let g = rw (forward_or, e) at h in ground arith
      ]

  touch_source_tables :
      (now : ℕ) (n : Node V) (pack : Pack (Data V))
      → ((touch_source now n pack).sessions ≡ n.sessions)
        × ((touch_source now n pack).stream_registry ≡ n.stream_registry)
  unfolding touch_source
  touch_source_tables now n pack = elim (Bool-cases (is_empty pack.source)) [
    | inl h ↦ rw (touch_source, h) (refl, refl)
    | inr h ↦ rw (touch_source, h) (refl, refl)
  ]

  -- The reason that an ERROR gives to a stream.
  abbrev pub reason_of : Pack (Data V) → Text
  reason_of pack =
      let e = or_else pack.error_text [] in if is_empty e then text_of "producer failed" else e

  handle_type-refused :
      (s : Services V) (now client : ℕ) (n : Node V) (pack : Pack (Data V)) (stream : InboundStream)
      → pack.type ≡ error
      → lookup pack.label n.stream_registry.streams ≡ some stream
      → handle_type s now client n pack
        ≡ done (
          [],
          record n { stream_registry = fail_stream pack.label (reason_of pack) n.stream_registry },
        )
  unfolding handle_type get
  handle_type-refused s now client n pack stream e l = rw (handle_type, e, get, l) refl

  handle-refused :
      (s : Services V) (now client : ℕ) (n : Node V) (pack : Pack (Data V)) (future : ℕ)
      (stream : InboundStream)
      → pack.type ≡ error
      → lookup pack.label n.stream_registry.streams ≡ some stream
      → IsWaiting pack.label future n
      → (m : Node V) × (handle s now client n pack ≡ done ([], m))
        × IsWaiting pack.label future m
        × (lookup pack.label m.stream_registry.streams ≡ none)
        × (m.stream_registry.pipes stream.pipe
            ≡ fail (reason_of pack) (n.stream_registry.pipes stream.pipe))
  unfolding handle
  handle-refused s now client n pack future stream e l w =
      let m = touch_source now n pack in
      let (t, r) = touch_source_tables now n pack in
      (
        record m { stream_registry = fail_stream pack.label (reason_of pack) m.stream_registry },
        handle_type-refused s now client m pack stream e
            (ap (λ x. lookup pack.label x.streams) r ∙ l),
        record {
          session = ap (λ x. lookup pack.label x.table) t ∙ w.session;
          open_future = ap (λ x. x.objects future) t ∙ w.open_future;
        },
        fail_stream-forgets pack.label (reason_of pack) m.stream_registry,
        fail_stream-fails pack.label (reason_of pack) m.stream_registry stream
              (ap (λ x. lookup pack.label x.streams) r ∙ l)
            ∙ ap (λ x. fail (reason_of pack) (x.pipes stream.pipe)) r,
      )

  -- A node that opened a stream and waits for its answer gets none from an ERROR: the packet fails
  -- the stream's new pipe and takes the stream from the registry, and the session waits on; when its
  -- time is over, the call ends in RPCTimeout and the session is forgotten.
  pub begin_stream-refused :
      (s : Services V) (n n' : Node V) (dst service method : Text) (d : Data V)
      (packs : List (ℕ × Pack (Data V))) (future now client : ℕ) (pack : Pack (Data V))
      → begin_stream s n pack.label dst service method d ≡ sent (packs, n') future
      → pack.type ≡ error
      → (m : Node V) × (handle s now client n' pack ≡ done ([], m))
        × IsWaiting pack.label future m
        × (lookup pack.label m.stream_registry.streams ≡ none)
        × (m.stream_registry.pipes n.stream_registry.next
            ≡ fail
                (reason_of pack)
                (new_pipe (text_of "mesh_" ++ take 8 pack.label) s.default_buff))
        × ((expire_stream m pack.label).0 ≡ rpc_timeout)
        × IsForgotten pack.label (expire_stream m pack.label).1
  unfolding begin_stream register set_pipe expire_stream remove_stream
  begin_stream-refused s n n' dst service method d packs future now client pack b e =
      let label = pack.label in
      let waiting = register_single label service method n.sessions in
      let pipe = new_pipe (text_of "mesh_" ++ take 8 label) s.default_buff in
      let opened : Node V = record n {
        sessions = waiting.1;
        stream_registry = register label pipe n.stream_registry;
      } in
      let (t, r, f) =
        forward_or-sent opened n' (open_pack n stream_open label dst service method d)
          (λ m. remove_stream label (cancel_label label m)) waiting.0 future packs b in
      let stream : InboundStream = record { label = label; pipe = n.stream_registry.next } in
      let (m, h, w, l, p) =
        handle-refused s now client n' pack future stream e
          (ap (λ x. lookup label x.streams) r
            ∙ lookup-insert_self label stream n.stream_registry.streams)
          (subst (λ x. IsWaiting label x n') (sym f)
            (registered-IsWaiting label service method n n' t)) in
      let c = cancel_label-forgets label m in
      (
        m,
        h,
        w,
        l,
        p
            ∙ ap (λ x. fail (reason_of pack) (x.pipes stream.pipe)) r
            ∙ ap (fail (reason_of pack)) (ground arith),
        refl,
        record { session = c.session; metadata = c.metadata },
      )
