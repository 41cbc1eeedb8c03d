-- ===== src/Mesh/Node/Transfer.antt =====
-- A stream from end to end: what `_pump` sends to a node comes out of the pipe of the stream there.
use mathlib.Core.List.{append_assoc}
use mathlib.Core.Path.{subst}
use netpulse_monitor.Base.{
  ℕ, suc, ◌+◌, ◌≤◌, ◌≡◌, refl, ap, sym, ◌∙◌, inl, inr, Bool, false, Option, none, some, List, [],
  ◌∷◌, ◌++◌, map, arith, length, length-append, append_nil, Bool-cases,
}
use netpulse_monitor.Text.{Text, is_empty}
use netpulse_monitor.Dict.{lookup, remove}
use netpulse_monitor.Mesh.Sessions.{SessionTable}
use netpulse_monitor.Mesh.Router.{Pack}
use netpulse_monitor.Mesh.Node.{Data, null, Node, Services}
use netpulse_monitor.Mesh.Node.Handle.{
  done, is_remote, touch_source, with_registry, drop_route, handle_type, handle,
}
use netpulse_monitor.Streams.{Pipe, Next, stops, raises, is_full, close, finish, drain}
use netpulse_monitor.Streams.Drain.{until_end, drain-closed}
use netpulse_monitor.Streams.Registry.{
  InboundStream, get, feed, end_stream, fail_stream, set_pipe, forget,
}
use netpulse_monitor.Streams.Registry.Laws.{
  added, HasPlaces, HasPlaces-open, failed_text, ended, set_pipe_self, forget-pipes, forget-none,
  feed-open, end_stream-open, fail_stream-open,
}
use netpulse_monitor.Streams.Pump.{pack_of, chunk_pack, last_pack, pump}
use netpulse_monitor.Streams.Pump.Acks.{Acked, pump-Acked}

module _ {V : Type 0} where
  -- The node is the end of a stream, whose pipe has so much in its queue.
  pub record IsEnd (template : Pack (Data V)) (stream : InboundStream) (p : Pipe (Data V))
      (n : Node V) : Type 0 where
    pub here : is_remote n template ≡ false
    pub found : lookup template.label n.stream_registry.streams ≡ some stream
    pub pipe : n.stream_registry.pipes stream.pipe ≡ p

  -- How the consumer's iteration ends.
  abbrev pub last_of : Option Text → Next (Data V)
  last_of none = stops
  last_of (some e) = raises (failed_text e)

module _ {V : Type 0} (s : Services V) (now client : ℕ) where
  -- A node handles packets one after the other; `none` where it waits or has no route.
  unfoldable pub deliver : Node V → List (Pack (Data V)) → Option (Node V)
  deliver n [] = some n
  deliver n (p ∷ ps) = elim (handle s now client n p) [ done (sent, n') ↦ deliver n' ps | _ ↦ none ]

  touch_source-IsEnd :
      (template q : Pack (Data V)) (stream : InboundStream) (p : Pipe (Data V)) (n : Node V)
      → IsEnd template stream p n
      → IsEnd template stream p (touch_source now n q)
  unfolding touch_source is_remote
  touch_source-IsEnd template q stream p n h = elim (Bool-cases (is_empty q.source)) [
    | inl e ↦ rw (touch_source, e) h
    | inr e ↦ rw (touch_source, e) (record { here = h.here; found = h.found; pipe = h.pipe })
  ]

  handle-chunk :
      (template : Pack (Data V)) (c : Data V) (n : Node V)
      → is_remote n template ≡ false
      → handle_type s now client n (chunk_pack template c)
        ≡ with_registry n (feed template.label c n.stream_registry)
  unfolding handle_type is_remote chunk_pack pack_of
  handle-chunk template c n h = rw (is_remote, h) refl

  chunk-IsEnd :
      (template : Pack (Data V)) (stream : InboundStream) (p : Pipe (Data V)) (c : Data V)
      (n : Node V)
      → IsEnd template stream p n
      → HasPlaces 1 p
      → (n' : Node V) × (handle s now client n (chunk_pack template c) ≡ done ([], n'))
        × IsEnd template stream (added (some c) p) n'
  unfolding handle with_registry
  chunk-IsEnd template stream p c n h r =
      let q = chunk_pack template c in
      let m = touch_source now n q in
      let g = touch_source-IsEnd template q stream p n h in
      let t = m.stream_registry in
      let p' = added (some c) (t.pipes stream.pipe) in
      let room = ap is_full g.pipe ∙ HasPlaces-open p r in
      (
        record m { stream_registry = set_pipe stream.pipe p' t },
        handle-chunk template c m g.here
            ∙ ap (with_registry m) (feed-open template.label c t stream g.found room),
        record {
          here = unfold is_remote in g.here;
          found = unfold set_pipe in g.found;
          pipe = set_pipe_self stream.pipe p' t ∙ ap (added (some c)) g.pipe;
        },
      )

  -- The queue after so many chunks.
  abbrev filled : List (Data V) → Pipe (Data V) → Pipe (Data V)
  filled cs p = record p { queue = p.queue ++ map some cs }

  HasPlaces-more :
      (k : ℕ) (c : Data V) (p : Pipe (Data V))
      → HasPlaces (suc k) p
      → HasPlaces k (added (some c) p)
  unfolding HasPlaces
  HasPlaces-more k c p h = ground (arith, length-append p.queue (some c ∷ []))

  HasPlaces-one : (k : ℕ) (p : Pipe (Data V)) → HasPlaces (suc k) p → HasPlaces 1 p
  unfolding HasPlaces
  HasPlaces-one k p h = ground arith

  deliver-done :
      (n n' : Node V) (q : Pack (Data V)) (qs : List (Pack (Data V)))
      → handle s now client n q ≡ done ([], n')
      → deliver n (q ∷ qs) ≡ deliver n' qs
  unfolding deliver
  deliver-done n n' q qs e = rw (e, deliver) refl

  deliver-chunks :
      (template : Pack (Data V)) (stream : InboundStream) (p : Pipe (Data V)) (cs : List (Data V))
      (n : Node V) (rest : List (Pack (Data V)))
      → IsEnd template stream p n
      → HasPlaces (suc (length cs)) p
      → (n' : Node V) × (deliver n (map (chunk_pack template) cs ++ rest) ≡ deliver n' rest)
        × IsEnd template stream (filled cs p) n'
        × HasPlaces 1 (filled cs p)
  deliver-chunks template stream p [] n rest h r =
      let same : filled [] p ≡ p = ap (λ l. record p { queue = l }) (append_nil p.queue) in
      (
        n,
        refl,
        subst (λ x. IsEnd template stream x n) (sym same) h,
        subst (λ x. HasPlaces 1 x) (sym same) r,
      )
  deliver-chunks template stream p (c ∷ cs) n rest h r =
      let (n', e, g) = chunk-IsEnd template stream p c n h (HasPlaces-one (suc (length cs)) p r) in
      let (n'', e', g', r') =
        deliver-chunks template stream (added (some c) p) cs n' rest g
          (HasPlaces-more (suc (length cs)) c p r) in
      let same : filled cs (added (some c) p) ≡ filled (c ∷ cs) p =
        ap (λ l. record p { queue = l }) (append_assoc p.queue (some c ∷ []) (map some cs)) in
      (
        n'',
        deliver-done n n' (chunk_pack template c) (map (chunk_pack template) cs ++ rest) e ∙ e',
        subst (λ x. IsEnd template stream x n'') same g',
        subst (λ x. HasPlaces 1 x) same r',
      )

  handle-eof :
      (template : Pack (Data V)) (n : Node V)
      → is_remote n template ≡ false
      → handle_type s now client n (last_pack null template none)
        ≡ drop_route template.label (with_registry n (end_stream template.label n.stream_registry))
  unfolding handle_type is_remote last_pack pack_of
  handle-eof template n h = rw (is_remote, h) refl

  handle-error :
      (template : Pack (Data V)) (stream : InboundStream) (e : Text) (n : Node V)
      → lookup template.label n.stream_registry.streams ≡ some stream
      → handle_type s now client n (last_pack null template (some e))
        ≡ done (
          [],
          record n {
            stream_registry = fail_stream template.label (failed_text e) n.stream_registry;
          },
        )
  unfolding handle_type last_pack pack_of get
  handle-error template stream e n h = rw (handle_type, get, h) refl

  deliver-none : (n : Node V) → deliver n [] ≡ some n
  unfolding deliver
  deliver-none n = refl

  last-ended :
      (template : Pack (Data V)) (stream : InboundStream) (p : Pipe (Data V))
      (failure : Option Text) (n : Node V)
      → IsEnd template stream p n
      → HasPlaces 1 p
      → (n' : Node V) × (handle s now client n (last_pack null template failure) ≡ done ([], n'))
        × (n'.stream_registry.pipes stream.pipe ≡ ended failure p)
        × (lookup template.label n'.stream_registry.streams ≡ none)
  unfolding handle with_registry drop_route
  last-ended template stream p none n h r =
      let q = last_pack null template none in
      let m = touch_source now n q in
      let g = touch_source-IsEnd template q stream p n h in
      let t = m.stream_registry in
      let e =
        handle-eof template m g.here
        ∙ ap (λ o. drop_route template.label (with_registry m o))
            (end_stream-open template.label t stream p g.found g.pipe (HasPlaces-open p r)) in
      (
        record m {
          router = record m.router { stream_routes = remove template.label m.router.stream_routes };
          stream_registry = forget template.label (set_pipe stream.pipe (ended none p) t);
        },
        e,
        forget-pipes template.label stream.pipe (ended none p) t,
        forget-none template.label (set_pipe stream.pipe (ended none p) t),
      )
  last-ended template stream p (some x) n h r =
      let q = last_pack null template (some x) in
      let m = touch_source now n q in
      let g = touch_source-IsEnd template q stream p n h in
      let t = m.stream_registry in
      let e = handle-error template stream x m g.found in
      (
        record m {
          stream_registry = forget template.label (set_pipe stream.pipe (ended (some x) p) t);
        },
        e
            ∙ ap (λ u. done ([], record m { stream_registry = u }))
                (fail_stream-open template.label x t stream p g.found g.pipe (HasPlaces-open p r)),
        forget-pipes template.label stream.pipe (ended (some x) p) t,
        forget-none template.label (set_pipe stream.pipe (ended (some x) p) t),
      )

  until_end-all : (cs : List (Data V)) → until_end (map some cs ++ none ∷ []) ≡ cs
  until_end-all [] = refl
  until_end-all (c ∷ cs) = ap (◌∷◌ c) (until_end-all cs)

  drain-ended :
      (k : ℕ) (cs : List (Data V)) (failure : Option Text) (p : Pipe (Data V))
      → p.queue ≡ []
      → p.error ≡ none
      → drain (suc (k + length (ended failure (filled cs p)).queue)) (ended failure (filled cs p))
        ≡ (cs, last_of failure)
  unfolding close finish
  drain-ended k cs none p e x =
      drain-closed k (ended none (filled cs p)) (unfold close in refl)
      ∙ rw (close, finish, e, x, until_end-all cs) refl
  drain-ended k cs (some y) p e x =
      drain-closed k (ended (some y) (filled cs p)) (unfold close in refl)
      ∙ rw (close, finish, e, until_end-all cs) refl

  -- A stream from end to end: the chunks that a pipe gives to _pump, all of whose ACKs come, and
  -- whose packets a node with the stream handles in order, come out of the stream's pipe there,
  -- all of them and in order, if the pipe is new and has room for them and the last packet; then
  -- the iteration stops, or raises the producer's error if the producer failed. The node has
  -- forgotten the stream.
  pub drain-pump :
      {D : Type 0} (k b : ℕ) (ack : D) (acks : List Bool) (t : SessionTable D)
      (template : Pack (Data V)) (stream : InboundStream) (p : Pipe (Data V)) (cs : List (Data V))
      (failure : Option Text) (n : Node V)
      → Acked acks
      → length cs ≤ length acks
      → IsEnd template stream p n
      → HasPlaces (suc (length cs)) p
      → p.queue ≡ []
      → p.error ≡ none
      → (n' : Node V) × (deliver n (pump ack null b template acks cs failure t).0 ≡ some n')
        × (lookup template.label n'.stream_registry.streams ≡ none)
        × (drain
              (suc (k + length (n'.stream_registry.pipes stream.pipe).queue))
              (n'.stream_registry.pipes stream.pipe)
            ≡ (cs, last_of failure))
  drain-pump k b ack acks t template stream p cs failure n a l h r e x =
      let (m, d, g, o) =
        deliver-chunks template stream p cs n (last_pack null template failure ∷ []) h r in
      let (n', d', q, gone) = last-ended template stream (filled cs p) failure m g o in
      let sent = ap (deliver n) (pump-Acked ack b template null acks cs failure t a l) in
      (
        n',
        sent ∙ d ∙ deliver-done m n' (last_pack null template failure) [] d' ∙ deliver-none n',
        gone,
        ap (λ x. drain (suc (k + length x.queue)) x) q ∙ drain-ended k cs failure p e x,
      )
