-- ===== src/Mesh/Node/Iterator.antt =====
-- `send_stream_ack` and `_MeshStreamIterator` of router.py: the consumer of a stream that a node opened.
use netpulse_monitor.Base.{
  ℕ, zero, suc, ◌+◌, ◌≡◌, refl, ap, ◌∙◌, inl, inr, Bool, true, false, Option, none, some, List, [],
  ◌∷◌, ◌++◌, arith, leb, map, Bool-cases, if◌then◌else◌, length,
}
use netpulse_monitor.Text.{Text}
use netpulse_monitor.Mesh.Router.{stream_ack, Pack, StreamRoute, pos}
use netpulse_monitor.Mesh.Router.Passing.{get_stream_route}
use netpulse_monitor.Mesh.Node.{Data, Node, Sent, return_pack, send_direct, has_path}
use netpulse_monitor.Streams.{
  Pipe, Next, waits, item, stops, fail, put_sentinel, is_full, size, put_nowait, close,
}
use netpulse_monitor.Streams.Drain.{until_end}

module _ {V : Type 0} where
  -- The packet; its data, the buffer, is an argument.
  unfoldable pub ack_pack : Node V → Text → Data V → Option StreamRoute → Pack (Data V)
  ack_pack n label buff route = record {
    type = stream_ack;
    source = n.router.node;
    dst = elim route [ none ↦ none | some r ↦ some r.source ];
    service = none;
    method = none;
    payload = buff;
    label = label;
    error_text = none;
    path = elim route [ none ↦ [] | some r ↦ r.backward_path ];
    ttl = pos 16;
  }

  unfoldable pub send_stream_ack : ℕ → Node V → Text → Data V → Sent V
  unfolding ack_pack
  send_stream_ack now n label buff =
      let (route, router) = get_stream_route now n.router label in
      let n' = record n { router = router } in
      let pack = ack_pack n' label buff route in
      if has_path pack then return_pack n' pack else send_direct n' pack

module _ {A : Type 0} where
  -- `__anext__`, on its pipe and its count of chunks since the last ACK: what it gives, whether it
  -- sends an ACK, the pipe and the count.
  unfoldable pub next_chunk : Pipe A → ℕ → Next A × Bool × Pipe A × ℕ
  next_chunk p since_ack = elim p.queue [
    | [] ↦ (waits, false, p, since_ack)
    | none ∷ q ↦ (stops, false, record p { queue = q }, since_ack)
    | some chunk ∷ q ↦
        let p' = record p { queue = q } in
        if leb p.buff_len (suc since_ack)
        then (item chunk, true, p', 0)
        else (item chunk, false, p', suc since_ack)
  ]

  -- The iteration, at most so many times round: the chunks, and how it ends.
  unfoldable pub chunks : ℕ → Pipe A → ℕ → List A × Next A
  chunks zero p since_ack = ([], waits)
  chunks (suc n) p since_ack =
      let (r, _, p', since_ack') = next_chunk p since_ack in
      elim r [ item a ↦ let (got, end) = chunks n p' since_ack' in (a ∷ got, end) | r ↦ ([], r) ]

  has_end : List (Option A) → Bool
  has_end [] = false
  has_end (none ∷ q) = true
  has_end (some a ∷ q) = has_end q

  chunks-queue :
      (n k : ℕ) (p : Pipe A) (q : List (Option A))
      → p.queue ≡ q
      → chunks (suc (n + length q)) p k ≡ (until_end q, if has_end q then stops else waits)
  unfolding chunks next_chunk has_end
  chunks-queue n k p [] e = rw (chunks, next_chunk, e) refl
  chunks-queue n k p (none ∷ q) e = rw (chunks, next_chunk, e) refl
  chunks-queue n k p (some a ∷ q) e = elim (Bool-cases (leb p.buff_len (suc k))) [
    | inl h ↦ let rest = chunks-queue n 0 (record p { queue = q }) q refl in grind arith
    | inr h ↦ let rest = chunks-queue n (suc k) (record p { queue = q }) q refl in grind arith
  ]

  until_end-chunks :
      (cs : List A)
      → (until_end (map some cs ++ none ∷ []) ≡ cs)
        × (until_end (map some cs) ≡ cs)
        × (has_end (map some cs ++ none ∷ []) ≡ true)
        × (has_end (map some cs) ≡ false)
  unfolding has_end
  until_end-chunks [] = (refl, refl, refl, refl)
  until_end-chunks (c ∷ cs) =
      let (a, b, x, y) = until_end-chunks cs in (ap (◌∷◌ c) a, ap (◌∷◌ c) b, x, y)

  -- The consumer of a stream that a node opened does not see that the stream failed: after `fail`
  -- it gets the chunks that the pipe still had, and then the end of the iteration as after a stream
  -- that is complete, or, if the pipe was full, it waits; it never gets the error.
  pub chunks-fail :
      (n k : ℕ) (e : Text) (p : Pipe A) (cs : List A)
      → p.queue ≡ map some cs
      → chunks (suc (n + length (fail e p).queue)) (fail e p) k
        ≡ (cs, if is_full p then waits else stops)
  unfolding fail put_sentinel put_nowait is_full size close
  chunks-fail n k e p cs h =
      let (a, b, x, y) = until_end-chunks cs in
      chunks-queue n k (fail e p) (fail e p).queue refl
      ∙ elim (Bool-cases (is_full p)) [ inl f ↦ grind arith | inr f ↦ grind arith ]
