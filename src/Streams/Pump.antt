-- ===== src/Streams/Pump.antt =====
-- `PipeTransport._pump` of memory.py, which sends what a pipe gives to the node at the other end of a
-- stream. The chunks are what `async for` gives, with the pipe's error after them, and of each ACK
-- that it waits for whether it comes in time. The sessions of the ACKs are in the table of sessions.
pub mod Acks
use netpulse_monitor.Base.{
  ℕ, zero, suc, ◌+◌, ◌≡◌, refl, ap, ◌∙◌, inl, inr, Bool, true, false, Option, none, some, List, [],
  ◌∷◌, ◌++◌, arith, leb, if◌then◌else◌, length, take, Bool-cases,
}
use netpulse_monitor.Text.{Text, text_of}
use netpulse_monitor.Mesh.Router.{PackType, stream_chunk, stream_eof, error, Pack, ℤ, pos}
use netpulse_monitor.Mesh.Sessions.{SessionTable, register_single, resolve, cancel}

module _ {A : Type 0} where
  -- `MsgPack(type=…, source=…, dst=…, label=…)` of the template.
  unfoldable pub pack_of : PackType → A → Option Text → Pack A → Pack A
  pack_of type payload error_text template = record {
    type = type;
    source = template.source;
    dst = template.dst;
    service = none;
    method = none;
    payload = payload;
    label = template.label;
    error_text = error_text;
    path = [];
    ttl = pos 16;
  }

  unfoldable pub chunk_pack : Pack A → A → Pack A
  unfolding pack_of
  chunk_pack template chunk = pack_of stream_chunk chunk none template

  -- The packet after the loop: ERROR if the pipe failed, and otherwise STREAM_EOF.
  -- Its data is `None`.
  unfoldable pub last_pack : A → Pack A → Option Text → Pack A
  unfolding pack_of
  last_pack null template none = pack_of stream_eof null none template
  last_pack null template (some e) =
      pack_of error null (some (text_of "producer failed: " ++ e)) template

abbrev pub ack_label : Text → Text
ack_label label = text_of "ack_" ++ label

module _ {A D : Type 0} (ack : D) where
  -- An ACK that comes resolves its future, and the next one is registered.
  unfoldable pub renewed : Pack A → SessionTable D → SessionTable D
  renewed template t =
      let label = ack_label template.label in (register_single label [] [] (resolve label ack t)).1

  -- The loop: the packets that it sends, and the sessions. After an ACK that does not come the loop is left.
  unfoldable pub pump_loop :
      (buff_size : ℕ) (template : Pack A) (acks : List Bool) (sent : ℕ) (chunks : List A)
      → SessionTable D
      → List (Pack A) × SessionTable D
  pump_loop buff_size template acks sent [] t = ([], t)
  pump_loop buff_size template acks sent (c ∷ cs) t = elim (leb buff_size (suc sent)) [
    | false ↦
        let (packs, t') = pump_loop buff_size template acks (suc sent) cs t in
        (chunk_pack template c ∷ packs, t')
    | true ↦ elim acks [
      | true ∷ later ↦
          let (packs, t') = pump_loop buff_size template later 0 cs (renewed template t) in
          (chunk_pack template c ∷ packs, t')
      | _ ↦ (chunk_pack template c ∷ [], t)
    ]
  ]

  -- `_pump`
  unfoldable pub pump :
      (null : A) (buff_size : ℕ) (template : Pack A) (acks : List Bool) (chunks : List A)
      (failure : Option Text)
      → SessionTable D
      → List (Pack A) × SessionTable D
  pump null buff_size template acks chunks failure t =
      let label = ack_label template.label in
      let (_, waiting) = register_single label [] [] t in
      let (packs, t') = pump_loop buff_size template acks 0 chunks waiting in
      (packs ++ last_pack null template failure ∷ [], cancel label t')
