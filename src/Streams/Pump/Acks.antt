-- ===== src/Streams/Pump/Acks.antt =====
-- What `_pump` sends when the ACKs come, and when they do not.
use netpulse_monitor.Base.{
  ℕ, suc, ◌+◌, ◌*◌, ◌≤◌, ◌≡◌, refl, ap, ◌∙◌, inl, inr, Bool, true, false, Option, none, List, [],
  ◌∷◌, ◌++◌, map, take, arith, leb, length, Bool-cases, All,
}
use netpulse_monitor.Text.{Text, same_refl}
use netpulse_monitor.Dict.{lookup}
use netpulse_monitor.Dict.Laws.{lookup-remove}
use netpulse_monitor.Mesh.Router.{Pack}
use netpulse_monitor.Mesh.Sessions.{
  SessionTable, register_single, cancel, cancel_object, set_object, forget,
}
use netpulse_monitor.Streams.Pump.{chunk_pack, last_pack, ack_label, renewed, pump_loop, pump}

-- The ACKs that come before the first that does not.
abbrev pub acked : List Bool → ℕ
acked [] = 0
acked (false ∷ acks) = 0
acked (true ∷ acks) = suc (acked acks)

-- Every ACK comes.
abbrev pub Acked : List Bool → Type 0
Acked = All (λ b. b ≡ true)

pub cancel-forgets :
    {D : Type 0} (label : Text) (t : SessionTable D) → lookup label (cancel label t).table ≡ none
unfolding cancel cancel_object forget set_object
cancel-forgets label t = grind (arith, lookup-remove, same_refl)

pub cancel-forgets_meta :
    {D : Type 0} (label : Text) (t : SessionTable D) → lookup label (cancel label t).meta ≡ none
unfolding cancel cancel_object forget set_object
cancel-forgets_meta label t = grind (arith, lookup-remove, same_refl)

module _ {A D : Type 0} (ack : D) (b : ℕ) (template : Pack A) where
  pump_loop-more :
      (acks : List Bool) (sent : ℕ) (c : A) (cs : List A) (t : SessionTable D)
      → leb b (suc sent) ≡ false
      → (pump_loop ack b template acks sent (c ∷ cs) t).0
        ≡ chunk_pack template c ∷ (pump_loop ack b template acks (suc sent) cs t).0
  unfolding pump_loop
  pump_loop-more acks sent c cs t e = rw (e, pump_loop) refl

  pump_loop-acked :
      (later : List Bool) (sent : ℕ) (c : A) (cs : List A) (t : SessionTable D)
      → leb b (suc sent) ≡ true
      → (pump_loop ack b template (true ∷ later) sent (c ∷ cs) t).0
        ≡ chunk_pack template c ∷ (pump_loop ack b template later 0 cs (renewed ack template t)).0
  unfolding pump_loop
  pump_loop-acked later sent c cs t e = rw (e, pump_loop) refl

  pub pump_loop-Acked :
      (acks : List Bool) (sent : ℕ) (chunks : List A) (t : SessionTable D)
      → Acked acks
      → length chunks ≤ length acks
      → (pump_loop ack b template acks sent chunks t).0 ≡ map (chunk_pack template) chunks
  pump_loop-Acked acks sent [] t h l = unfold pump_loop in refl
  pump_loop-Acked [] sent (c ∷ cs) t h l = ground arith
  pump_loop-Acked (x ∷ acks) sent (c ∷ cs) t h l = elim (Bool-cases (leb b (suc sent))) [
    | inl e ↦
        rw (h.0, pump_loop-acked acks sent c cs t e)
          (ap (◌∷◌ (chunk_pack template c))
            (pump_loop-Acked acks 0 cs (renewed ack template t) h.1 (omega arith)))
    | inr e ↦
        pump_loop-more (x ∷ acks) sent c cs t e
        ∙ ap (◌∷◌ (chunk_pack template c))
            (pump_loop-Acked (x ∷ acks) (suc sent) cs t h (omega arith))
  ]

  -- The first so many chunks, within the window.
  abbrev Windowed : List Bool → ℕ → List A → List (Pack A) → Type 0
  Windowed acks sent chunks packs =
      (m : ℕ) × (packs ≡ map (chunk_pack template) (take m chunks))
      × (m + sent ≤ b + b * acked acks)

  -- If every ACK comes, _pump sends all the chunks.
  pub pump-Acked :
      (null : A) (acks : List Bool) (chunks : List A) (failure : Option Text) (t : SessionTable D)
      → Acked acks
      → length chunks ≤ length acks
      → (pump ack null b template acks chunks failure t).0
        ≡ map (chunk_pack template) chunks ++ last_pack null template failure ∷ []
  unfolding pump
  pump-Acked null acks chunks failure t h l =
      let label = ack_label template.label in
      ap (λ s. s ++ last_pack null template failure ∷ [])
        (pump_loop-Acked acks 0 chunks (register_single label [] [] t).1 h l)
