-- ===== src/Mesh/Node/Answered.antt =====
-- An answer that comes back to the node that asked.
use netpulse_monitor.Base.{
  ℕ, ◌≡◌, refl, sym, ap, ◌∙◌, inl, inr, none, some, List, [], ◌∷◌, true, false, if◌then◌else◌,
  Bool-cases,
}
use netpulse_monitor.Text.{Text, is_empty}
use netpulse_monitor.Dict.{lookup}
use netpulse_monitor.Mesh.Router.{response, Pack, Router, last}
use netpulse_monitor.Mesh.Router.Passing.{way_back}
use netpulse_monitor.Mesh.Router.Returning.{
  Connected, trail, pass_back, pass_back-arrives, way_back-snoc, route_back-finished,
}
use netpulse_monitor.Mesh.Node.{Data, Node, Services, answer, settle, resolve_payload, return_pack}
use netpulse_monitor.Mesh.Node.Handle.{
  done, touch_source, to_client, back_or_settle, handle_type, handle,
}

module _ {V : Type 0} (s : Services V) (now client : ℕ) where
  resolve_payload-response :
      (pack : Pack (Data V)) → pack.type ≡ response → resolve_payload pack ≡ answer pack.payload
  unfolding resolve_payload
  resolve_payload-response pack e = rw (resolve_payload, e) refl

  return_pack-settled :
      (n : Node V) (pack : Pack (Data V))
      → pack.type ≡ response
      → pack.path ≡ n.router.node ∷ []
      → return_pack n pack ≡ ([], settle pack.label (answer pack.payload) n)
  unfolding return_pack settle last
  return_pack-settled n pack e p =
      let w = ap last (ap (way_back n.router) p ∙ way_back-snoc n.router []) in
      rw (return_pack, route_back-finished n.router pack w, resolve_payload-response pack e)
        (ap
          (λ (x : Router). ([], settle pack.label (answer pack.payload) (record n { router = x })))
          (ap (λ x. x.1) (route_back-finished n.router pack w)))

  back_or_settle-path :
      (n m : Node V) (pack : Pack (Data V)) (y : Text)
      → pack.path ≡ y ∷ []
      → back_or_settle n pack m ≡ return_pack n pack
  unfolding back_or_settle
  back_or_settle-path n m pack y p =
      ap (λ l. if elim l [ [] ↦ false | _ ∷ _ ↦ true ] then return_pack n pack else ([], m)) p

  handle_type-response :
      (n : Node V) (pack : Pack (Data V))
      → pack.type ≡ response
      → pack.path ≡ n.router.node ∷ []
      → lookup pack.label n.router.ws_pending ≡ none
      → handle_type s now client n pack ≡ done ([], settle pack.label (answer pack.payload) n)
  unfolding handle_type to_client
  handle_type-response n pack e p w =
      rw (handle_type, e, to_client, w)
        (ap done (
          back_or_settle-path n (settle pack.label (answer pack.payload) n) pack n.router.node p
          ∙ return_pack-settled n pack e p))

  touch_source_router :
      (n : Node V) (pack : Pack (Data V))
      → let m = touch_source now n pack in
        (m.router.node ≡ n.router.node) × (m.router.ws_pending ≡ n.router.ws_pending)
  unfolding touch_source
  touch_source_router n pack = elim (Bool-cases (is_empty pack.source)) [
    | inl h ↦ rw (touch_source, h) (refl, refl)
    | inr h ↦ rw (touch_source, h) (refl, refl)
  ]

  -- A RESPONSE whose path names connected nodes, from the one that asked to the one that answers, is
  -- passed by `_route_back` over them, the last first; the node that asked, where no client waits for
  -- the label, then gives its data to the session of the label, whose label and data are those that
  -- were sent, sends nothing, and changes nothing else but the time it last heard of the source.
  pub response-settled :
      (n : Node V) (rs : List Router) (p : Pack (Data V))
      → p.type ≡ response
      → Connected n.router rs
      → p.path ≡ trail n.router rs
      → lookup p.label n.router.ws_pending ≡ none
      → (q : Pack (Data V)) × (pass_back rs p ≡ some q)
        × (handle s now client n q
            ≡ done ([], settle p.label (answer p.payload) (touch_source now n q)))
  unfolding handle
  response-settled n rs p e c path w =
      let q : Pack (Data V) = record p { path = n.router.node ∷ [] } in
      let (node, pending) = touch_source_router n q in
      (
        q,
        pass_back-arrives n.router rs p c path,
        handle_type-response (touch_source now n q) q e (ap (λ x. x ∷ []) (sym node))
            (ap (lookup p.label) pending ∙ w),
      )
