-- ===== src/Mesh/Neighbors/Gossip/Follows.antt =====
-- What a gossip packet may do to the entry of one node.
use mathlib.Core.Path.{subst}
use netpulse_monitor.Base.{
  ℕ, ◌≡◌, ◌≢◌, refl, sym, ◌∙◌, ◌⊎◌, inl, inr, true, Option, none, some, List, [], ◌∷◌, arith,
  Option-cases, Bool-cases, All,
}
use netpulse_monitor.Base.Ints.{
  ℤ, pos, negsuc, ltb_ℤ, leb_ℤ, eq_ℤ, eq_ℤ-eq, leb_ℤ-refl, leb_ℤ-ltb, leb_ℤ-trans,
}
use netpulse_monitor.Text.{Text, same, same_iff, canon, canon_option, same_option}
use netpulse_monitor.Dict.{lookup}
use netpulse_monitor.Dict.Laws.{lookup-insert}
use netpulse_monitor.Mesh.Neighbors.{
  Neighbor, NeighborTable, connected, known, is_connected, is_unreachable, put,
}
use netpulse_monitor.Mesh.Neighbors.Gossip.{
  Entry, refresh, new_known, incoming_hops, merge_known, merge_named, merge_entry, merge_loop,
  merge_gossip, skipped, is_refused,
}

-- The distance comes from one of the entries of a packet.
abbrev pub Offered : List Entry → ℤ → Type 0
Offered [] h = ⊥
Offered (e ∷ es) h = (incoming_hops e.hops ≡ some h) ⊎ Offered es h

-- A way that gossip of `from_node` gave: through the sender, at a distance that satisfies `P`.
pub record Given (P : ℤ → Type 0) (from_node : Text) (n : Neighbor) : Type 0 where
  pub via : n.via ≡ some from_node
  pub hops : P n.hops

-- `n` becomes `n'` through gossip of `from_node`: a direct connection is untouched, and distance
-- and next hop stay, or both are the sender's and the distance is not greater.
pub record Follows (P : ℤ → Type 0) (from_node : Text) (n n' : Neighbor) : Type 0 where
  pub identity : n'.node_id ≡ n.node_id
  pub session : n'.session_id ≡ n.session_id
  pub direct : n.status ≡ connected → n' ≡ n
  pub no_new_direct : n'.status ≡ connected → n.status ≡ connected
  pub stays_known : n.status ≡ known → n'.status ≡ known
  pub way :
      ((n'.hops ≡ n.hops) × (n'.via ≡ n.via))
      ⊎ (Given P from_node n' × (leb_ℤ n'.hops n.hops ≡ true))

-- The entry of `k` follows, or it is new, KNOWN and through the sender.
pub record Learned (P : ℤ → Type 0) (from_node : Text) (n : Neighbor) : Type 0 where
  pub status : n.status ≡ known
  pub given : Given P from_node n

module _ (P : ℤ → Type 0) where
  Follows-refl : (from_node : Text) (n : Neighbor) → Follows P from_node n n
  Follows-refl from_node n = record {
    identity = refl;
    session = refl;
    direct = λ _. refl;
    no_new_direct = λ e. e;
    stays_known = λ e. e;
    way = inl (refl, refl);
  }

  Given-same :
      {from_node : Text} {n n' : Neighbor}
      → Given P from_node n
      → n'.hops ≡ n.hops
      → n'.via ≡ n.via
      → Given P from_node n'
  Given-same g h v = record { via = v ∙ g.via; hops = subst P (sym h) g.hops }

  Follows-way :
      (from_node : Text) (n n' n'' : Neighbor)
      → ((n'.hops ≡ n.hops) × (n'.via ≡ n.via))
        ⊎ (Given P from_node n' × (leb_ℤ n'.hops n.hops ≡ true))
      → ((n''.hops ≡ n'.hops) × (n''.via ≡ n'.via))
        ⊎ (Given P from_node n'' × (leb_ℤ n''.hops n'.hops ≡ true))
      → ((n''.hops ≡ n.hops) × (n''.via ≡ n.via))
        ⊎ (Given P from_node n'' × (leb_ℤ n''.hops n.hops ≡ true))
  Follows-way from_node n n' n'' (inl f) (inl g) = inl (g.0 ∙ f.0, g.1 ∙ f.1)
  Follows-way from_node n n' n'' (inl f) (inr g) =
      inr (g.0, subst (λ h. leb_ℤ n''.hops h ≡ true) f.0 g.1)
  Follows-way from_node n n' n'' (inr f) (inl g) =
      inr (Given-same f.0 g.0 g.1, subst (λ h. leb_ℤ h n.hops ≡ true) (sym g.0) f.1)
  Follows-way from_node n n' n'' (inr f) (inr g) = inr (g.0, leb_ℤ-trans _ _ _ g.1 f.1)

  Follows-trans :
      (from_node : Text) (n n' n'' : Neighbor)
      → Follows P from_node n n'
      → Follows P from_node n' n''
      → Follows P from_node n n''
  Follows-trans from_node n n' n'' f g = record {
    identity = g.identity ∙ f.identity;
    session = g.session ∙ f.session;
    direct = λ e. ground (arith, f.direct e, g.direct);
    no_new_direct = λ e. f.no_new_direct (g.no_new_direct e);
    stays_known = λ e. g.stays_known (f.stays_known e);
    way = Follows-way from_node n n' n'' f.way g.way;
  }

  sender_way :
      (from_node : Text) (n n' : Neighbor) (h : ℤ)
      → P h
      → n'.hops ≡ h
      → n'.via ≡ some from_node
      → leb_ℤ h n.hops ≡ true
      → ((n'.hops ≡ n.hops) × (n'.via ≡ n.via))
        ⊎ (Given P from_node n' × (leb_ℤ n'.hops n.hops ≡ true))
  sender_way from_node n n' h p e v l =
      inr
        (record { via = v; hops = subst P (sym e) p }, subst (λ x. leb_ℤ x n.hops ≡ true) (sym e) l)

  refresh_way :
      (now : ℕ) (from_node : Text) (e : Entry) (h : ℤ) (n : Neighbor)
      → P h
      → let n' = refresh now from_node e h n in
        ((n'.hops ≡ n.hops) × (n'.via ≡ n.via))
        ⊎ (Given P from_node n' × (leb_ℤ n'.hops n.hops ≡ true))
  unfolding refresh
  refresh_way now from_node e h n p = elim (Bool-cases (ltb_ℤ h n.hops)) [
    | inl l ↦
        sender_way from_node n _ h p (rw (refresh, l) refl) (rw (refresh, l) refl)
          (leb_ℤ-ltb h n.hops l)
    | inr l ↦ elim (Bool-cases (eq_ℤ h n.hops)) [
      | inr q ↦ inl (rw (refresh, l, q) (ground arith), rw (refresh, l, q) (ground arith))
      | inl q ↦ elim (Bool-cases (same_option (canon_option e.via) (canon_option n.via))) [
        | inl s ↦ inl (rw (refresh, l, q, s) (ground arith), rw (refresh, l, q, s) (ground arith))
        | inr s ↦ elim (Bool-cases (is_unreachable n.status)) [
          | inl u ↦
              sender_way from_node n _ h p (rw (refresh, l, q, s, u) refl)
                (rw (refresh, l, q, s, u) refl) (rw (← (eq_ℤ-eq h n.hops q)) (leb_ℤ-refl h))
          | inr u ↦ inl (rw (refresh, l, q, s, u) refl, rw (refresh, l, q, s, u) refl)
        ]
      ]
    ]
  ]

  pub refresh-Follows :
      (now : ℕ) (from_node : Text) (e : Entry) (h : ℤ) (n : Neighbor)
      → P h
      → n.status ≢ connected
      → Follows P from_node n (refresh now from_node e h n)
  unfolding refresh
  refresh-Follows now from_node e h n p c = record {
    identity = ground arith;
    session = ground arith;
    direct = λ d. absurd (c d);
    no_new_direct = λ d. ground arith;
    stays_known = λ k. ground arith;
    way = refresh_way now from_node e h n p;
  }

  Learned-Follows :
      {from_node : Text} {n n' : Neighbor}
      → Learned P from_node n
      → Follows P from_node n n'
      → Learned P from_node n'
  Learned-Follows l f = record {
    status = f.stays_known l.status;
    given = elim f.way [ inl w ↦ Given-same l.given w.0 w.1 | inr w ↦ w.0 ];
  }

  -- What may become of one key: nothing is forgotten, and what is new was learned from the sender.
  abbrev pub Effect : Text → Option Neighbor → Option Neighbor → Type 0
  Effect from_node none none = Unit
  Effect from_node none (some n) = Learned P from_node n
  Effect from_node (some n) none = ⊥
  Effect from_node (some n) (some n') = Follows P from_node n n'

  Effect-refl : (from_node : Text) (o : Option Neighbor) → Effect from_node o o
  Effect-refl from_node none = tt
  Effect-refl from_node (some n) = Follows-refl from_node n

  Effect-trans :
      (from_node : Text) (o o' o'' : Option Neighbor)
      → Effect from_node o o'
      → Effect from_node o' o''
      → Effect from_node o o''
  Effect-trans from_node none none o'' f g = g
  Effect-trans from_node none (some n) none f g = tt
  Effect-trans from_node none (some n) (some m) f g = Learned-Follows f g
  Effect-trans from_node (some n) none o'' f g = absurd f
  Effect-trans from_node (some n) (some m) none f g = g
  Effect-trans from_node (some n) (some m) (some l) f g = Follows-trans from_node n m l f g

  put-Effect :
      (from_node : Text) (t : NeighborTable) (id k : Text) (n : Neighbor)
      → Effect from_node (lookup id t.table) (some n)
      → Effect from_node (lookup k t.table) (lookup k (put t id n).table)
  unfolding put
  put-Effect from_node t id k n h = elim (Bool-cases (same id k)) [
    | inl e ↦ rw (lookup-insert id k n t.table, e) (rw (← ((same_iff id k).0 e)) h)
    | inr e ↦ rw (lookup-insert id k n t.table, e) (Effect-refl from_node (lookup k t.table))
  ]

  merge_known-Effect :
      (now : ℕ) (from_node : Text) (t : NeighborTable) (e : Entry) (h : ℤ) (id k : Text)
      → P h
      → Effect from_node (lookup k t.table) (lookup k (merge_known now from_node t e h id).table)
  unfolding merge_known new_known
  merge_known-Effect now from_node t e h id k p = elim (Option-cases (lookup id t.table)) [
    | inl q ↦
        rw (q, merge_known)
          (put-Effect from_node t id k _
            (rw q (record { status = refl; given = record { via = refl; hops = p } })))
    | inr (n, q) ↦ elim (Bool-cases (is_connected n.status)) [
      | inl c ↦ rw (q, merge_known, c) (Effect-refl from_node (lookup k t.table))
      | inr c ↦
          rw (q, merge_known, c)
            (put-Effect from_node t id k _
              (rw q (refresh-Follows now from_node e h n p (λ d. ground arith))))
    ]
  ]

  merge_named-Effect :
      (now : ℕ) (from_node : Text) (t : NeighborTable) (e : Entry) (id k : Text)
      → ((h : ℤ) → incoming_hops e.hops ≡ some h → P h)
      → Effect from_node (lookup k t.table) (lookup k (merge_named now from_node t e id).table)
  unfolding merge_named
  merge_named-Effect now from_node t e id k p = elim (Option-cases (incoming_hops e.hops)) [
    | inl q ↦ rw (q, merge_named) (Effect-refl from_node (lookup k t.table))
    | inr (h, q) ↦ rw (q, merge_named) (merge_known-Effect now from_node t e h id k (p h q))
  ]

  merge_entry-Effect :
      (now : ℕ) (from_node : Text) (t : NeighborTable) (e : Entry) (k : Text)
      → ((h : ℤ) → incoming_hops e.hops ≡ some h → P h)
      → Effect from_node (lookup k t.table) (lookup k (merge_entry now from_node t e).table)
  unfolding merge_entry
  merge_entry-Effect now from_node t e k p = elim (Option-cases (canon_option e.node_id)) [
    | inl q ↦ rw (q, merge_entry) (Effect-refl from_node (lookup k t.table))
    | inr (id, q) ↦ elim (Bool-cases (skipped t e id)) [
      | inl c ↦ rw (q, merge_entry, c) (Effect-refl from_node (lookup k t.table))
      | inr c ↦ rw (q, merge_entry, c) (merge_named-Effect now from_node t e id k p)
    ]
  ]

  merge_loop-Effect :
      (now : ℕ) (from_node : Text) (t : NeighborTable) (es : List Entry) (k : Text)
      → ((h : ℤ) → Offered es h → P h)
      → Effect from_node (lookup k t.table) (lookup k (merge_loop now from_node t es).table)
  unfolding merge_loop
  merge_loop-Effect now from_node t [] k p = Effect-refl from_node (lookup k t.table)
  merge_loop-Effect now from_node t (e ∷ es) k p = elim (Bool-cases (is_refused t e)) [
    | inl r ↦ rw (merge_loop, r) (Effect-refl from_node (lookup k t.table))
    | inr r ↦
        let rest =
          merge_loop-Effect now from_node (merge_entry now from_node t e) es k
            (λ h q. p h (inr q)) in
        rw (merge_loop, r)
          (Effect-trans from_node (lookup k t.table)
            (lookup k (merge_entry now from_node t e).table) _
            (merge_entry-Effect now from_node t e k (λ h q. p h (inl q))) rest)
  ]

-- Whatever gossip a node receives, under every key: an entry stays, with its identity; a direct
-- connection is untouched and none is invented; distance and next hop stay, or the next hop is the
-- sender and the distance one of those that the packet offers, not greater than before; a new entry
-- is KNOWN, through the sender, at such a distance.
pub merge_gossip-Effect :
    (now : ℕ) (t : NeighborTable) (neighbors : List Entry) (from_node k : Text)
    → Effect
        (Offered neighbors)
        (canon from_node)
        (lookup k t.table)
        (lookup k (merge_gossip now t neighbors from_node).table)
unfolding merge_gossip
merge_gossip-Effect now t neighbors from_node k =
    merge_loop-Effect (Offered neighbors) now (canon from_node) t neighbors k (λ h o. o)

pub Effect-some :
    (P : ℤ → Type 0) (from_node : Text) (n : Neighbor) (o' : Option Neighbor)
    → Effect P from_node (some n) o'
    → (n' : Neighbor) × (o' ≡ some n') × Follows P from_node n n'
Effect-some P from_node n none f = absurd f
Effect-some P from_node n (some n') f = (n', refl, f)

-- Two hops or more.
abbrev pub IsFar : ℤ → Type 0
IsFar h = leb_ℤ (pos 2) h ≡ true

-- No entry offers a distance below two.
abbrev pub AllFar : List Entry → Type 0
AllFar = All (λ e. elim (incoming_hops e.hops) [ none ↦ Unit | some h ↦ IsFar h ])

Offered-IsFar : (es : List Entry) (h : ℤ) → AllFar es → Offered es h → IsFar h
Offered-IsFar [] h a o = absurd o
Offered-IsFar (e ∷ es) h a (inl q) = rw q at a.0
Offered-IsFar (e ∷ es) h a (inr o) = Offered-IsFar es h a.1 o

far_near : (h h' : ℤ) → h ≡ pos 1 → IsFar h' → leb_ℤ h' h ≡ true → ⊥
unfolding ltb_ℤ
far_near h (pos m) e f l = ground arith
far_near h (negsuc m) e f l = absurd cc

-- An entry at distance 1 with no next hop, as a lost direct connection leaves it, gets no next hop
-- from gossip whose entries are at least one hop from the sender: every later table still has it at
-- distance 1 with no next hop.
pub merge_gossip-lost_link :
    (now : ℕ) (t : NeighborTable) (neighbors : List Entry) (from_node k : Text) (n : Neighbor)
    → AllFar neighbors
    → lookup k t.table ≡ some n
    → n.hops ≡ pos 1
    → n.via ≡ none
    → (n' : Neighbor) × (lookup k (merge_gossip now t neighbors from_node).table ≡ some n')
      × (n'.hops ≡ pos 1)
      × (n'.via ≡ none)
merge_gossip-lost_link now t neighbors from_node k n a e h v =
    let (n', q, f) =
      Effect-some (Offered neighbors) (canon from_node) n _
        (rw e at (merge_gossip-Effect now t neighbors from_node k)) in
    elim f.way [
      | inl w ↦ (n', q, w.0 ∙ h, w.1 ∙ v)
      | inr (g, l) ↦ absurd (far_near n.hops n'.hops h (Offered-IsFar neighbors n'.hops a g.hops) l)
    ]
