-- ===== src/Mesh/Certs/Exchange.antt =====
-- The local list, and two nodes that exchange their indexes.
use netpulse_monitor.Base.{
  ℕ, ◌≡◌, refl, ◌∙◌, inl, inr, true, ◌&&◌, ◌||◌, Option, none, some, List, [], ◌∷◌, map, keep_if,
  arith, Bool-cases,
}
use netpulse_monitor.Text.{Text, same_iff, same_refl, is_empty}
use netpulse_monitor.Text.Names.{has}
use netpulse_monitor.Dict.{Dict, lookup, insert, values}
use netpulse_monitor.Dict.Laws.{lookup-insert}
use netpulse_monitor.Mesh.Certs.{
  CertEntry, CertsIndex, CertInfo, thumbprint_of, local_entry, merge_local, local_thumbprints,
  clear_flag, clear_flags, update_local, merge_cert_sync, digest_of, get_digest_for_sync,
}
use netpulse_monitor.Mesh.Certs.Offers.{offers, installed, names, merge_cert_sync-offers}
use netpulse_monitor.Mesh.Certs.Valid.{IsValid, lookup-clear_flags, lookup-Sound}

installed-local_entry :
    (now : ℕ) (c : CertInfo) (o : Option CertEntry) → (local_entry now c o).installed_locally ≡ true
unfolding local_entry
installed-local_entry now c none = refl
installed-local_entry now c (some e) = refl

offers-local_entry :
    (now : ℕ) (n : Text) (c : CertInfo) (o : Option CertEntry)
    → has n (local_entry now c o).available_on ≡ offers n o
unfolding local_entry
offers-local_entry now n c none = refl
offers-local_entry now n c (some e) = refl

installed-merge_local :
    (now : ℕ) (k : Text) (d : Dict CertEntry) (cs : List (Option CertInfo))
    → installed (lookup k (merge_local now d cs))
      ≡ (has k (local_thumbprints cs) || installed (lookup k d))
unfolding merge_local local_thumbprints
installed-merge_local now k d [] = refl
installed-merge_local now k d (none ∷ cs) = installed-merge_local now k d cs
installed-merge_local now k d (some c ∷ cs) = elim (Bool-cases (is_empty (thumbprint_of c))) [
  | inl e ↦ rw e (installed-merge_local now k d cs)
  | inr e ↦
      let tp = thumbprint_of c in
      let made = local_entry now c (lookup tp d) in
      let there = installed-local_entry now c (lookup tp d) in
      rw e (
        installed-merge_local now k (insert tp made d) cs
        ∙ ground (arith, lookup-insert tp k made d, same_iff tp k, same_iff k tp, there))
]

offers-merge_local :
    (now : ℕ) (n k : Text) (d : Dict CertEntry) (cs : List (Option CertInfo))
    → offers n (lookup k (merge_local now d cs)) ≡ offers n (lookup k d)
unfolding merge_local
offers-merge_local now n k d [] = refl
offers-merge_local now n k d (none ∷ cs) = offers-merge_local now n k d cs
offers-merge_local now n k d (some c ∷ cs) = elim (Bool-cases (is_empty (thumbprint_of c))) [
  | inl e ↦ rw e (offers-merge_local now n k d cs)
  | inr e ↦
      let tp = thumbprint_of c in
      let made = local_entry now c (lookup tp d) in
      let there = offers-local_entry now n c (lookup tp d) in
      rw e (
        offers-merge_local now n k (insert tp made d) cs
        ∙ ground (arith, lookup-insert tp k made d, same_iff tp k, same_iff k tp, there))
]

installed-clear_flags :
    (tps : List Text) (k : Text) (d : Dict CertEntry)
    → installed (lookup k (clear_flags tps d)) ≡ (has k tps && installed (lookup k d))
unfolding clear_flag
installed-clear_flags tps k d = ground (arith, lookup-clear_flags tps k d)

offers-clear_flags :
    (tps : List Text) (n k : Text) (d : Dict CertEntry)
    → offers n (lookup k (clear_flags tps d)) ≡ offers n (lookup k d)
unfolding clear_flag
offers-clear_flags tps n k d = ground (arith, lookup-clear_flags tps k d)

-- After the local list is read, a certificate is installed exactly if the list has it, and what the
-- nodes offer is as it was.
pub update_local-installed :
    (now : ℕ) (n k : Text) (certs : List (Option CertInfo)) (t : CertsIndex)
    → (installed (lookup k (update_local now certs t).entries) ≡ has k (local_thumbprints certs))
      × (offers n (lookup k (update_local now certs t).entries) ≡ offers n (lookup k t.entries))
unfolding update_local
update_local-installed now n k certs t =
    let tps = local_thumbprints certs in
    let merged = merge_local now t.entries certs in
    (
      ground
          (arith, installed-clear_flags tps k merged, installed-merge_local now k t.entries certs),
      offers-clear_flags tps n k merged ∙ offers-merge_local now n k t.entries certs,
    )

names-values :
    (k : Text) (d : Dict CertEntry)
    → IsValid d
    → names k (map digest_of (keep_if (λ e. e.installed_locally) (values d)))
      ≡ installed (lookup k d)
unfolding lookup digest_of
names-values k [] v = refl
names-values k ((j, e) ∷ d) v =
    let w = v.entries.0 in
    let rest = names-values k d (record { entries = v.entries.1; distinct = v.distinct.1 }) in
    ground (arith, w.key, w.named, v.distinct.0, same_iff j k)

-- A node that reads the digest of another knows afterwards that the other offers a certificate
-- exactly if it is installed there, in indexes that are valid.
pub merge_cert_sync-get_digest_for_sync :
    (now version : ℕ) (k : Text) (a b : CertsIndex)
    → IsValid a.entries
    → IsValid b.entries
    → offers a.own_node_id
        (lookup k (merge_cert_sync now a.own_node_id (get_digest_for_sync a) version b).entries)
      ≡ installed (lookup k a.entries)
unfolding get_digest_for_sync
merge_cert_sync-get_digest_for_sync now version k a b v w =
    merge_cert_sync-offers now version a.own_node_id a.own_node_id k (get_digest_for_sync a) b
      (lookup-Sound k b.entries w)
    ∙ rw (same_refl a.own_node_id) (names-values k a.entries v)
