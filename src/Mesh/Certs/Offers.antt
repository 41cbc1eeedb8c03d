-- ===== src/Mesh/Certs/Offers.antt =====
-- What the index says of each node and certificate after a merge: the index stands for a relation
-- between nodes and thumbprints.
use netpulse_monitor.Base.{
  ℕ, ◌≡◌, refl, ◌∙◌, inl, inr, Bool, true, false, not, ◌&&◌, ◌||◌, Option, none, some, List, [],
  ◌∷◌, arith, if◌then◌else◌, Bool-cases, Option-cases,
}
use netpulse_monitor.Text.{Text, same, same_iff, is_empty}
use netpulse_monitor.Text.Names.{
  has, NoRepeat, has-with_last, has-without_first, with_last-NoRepeat, without_first-NoRepeat,
}
use netpulse_monitor.Dict.{Dict, lookup}
use netpulse_monitor.Dict.Laws.{lookup-insert}
use netpulse_monitor.Mesh.Neighbors.{or_else}
use netpulse_monitor.Mesh.Certs.{
  CertEntry, CertsIndex, Digest, leave, leave_all, updated_entry, join, merge_digest, merge_digests,
  merge_cert_sync,
}

-- Whether a node offers the certificate of an entry, and whether it is installed here.
abbrev pub offers : Text → Option CertEntry → Bool
offers n none = false
offers n (some e) = has n e.available_on

abbrev pub installed : Option CertEntry → Bool
installed none = false
installed (some e) = e.installed_locally

abbrev pub Sound : Option CertEntry → Type 0
Sound none = Unit
Sound (some e) = NoRepeat e.available_on

-- Whether a packet names a thumbprint.
abbrev pub names : Text → List Digest → Bool
names k [] = false
names k (d ∷ ds) =
    if not (is_empty (or_else d.thumbprint [])) && same (or_else d.thumbprint []) k
    then true
    else names k ds

pub lookup-leave_all :
    (from_node k : Text) (d : Dict CertEntry)
    → lookup k (leave_all from_node d)
      ≡ elim (lookup k d) [ none ↦ none | some e ↦ some (leave from_node e) ]
unfolding lookup leave_all
lookup-leave_all from_node k [] = refl
lookup-leave_all from_node k ((j, e) ∷ d) = ground (arith, lookup-leave_all from_node k d)

offers-leave :
    (from_node n : Text) (e : CertEntry)
    → NoRepeat e.available_on
    → has n (leave from_node e).available_on ≡ (not (same n from_node) && has n e.available_on)
unfolding leave
offers-leave from_node n e u =
    ground (arith, has-without_first from_node n e.available_on u, same_iff n from_node)

pub leave-Sound :
    (from_node : Text) (e : CertEntry)
    → NoRepeat e.available_on
    → NoRepeat (leave from_node e).available_on
unfolding leave
leave-Sound from_node e u = elim (Bool-cases (has from_node e.available_on)) [
  | inl h ↦ rw h (without_first-NoRepeat from_node e.available_on u)
  | inr h ↦ rw h u
]

available_on-updated_entry :
    (now version : ℕ) (tp : Text) (d : Digest) (e : CertEntry)
    → (updated_entry now version tp d (some e)).available_on ≡ e.available_on
unfolding updated_entry
available_on-updated_entry now version tp d e = ground arith

pub installed-updated_entry :
    (now version : ℕ) (tp : Text) (d : Digest) (o : Option CertEntry)
    → (updated_entry now version tp d o).installed_locally ≡ installed o
unfolding updated_entry
installed-updated_entry now version tp d none = refl
installed-updated_entry now version tp d (some e) = ground arith

offers-join :
    (now version : ℕ) (from_node n tp : Text) (d : Digest) (o : Option CertEntry)
    → offers n (some (join from_node (updated_entry now version tp d o)))
      ≡ (same n from_node || offers n o)
unfolding join
offers-join now version from_node n tp d none = unfold updated_entry in has-with_last from_node n []
offers-join now version from_node n tp d (some e) =
    rw (available_on-updated_entry now version tp d e) (has-with_last from_node n e.available_on)

pub join-Sound :
    (now version : ℕ) (from_node tp : Text) (d : Digest) (o : Option CertEntry)
    → Sound o
    → Sound (some (join from_node (updated_entry now version tp d o)))
unfolding join
join-Sound now version from_node tp d none u =
    unfold updated_entry in with_last-NoRepeat from_node [] tt
join-Sound now version from_node tp d (some e) u =
    rw (available_on-updated_entry now version tp d e)
      (with_last-NoRepeat from_node e.available_on u)

-- A digest changes the entry that it names only, and adds the sender there.
offers-merge_digest :
    (now version : ℕ) (from_node n k : Text) (entries : Dict CertEntry) (d : Digest)
    → offers n (lookup k (merge_digest now from_node version entries d))
      ≡ (if same n from_node && names k (d ∷ []) then true else offers n (lookup k entries))
unfolding merge_digest
offers-merge_digest now version from_node n k entries d =
    let tp = or_else d.thumbprint [] in
    let e' = join from_node (updated_entry now version tp d (lookup tp entries)) in
    let there = offers-join now version from_node n tp d (lookup tp entries) in
    ground (arith, lookup-insert tp k e' entries, same_iff tp k, there)

offers-merge_digests :
    (now version : ℕ) (from_node n k : Text) (entries : Dict CertEntry) (ds : List Digest)
    → offers n (lookup k (merge_digests now from_node version entries ds))
      ≡ (if same n from_node && names k ds then true else offers n (lookup k entries))
unfolding merge_digests
offers-merge_digests now version from_node n k entries [] = ground arith
offers-merge_digests now version from_node n k entries (d ∷ ds) =
    let rest =
      offers-merge_digests now version from_node n k (merge_digest now from_node version entries d)
        ds in
    rest ∙ ground (arith, offers-merge_digest now version from_node n k entries d)

offers-leave_all :
    (from_node n k : Text) (d : Dict CertEntry)
    → Sound (lookup k d)
    → offers n (lookup k (leave_all from_node d))
      ≡ (not (same n from_node) && offers n (lookup k d))
offers-leave_all from_node n k d u = elim (Option-cases (lookup k d)) [
  | inl e ↦ rw (lookup-leave_all from_node k d, e) (ground arith)
  | inr (c, e) ↦ rw (lookup-leave_all from_node k d, e) (offers-leave from_node n c (rw e at u))
]

-- After a CERT_SYNC packet of a node, that node offers a certificate exactly if the packet names
-- it, whatever it offered before; what the other nodes offer is as it was. The index has no node
-- twice under a certificate.
pub merge_cert_sync-offers :
    (now version : ℕ) (from_node n k : Text) (certs : List Digest) (t : CertsIndex)
    → Sound (lookup k t.entries)
    → offers n (lookup k (merge_cert_sync now from_node certs version t).entries)
      ≡ (if same n from_node then names k certs else offers n (lookup k t.entries))
unfolding merge_cert_sync
merge_cert_sync-offers now version from_node n k certs t u =
    offers-merge_digests now version from_node n k (leave_all from_node t.entries) certs
    ∙ ground (arith, offers-leave_all from_node n k t.entries u)
