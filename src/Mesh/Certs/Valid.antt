-- ===== src/Mesh/Certs/Valid.antt =====
-- Any history of calls of the index of certificates keeps it in order.
use netpulse_monitor.Base.{
  ℕ, ◌≡◌, refl, inl, inr, false, not, ◌&&◌, Option, none, some, List, [], ◌∷◌, arith, Bool-cases,
  Option-cases,
}
use netpulse_monitor.Text.{Text, same_iff, is_empty}
use netpulse_monitor.Text.Names.{NoRepeat, has}
use netpulse_monitor.Dict.{Dict, lookup, insert}
use netpulse_monitor.Dict.Laws.{Entries, insert-Entries, lookup-Entries}
use netpulse_monitor.Dict.Distinct.{Distinct, insert-Distinct}
use netpulse_monitor.Mesh.Neighbors.{or_else}
use netpulse_monitor.Mesh.Certs.{
  CertEntry, CertsIndex, Digest, CertInfo, init, leave, leave_all, updated_entry, join,
  merge_digest, merge_digests, merge_cert_sync, thumbprint_of, local_entry, merge_local,
  local_thumbprints, clear_flag, clear_flags, update_local,
}
use netpulse_monitor.Mesh.Certs.Offers.{Sound, leave-Sound, join-Sound, lookup-leave_all}

-- An entry carries the thumbprint of its key, and names no node twice.
pub record IsWell (k : Text) (e : CertEntry) : Type 0 where
  pub key : e.thumbprint ≡ k
  pub named : is_empty k ≡ false
  pub nodes : NoRepeat e.available_on

pub record IsValid (d : Dict CertEntry) : Type 0 where
  pub entries : Entries IsWell d
  pub distinct : Distinct d

leave-thumbprint :
    (from_node : Text) (e : CertEntry) → (leave from_node e).thumbprint ≡ e.thumbprint
unfolding leave
leave-thumbprint from_node e = ground arith

leave_all-Entries :
    (from_node : Text) (d : Dict CertEntry)
    → Entries IsWell d
    → Entries IsWell (leave_all from_node d)
unfolding leave_all
leave_all-Entries from_node [] h = tt
leave_all-Entries from_node ((k, e) ∷ d) h = (
  record {
    key = rw (leave-thumbprint from_node e) h.0.key;
    named = h.0.named;
    nodes = leave-Sound from_node e h.0.nodes;
  },
  leave_all-Entries from_node d h.1,
)

leave_all-none :
    (from_node k : Text) (d : Dict CertEntry)
    → lookup k d ≡ none
    → lookup k (leave_all from_node d) ≡ none
leave_all-none from_node k d e = rw (lookup-leave_all from_node k d, e) refl

leave_all-Distinct :
    (from_node : Text) (d : Dict CertEntry) → Distinct d → Distinct (leave_all from_node d)
unfolding leave_all
leave_all-Distinct from_node [] h = tt
leave_all-Distinct from_node ((k, e) ∷ d) h =
    (leave_all-none from_node k d h.0, leave_all-Distinct from_node d h.1)

insert-IsValid :
    (k : Text) (e : CertEntry) (d : Dict CertEntry)
    → IsWell k e
    → IsValid d
    → IsValid (insert k e d)
insert-IsValid k e d w v = record {
  entries = insert-Entries IsWell k e d w v.entries;
  distinct = insert-Distinct k e d v.distinct;
}

updated_entry-thumbprint :
    (now version : ℕ) (tp : Text) (d : Digest) (entries : Dict CertEntry)
    → IsValid entries
    → (updated_entry now version tp d (lookup tp entries)).thumbprint ≡ tp
unfolding updated_entry
updated_entry-thumbprint now version tp d entries v = elim (Option-cases (lookup tp entries)) [
  | inl e ↦ ground arith
  | inr (c, e) ↦ let w = (lookup-Entries IsWell tp entries c e v.entries).key in ground arith
]

pub lookup-Sound : (k : Text) (d : Dict CertEntry) → IsValid d → Sound (lookup k d)
lookup-Sound k d v = elim (Option-cases (lookup k d)) [
  | inl e ↦ rw e tt
  | inr (c, e) ↦ rw e (lookup-Entries IsWell k d c e v.entries).nodes
]

merge_digest-IsValid :
    (now version : ℕ) (from_node : Text) (entries : Dict CertEntry) (d : Digest)
    → IsValid entries
    → IsValid (merge_digest now from_node version entries d)
unfolding merge_digest
merge_digest-IsValid now version from_node entries d v =
    let tp = or_else d.thumbprint [] in
    elim (Bool-cases (is_empty tp)) [
      | inl e ↦ rw e v
      | inr e ↦ rw e (
          insert-IsValid tp (join from_node (updated_entry now version tp d (lookup tp entries)))
            entries
            (record {
              key = unfold join in updated_entry-thumbprint now version tp d entries v;
              named = e;
              nodes =
                  join-Sound now version from_node tp d (lookup tp entries)
                    (lookup-Sound tp entries v);
            })
            v)
    ]

merge_digests-IsValid :
    (now version : ℕ) (from_node : Text) (entries : Dict CertEntry) (ds : List Digest)
    → IsValid entries
    → IsValid (merge_digests now from_node version entries ds)
unfolding merge_digests
merge_digests-IsValid now version from_node entries [] v = v
merge_digests-IsValid now version from_node entries (d ∷ ds) v =
    merge_digests-IsValid now version from_node (merge_digest now from_node version entries d) ds
      (merge_digest-IsValid now version from_node entries d v)

pub merge_cert_sync-IsValid :
    (now version : ℕ) (from_node : Text) (certs : List Digest) (t : CertsIndex)
    → IsValid t.entries
    → IsValid (merge_cert_sync now from_node certs version t).entries
unfolding merge_cert_sync
merge_cert_sync-IsValid now version from_node certs t v =
    merge_digests-IsValid now version from_node (leave_all from_node t.entries) certs (record {
      entries = leave_all-Entries from_node t.entries v.entries;
      distinct = leave_all-Distinct from_node t.entries v.distinct;
    })

local_entry-IsWell :
    (now : ℕ) (c : CertInfo) (entries : Dict CertEntry)
    → is_empty (thumbprint_of c) ≡ false
    → IsValid entries
    → IsWell (thumbprint_of c) (local_entry now c (lookup (thumbprint_of c) entries))
unfolding local_entry
local_entry-IsWell now c entries n v = elim (Option-cases (lookup (thumbprint_of c) entries)) [
  | inl e ↦ rw e (record { key = refl; named = n; nodes = tt })
  | inr (x, e) ↦
      let w = lookup-Entries IsWell (thumbprint_of c) entries x e v.entries in
      rw e (record { key = w.key; named = n; nodes = w.nodes })
]

merge_local-IsValid :
    (now : ℕ) (entries : Dict CertEntry) (cs : List (Option CertInfo))
    → IsValid entries
    → IsValid (merge_local now entries cs)
unfolding merge_local
merge_local-IsValid now entries [] v = v
merge_local-IsValid now entries (none ∷ cs) v = merge_local-IsValid now entries cs v
merge_local-IsValid now entries (some c ∷ cs) v = elim (Bool-cases (is_empty (thumbprint_of c))) [
  | inl e ↦ rw e (merge_local-IsValid now entries cs v)
  | inr e ↦
      let made = local_entry now c (lookup (thumbprint_of c) entries) in
      rw e (
        merge_local-IsValid now (insert (thumbprint_of c) made entries) cs
          (insert-IsValid (thumbprint_of c) made entries (local_entry-IsWell now c entries e v) v))
]

clear_flag-IsWell :
    (tps : List Text) (k : Text) (e : CertEntry) → IsWell k e → IsWell k (clear_flag tps k e)
unfolding clear_flag
clear_flag-IsWell tps k e w = elim (Bool-cases (e.installed_locally && not (has k tps))) [
  | inl h ↦ rw h (record { key = w.key; named = w.named; nodes = w.nodes })
  | inr h ↦ rw h w
]

clear_flags-Entries :
    (tps : List Text) (d : Dict CertEntry) → Entries IsWell d → Entries IsWell (clear_flags tps d)
unfolding clear_flags
clear_flags-Entries tps [] h = tt
clear_flags-Entries tps ((k, e) ∷ d) h =
    (clear_flag-IsWell tps k e h.0, clear_flags-Entries tps d h.1)

pub lookup-clear_flags :
    (tps : List Text) (k : Text) (d : Dict CertEntry)
    → lookup k (clear_flags tps d)
      ≡ elim (lookup k d) [ none ↦ none | some e ↦ some (clear_flag tps k e) ]
unfolding lookup clear_flags
lookup-clear_flags tps k [] = refl
lookup-clear_flags tps k ((j, e) ∷ d) = ground (arith, lookup-clear_flags tps k d, same_iff j k)

clear_flags-none :
    (tps : List Text) (k : Text) (d : Dict CertEntry)
    → lookup k d ≡ none
    → lookup k (clear_flags tps d) ≡ none
clear_flags-none tps k d e = rw (lookup-clear_flags tps k d, e) refl

clear_flags-Distinct :
    (tps : List Text) (d : Dict CertEntry) → Distinct d → Distinct (clear_flags tps d)
unfolding clear_flags
clear_flags-Distinct tps [] h = tt
clear_flags-Distinct tps ((k, e) ∷ d) h =
    (clear_flags-none tps k d h.0, clear_flags-Distinct tps d h.1)

pub update_local-IsValid :
    (now : ℕ) (certs : List (Option CertInfo)) (t : CertsIndex)
    → IsValid t.entries
    → IsValid (update_local now certs t).entries
unfolding update_local
update_local-IsValid now certs t v =
    let w = merge_local-IsValid now t.entries certs v in
    let tps = local_thumbprints certs in
    let merged = merge_local now t.entries certs in
    record {
      entries = clear_flags-Entries tps merged w.entries;
      distinct = clear_flags-Distinct tps merged w.distinct;
    }

pub data Call : Type 0 where
  syncs : Text → List Digest → ℕ → Call
  lists : List (Option CertInfo) → Call

-- A history of calls, each with its time.
unfoldable pub history : CertsIndex → List (ℕ × Call) → CertsIndex
history t [] = t
history t ((now, syncs from_node certs version) ∷ cs) =
    history (merge_cert_sync now from_node certs version t) cs
history t ((now, lists certs) ∷ cs) = history (update_local now certs t) cs

history-IsValid :
    (t : CertsIndex) (cs : List (ℕ × Call)) → IsValid t.entries → IsValid (history t cs).entries
unfolding history
history-IsValid t [] v = v
history-IsValid t ((now, syncs from_node certs version) ∷ cs) v =
    history-IsValid (merge_cert_sync now from_node certs version t) cs
      (merge_cert_sync-IsValid now version from_node certs t v)
history-IsValid t ((now, lists certs) ∷ cs) v =
    history-IsValid (update_local now certs t) cs (update_local-IsValid now certs t v)

-- After any history of packets and of local lists, at any times and with any versions, the keys of
-- the index are distinct and not empty, each entry carries its key's thumbprint, and no entry names
-- a node twice.
pub history-init-IsValid :
    (own : Text) (cs : List (ℕ × Call)) → IsValid (history (init own) cs).entries
unfolding init
history-init-IsValid own cs = history-IsValid (init own) cs (record { entries = tt; distinct = tt })
