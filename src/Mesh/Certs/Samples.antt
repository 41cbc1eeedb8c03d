-- ===== src/Mesh/Certs/Samples.antt =====
-- Two indexes of certificates.
use netpulse_monitor.Base.{◌≡◌, refl, true, none, some, [], ◌∷◌, if◌then◌else◌}
use netpulse_monitor.Text.{text_of, same}
use netpulse_monitor.Text.Names.{without_first, with_last}
use netpulse_monitor.Dict.{lookup, insert}
use netpulse_monitor.Mesh.Certs.{
  CertEntry, CertsIndex, Digest, CertInfo, init, merge_cert_sync, merge_digests, merge_digest,
  leave_all, leave, updated_entry, join, get_digest_for_sync, get_network_available, stale,
}
use netpulse_monitor.Mesh.Certs.Offers.{offers, installed, names, merge_cert_sync-offers}
use netpulse_monitor.Mesh.Certs.Valid.{IsValid, history, syncs, lists, history-init-IsValid}
use netpulse_monitor.Mesh.Certs.Exchange.{merge_cert_sync-get_digest_for_sync}

program : Unit {0}
unfolding merge_cert_sync merge_digests merge_digest leave_all leave updated_entry join lookup
    insert same without_first with_last get_network_available stale
program = tt

abbrev digest : Digest
digest = record {
  thumbprint = some (text_of "T1");
  subject_cn = some (text_of "CN");
  valid_to = none;
}

abbrev info : CertInfo
info = record {
  thumbprint_title = some (text_of "T1");
  thumbprint = none;
  subject_cn_title = some (text_of "CN");
  subject_cn = none;
  valid_to_title = none;
  valid_to = none;
  not_valid_after = none;
  valid_until = none;
}

abbrev entry : CertEntry
entry = record {
  thumbprint = text_of "T1";
  subject_cn = text_of "CN";
  valid_to = [];
  available_on = text_of "a" ∷ text_of "b" ∷ [];
  installed_locally = true;
  last_updated = 5;
  sync_version = 3;
}

abbrev index : CertsIndex
index = record { own_node_id = text_of "a"; entries = (text_of "T1", entry) ∷ []; sync_version = 3 }

index-IsValid : IsValid index.entries
unfolding same lookup
index-IsValid = record {
  entries = (record { key = refl; named = refl; nodes = (refl, (refl, tt)) }, tt);
  distinct = (refl, tt);
}

-- The certificate of a node that names it no more.
merge_cert_sync_left : merge_cert_sync 9 (text_of "b") [] 4 index ≡ record index {
  entries = (text_of "T1", record entry { available_on = text_of "a" ∷ [] }) ∷ [];
  sync_version = 4;
}
unfolding program
merge_cert_sync_left = refl

merge_cert_sync-offers_example :
    offers
      (text_of "b")
      (lookup (text_of "T1") (merge_cert_sync 9 (text_of "b") [] 4 index).entries)
    ≡ (if same (text_of "b") (text_of "b")
        then names (text_of "T1") []
        else offers (text_of "b") (lookup (text_of "T1") index.entries))
unfolding program
merge_cert_sync-offers_example =
    merge_cert_sync-offers 9 4 (text_of "b") (text_of "b") (text_of "T1") [] index
      (refl, (refl, tt))

history-init-IsValid_example :
    IsValid
      (history
        (init (text_of "a"))
        ((1, syncs (text_of "b") (digest ∷ []) 1) ∷ (2, lists (some info ∷ [])) ∷ [])).entries
history-init-IsValid_example =
    history-init-IsValid (text_of "a")
      ((1, syncs (text_of "b") (digest ∷ []) 1) ∷ (2, lists (some info ∷ [])) ∷ [])

merge_cert_sync-get_digest_for_sync_example :
    offers (text_of "a") (
      lookup
        (text_of "T1")
        (merge_cert_sync 9 (text_of "a") (get_digest_for_sync index) 4 index).entries)
    ≡ installed (lookup (text_of "T1") index.entries)
merge_cert_sync-get_digest_for_sync_example =
    merge_cert_sync-get_digest_for_sync 9 4 (text_of "T1") index index index-IsValid index-IsValid
