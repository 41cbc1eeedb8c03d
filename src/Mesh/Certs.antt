-- ===== src/Mesh/Certs.antt =====
-- netpulse/p2p_core/internal_modules/certs_index.py: which nodes of the mesh offer which
-- certificates. `time.monotonic()` is an argument, and log lines are left out. An entry off the wire
-- lacks a key (`none`) or has it with a text.
pub mod Valid
pub mod Offers
pub mod Exchange
mod Samples
use netpulse_monitor.Base.{
  ℕ, ◌+◌, ◌-◌, Bool, true, false, not, ◌&&◌, Option, none, some, List, [], ◌∷◌, map, max, ltb,
  if◌then◌else◌, keep_if,
}
use netpulse_monitor.Text.{Text, text_of, is_empty}
use netpulse_monitor.Text.Names.{has, without_first, with_last}
use netpulse_monitor.Dict.{Dict, lookup, insert, values}
use netpulse_monitor.Mesh.Neighbors.{or_else}

pub record CertEntry : Type 0 where
  pub thumbprint : Text
  pub subject_cn : Text
  pub valid_to : Text
  pub available_on : List Text
  pub installed_locally : Bool
  pub last_updated : ℕ
  pub sync_version : ℕ

pub record CertsIndex : Type 0 where
  pub own_node_id : Text
  pub entries : Dict CertEntry
  pub sync_version : ℕ

-- An entry of a CERT_SYNC packet.
pub record Digest : Type 0 where
  pub thumbprint : Option Text
  pub subject_cn : Option Text
  pub valid_to : Option Text

-- A certificate as the list of local ones shows it, under the names of its keys.
pub record CertInfo : Type 0 where
  pub thumbprint_title : Option Text
  pub thumbprint : Option Text
  pub subject_cn_title : Option Text
  pub subject_cn : Option Text
  pub valid_to_title : Option Text
  pub valid_to : Option Text
  pub not_valid_after : Option Text
  pub valid_until : Option Text

unfoldable pub init : Text → CertsIndex
init own = record { own_node_id = own; entries = []; sync_version = 0 }

unfoldable pub stale : ℕ → CertEntry → Bool
stale now e = ltb 180 (now - e.last_updated)

-- The first loop of `merge_cert_sync`.
unfoldable pub leave : Text → CertEntry → CertEntry
leave from_node e =
    if has from_node e.available_on
    then record e { available_on = without_first from_node e.available_on }
    else e

unfoldable pub leave_all : Text → Dict CertEntry → Dict CertEntry
unfolding leave
leave_all from_node [] = []
leave_all from_node ((k, e) ∷ d) = (k, leave from_node e) ∷ leave_all from_node d

-- The entry that a digest makes or changes, before the node is added to it.
unfoldable pub updated_entry : ℕ → ℕ → Text → Digest → Option CertEntry → CertEntry
updated_entry now version tp d none = record {
  thumbprint = tp;
  subject_cn = or_else d.subject_cn (text_of "?");
  valid_to = or_else d.valid_to [];
  available_on = [];
  installed_locally = false;
  last_updated = now;
  sync_version = version;
}
updated_entry now version tp d (some e) =
    if ltb e.sync_version version
    then record e {
      subject_cn = or_else d.subject_cn e.subject_cn;
      valid_to = or_else d.valid_to e.valid_to;
      sync_version = version;
      last_updated = now;
    }
    else record e { last_updated = now }

unfoldable pub join : Text → CertEntry → CertEntry
join from_node e = record e { available_on = with_last from_node e.available_on }

-- The body of the second loop.
unfoldable pub merge_digest : ℕ → Text → ℕ → Dict CertEntry → Digest → Dict CertEntry
unfolding updated_entry join
merge_digest now from_node version entries d =
    let tp = or_else d.thumbprint [] in
    if is_empty tp
    then entries
    else insert tp (join from_node (updated_entry now version tp d (lookup tp entries))) entries

unfoldable pub merge_digests : ℕ → Text → ℕ → Dict CertEntry → List Digest → Dict CertEntry
merge_digests now from_node version entries [] = entries
merge_digests now from_node version entries (d ∷ ds) =
    merge_digests now from_node version (merge_digest now from_node version entries d) ds

unfoldable pub merge_cert_sync : ℕ → Text → List Digest → ℕ → CertsIndex → CertsIndex
merge_cert_sync now from_node certs version t = record t {
  entries = merge_digests now from_node version (leave_all from_node t.entries) certs;
  sync_version = max t.sync_version version;
}

-- `a or b`
abbrev pub or_text : Text → Text → Text
or_text a b = if is_empty a then b else a

unfoldable pub thumbprint_of : CertInfo → Text
thumbprint_of c = or_text (or_else c.thumbprint_title []) (or_else c.thumbprint [])

unfoldable pub local_entry : ℕ → CertInfo → Option CertEntry → CertEntry
unfolding thumbprint_of
local_entry now c none = record {
  thumbprint = thumbprint_of c;
  subject_cn = or_text (or_else c.subject_cn_title []) (or_else c.subject_cn (text_of "?"));
  valid_to =
      or_text
        (or_text (or_text (or_else c.valid_to_title []) (or_else c.valid_to []))
          (or_else c.not_valid_after []))
        (or_else c.valid_until []);
  available_on = [];
  installed_locally = true;
  last_updated = now;
  sync_version = 0;
}
local_entry now c (some e) = record e { installed_locally = true; last_updated = now }

-- The loop of `update_local` over the local certificates. `none` is a value that is no dictionary.
unfoldable pub merge_local : ℕ → Dict CertEntry → List (Option CertInfo) → Dict CertEntry
unfolding local_entry
merge_local now entries [] = entries
merge_local now entries (none ∷ cs) = merge_local now entries cs
merge_local now entries (some c ∷ cs) =
    let tp = thumbprint_of c in
    merge_local now
      (if is_empty tp then entries else insert tp (local_entry now c (lookup tp entries)) entries)
      cs

-- `local_thumbprints`
unfoldable pub local_thumbprints : List (Option CertInfo) → List Text
local_thumbprints [] = []
local_thumbprints (none ∷ cs) = local_thumbprints cs
local_thumbprints (some c ∷ cs) =
    if is_empty (thumbprint_of c)
    then local_thumbprints cs
    else thumbprint_of c ∷ local_thumbprints cs

unfoldable pub clear_flag : List Text → Text → CertEntry → CertEntry
clear_flag tps k e =
    if e.installed_locally && not (has k tps) then record e { installed_locally = false } else e

-- The loop that takes the flag off.
unfoldable pub clear_flags : List Text → Dict CertEntry → Dict CertEntry
clear_flags tps [] = []
clear_flags tps ((k, e) ∷ d) = (k, clear_flag tps k e) ∷ clear_flags tps d

unfoldable pub update_local : ℕ → List (Option CertInfo) → CertsIndex → CertsIndex
update_local now certs t = record t {
  entries = clear_flags (local_thumbprints certs) (merge_local now t.entries certs);
  sync_version = t.sync_version + 1;
}

abbrev has_nodes : CertEntry → Bool
has_nodes e = elim e.available_on [ [] ↦ false | _ ∷ _ ↦ true ]

unfoldable pub get_network_available : ℕ → CertsIndex → List CertEntry
unfolding stale
get_network_available now t =
    keep_if (λ e. not e.installed_locally && has_nodes e && not (stale now e)) (values t.entries)

unfoldable pub get_by_thumbprint : CertsIndex → Text → Option CertEntry
get_by_thumbprint t tp = lookup tp t.entries

unfoldable pub digest_of : CertEntry → Digest
digest_of e = record {
  thumbprint = some e.thumbprint;
  subject_cn = some e.subject_cn;
  valid_to = some e.valid_to;
}

unfoldable pub get_digest_for_sync : CertsIndex → List Digest
unfolding digest_of
get_digest_for_sync t = map digest_of (keep_if (λ e. e.installed_locally) (values t.entries))
