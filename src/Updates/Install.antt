-- ===== src/Updates/Install.antt =====
-- `check`, `download` and `apply` of netpulse/p2p_core/internal_modules/updater.py. The answers of
-- other nodes, the digests and the signatures of files are arguments.
pub mod Chain
pub mod Listed
use netpulse_monitor.Base.{
  ℕ, Bool, true, false, not, ◌&&◌, ◌||◌, Option, none, some, List, [], ◌∷◌, ◌++◌, ◌==◌,
  if◌then◌else◌, any_of, take,
}
use netpulse_monitor.Text.{Text, text_of, same, is_empty}
use netpulse_monitor.Dict.{Dict, lookup, insert, remove}
use netpulse_monitor.Updates.{Files, is_file, Copying, copy_file}
use netpulse_monitor.Updates.Versions.{
  Comparison, older, level, newer, parse_version, compare_versions, is_newer, is_text_greater,
}
use netpulse_monitor.Updates.Boot.{
  BootState, Disk, no_state, load_state, save_state, is_unconfirmed,
}
use netpulse_monitor.Updates.Core.{old_of}

pub data Refusal : Type 0 where
  already_installed downgrade disabled not_frozen unconfirmed unavailable : Refusal
  no_sources check_failed not_found download_failed bad_digest timed_out not_staged unsigned :
      Refusal
  not_copied not_launched : Refusal

abbrev pub is_level : Comparison → Bool
is_level level = true
is_level _ = false

-- `_validate_transition`; `none` is `(True, '')`
unfoldable pub validate_transition :
    (current target : Text) (allow_downgrade force : Bool) → Option Refusal
unfolding compare_versions is_newer
validate_transition current target allow_downgrade force =
    if is_level (compare_versions target current)
    then some already_installed
    else if is_newer target current
    then none
    else if allow_downgrade || force
    then none
    else some downgrade

-- What a manifest says. `none` is a missing key.
pub record Manifest : Type 0 where
  pub version : Text
  pub exe_name : Text
  pub exe_sha256 : Option Text
  pub ident : Option Text
  pub notes : Text
  pub min_compatible : Text

-- A source of `update.sources`, with the node `dst` that its name stands for.
pub record Source : Type 0 where
  pub node : Text
  pub dst : Text
  pub share : Text

-- What is known of a version, `_known[version]`.
pub record Info : Type 0 where
  pub manifest : Manifest
  pub node : Text
  pub share : Text
  pub exe_rel : Text

pub record Available : Type 0 where
  pub version : Text
  pub node : Text
  pub manifest : Manifest
  pub is_new : Bool

-- The answer of a source: an error, or the directories where it has manifests, each with the manifest
-- that it returns, which is `none` where it cannot be read. A manifest that is no dictionary, or whose
-- version is no text, raises out of `_read_one`: then the answer of its source is an error.
pub data Answer : Type 0 where
  error : Text → Answer
  found : List (Text × Option Manifest) → Answer

-- `s.replace('//', '/')`
unfoldable pub single_slashes : Text → Text
single_slashes [] = []
single_slashes (c ∷ []) = c ∷ []
single_slashes (c ∷ e ∷ s) =
    let rest = single_slashes s in
    let rest' = single_slashes (e ∷ s) in if c == b'/' && e == b'/' then c ∷ rest else c ∷ rest'

unfoldable pub entry_of : (current : Text) → Source → Manifest → Available
unfolding is_newer
entry_of current s man = record {
  version = man.version;
  node = s.node;
  manifest = man;
  is_new = is_newer man.version current;
}

unfoldable pub info_of : (exe_name : Text) → Source → (rel_dir : Text) → Manifest → Info
unfolding single_slashes
info_of exe_name s rel_dir man = record {
  manifest = man;
  node = s.node;
  share = s.share;
  exe_rel =
      single_slashes (rel_dir ++ b'/' ∷ (if is_empty man.exe_name then exe_name else man.exe_name));
}

-- `_read_one`, of a manifest that was read: its entry and what is known of it, if its version is readable.
unfoldable pub read_one :
    (current exe_name : Text) → Source → Text × Option Manifest → Option (Available × Info)
unfolding parse_version entry_of info_of
read_one current exe_name s (rel_dir, none) = none
read_one current exe_name s (rel_dir, some man) = elim (parse_version man.version) [
  | none ↦ none
  | some v ↦ some (entry_of current s man, info_of exe_name s rel_dir man)
]

-- What `check` collects.
pub record Found : Type 0 where
  pub available : List Available
  pub known : Dict Info
  pub errors : Dict Text

abbrev pub add_read : Option (Available × Info) → Found → Found
add_read none c = c
add_read (some (a, i)) c = record c {
  available = c.available ++ a ∷ [];
  known = insert a.version i c.known;
}

-- The entries of one source, as if their manifests came in order.
unfoldable pub read_all :
    (current exe_name : Text) → Source → List (Text × Option Manifest) → Found → Found
unfolding read_one insert
read_all current exe_name s [] c = c
read_all current exe_name s (e ∷ es) c =
    read_all current exe_name s es (add_read (read_one current exe_name s e) c)

abbrev pub add_answer : (current exe_name : Text) → Source → Answer → Found → Found
add_answer current exe_name s (error message) c = record c {
  errors = insert s.dst message c.errors;
}
add_answer current exe_name s (found entries) c = read_all current exe_name s entries c

unfoldable pub probe_all :
    (current exe_name : Text) → (Source → Answer) → List Source → Found → Found
unfolding read_all insert
probe_all current exe_name answer [] c = c
probe_all current exe_name answer (s ∷ ss) c =
    probe_all current exe_name answer ss (add_answer current exe_name s (answer s) c)

-- `sorted(…, key=lambda x: x['version'], reverse=True)`: equal versions keep their order.
unfoldable pub insert_sorted : Available → List Available → List Available
unfolding is_text_greater
insert_sorted a [] = a ∷ []
insert_sorted a (b ∷ l) =
    let rest = insert_sorted a l in
    if is_text_greater b.version a.version then b ∷ rest else a ∷ b ∷ l

unfoldable pub sorted : List Available → List Available
unfolding insert_sorted
sorted [] = []
sorted (a ∷ l) = insert_sorted a (sorted l)

abbrev pub has_version : Text → List Available → Bool
has_version v = any_of (λ a. same a.version v)

-- The loop over the sorted list, with `seen` for the versions that stand before.
unfoldable pub unique_versions : (seen : List Text) → List Available → List Available
unfolding same
unique_versions seen [] = []
unique_versions seen (a ∷ l) =
    let rest = unique_versions seen l in
    let rest' = unique_versions (a.version ∷ seen) l in
    if any_of (same a.version) seen then rest else a ∷ rest'

-- `check({})`: what it answers, and the table of known versions afterwards.
unfoldable pub check :
    (current exe_name : Text)
    → (Source → Answer)
    → List Source
    → Dict Info
    → Option Found × Dict Info
unfolding probe_all unique_versions sorted
check current exe_name answer [] known = (none, known)
check current exe_name answer (s ∷ ss) known =
    let c =
      probe_all current exe_name answer (s ∷ ss)
        (record { available = []; known = known; errors = [] }) in
    (some (record c { available = unique_versions [] (sorted c.available) }), c.known)
