-- ===== src/Updates/Samples.antt =====
-- A node `n.exe` of version 1.0.0 that gets version 2.0.0. The digest of a file is its contents.
mod Starts
use netpulse_monitor.Base.{◌≡◌, refl, true, false, none, some, [], ◌∷◌, arith, All, map}
use netpulse_monitor.Text.{Text, text_of, same, lower, lstrip, is_space}
use netpulse_monitor.Text.Names.{has, NoRepeat}
use netpulse_monitor.Dict.{lookup, insert, remove}
use netpulse_monitor.Updates.{is_file, done, broken, copy_file, replace_file}
use netpulse_monitor.Updates.Versions.{
  Version, digits, int_onto, int_of, read_number, after, number_dot, build_number, at_end, skip_v,
  is_digit, parse_version, is_greater, is_text_greater, compare_read, compare_versions,
  is_newer_read, is_newer,
}
use netpulse_monitor.Updates.Boot.{
  Disk, Calls, confirming, restarting, failed_of, load_state, save_state, no_state, start,
  start_attempt, do_rollback, after_rename, after_copy, after_saved, locked_add, confirm_boot,
}
use netpulse_monitor.Updates.Boot.Attempts.{IsAllowed, IsInstalled}
use netpulse_monitor.Updates.Boot.Again.{run_starts, run_starts-restarting, run_starts-rollback}
use netpulse_monitor.Updates.Core.{old_of, Run, updater_main, replace_binary}
use netpulse_monitor.Updates.Core.Replaced.{IsKept, replace_binary-IsKept}
use netpulse_monitor.Updates.Core.Settled.{IsSound}
use netpulse_monitor.Updates.Core.Outcomes.{IsSafe}
use netpulse_monitor.Updates.Core.Broken.{updater_main-broken}
use netpulse_monitor.Updates.Install.{
  Manifest, Source, Answer, found, Found, validate_transition, single_slashes, entry_of, info_of,
  read_one, read_all, probe_all, insert_sorted, sorted, unique_versions, check,
}
use netpulse_monitor.Updates.Install.Listed.{IsKnown, check-IsListed}
use netpulse_monitor.Updates.Download.{Site, World, ok, no_transfer, staged_path}
use netpulse_monitor.Updates.Apply.{
  new_state, apply, find_info, ensure_staged, verify_staged, copy_updater, launch_updater,
}
use netpulse_monitor.Updates.Apply.Guards.{IsGuarded, apply-IsGuarded}
use netpulse_monitor.Updates.Rollout.{IsApart, finish, apply-finish-IsSafe, failed_update-confirmed}

program : Unit {0}
unfolding same lower lstrip is_space lookup insert remove is_file copy_file replace_file digits
    int_onto int_of read_number after number_dot build_number at_end skip_v is_digit parse_version
    is_greater is_text_greater compare_read compare_versions is_newer_read is_newer load_state
    save_state no_state start start_attempt do_rollback after_rename after_copy after_saved
    locked_add confirm_boot updater_main replace_binary validate_transition single_slashes entry_of
    info_of read_one read_all probe_all insert_sorted sorted unique_versions check new_state apply
    find_info ensure_staged verify_staged copy_updater launch_updater run_starts
program = tt

abbrev exe : Text
exe = text_of "n.exe"

abbrev v1 : Text
v1 = text_of "1.0.0"

abbrev v2 : Text
v2 = text_of "v2.0.0-build7"

abbrev v3 : Text
v3 = text_of "2.1.0"

abbrev manifest : Manifest
manifest = record {
  version = v2;
  exe_name = exe;
  exe_sha256 = some (text_of "new");
  ident = none;
  notes = [];
  min_compatible = [];
}

abbrev source : Source
source = record { node = text_of "s"; dst = text_of "s"; share = text_of "r" }

abbrev manifests : Source → Answer
manifests s =
    found ((text_of "2", some manifest) ∷ (text_of "x", none) ∷ (text_of "3", some manifest) ∷ [])

abbrev site : Site
site = record {
  enabled = true;
  frozen = true;
  allow_downgrade = false;
  require_signed = true;
  current = v1;
  exe_name = exe;
  exe = exe;
  updater_exe = text_of "n_update.exe";
  download_dir = text_of "d";
  sources = source ∷ [];
  answer = manifests;
  transfer = no_transfer;
  digest = λ c. c;
  is_signed = λ c. true;
  copies = done;
  launches = true;
  unlinks = true;
  now = 5;
}

abbrev staged : Text
staged = staged_path site v2

abbrev node : World
node = record {
  known = (v2, info_of exe source (text_of "2") manifest) ∷ [];
  disk = record { files = (exe, text_of "old") ∷ (staged, text_of "new") ∷ []; state = none };
}

abbrev applied : World
applied = record node {
  disk = record {
    files = (exe, text_of "old") ∷ (staged, text_of "new") ∷ (site.updater_exe, text_of "old") ∷ [];
    state = some (new_state site v2);
  };
}

apply_node : apply site v2 false node ≡ (ok tt, applied)
unfolding program
apply_node = refl

site-IsApart : IsApart site v2
unfolding program
site-IsApart = record {
  exe_staged = refl;
  old_staged = refl;
  exe_updater = refl;
  old_updater = refl;
  updater_staged = refl;
}

abbrev run : Run
run = record {
  replacing = record {
    unlinks = true;
    renames = true;
    copies = done;
    reads = true;
    restores = true;
  };
  launches = true;
  alive = true ∷ true ∷ false ∷ [];
  alive_last = true;
  rollback_copies = done;
  rollback_launches = true;
}

run-IsSound : IsSound run.replacing
run-IsSound = ((λ part e. cc), refl, refl)

node_known : lookup v2 node.known ≡ some (info_of exe source (text_of "2") manifest)
unfolding program
node_known = refl

apply-finish-IsSafe_example :
    (k c : Text) × (lookup exe applied.disk.files ≡ some k)
    × (site.digest c ≡ text_of "new")
    × IsSafe site.digest run 9 site.updater_exe exe staged k c (finish site v2 run 9 applied.disk)
unfolding info_of
apply-finish-IsSafe_example =
    apply-finish-IsSafe site v2 run 9 false node applied tt
      (info_of exe source (text_of "2") manifest) (text_of "new") site-IsApart refl run-IsSound refl
      node_known refl apply_node

apply-IsGuarded_example : IsGuarded site v2 false node applied
apply-IsGuarded_example =
    apply-IsGuarded site v2 false node applied tt site-IsApart.updater_staged apply_node
