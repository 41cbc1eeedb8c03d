-- ===== src/Updates/Samples/Starts.antt =====
-- The same node when the update is started, fails, or is only listed.
use netpulse_monitor.Base.{◌≡◌, refl, true, some, [], ◌∷◌, arith, All, map}
use netpulse_monitor.Text.{text_of}
use netpulse_monitor.Text.Names.{has, NoRepeat}
use netpulse_monitor.Dict.{lookup}
use netpulse_monitor.Updates.{done, broken}
use netpulse_monitor.Updates.Boot.{
  Disk, Calls, confirming, restarting, failed_of, load_state, start, confirm_boot,
}
use netpulse_monitor.Updates.Boot.Attempts.{IsAllowed, IsInstalled}
use netpulse_monitor.Updates.Boot.Again.{run_starts, run_starts-restarting, run_starts-rollback}
use netpulse_monitor.Updates.Core.{old_of, Run, updater_main, replace_binary}
use netpulse_monitor.Updates.Core.Replaced.{IsKept, replace_binary-IsKept}
use netpulse_monitor.Updates.Core.Broken.{updater_main-broken}
use netpulse_monitor.Updates.Install.{Found, entry_of, info_of, check}
use netpulse_monitor.Updates.Install.Listed.{IsKnown, check-IsListed}
use netpulse_monitor.Updates.Apply.{new_state}
use netpulse_monitor.Updates.Rollout.{finish, failed_update-confirmed}
use netpulse_monitor.Updates.Samples.{
  program, exe, v1, v2, manifest, source, manifests, site, staged, applied, site-IsApart, run,
}

-- The node once the updater has replaced the binary.
abbrev updated : Disk
updated = record {
  files = (exe, text_of "new") ∷ (old_of exe, text_of "old") ∷ [];
  state = some (new_state site v2);
}

updated-IsInstalled :
    IsInstalled (new_state site v2) updated exe (old_of exe) v2 (text_of "new") (text_of "old")
unfolding program
updated-IsInstalled = record {
  state = refl;
  exe_path = refl;
  old_path = refl;
  to_version = refl;
  unconfirmed = refl;
  exe_file = refl;
  old_file = refl;
  old_is_other = refl;
  failed_is_other = refl;
}

abbrev calls : Calls
calls = record { renames = true; copies = done; launches = true }

calls-IsAllowed : IsAllowed calls
calls-IsAllowed = (refl, refl, refl)

no_attempts : (new_state site v2).attempts ≡ 0
unfolding program
no_attempts = refl

run_starts-rollback_example :
    let r = run_starts ((calls, 20) ∷ (calls, 30) ∷ (calls, 40) ∷ []) updated in
    (r.0 ≡ confirming ∷ confirming ∷ restarting ∷ [])
    × (lookup exe r.1.files ≡ some (text_of "old"))
    × (lookup (failed_of exe) r.1.files ≡ some (text_of "new"))
    × (has v2 (load_state r.1).locked_versions ≡ true)
run_starts-rollback_example =
    run_starts-rollback calls calls calls 20 30 40 calls-IsAllowed updated-IsInstalled no_attempts

-- The same node after two starts.
abbrev tried : Disk
tried = record updated { state = some (record (new_state site v2) { attempts = 2 }) }

tried-IsInstalled :
    IsInstalled
      (record (new_state site v2) { attempts = 2 })
      tried
      exe
      (old_of exe)
      v2
      (text_of "new")
      (text_of "old")
unfolding program
tried-IsInstalled = record {
  state = refl;
  exe_path = refl;
  old_path = refl;
  to_version = refl;
  unconfirmed = refl;
  exe_file = refl;
  old_file = refl;
  old_is_other = refl;
  failed_is_other = refl;
}

run_starts-restarting_example :
    All (λ r. r ≡ restarting) (run_starts ((calls, 40) ∷ (calls, 50) ∷ (calls, 60) ∷ []) tried).0
run_starts-restarting_example =
    run_starts-restarting ((calls, 40) ∷ (calls, 50) ∷ (calls, 60) ∷ [])
      (calls-IsAllowed, (calls-IsAllowed, (calls-IsAllowed, tt))) tried-IsInstalled (omega arith)

finish_code : (finish site v2 run 9 applied.disk).code ≡ 4
unfolding program
finish_code = refl

failed_update-confirmed_example :
    let r = start calls 20 (finish site v2 run 9 applied.disk).disk in
    let st = load_state (confirm_boot 30 r.1) in
    (r.0 ≡ confirming) × (st.boot_ok ≡ true) × (st.to_version ≡ some v2)
failed_update-confirmed_example =
    failed_update-confirmed site v2 run 9 applied.disk calls 20 30 (λ e. cc (finish_code, e)) refl

abbrev full_disk : Run
full_disk = record run {
  replacing = record {
    unlinks = true;
    renames = true;
    copies = broken (text_of "n");
    reads = true;
    restores = true;
  };
}

applied_files :
    (lookup exe applied.disk.files ≡ some (text_of "old"))
    × (lookup staged applied.disk.files ≡ some (text_of "new"))
unfolding program
applied_files = (refl, refl)

updater_main-broken_example :
    let r = updater_main site.digest full_disk 9 site.updater_exe exe staged applied.disk in
    (r.code ≡ 2)
    × (r.processes ≡ [])
    × (lookup exe r.disk.files ≡ some (text_of "n"))
    × (lookup (old_of exe) r.disk.files ≡ some (text_of "old"))
updater_main-broken_example =
    updater_main-broken site.digest full_disk 9 site.updater_exe exe staged applied.disk
      (text_of "old") (text_of "new") (text_of "n") refl refl site-IsApart.exe_staged
      site-IsApart.old_staged applied_files.0 applied_files.1

replace_binary-IsKept_example :
    IsKept full_disk.replacing exe
      (text_of "old")
      (replace_binary site.digest full_disk.replacing exe staged applied.disk.files).1
replace_binary-IsKept_example =
    replace_binary-IsKept full_disk.replacing exe site.digest staged (text_of "old")
      applied.disk.files applied_files.0

abbrev listed : Found
listed = record {
  available = entry_of v1 source manifest ∷ [];
  known = (v2, info_of exe source (text_of "3") manifest) ∷ [];
  errors = [];
}

checked_list : check v1 exe manifests (source ∷ []) [] ≡ (some listed, listed.known)
unfolding program
checked_list = refl

check-IsListed_example :
    All (IsKnown v1 exe listed.known) listed.available
    × NoRepeat (map (λ a. a.version) listed.available)
check-IsListed_example =
    check-IsListed v1 exe manifests (source ∷ []) [] listed.known listed checked_list
