-- ===== src/Updates/Core.antt =====
-- netpulse/p2p_core/internal_modules/update.py: the process that replaces the binary of a node,
-- watches the new version and goes back to the old one. Waiting for the old process and ending
-- the web panel's is left out.
pub mod Replaced
pub mod Settled
pub mod Others
pub mod Outcomes
pub mod Broken
use netpulse_monitor.Base.{
  ℕ, Bool, true, false, not, ◌&&◌, Option, none, some, List, [], ◌∷◌, ◌++◌, if◌then◌else◌,
}
use netpulse_monitor.Text.{Text, text_of, same}
use netpulse_monitor.Dict.{lookup, remove}
use netpulse_monitor.Updates.{Files, is_file, Copying, copy_file, replace_file}
use netpulse_monitor.Updates.Boot.{BootState, Disk}

-- What the system does with the calls of `_replace_binary`.
pub record Calls : Type 0 where
  pub unlinks : Bool
  pub renames : Bool
  pub copies : Copying
  pub reads : Bool
  pub restores : Bool

pub data Replacement : Type 0 where
  replaced no_staged not_renamed not_copied not_read other_digest : Replacement

-- `old_exe.with_name(old_exe.name + ".old")`
abbrev pub old_of : Text → Text
old_of exe = exe ++ text_of ".old"

-- `os.replace(old_old, old_exe)`, where an error is ignored.
unfoldable pub restore : Calls → Text → Files → Files
unfolding replace_file
restore calls exe files = (replace_file calls.restores (old_of exe) exe files).1

-- After a copy that raised.
unfoldable pub after_failed_copy : Calls → Text → Files → Files
unfolding restore is_file
after_failed_copy calls exe files =
    if is_file (old_of exe) files && not (is_file exe files) then restore calls exe files else files

abbrev pub unlink_old : Calls → Text → Files → Files
unlink_old calls exe files = if calls.unlinks then remove (old_of exe) files else files

abbrev pub rename_old : Calls → Text → Files → Bool × Files
rename_old calls exe files =
    if is_file exe files then replace_file calls.renames exe (old_of exe) files else (true, files)

-- `digest` is `_sha256` of the contents.
module _ (digest : Text → Text) where
  -- `_sha256(p) != _sha256(q)`, negated; `none` where a file cannot be opened.
  abbrev pub same_digests : Option Text → Option Text → Option Bool
  same_digests (some c) (some e) = some (same (digest c) (digest e))
  same_digests _ _ = none

  unfoldable pub after_digests : Calls → Text → Files → Option Bool → Replacement × Files
  unfolding restore
  after_digests calls exe files none = (not_read, files)
  after_digests calls exe files (some true) = (replaced, files)
  after_digests calls exe files (some false) = (other_digest, restore calls exe files)

  unfoldable pub check_digest : Calls → Text → Text → Files → Replacement × Files
  unfolding lookup after_digests same
  check_digest calls exe staged files =
      after_digests calls exe files
        (if calls.reads then same_digests (lookup exe files) (lookup staged files) else none)

  -- After the copy of the staged file.
  unfoldable pub after_copy : Calls → Text → Text → Bool × Files → Replacement × Files
  unfolding check_digest after_failed_copy
  after_copy calls exe staged (true, files) = check_digest calls exe staged files
  after_copy calls exe staged (false, files) = (not_copied, after_failed_copy calls exe files)

  -- After the old version is renamed, or was not there.
  unfoldable pub after_rename : Calls → Text → Text → Bool × Files → Replacement × Files
  unfolding after_copy copy_file
  after_rename calls exe staged (true, files) =
      after_copy calls exe staged (copy_file calls.copies staged exe files)
  after_rename calls exe staged (false, files) = (not_renamed, files)

  -- `_replace_binary`
  unfoldable pub replace_binary : Calls → Text → Text → Files → Replacement × Files
  unfolding after_rename is_file replace_file remove
  replace_binary calls exe staged files =
      if not (is_file staged files)
      then (no_staged, files)
      else after_rename calls exe staged (rename_old calls exe (unlink_old calls exe files))

-- What the system does with the calls of `updater_main`. `alive` has the answers of
-- `is_process_alive` before the deadline, `alive_last` the one after it.
pub record Run : Type 0 where
  pub replacing : Calls
  pub launches : Bool
  pub alive : List Bool
  pub alive_last : Bool
  pub rollback_copies : Copying
  pub rollback_launches : Bool

pub data Process : Type 0 where
  new_version old_version : Process

-- The exit code, the disk afterwards and the processes that were started.
pub record Exit : Type 0 where
  pub code : ℕ
  pub disk : Disk
  pub processes : List Process

-- Whether the new version fails the watch.
unfoldable pub fails_watch : List Bool → Bool → Bool
fails_watch [] last = not last
fails_watch (true ∷ alive) last = fails_watch alive last
fails_watch (false ∷ alive) last = true

abbrev pub launched : Bool → List Process → List Process
launched true ps = ps ++ old_version ∷ []
launched false ps = ps

-- `_rollback` before the exit with a code, after the processes `ps` were started.
unfoldable pub exit_rollback : ℕ → Run → Text → Text → Disk → List Process → Exit
unfolding copy_file
exit_rollback code run updater_exe exe d ps =
    let copied = copy_file run.rollback_copies updater_exe exe d.files in
    record {
      code = code;
      disk = record d { files = copied.1 };
      processes = launched (copied.0 && run.rollback_launches) ps;
    }

abbrev pub confirmed : ℕ → Option BootState → Option BootState
confirmed now none = none
confirmed now (some st) = some (record st { boot_ok = true; confirmed_at = some now })

unfoldable pub exit_success : ℕ → Disk → Exit
exit_success now d = record {
  code = 0;
  disk = record d { state = confirmed now d.state };
  processes = new_version ∷ [];
}

-- Once the binary is replaced.
unfoldable pub launch_and_watch : Run → ℕ → Text → Text → Disk → Exit
unfolding exit_rollback exit_success fails_watch
launch_and_watch run now updater_exe exe d =
    if not run.launches
    then exit_rollback 3 run updater_exe exe d []
    else if fails_watch run.alive run.alive_last
    then exit_rollback 4 run updater_exe exe d (new_version ∷ [])
    else exit_success now d

unfoldable pub after_replacement : Run → ℕ → Text → Text → Disk → Replacement × Files → Exit
unfolding launch_and_watch
after_replacement run now updater_exe exe d (replaced, files) =
    launch_and_watch run now updater_exe exe (record d { files = files })
after_replacement run now updater_exe exe d (_, files) = record {
  code = 2;
  disk = record d { files = files };
  processes = [];
}

-- `updater_main`, from the replacement on.
unfoldable pub updater_main :
    (Text → Text) → Run → ℕ → (updater_exe exe staged : Text) → Disk → Exit
unfolding replace_binary after_replacement
updater_main digest run now updater_exe exe staged d =
    after_replacement run now updater_exe exe d
      (replace_binary digest run.replacing exe staged d.files)
