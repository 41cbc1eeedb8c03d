-- ===== src/Updates/Boot.antt =====
-- The boot marker of netpulse/p2p_core/internal_modules/updater.py: `start`, the confirmation that it
-- plans, and the rollback. The loop that looks for updates is left out of `start`.
pub mod Attempts
pub mod Again
use netpulse_monitor.Base.{
  ℕ, ◌+◌, Bool, true, false, not, ◌&&◌, Option, none, some, List, [], ◌∷◌, ◌++◌, ltb, if◌then◌else◌,
}
use netpulse_monitor.Text.{Text, text_of}
use netpulse_monitor.Text.Names.{has}
use netpulse_monitor.Updates.{Files, is_file, Copying, copy_file, replace_file}

-- The dictionary of the state file. A missing key is `none`, `false`, 0 or the empty list.
pub record BootState : Type 0 where
  pub from_version : Option Text
  pub to_version : Option Text
  pub exe : Option Text
  pub old_exe : Option Text
  pub staged_from : Option Text
  pub attempts : ℕ
  pub pending_boot_confirm : Bool
  pub boot_ok : Bool
  pub rolled_back : Bool
  pub locked_versions : List Text
  pub staged_at : Option ℕ
  pub attempt_started_at : Option ℕ
  pub confirmed_at : Option ℕ
  pub rolled_back_at : Option ℕ

-- The files of the node and its state file, which is `none` where it is missing or unreadable.
pub record Disk : Type 0 where
  pub files : Files
  pub state : Option BootState

unfoldable pub no_state : BootState
no_state = record {
  from_version = none;
  to_version = none;
  exe = none;
  old_exe = none;
  staged_from = none;
  attempts = 0;
  pending_boot_confirm = false;
  boot_ok = false;
  rolled_back = false;
  locked_versions = [];
  staged_at = none;
  attempt_started_at = none;
  confirmed_at = none;
  rolled_back_at = none;
}

abbrev pub state_or_empty : Option BootState → BootState
state_or_empty none = no_state
state_or_empty (some st) = st

unfoldable pub load_state : Disk → BootState
unfolding no_state
load_state d = state_or_empty d.state

unfoldable pub save_state : BootState → Disk → Disk
save_state st d = record d { state = some st }

-- `MAX_ATTEMPTS`
abbrev pub max_attempts : ℕ
max_attempts = 2

-- What the system does with the calls of a rollback.
pub record Calls : Type 0 where
  pub renames : Bool
  pub copies : Copying
  pub launches : Bool

-- How `start` ends: the node runs, it runs and waits to confirm the update, it exits to be started
-- again, it stays without a rollback, or an exception leaves it.
pub data Started : Type 0 where
  running confirming restarting staying raised : Started

-- `locked_add`
unfoldable pub locked_add : Text → Disk → Disk
unfolding load_state save_state
locked_add version d =
    let st = load_state d in
    if has version st.locked_versions
    then d
    else save_state (record st { locked_versions = st.locked_versions ++ version ∷ [] }) d

abbrev pub path_of : Option Text → Text
path_of none = []
path_of (some p) = p

-- `exe.with_name(exe.name + '.failed')`
abbrev pub failed_of : Text → Text
failed_of exe = exe ++ text_of ".failed"

-- After the state of the rollback is saved: `st['to']` is locked and the node is started again.
unfoldable pub after_saved : Calls → Option Text → Disk → Started × Disk
unfolding locked_add
after_saved calls none d = (raised, d)
after_saved calls (some version) d =
    (if calls.launches then restarting else raised, locked_add version d)

-- After the copy of the old version.
unfoldable pub after_copy : Calls → ℕ → BootState → Disk → Bool × Files → Started × Disk
unfolding save_state after_saved
after_copy calls now st d (false, files) = (raised, record d { files = files })
after_copy calls now st d (true, files) = after_saved calls st.to_version (
    save_state (record st { rolled_back = true; rolled_back_at = some now })
      (record d { files = files }))

-- After the failed version is renamed.
unfoldable pub after_rename : Calls → ℕ → BootState → Disk → Bool × Files → Started × Disk
unfolding copy_file after_copy
after_rename calls now st d (false, files) = (staying, d)
after_rename calls now st d (true, files) =
    after_copy calls now st d (copy_file calls.copies (path_of st.old_exe) (path_of st.exe) files)

-- `_do_rollback`
unfoldable pub do_rollback : Calls → ℕ → BootState → Disk → Started × Disk
unfolding is_file save_state replace_file after_rename
do_rollback calls now st d =
    if is_file (path_of st.old_exe) d.files
    then after_rename calls now st d
        (replace_file calls.renames (path_of st.exe) (failed_of (path_of st.exe)) d.files)
    else (staying, save_state (record st { rolled_back = true }) d)

abbrev pub is_unconfirmed : BootState → Bool
is_unconfirmed st = st.pending_boot_confirm && not st.boot_ok

-- A start of an update that is not confirmed, once the attempt is counted.
unfoldable pub start_attempt : Calls → ℕ → BootState → Disk → Started × Disk
unfolding save_state do_rollback
start_attempt calls now st d =
    if ltb max_attempts st.attempts
    then do_rollback calls now st (save_state st d)
    else (confirming, save_state st d)

abbrev pub count_attempt : ℕ → BootState → BootState
count_attempt now st = record st { attempts = st.attempts + 1; attempt_started_at = some now }

unfoldable pub start : Calls → ℕ → Disk → Started × Disk
unfolding load_state start_attempt
start calls now d =
    if is_unconfirmed (load_state d)
    then start_attempt calls now (count_attempt now (load_state d)) d
    else (running, d)

-- `_confirm_boot_later`, after its sleep.
unfoldable pub confirm_boot : ℕ → Disk → Disk
unfolding load_state save_state
confirm_boot now d =
    let st = load_state d in
    if is_unconfirmed st
    then save_state (record st { boot_ok = true; confirmed_at = some now }) d
    else d

unfoldable pub clear_state : Disk → Disk
clear_state d = record d { state = none }
