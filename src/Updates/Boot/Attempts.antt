-- ===== src/Updates/Boot/Attempts.antt =====
-- How often an update is started before it is rolled back.
use netpulse_monitor.Base.{
  ℕ, ◌+◌, ◌≤◌, ◌<◌, ◌≡◌, refl, ap, ◌∙◌, inl, inr, true, false, some, arith, Bool-cases, lt→ltb,
}
use netpulse_monitor.Text.{Text, same}
use netpulse_monitor.Text.Names.{has, with_last}
use netpulse_monitor.Dict.{lookup, insert, remove}
use netpulse_monitor.Dict.Laws.{lookup-insert, lookup-remove}
use netpulse_monitor.Updates.{Files, done}
use netpulse_monitor.Updates.Lookups.{is_file-found, replace_file-found, copy_file-found}
use netpulse_monitor.Updates.Boot.{
  BootState, Disk, Calls, running, confirming, restarting, load_state, save_state, start,
  start_attempt, do_rollback, after_rename, after_copy, after_saved, locked_add, confirm_boot,
  is_unconfirmed, count_attempt, max_attempts, failed_of,
}

-- The system lets every call of a rollback through.
abbrev pub IsAllowed : Calls → Type 0
IsAllowed calls = (calls.renames ≡ true) × (calls.copies ≡ done) × (calls.launches ≡ true)

-- An update from `exe` that kept the old version.
pub record IsInstalled (st : BootState) (d : Disk) (exe old to failing kept : Text) : Type 0 where
  pub state : d.state ≡ some st
  pub exe_path : st.exe ≡ some exe
  pub old_path : st.old_exe ≡ some old
  pub to_version : st.to_version ≡ some to
  pub unconfirmed : is_unconfirmed st ≡ true
  pub exe_file : lookup exe d.files ≡ some failing
  pub old_file : lookup old d.files ≡ some kept
  pub old_is_other : same exe old ≡ false
  pub failed_is_other : same (failed_of exe) old ≡ false

module _ (calls : Calls) (now : ℕ) (d : Disk) where
  -- A node without an update that waits for its confirmation starts and changes nothing.
  pub start-running : is_unconfirmed (load_state d) ≡ false → start calls now d ≡ (running, d)
  unfolding start
  start-running h = ground arith

  -- A start confirms, and a later start runs.
  pub confirm_boot-running : start calls now (confirm_boot now d) ≡ (running, confirm_boot now d)
  unfolding start confirm_boot load_state save_state
  confirm_boot-running = ground arith

  pub start-confirming :
      (st : BootState)
      → d.state ≡ some st
      → is_unconfirmed st ≡ true
      → st.attempts < max_attempts
      → start calls now d ≡ (confirming, save_state (count_attempt now st) d)
  unfolding start load_state start_attempt
  start-confirming st e u h = rw (start, e) (ground arith)

-- What a rollback leaves.
abbrev pub rolled_files : Files → Text → Text → Text → Files
rolled_files files exe failing kept =
    insert exe kept (insert (failed_of exe) failing (remove exe files))

abbrev pub rolled_state : ℕ → Text → BootState → BootState
rolled_state now to st = record (count_attempt now st) {
  rolled_back = true;
  rolled_back_at = some now;
  locked_versions = with_last to st.locked_versions;
}

locked_add-some :
    (version : Text) (files : Files) (s : BootState)
    → locked_add version (record { files = files; state = some s }) ≡ record {
      files = files;
      state = some (record s { locked_versions = with_last version s.locked_versions });
    }
unfolding locked_add load_state save_state with_last
locked_add-some version files s = elim (Bool-cases (has version s.locked_versions)) [
  | inl e ↦ rw (locked_add, e) refl
  | inr e ↦ rw (locked_add, e) refl
]

module _ (calls : Calls) (now : ℕ) (st : BootState) (d : Disk)
    (exe old to failing kept : Text) where
  kept_file :
      IsInstalled st d exe old to failing kept
      → lookup old (insert (failed_of exe) failing (remove exe d.files)) ≡ some kept
  kept_file i =
      rw
        (
          lookup-insert (failed_of exe) old failing (remove exe d.files),
          i.failed_is_other,
          lookup-remove exe old d.files,
          i.old_is_other,
        )
        i.old_file

  do_rollback-restarting :
      (s : BootState)
      → IsAllowed calls
      → IsInstalled st d exe old to failing kept
      → s.exe ≡ some exe
      → s.old_exe ≡ some old
      → s.to_version ≡ some to
      → do_rollback calls now s (save_state s d) ≡ (
        restarting,
        locked_add to (record {
          files = rolled_files d.files exe failing kept;
          state = some (record s { rolled_back = true; rolled_back_at = some now });
        }),
      )
  unfolding do_rollback after_rename after_copy after_saved save_state
  do_rollback-restarting s a i e o t =
      rw
        (
          do_rollback,
          e,
          o,
          a.0,
          is_file-found old kept d.files i.old_file,
          replace_file-found exe failing d.files i.exe_file (failed_of exe),
          a.1,
          copy_file-found old kept _ (kept_file i) done exe,
          t,
          a.2,
        )
        refl

  -- What a rollback writes.
  pub start_rollback :
      IsAllowed calls
      → IsInstalled st d exe old to failing kept
      → max_attempts ≤ st.attempts
      → start calls now d ≡ (
        restarting,
        record {
          files = rolled_files d.files exe failing kept;
          state = some (rolled_state now to st);
        },
      )
  unfolding start load_state start_attempt
  start_rollback a i h =
      rw (start, i.state, i.unconfirmed, lt→ltb max_attempts (st.attempts + 1) (omega arith))
        (do_rollback-restarting (count_attempt now st) a i i.exe_path i.old_path i.to_version
          ∙ ap (λ x. (restarting, x))
              (locked_add-some to (rolled_files d.files exe failing kept)
                (record (count_attempt now st) { rolled_back = true; rolled_back_at = some now })))
