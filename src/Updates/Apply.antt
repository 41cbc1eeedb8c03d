-- ===== src/Updates/Apply.antt =====
-- `apply` of netpulse/p2p_core/internal_modules/updater.py.
pub mod Guards
use netpulse_monitor.Base.{
  ℕ, Bool, true, false, not, ◌&&◌, Option, none, some, List, [], ◌∷◌, ◌++◌, if◌then◌else◌, take,
}
use netpulse_monitor.Text.{Text, same, is_empty}
use netpulse_monitor.Dict.{Dict, lookup, insert, remove}
use netpulse_monitor.Updates.{Files, is_file, Copying, copy_file}
use netpulse_monitor.Updates.Boot.{
  BootState, Disk, no_state, load_state, save_state, is_unconfirmed,
}
use netpulse_monitor.Updates.Core.{old_of}
use netpulse_monitor.Updates.Install.{
  Refusal, disabled, not_frozen, unconfirmed, unavailable, check_failed, not_found, download_failed,
  bad_digest, timed_out, not_staged, unsigned, not_copied, not_launched, validate_transition,
  Manifest, Source, Info, Answer, Available, Found, check, has_version,
}
use netpulse_monitor.Updates.Download.{
  World, Result, ok, refused, M, continue, ◌>>=◌, ◌>>◌, refuse_if, refuse_some, Site, or_missing,
  staged_path, is_wrong, run_check, download,
}

module _ (site : Site) where
  abbrev pub is_listed : Text → Option Found → Bool
  is_listed version none = false
  is_listed version (some c) = has_version version c.available

  abbrev pub check_listed : Text → Option Found × World → Result (Option Info) × World
  check_listed version (c, n) =
      if is_listed version c then (ok none, n) else (refused unavailable, n)

  -- `info`, which stays `None` for a version that only the check here finds.
  unfoldable pub find_info : Text → M (Option Info)
  unfolding check lookup
  find_info version n = elim (lookup version n.known) [
    | some info ↦ (ok (some info), n)
    | none ↦ check_listed version (run_check site n)
  ]

  abbrev pub refuse_unconfirmed : M (Unit {0})
  refuse_unconfirmed n = refuse_if (is_unconfirmed (load_state n.disk)) unconfirmed n

  -- The download of a version that is not staged.
  unfoldable pub ensure_staged : Text → M (Unit {0})
  unfolding download is_file
  ensure_staged version n =
      if is_file (staged_path site version) n.disk.files
      then (ok tt, n)
      else (do
        download site version
        (λ n. refuse_if (not (is_file (staged_path site version) n.disk.files)) not_staged n))
          n

  abbrev pub expected_of : Option Info → Option Text
  expected_of none = none
  expected_of (some i) = or_missing i.manifest.exe_sha256 none

  abbrev pub verify_contents : Option Info → Option Text → M (Unit {0})
  verify_contents info none n = (refused not_staged, n)
  verify_contents info (some c) n =
      (do
        refuse_if (is_wrong site (expected_of info) c) bad_digest
        refuse_if (site.require_signed && not (site.is_signed c)) unsigned)
        n

  -- The digest and the signature of the staged file.
  unfoldable pub verify_staged : Option Info → Text → M (Unit {0})
  unfolding lookup same
  verify_staged info version n =
      verify_contents info (lookup (staged_path site version) n.disk.files) n

  abbrev pub copied_updater : Bool × Files → M (Unit {0})
  copied_updater (true, files) n = (ok tt, record n { disk = record n.disk { files = files } })
  copied_updater (false, files) n =
      (refused not_copied, record n { disk = record n.disk { files = files } })

  unfoldable pub copy_updater : M (Unit {0})
  unfolding copy_file
  copy_updater n = copied_updater (copy_file site.copies site.exe site.updater_exe n.disk.files) n

  -- The state that is saved before the updater starts.
  unfoldable pub new_state : Text → BootState
  unfolding no_state
  new_state version = record no_state {
    from_version = some site.current;
    to_version = some version;
    exe = some site.exe;
    old_exe = some (old_of site.exe);
    staged_from = some (staged_path site version);
    attempts = 0;
    pending_boot_confirm = true;
    staged_at = some site.now;
  }

  abbrev pub save_new : Text → M (Unit {0})
  save_new version n = (ok tt, record n { disk = save_state (new_state version) n.disk })

  -- The start of the updater; without it, its file is removed where the system allows it.
  unfoldable pub launch_updater : M (Unit {0})
  unfolding remove
  launch_updater n = if site.launches then (ok tt, n) else (
    refused not_launched,
    record n {
      disk = record n.disk {
        files = if site.unlinks then remove site.updater_exe n.disk.files else n.disk.files;
      };
    },
  )

  -- `apply`, where a missing version counts as an empty one.
  unfoldable pub apply : Text → Bool → M (Unit {0})
  unfolding validate_transition find_info ensure_staged verify_staged copy_updater new_state
      load_state save_state launch_updater
  apply version force = do
    refuse_if (not site.enabled) disabled
    refuse_if (not site.frozen) not_frozen
    refuse_some (validate_transition site.current version site.allow_downgrade force)
    refuse_unconfirmed
    info ← find_info version
    ensure_staged version
    verify_staged info version
    copy_updater
    save_new version
    launch_updater
