-- ===== src/Updates/Rollout.antt =====
-- An update from `apply` of updater.py through `updater_main` of update.py to the start of the node.
use netpulse_monitor.Base.{
  ℕ, ◌≡◌, ◌≢◌, refl, ap, ◌∙◌, inl, inr, Bool, true, false, Option, none, some, arith, Option-cases,
}
use netpulse_monitor.Text.{Text, same, same_iff}
use netpulse_monitor.Dict.{lookup, insert}
use netpulse_monitor.Dict.Laws.{lookup-insert, lookup-insert_self}
use netpulse_monitor.Updates.{Files, done, copy_file}
use netpulse_monitor.Updates.Boot.{
  Disk, Calls, confirming, start, confirm_boot, load_state, save_state,
}
use netpulse_monitor.Updates.Boot.Attempts.{start-confirming}
use netpulse_monitor.Updates.Core.{
  old_of, Replacement, replaced, no_staged, not_renamed, not_copied, not_read, other_digest,
  replace_binary, Run, Exit, exit_rollback, exit_success, launch_and_watch, after_replacement,
  updater_main,
}
use netpulse_monitor.Updates.Core.Settled.{IsSound}
use netpulse_monitor.Updates.Core.Outcomes.{IsSafe, updater_main-IsSafe}
use netpulse_monitor.Updates.Install.{Info}
use netpulse_monitor.Updates.Download.{Site, World, ok, or_missing, is_wrong, staged_path}
use netpulse_monitor.Updates.Apply.{new_state, expected_of, apply}
use netpulse_monitor.Updates.Apply.Guards.{apply-IsGuarded}

-- The paths of an update differ.
pub record IsApart (site : Site) (version : Text) : Type 0 where
  pub exe_staged : same site.exe (staged_path site version) ≡ false
  pub old_staged : same (old_of site.exe) (staged_path site version) ≡ false
  pub exe_updater : same site.exe site.updater_exe ≡ false
  pub old_updater : same (old_of site.exe) site.updater_exe ≡ false
  pub updater_staged : same site.updater_exe (staged_path site version) ≡ false

same_sym : (s t : Text) → same s t ≡ false → same t s ≡ false
same_sym s t h = ground (arith, same_iff s t, same_iff t s)

launch_and_watch-state :
    (run : Run) (now : ℕ) (updater_exe exe : Text) (d : Disk)
    → (launch_and_watch run now updater_exe exe d).code ≢ 0
    → (launch_and_watch run now updater_exe exe d).disk.state ≡ d.state
unfolding launch_and_watch exit_rollback exit_success
launch_and_watch-state run now updater_exe exe d h = ground arith

after_replacement-state :
    (run : Run) (now : ℕ) (updater_exe exe : Text) (d : Disk) (r : Replacement × Files)
    → (after_replacement run now updater_exe exe d r).code ≢ 0
    → (after_replacement run now updater_exe exe d r).disk.state ≡ d.state
unfolding after_replacement
after_replacement-state run now updater_exe exe d (replaced, files) h =
    launch_and_watch-state run now updater_exe exe (record d { files = files }) h
after_replacement-state run now updater_exe exe d (no_staged, files) h = refl
after_replacement-state run now updater_exe exe d (not_renamed, files) h = refl
after_replacement-state run now updater_exe exe d (not_copied, files) h = refl
after_replacement-state run now updater_exe exe d (not_read, files) h = refl
after_replacement-state run now updater_exe exe d (other_digest, files) h = refl

module _ (site : Site) (version : Text) (run : Run) (now : ℕ) where
  abbrev pub finish : Disk → Exit
  finish d = updater_main site.digest run now site.updater_exe site.exe (staged_path site version) d

  is_wrong-digest :
      (o : Option Text) (c h : Text) → is_wrong site o c ≡ false → o ≡ some h → site.digest c ≡ h
  is_wrong-digest none c h w e = absurd cc
  is_wrong-digest (some g) c h w e = ground (arith, same_iff (site.digest c) g)

  -- A faithful copy of the binary has its contents.
  copied_contents :
      (files files' : Files)
      → site.copies ≡ done
      → same site.updater_exe site.exe ≡ false
      → copy_file site.copies site.exe site.updater_exe files ≡ (true, files')
      → (k : Text) × (lookup site.exe files' ≡ some k) × (lookup site.updater_exe files' ≡ some k)
  unfolding copy_file
  copied_contents files files' c other h = elim (Option-cases (lookup site.exe files)) [
    | inl e ↦ absurd (cc (rw (copy_file, e) at h))
    | inr (k, e) ↦
        let f : files' ≡ insert site.updater_exe k files = cc (rw (c, copy_file, e) at h) in
        (
          k,
          ap (lookup site.exe) f ∙ rw (lookup-insert site.updater_exe site.exe k files, other) e,
          ap (lookup site.updater_exe) f ∙ lookup-insert_self site.updater_exe k files,
        )
  ]

  -- When `apply` has started the updater for a version, known before with the digest `h`, and the
  -- updater's calls are sound, the node ends with a binary of the digest `h` that passed the watch,
  -- with the old version beside it, or with the old version.
  pub apply-finish-IsSafe :
      (force : Bool) (n n' : World) (u : Unit {0}) (i : Info) (h : Text)
      → IsApart site version
      → site.copies ≡ done
      → IsSound run.replacing
      → run.rollback_copies ≡ done
      → lookup version n.known ≡ some i
      → or_missing i.manifest.exe_sha256 none ≡ some h
      → apply site version force n ≡ (ok u, n')
      → (k c : Text) × (lookup site.exe n'.disk.files ≡ some k)
        × (site.digest c ≡ h)
        × IsSafe site.digest run now site.updater_exe site.exe
            (staged_path site version)
            k
            c
            (finish n'.disk)
  apply-finish-IsSafe force n n' u i h apart copies sound back known expected e =
      let g = apply-IsGuarded site version force n n' u apart.updater_staged e in
      let (k, exe, updater) =
        copied_contents g.copied.0 n'.disk.files copies
          (same_sym site.exe site.updater_exe apart.exe_updater) g.copied.1 in
      (
        k,
        g.contents,
        exe,
        is_wrong-digest (expected_of site (lookup version n.known)) g.contents h g.digested
            (ap (expected_of site) known ∙ expected),
        updater_main-IsSafe site.digest run now site.updater_exe site.exe (staged_path site version)
            n'.disk k g.contents sound back apart.exe_staged apart.old_staged apart.exe_updater
            apart.old_updater exe g.staged updater,
      )

  -- After a run of the updater that failed, the state still waits for a confirmation of the version
  -- that failed: the next start of the node, whichever version it is, confirms it.
  pub failed_update-confirmed :
      (d : Disk) (calls : Calls) (started_at confirmed_at : ℕ)
      → (finish d).code ≢ 0
      → d.state ≡ some (new_state site version)
      → let r = start calls started_at (finish d).disk in
        let st = load_state (confirm_boot confirmed_at r.1) in
        (r.0 ≡ confirming) × (st.boot_ok ≡ true) × (st.to_version ≡ some version)
  unfolding updater_main confirm_boot load_state save_state new_state
  failed_update-confirmed d calls started_at confirmed_at failed e =
      let kept =
        after_replacement-state run now site.updater_exe site.exe d
          (replace_binary site.digest run.replacing site.exe (staged_path site version) d.files)
          failed in
      let st = new_state site version in
      rw (start-confirming calls started_at (finish d).disk st (kept ∙ e) refl (omega arith))
        (refl, refl, refl)
