-- ===== src/Updates/Core/Outcomes.antt =====
-- How `updater_main` ends: which version the node is left with, and which one is started.
use netpulse_monitor.Base.{
  ℕ, ◌≡◌, ◌≢◌, ◌⊎◌, refl, ◌∙◌, inl, inr, false, some, List, [], ◌∷◌, arith, Bool-cases,
}
use netpulse_monitor.Text.{Text, same}
use netpulse_monitor.Dict.{lookup}
use netpulse_monitor.Dict.Laws.{lookup-insert_self}
use netpulse_monitor.Updates.{Files, done}
use netpulse_monitor.Updates.Lookups.{copy_file-found}
use netpulse_monitor.Updates.Boot.{Disk}
use netpulse_monitor.Updates.Core.{
  Replacement, replaced, no_staged, not_renamed, not_copied, not_read, other_digest, old_of,
  replace_binary, Run, Exit, new_version, fails_watch, exit_rollback, exit_success,
  launch_and_watch, after_replacement, updater_main,
}
use netpulse_monitor.Updates.Core.Others.{lookup-replace_binary}
use netpulse_monitor.Updates.Core.Settled.{IsSound, IsReplaced, IsSettled, replace_binary-IsSettled}

module _ (digest : Text → Text) (run : Run) (now : ℕ) (updater_exe exe staged : Text) where
  exit_rollback-back :
      (code : ℕ) (d : Disk) (ps : List _) (k : Text)
      → run.rollback_copies ≡ done
      → lookup updater_exe d.files ≡ some k
      → lookup exe (exit_rollback code run updater_exe exe d ps).disk.files ≡ some k
  unfolding exit_rollback
  exit_rollback-back code d ps k h u =
      rw (h, copy_file-found updater_exe k d.files u done exe) (lookup-insert_self exe k d.files)

  -- The node has the new version and it passed the watch, or it has the old version `k`.
  abbrev pub IsSafe : (k s : Text) → Exit → Type 0
  IsSafe k s r =
      ((r.code ≡ 0)
        × IsReplaced digest exe k s r.disk.files
        × (fails_watch run.alive run.alive_last ≡ false)
        × (r.processes ≡ new_version ∷ []))
      ⊎ ((r.code ≢ 0) × (lookup exe r.disk.files ≡ some k))

  launch_and_watch-IsSafe :
      (d : Disk) (k s : Text)
      → run.rollback_copies ≡ done
      → lookup updater_exe d.files ≡ some k
      → IsReplaced digest exe k s d.files
      → IsSafe k s (launch_and_watch run now updater_exe exe d)
  unfolding launch_and_watch exit_success exit_rollback
  launch_and_watch-IsSafe d k s h u r = elim (Bool-cases run.launches) [
    | inr l ↦ rw (launch_and_watch, l) (inr (omega arith, exit_rollback-back 3 d [] k h u))
    | inl l ↦ elim (Bool-cases (fails_watch run.alive run.alive_last)) [
      | inl w ↦
          rw (launch_and_watch, l, w)
            (inr (omega arith, exit_rollback-back 4 d (new_version ∷ []) k h u))
      | inr w ↦ rw (launch_and_watch, l, w) (inl (refl, r, refl, refl))
    ]
  ]

  refused-IsSafe :
      (d : Disk) (k s : Text) (r : Replacement × Files)
      → r.0 ≢ replaced
      → IsSettled digest exe k s r
      → IsSafe k s (record { code = 2; disk = record d { files = r.1 }; processes = [] })
  refused-IsSafe d k s r ne (inl h) = absurd (ne h.0)
  refused-IsSafe d k s r ne (inr h) = inr (omega arith, h.1)

  after_replacement-IsSafe :
      (d : Disk) (k s : Text) (r : Replacement × Files)
      → run.rollback_copies ≡ done
      → lookup updater_exe r.1 ≡ some k
      → IsSettled digest exe k s r
      → IsSafe k s (after_replacement run now updater_exe exe d r)
  unfolding after_replacement
  after_replacement-IsSafe d k s (replaced, files) h u (inl i) =
      launch_and_watch-IsSafe (record d { files = files }) k s h u i.1
  after_replacement-IsSafe d k s (replaced, files) h u (inr i) = absurd (i.0 refl)
  after_replacement-IsSafe d k s (no_staged, files) h u i = refused-IsSafe d k s _ (λ x. cc) i
  after_replacement-IsSafe d k s (not_renamed, files) h u i = refused-IsSafe d k s _ (λ x. cc) i
  after_replacement-IsSafe d k s (not_copied, files) h u i = refused-IsSafe d k s _ (λ x. cc) i
  after_replacement-IsSafe d k s (not_read, files) h u i = refused-IsSafe d k s _ (λ x. cc) i
  after_replacement-IsSafe d k s (other_digest, files) h u i = refused-IsSafe d k s _ (λ x. cc) i

  -- Where no copy breaks off, the files can be read and put back and the old version can be copied
  -- back from the updater, which is a copy of it: a run that exits with 0 leaves a binary with the
  -- digest of the staged file, which passed the watch, with the old version beside it. A run that
  -- exits otherwise leaves the old version.
  pub updater_main-IsSafe :
      (d : Disk) (k s : Text)
      → IsSound run.replacing
      → run.rollback_copies ≡ done
      → same exe staged ≡ false
      → same (old_of exe) staged ≡ false
      → same exe updater_exe ≡ false
      → same (old_of exe) updater_exe ≡ false
      → lookup exe d.files ≡ some k
      → lookup staged d.files ≡ some s
      → lookup updater_exe d.files ≡ some k
      → IsSafe k s (updater_main digest run now updater_exe exe staged d)
  unfolding updater_main
  updater_main-IsSafe d k s sound h d1 d2 d3 d4 e t u =
      after_replacement-IsSafe d k s (replace_binary digest run.replacing exe staged d.files) h
        (lookup-replace_binary digest run.replacing exe staged updater_exe d3 d4 d.files ∙ u)
        (replace_binary-IsSettled digest exe k s run.replacing staged sound d.files d1 d2 e t)
