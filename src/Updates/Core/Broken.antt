-- ===== src/Updates/Core/Broken.antt =====
-- A copy of the new binary that breaks off.
use netpulse_monitor.Base.{◌≡◌, refl, ◌∙◌, true, false, some, [], arith}
use netpulse_monitor.Text.{Text, text_of, same}
use netpulse_monitor.Text.Names.{same-append}
use netpulse_monitor.Dict.{lookup, insert, remove}
use netpulse_monitor.Dict.Laws.{lookup-insert, lookup-remove, lookup-insert_self}
use netpulse_monitor.Updates.{Files, broken}
use netpulse_monitor.Updates.Lookups.{is_file-found, replace_file-found, copy_file-found}
use netpulse_monitor.Updates.Boot.{Disk}
use netpulse_monitor.Updates.Core.{
  Calls, old_of, not_copied, after_failed_copy, after_copy, after_rename, unlink_old,
  replace_binary, Run, after_replacement, updater_main,
}
use netpulse_monitor.Updates.Core.Replaced.{lookup-unlink_old}
use netpulse_monitor.Updates.Core.Others.{lookup-unlink_old_other}

module _ (digest : Text → Text) (calls : Calls) (exe staged k s part : Text) where
  after_failed_copy-part :
      (files : Files) → after_failed_copy calls exe (insert exe part files) ≡ insert exe part files
  unfolding after_failed_copy
  after_failed_copy-part files =
      rw
        (
          after_failed_copy,
          is_file-found exe part (insert exe part files) (lookup-insert_self exe part files),
        )
        (ground arith)

  -- The part stays under the path of the binary, and the old version beside it.
  pub replace_binary-broken :
      (files : Files)
      → calls.renames ≡ true
      → calls.copies ≡ broken part
      → same exe staged ≡ false
      → same (old_of exe) staged ≡ false
      → lookup exe files ≡ some k
      → lookup staged files ≡ some s
      → let moved = insert (old_of exe) k (remove exe (unlink_old calls exe files)) in
        replace_binary digest calls exe staged files ≡ (not_copied, insert exe part moved)
  unfolding replace_binary after_rename after_copy
  replace_binary-broken files r c d d' e t =
      let before = unlink_old calls exe files in
      let moved = insert (old_of exe) k (remove exe before) in
      let e1 = lookup-unlink_old calls exe files ∙ e in
      let t1 : lookup staged moved ≡ some s =
        rw
          (
            lookup-insert (old_of exe) staged k (remove exe before),
            d',
            lookup-remove exe staged before,
            d,
          )
          (lookup-unlink_old_other digest calls exe staged staged d d' files ∙ t) in
      rw
        (
          replace_binary,
          is_file-found staged s files t,
          is_file-found exe k before e1,
          r,
          replace_file-found exe k before e1 (old_of exe),
          c,
          copy_file-found staged s moved t1 (broken part) exe,
          after_failed_copy-part moved,
        )
        refl

-- When the copy of the staged file breaks off, the updater exits with 2, starts neither version and
-- leaves the part under the path of the binary, with the old version only beside it.
pub updater_main-broken :
    (digest : Text → Text) (run : Run) (now : _) (updater_exe exe staged : Text) (d : Disk)
    (k s part : Text)
    → run.replacing.renames ≡ true
    → run.replacing.copies ≡ broken part
    → same exe staged ≡ false
    → same (old_of exe) staged ≡ false
    → lookup exe d.files ≡ some k
    → lookup staged d.files ≡ some s
    → let r = updater_main digest run now updater_exe exe staged d in
      (r.code ≡ 2)
      × (r.processes ≡ [])
      × (lookup exe r.disk.files ≡ some part)
      × (lookup (old_of exe) r.disk.files ≡ some k)
unfolding updater_main after_replacement
updater_main-broken digest run now updater_exe exe staged d k s part r c h h' e t =
    let moved = remove exe (unlink_old run.replacing exe d.files) in
    rw
      (
        updater_main,
        replace_binary-broken digest run.replacing exe staged k s part d.files r c h h' e t,
      )
      (
        refl,
        refl,
        lookup-insert_self exe part (insert (old_of exe) k moved),
        rw
            (
              lookup-insert exe (old_of exe) part (insert (old_of exe) k moved),
              same-append exe b'.' (text_of "old"),
            )
            (lookup-insert_self (old_of exe) k moved),
      )
