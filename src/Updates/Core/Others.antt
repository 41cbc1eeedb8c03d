-- ===== src/Updates/Core/Others.antt =====
-- The files that `_replace_binary` leaves alone.
use netpulse_monitor.Base.{
  ◌≡◌, refl, ◌∙◌, inl, inr, Bool, true, false, not, ◌&&◌, Option, none, some, arith, if◌then◌else◌,
  Bool-cases,
}
use netpulse_monitor.Text.{Text, same}
use netpulse_monitor.Dict.{lookup, remove}
use netpulse_monitor.Dict.Laws.{lookup-insert, lookup-remove}
use netpulse_monitor.Updates.{Files, is_file, copy_file, replace_file, rename_found}
use netpulse_monitor.Updates.Lookups.{lookup-copy_file}
use netpulse_monitor.Updates.Core.{
  Calls, old_of, restore, after_failed_copy, same_digests, after_digests, check_digest, after_copy,
  after_rename, unlink_old, rename_old, replace_binary,
}

-- A replacement touches no file but the binary and the one that keeps the old version.
module _ (digest : Text → Text) (calls : Calls) (exe staged p : Text) (other : same exe p ≡ false)
    (other_old : same (old_of exe) p ≡ false) where
  lookup-replace_file :
      (allowed : Bool) (src dst : Text) (files : Files)
      → same src p ≡ false
      → same dst p ≡ false
      → lookup p (replace_file allowed src dst files).1 ≡ lookup p files
  unfolding replace_file
  lookup-replace_file allowed src dst files h h' = found allowed (lookup src files)
    where
      found :
          (allowed : Bool) (o : Option Text)
          → lookup p (rename_found allowed o src dst files).1 ≡ lookup p files
      found true (some c) =
          rw (lookup-insert dst p c (remove src files), h', lookup-remove src p files, h) refl
      found true none = refl
      found false none = refl
      found false (some c) = refl

  lookup-restore_other : (files : Files) → lookup p (restore calls exe files) ≡ lookup p files
  unfolding restore
  lookup-restore_other files =
      lookup-replace_file calls.restores (old_of exe) exe files other_old other

  lookup-after_digests :
      (files : Files) (o : Option Bool)
      → lookup p (after_digests digest calls exe files o).1 ≡ lookup p files
  unfolding after_digests
  lookup-after_digests files none = refl
  lookup-after_digests files (some true) = refl
  lookup-after_digests files (some false) = lookup-restore_other files

  lookup-after_copy :
      (copied : Bool × Files)
      → lookup p (after_copy digest calls exe staged copied).1 ≡ lookup p copied.1
  unfolding after_copy check_digest after_failed_copy
  lookup-after_copy (true, files) =
      lookup-after_digests files
        (if calls.reads then same_digests digest (lookup exe files) (lookup staged files) else none)
  lookup-after_copy (false, files) =
      elim (Bool-cases (is_file (old_of exe) files && not (is_file exe files))) [
        | inl h ↦ rw (after_failed_copy, h) (lookup-restore_other files)
        | inr h ↦ rw (after_failed_copy, h) refl
      ]

  lookup-after_rename :
      (renamed : Bool × Files)
      → lookup p (after_rename digest calls exe staged renamed).1 ≡ lookup p renamed.1
  unfolding after_rename
  lookup-after_rename (true, files) =
      lookup-after_copy (copy_file calls.copies staged exe files)
      ∙ lookup-copy_file exe calls.copies staged p files other
  lookup-after_rename (false, files) = refl

  lookup-rename_old : (files : Files) → lookup p (rename_old calls exe files).1 ≡ lookup p files
  lookup-rename_old files = elim (Bool-cases (is_file exe files)) [
    | inl h ↦ rw h (lookup-replace_file calls.renames exe (old_of exe) files other other_old)
    | inr h ↦ rw h refl
  ]

  pub lookup-unlink_old_other :
      (files : Files) → lookup p (unlink_old calls exe files) ≡ lookup p files
  lookup-unlink_old_other files = ground (arith, lookup-remove (old_of exe) p files)

  pub lookup-replace_binary :
      (files : Files) → lookup p (replace_binary digest calls exe staged files).1 ≡ lookup p files
  unfolding replace_binary
  lookup-replace_binary files = elim (Bool-cases (is_file staged files)) [
    | inl h ↦
        rw (replace_binary, h)
          (lookup-after_rename (rename_old calls exe (unlink_old calls exe files))
            ∙ lookup-rename_old (unlink_old calls exe files)
            ∙ lookup-unlink_old_other files)
    | inr h ↦ rw (replace_binary, h) refl
  ]
