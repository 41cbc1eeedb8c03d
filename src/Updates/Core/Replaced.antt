-- ===== src/Updates/Core/Replaced.antt =====
-- What `_replace_binary` leaves under the path of the binary and beside it.
use netpulse_monitor.Base.{
  ◌≡◌, ◌⊎◌, ◌∙◌, inl, inr, Bool, true, false, not, ◌&&◌, Option, none, some, arith, if◌then◌else◌,
  Bool-cases,
}
use netpulse_monitor.Text.{Text, text_of, same_iff}
use netpulse_monitor.Text.Names.{same-append}
use netpulse_monitor.Dict.{lookup, insert, remove}
use netpulse_monitor.Dict.Laws.{lookup-remove, lookup-insert_self}
use netpulse_monitor.Updates.{Files, is_file, copy_file, replace_file}
use netpulse_monitor.Updates.Lookups.{is_file-found, lookup-copy_file}
use netpulse_monitor.Updates.Core.{
  Calls, old_of, restore, after_failed_copy, same_digests, after_digests, check_digest, after_copy,
  after_rename, unlink_old, replace_binary,
}

module _ (calls : Calls) (exe : Text) where
  pub lookup-restore :
      (files : Files) (k : Text)
      → lookup (old_of exe) files ≡ some k
      → calls.restores ≡ true
      → lookup exe (restore calls exe files) ≡ some k
  unfolding restore replace_file
  lookup-restore files k e r =
      rw (restore, r, replace_file, e) (lookup-insert_self exe k (remove (old_of exe) files))

  -- The old version `k` is under its own path or under the path that keeps it.
  abbrev pub IsKept : Text → Files → Type 0
  IsKept k files = (lookup exe files ≡ some k) ⊎ (lookup (old_of exe) files ≡ some k)

  restore-IsKept :
      (files : Files) (k : Text)
      → lookup (old_of exe) files ≡ some k
      → IsKept k (restore calls exe files)
  unfolding restore replace_file
  restore-IsKept files k e = elim (Bool-cases calls.restores) [
    | inl r ↦ inl (lookup-restore files k e r)
    | inr r ↦ inr (rw (restore, r, replace_file) e)
  ]

  pub lookup-unlink_old :
      (files : Files) → lookup exe (unlink_old calls exe files) ≡ lookup exe files
  lookup-unlink_old files = ground (
    arith,
    lookup-remove (old_of exe) exe files,
    same_iff (old_of exe) exe,
    same_iff exe (old_of exe),
    same-append exe b'.' (text_of "old"),
  )

  module _ (digest : Text → Text) (staged : Text) (k : Text) where
    after_digests-IsKept :
        (files : Files)
        → lookup (old_of exe) files ≡ some k
        → (o : Option Bool) → IsKept k (after_digests digest calls exe files o).1
    unfolding after_digests
    after_digests-IsKept files e none = inr e
    after_digests-IsKept files e (some true) = inr e
    after_digests-IsKept files e (some false) = restore-IsKept files k e

    check_digest-IsKept :
        (files : Files)
        → lookup (old_of exe) files ≡ some k
        → IsKept k (check_digest digest calls exe staged files).1
    unfolding check_digest
    check_digest-IsKept files e =
        after_digests-IsKept files e (
          if calls.reads
          then same_digests digest (lookup exe files) (lookup staged files)
          else none)

    after_failed_copy-IsKept :
        (files : Files)
        → lookup (old_of exe) files ≡ some k
        → IsKept k (after_failed_copy calls exe files)
    unfolding after_failed_copy
    after_failed_copy-IsKept files e =
        elim (Bool-cases (is_file (old_of exe) files && not (is_file exe files))) [
          | inl t ↦ rw (after_failed_copy, t) (restore-IsKept files k e)
          | inr t ↦ rw (after_failed_copy, t) (inr e)
        ]

    after_copy-IsKept :
        (copied : Bool × Files)
        → lookup (old_of exe) copied.1 ≡ some k
        → IsKept k (after_copy digest calls exe staged copied).1
    unfolding after_copy
    after_copy-IsKept (true, files) e = check_digest-IsKept files e
    after_copy-IsKept (false, files) e = after_failed_copy-IsKept files e

    replace_file-IsKept :
        (files : Files)
        → lookup exe files ≡ some k
        → IsKept k
            (after_rename digest calls exe staged
              (replace_file calls.renames exe (old_of exe) files)).1
    unfolding replace_file after_rename
    replace_file-IsKept files e = elim (Bool-cases calls.renames) [
      | inl r ↦
          rw (r, replace_file, e)
            (after_copy-IsKept
              (copy_file calls.copies staged exe (insert (old_of exe) k (remove exe files)))
              (lookup-copy_file exe calls.copies staged (old_of exe) _
                  (same-append exe b'.' (text_of "old"))
                ∙ lookup-insert_self (old_of exe) k (remove exe files)))
      | inr r ↦ rw (r, replace_file) (inl e)
    ]

    -- However its calls end, a replacement leaves the old version in one of the two places.
    pub replace_binary-IsKept :
        (files : Files)
        → lookup exe files ≡ some k
        → IsKept k (replace_binary digest calls exe staged files).1
    unfolding replace_binary after_rename
    replace_binary-IsKept files e = elim (Bool-cases (is_file staged files)) [
      | inr t ↦ rw (replace_binary, t) (inl e)
      | inl t ↦
          rw
            (
              replace_binary,
              t,
              is_file-found exe k (unlink_old calls exe files) (lookup-unlink_old files ∙ e),
            )
            (replace_file-IsKept (unlink_old calls exe files) (lookup-unlink_old files ∙ e))
    ]
