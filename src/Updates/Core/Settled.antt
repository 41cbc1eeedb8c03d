-- ===== src/Updates/Core/Settled.antt =====
-- How `_replace_binary` ends where no copy breaks off and the files can be read and put back.
use netpulse_monitor.Base.{
  ◌≡◌, ◌≢◌, ◌⊎◌, refl, ◌∙◌, inl, inr, true, false, none, some, arith, Bool-cases,
}
use netpulse_monitor.Text.{Text, text_of, same, same_iff, same_refl}
use netpulse_monitor.Text.Names.{same-append}
use netpulse_monitor.Dict.{lookup, insert, remove}
use netpulse_monitor.Dict.Laws.{lookup-insert, lookup-remove, lookup-insert_self}
use netpulse_monitor.Updates.{
  Files, Copying, done, refused, altered, broken, copy_file, replace_file,
}
use netpulse_monitor.Updates.Lookups.{
  is_file-found, is_file-missing, replace_file-found, copy_file-found,
}
use netpulse_monitor.Updates.Core.{
  Calls, Replacement, replaced, old_of, after_failed_copy, after_digests, check_digest, after_copy,
  after_rename, unlink_old, replace_binary,
}
use netpulse_monitor.Updates.Core.Replaced.{lookup-restore, lookup-unlink_old}

-- No copy breaks off, the files can be read, and the old version can be put back.
abbrev pub IsSound : Calls → Type 0
IsSound calls =
    ((part : Text) → calls.copies ≢ broken part) × (calls.reads ≡ true) × (calls.restores ≡ true)

module _ (digest : Text → Text) (exe k s : Text) where
  -- The binary has the digest of the staged file `s`, and the old version `k` stands beside it.
  abbrev pub IsReplaced : Files → Type 0
  IsReplaced files =
      (c : Text) × (lookup exe files ≡ some c)
      × (digest c ≡ digest s)
      × (lookup (old_of exe) files ≡ some k)

  -- A replacement is complete, or the binary is the old version.
  abbrev pub IsSettled : Replacement × Files → Type 0
  IsSettled r = ((r.0 ≡ replaced) × IsReplaced r.1) ⊎ ((r.0 ≢ replaced) × (lookup exe r.1 ≡ some k))

  module _ (calls : Calls) (staged : Text) (sound : IsSound calls) where
    check_digest-IsSettled :
        (c : Text) (files : Files)
        → lookup (old_of exe) files ≡ some k
        → lookup exe files ≡ some c
        → lookup staged files ≡ some s
        → IsSettled (check_digest digest calls exe staged files)
    unfolding check_digest after_digests
    check_digest-IsSettled c files o e t = elim (Bool-cases (same (digest c) (digest s))) [
      | inl h ↦
          rw (check_digest, sound.1, e, t, h)
            (inl (refl, (c, e, (same_iff (digest c) (digest s)).0 h, o)))
      | inr h ↦
          rw (check_digest, sound.1, e, t, h)
            (inr ((λ x. cc), lookup-restore calls exe files k o sound.2))
    ]

    -- The binary is moved away, and the staged file is there.
    abbrev IsReady : Files → Type 0
    IsReady files =
        (lookup (old_of exe) files ≡ some k)
        × (lookup exe files ≡ none)
        × (lookup staged files ≡ some s)

    after_failed_copy-back :
        (files : Files) → IsReady files → lookup exe (after_failed_copy calls exe files) ≡ some k
    unfolding after_failed_copy
    after_failed_copy-back files r =
        rw
          (after_failed_copy, is_file-found (old_of exe) k files r.0, is_file-missing exe files r.1)
          (lookup-restore calls exe files k r.0 sound.2)

    written-IsSettled :
        (c : Text) (files : Files)
        → same exe staged ≡ false
        → IsReady files
        → IsSettled (check_digest digest calls exe staged (insert exe c files))
    written-IsSettled c files d r =
        check_digest-IsSettled c (insert exe c files)
          (rw (lookup-insert exe (old_of exe) c files, same-append exe b'.' (text_of "old")) r.0)
          (lookup-insert_self exe c files) (rw (lookup-insert exe staged c files, d) r.2)

    copied-IsSettled :
        (o : Copying) (files : Files)
        → ((part : Text) → o ≢ broken part)
        → same exe staged ≡ false
        → IsReady files
        → IsSettled (after_copy digest calls exe staged (copy_file o staged exe files))
    unfolding after_copy
    copied-IsSettled done files h d r =
        rw (copy_file-found staged s files r.2 done exe) (written-IsSettled s files d r)
    copied-IsSettled (altered c) files h d r =
        rw (copy_file-found staged s files r.2 (altered c) exe) (written-IsSettled c files d r)
    copied-IsSettled refused files h d r =
        rw (copy_file-found staged s files r.2 refused exe)
          (inr ((λ x. cc), after_failed_copy-back files r))
    copied-IsSettled (broken part) files h d r = absurd (h part refl)

    moved-IsReady :
        (files : Files)
        → same exe staged ≡ false
        → same (old_of exe) staged ≡ false
        → lookup exe files ≡ some k
        → lookup staged files ≡ some s
        → IsReady (insert (old_of exe) k (remove exe files))
    moved-IsReady files d d' e t = (
      lookup-insert_self (old_of exe) k (remove exe files),
      rw
          (
            lookup-insert (old_of exe) exe k (remove exe files),
            lookup-remove exe exe files,
            same_refl exe,
          )
          (ground (arith, same_iff (old_of exe) exe, same-append exe b'.' (text_of "old"))),
      rw
          (
            lookup-insert (old_of exe) staged k (remove exe files),
            d',
            lookup-remove exe staged files,
            d,
          )
          t,
    )

    renamed-IsSettled :
        (files : Files)
        → same exe staged ≡ false
        → same (old_of exe) staged ≡ false
        → lookup exe files ≡ some k
        → lookup staged files ≡ some s
        → IsSettled (
            after_rename digest calls exe staged
              (replace_file calls.renames exe (old_of exe) files))
    unfolding after_rename replace_file
    renamed-IsSettled files d d' e t = elim (Bool-cases calls.renames) [
      | inl h ↦
          rw (h, replace_file-found exe k files e (old_of exe))
            (copied-IsSettled calls.copies _ sound.0 d (moved-IsReady files d d' e t))
      | inr h ↦ rw (h, replace_file) (inr ((λ x. cc), e))
    ]

    -- A replacement is complete with the digest of the staged file, or the binary is the old version.
    pub replace_binary-IsSettled :
        (files : Files)
        → same exe staged ≡ false
        → same (old_of exe) staged ≡ false
        → lookup exe files ≡ some k
        → lookup staged files ≡ some s
        → IsSettled (replace_binary digest calls exe staged files)
    unfolding replace_binary
    replace_binary-IsSettled files d d' e t =
        let e1 = lookup-unlink_old calls exe files ∙ e in
        rw
          (
            replace_binary,
            is_file-found staged s files t,
            is_file-found exe k (unlink_old calls exe files) e1,
          )
          (renamed-IsSettled (unlink_old calls exe files) d d' e1
            (lookup-unlink_old_other staged files d' ∙ t))
      where
        lookup-unlink_old_other :
            (p : Text) (files : Files)
            → same (old_of exe) p ≡ false
            → lookup p (unlink_old calls exe files) ≡ lookup p files
        lookup-unlink_old_other p files h = ground (arith, lookup-remove (old_of exe) p files)
