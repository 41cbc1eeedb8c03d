-- ===== src/Updates/Lookups.antt =====
-- What the operations on files do where the file is there, and where it is not.
use netpulse_monitor.Base.{◌≡◌, refl, inl, inr, true, false, none, some, arith, Option-cases}
use netpulse_monitor.Text.{Text, same}
use netpulse_monitor.Dict.{lookup, insert, remove}
use netpulse_monitor.Dict.Laws.{lookup-insert}
use netpulse_monitor.Updates.{
  Files, is_file, Copying, done, refused, altered, broken, copy_to, copy_file, replace_file,
}

module _ (p c : Text) (files : Files) (found : lookup p files ≡ some c) where
  pub is_file-found : is_file p files ≡ true
  unfolding is_file
  is_file-found = rw (is_file, found) refl

  pub replace_file-found :
      (dst : Text) → replace_file true p dst files ≡ (true, insert dst c (remove p files))
  unfolding replace_file
  replace_file-found dst = rw (replace_file, found) refl

  pub copy_file-found : (o : Copying) (dst : Text) → copy_file o p dst files ≡ copy_to o c dst files
  unfolding copy_file
  copy_file-found o dst = rw (copy_file, found) refl

pub is_file-missing : (p : Text) (files : Files) → lookup p files ≡ none → is_file p files ≡ false
unfolding is_file
is_file-missing p files e = rw (is_file, e) refl

-- A copy changes no other file.
pub lookup-copy_file :
    (exe : Text) (o : Copying) (staged j : Text) (files : Files)
    → same exe j ≡ false
    → lookup j (copy_file o staged exe files).1 ≡ lookup j files
unfolding copy_file
lookup-copy_file exe o staged j files h = elim (Option-cases (lookup staged files)) [
  | inl e ↦ rw (copy_file, e) refl
  | inr (c, e) ↦ rw (copy_file, e) (copied o c)
]
  where
    copied : (o : Copying) (c : Text) → lookup j (copy_to o c exe files).1 ≡ lookup j files
    copied done c = ground (arith, lookup-insert exe j c files)
    copied refused c = refl
    copied (altered x) c = ground (arith, lookup-insert exe j x files)
    copied (broken x) c = ground (arith, lookup-insert exe j x files)
