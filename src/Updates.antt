-- ===== src/Updates.antt =====
-- The updates of a node: netpulse/p2p_core/internal_modules/app_version.py, updater.py and
-- update.py. Files are a dictionary from paths to contents; what the system does with a call that
-- can fail is an argument.
pub mod Versions
pub mod Lookups
pub mod Boot
pub mod Core
pub mod Install
pub mod Download
pub mod Apply
pub mod Rollout
mod Samples
use netpulse_monitor.Base.{Bool, true, false, Option, none, some}
use netpulse_monitor.Text.{Text}
use netpulse_monitor.Dict.{Dict, lookup, insert, remove}

abbrev pub Files : Type 0
Files = Dict Text

-- `Path(p).is_file()`
unfoldable pub is_file : Text → Files → Bool
unfolding lookup
is_file p files = elim (lookup p files) [ none ↦ false | some c ↦ true ]

-- How a copy to a file ends: it is done, it returns with other contents in the file, it is refused
-- before the file is touched, or broken off with a part of the contents in the file.
pub data Copying : Type 0 where
  done refused : Copying
  altered broken : Text → Copying

abbrev pub copy_to : Copying → Text → Text → Files → Bool × Files
copy_to done c dst files = (true, insert dst c files)
copy_to (altered other) c dst files = (true, insert dst other files)
copy_to refused c dst files = (false, files)
copy_to (broken part) c dst files = (false, insert dst part files)

abbrev pub copy_found : Copying → Option Text → Text → Files → Bool × Files
copy_found o none dst files = (false, files)
copy_found o (some c) dst files = copy_to o c dst files

-- `shutil.copyfile(src, dst)`; the test tells whether it returns.
unfoldable pub copy_file : Copying → Text → Text → Files → Bool × Files
unfolding lookup insert
copy_file o src dst files = copy_found o (lookup src files) dst files

abbrev pub rename_found : Bool → Option Text → Text → Text → Files → Bool × Files
rename_found true (some c) src dst files = (true, insert dst c (remove src files))
rename_found _ _ src dst files = (false, files)

-- `os.replace(src, dst)`, where the first argument tells whether the system allows it.
unfoldable pub replace_file : Bool → Text → Text → Files → Bool × Files
unfolding lookup insert remove
replace_file allowed src dst files = rename_found allowed (lookup src files) src dst files
