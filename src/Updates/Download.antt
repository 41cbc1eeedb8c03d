-- ===== src/Updates/Download.antt =====
-- `download` of netpulse/p2p_core/internal_modules/updater.py, over the table of known versions and the
-- disk, and what `apply` shares with it. What the system and other services do is an argument.
use netpulse_monitor.Base.{
  ℕ, Bool, true, false, not, Option, none, some, List, [], ◌∷◌, ◌++◌, if◌then◌else◌, take,
}
use netpulse_monitor.Text.{Text, same, is_empty}
use netpulse_monitor.Dict.{Dict, lookup, insert, remove}
use netpulse_monitor.Updates.{Copying}
use netpulse_monitor.Updates.Boot.{Disk}
use netpulse_monitor.Updates.Install.{
  Refusal, check_failed, not_found, download_failed, bad_digest, timed_out, Source, Info, Answer,
  Available, Found, check,
}

pub record World : Type 0 where
  pub known : Dict Info
  pub disk : Disk

pub data Result (A : Type 0) : Type 0 where
  ok : A → Result A
  refused : Refusal → Result A

abbrev pub M : Type 0 → Type 0
M A = World → Result A × World

abbrev pub continue : {A B : Type 0} → (A → M B) → Result A × World → Result B × World
continue f (ok a, n) = f a n
continue f (refused e, n) = (refused e, n)

infixl 5 ◌>>=◌ ◌>>◌
abbrev pub ◌>>=◌ : {A B : Type 0} → M A → (A → M B) → M B
◌>>=◌ m f n = continue f (m n)

abbrev pub ◌>>◌ : {B : Type 0} → M (Unit {0}) → M B → M B
m >> k = m >>= λ _. k

abbrev pub refuse_if : Bool → Refusal → M (Unit {0})
refuse_if true e n = (refused e, n)
refuse_if false e n = (ok tt, n)

abbrev pub refuse_some : Option Refusal → M (Unit {0})
refuse_some (some e) n = (refused e, n)
refuse_some none n = (ok tt, n)

-- What a turn of the wait for a download finds: the staged file, an error of the download, or neither.
pub data Look : Type 0 where
  arrived : Text → Look
  failed waiting : Look

-- The answer of `files.download`: an error, a path at once, or a download that is under way.
pub data Transfer : Type 0 where
  no_transfer : Transfer
  at_once : Option Text → Transfer
  under_way : List Look → Option Text → Transfer

-- The configuration of the node and what stands around it.
pub record Site : Type 0 where
  pub enabled : Bool
  pub frozen : Bool
  pub allow_downgrade : Bool
  pub require_signed : Bool
  pub current : Text
  pub exe_name : Text
  pub exe : Text
  pub updater_exe : Text
  pub download_dir : Text
  pub sources : List Source
  pub answer : Source → Answer
  pub transfer : Transfer
  pub digest : Text → Text
  pub is_signed : Text → Bool
  pub copies : Copying
  pub launches : Bool
  pub unlinks : Bool
  pub now : ℕ

-- `a or b`, where an empty text counts as missing.
abbrev pub or_missing : Option Text → Option Text → Option Text
or_missing none b = b
or_missing (some a) b = if is_empty a then b else some a

module _ (site : Site) where
  -- `_files_download_dir() / f'{version}_{exe_name}'`
  abbrev pub staged_path : Text → Text
  staged_path version = site.download_dir ++ b'/' ∷ (version ++ b'_' ∷ site.exe_name)

  abbrev pub put_file : Text → Option Text → World → World
  put_file p none n = n
  put_file p (some c) n = record n { disk = record n.disk { files = insert p c n.disk.files } }

  -- `expected and _sha256(staged) != expected`
  abbrev pub is_wrong : Option Text → Text → Bool
  is_wrong none c = false
  is_wrong (some h) c = not (same (site.digest c) h)

  -- A staged file that came: it is removed where its digest is wrong.
  unfoldable pub take_staged : Option Text → Text → Text → M (Unit {0})
  unfolding insert remove same
  take_staged expected p c n =
      if is_wrong expected c
      then (refused bad_digest, record n { disk = record n.disk { files = remove p n.disk.files } })
      else (ok tt, put_file p (some c) n)

  -- The turns of the wait, and the look after the last.
  unfoldable pub wait_staged : Option Text → Text → List Look → Option Text → M (Unit {0})
  unfolding take_staged
  wait_staged expected p [] none n = (refused timed_out, n)
  wait_staged expected p [] (some c) n = take_staged expected p c n
  wait_staged expected p (arrived c ∷ polls) last n = take_staged expected p c n
  wait_staged expected p (failed ∷ polls) last n = (refused download_failed, n)
  wait_staged expected p (waiting ∷ polls) last n = wait_staged expected p polls last n

  abbrev pub run_check : World → Option Found × World
  run_check n =
      let r = check site.current site.exe_name site.answer site.sources n.known in
      (r.0, record n { known = r.1 })

  unfoldable pub transfer_file : Info → Text → Transfer → M (Unit {0})
  unfolding wait_staged insert
  transfer_file info version no_transfer n = (refused download_failed, n)
  transfer_file info version (at_once c) n = (ok tt, put_file (staged_path version) c n)
  transfer_file info version (under_way polls last) n =
      wait_staged (or_missing info.manifest.exe_sha256 (or_missing info.manifest.ident none))
        (staged_path version) (take 120 polls) last n

  abbrev pub is_failed_with : List Available → Dict Text → Bool
  is_failed_with [] (e ∷ errors) = true
  is_failed_with _ _ = false

  -- `chk.get('errors') and not chk.get('available')`
  abbrev pub is_failed : Option Found → Bool
  is_failed none = false
  is_failed (some c) = is_failed_with c.available c.errors

  abbrev pub transfer_known : Text → Option Info → M (Unit {0})
  transfer_known version none n = (refused not_found, n)
  transfer_known version (some info) n = transfer_file info version site.transfer n

  abbrev pub check_and_transfer : Text → Option Found × World → Result (Unit {0}) × World
  check_and_transfer version (c, n) =
      if is_failed c
      then (refused check_failed, n)
      else transfer_known version (lookup version n.known) n

  -- `download`
  unfoldable pub download : Text → M (Unit {0})
  unfolding transfer_file check lookup
  download version n = elim (lookup version n.known) [
    | some info ↦ transfer_file info version site.transfer n
    | none ↦ check_and_transfer version (run_check n)
  ]
