-- ===== src/Updates/Apply/Guards.antt =====
-- What holds when `apply` starts the updater.
use netpulse_monitor.Base.{
  ◌≡◌, refl, ap, sym, ◌∙◌, inl, inr, Bool, true, false, not, ◌&&◌, Option, none, some, arith,
  Bool-cases, Option-cases,
}
use netpulse_monitor.Text.{Text, same}
use netpulse_monitor.Dict.{lookup}
use netpulse_monitor.Updates.{Files, copy_file}
use netpulse_monitor.Updates.Lookups.{lookup-copy_file}
use netpulse_monitor.Updates.Boot.{load_state, save_state, is_unconfirmed}
use netpulse_monitor.Updates.Install.{
  Refusal, bad_digest, unsigned, disabled, not_frozen, unconfirmed, Info, Found,
  validate_transition,
}
use netpulse_monitor.Updates.Download.{
  World, Result, ok, refused, M, ◌>>◌, continue, refuse_if, refuse_some, Site, staged_path,
  is_wrong, run_check,
}
use netpulse_monitor.Updates.Apply.{
  find_info, check_listed, ensure_staged, expected_of, verify_contents, verify_staged, copy_updater,
  copied_updater, new_state, save_new, launch_updater, apply,
}

continue-ok :
    {A B : Type 0} {f : A → M B} (r : Result A × World) {b : B} {t : World}
    → continue f r ≡ (ok b, t)
    → (a : A) × (n : World) × (r ≡ (ok a, n)) × (f a n ≡ (ok b, t))
continue-ok (ok a, n) h = (a, n, refl, h)
continue-ok (refused e, n) h = absurd cc

refuse_if-then :
    (b : Bool) (e : Refusal) (k : M (Unit {0})) {n n' : World} {u : Unit {0}}
    → continue (λ _. k) (refuse_if b e n) ≡ (ok u, n')
    → (b ≡ false) × (k n ≡ (ok u, n'))
refuse_if-then true e k h = absurd cc
refuse_if-then false e k h = (refl, h)

refuse_some-then :
    (o : Option Refusal) (k : M (Unit {0})) {n n' : World} {u : Unit {0}}
    → continue (λ _. k) (refuse_some o n) ≡ (ok u, n')
    → (o ≡ none) × (k n ≡ (ok u, n'))
refuse_some-then (some e) k h = absurd cc
refuse_some-then none k h = (refl, h)

module _ (site : Site) (version : Text) where
  check_listed-ok :
      (r : Option Found × World) (info : Option Info) (n' : World)
      → check_listed site version r ≡ (ok info, n')
      → info ≡ none
  check_listed-ok (c, n) info n' h = ground arith

  -- What `apply` knows of the version is what was known before the call.
  find_info-ok :
      (info : Option Info) (n n' : World)
      → find_info site version n ≡ (ok info, n')
      → info ≡ lookup version n.known
  unfolding find_info
  find_info-ok info n n' h = elim (Option-cases (lookup version n.known)) [
    | inl e ↦ check_listed-ok (run_check site n) info n' (rw (find_info, e) at h) ∙ sym e
    | inr (i, e) ↦ cc (rw (find_info, e) at h, e)
  ]

  verify_contents-then :
      (info : Option Info) (o : Option Text) (k : M (Unit {0})) (n n' : World) (u : Unit {0})
      → continue (λ _. k) (verify_contents site info o n) ≡ (ok u, n')
      → (c : Text) × (o ≡ some c)
        × (is_wrong site (expected_of site info) c ≡ false)
        × ((site.require_signed && not (site.is_signed c)) ≡ false)
        × (k n ≡ (ok u, n'))
  verify_contents-then info none k n n' u h = absurd cc
  verify_contents-then info (some c) k n n' u h =
      let r =
        checked (is_wrong site (expected_of site info) c)
          (site.require_signed && not (site.is_signed c)) h in
      (c, refl, r.0, r.1, r.2)
    where
      checked :
          (w s : Bool)
          → continue (λ _. k) (continue (λ _. refuse_if s unsigned) (refuse_if w bad_digest n))
            ≡ (ok u, n')
          → (w ≡ false) × (s ≡ false) × (k n ≡ (ok u, n'))
      checked true s h = absurd cc
      checked false true h = absurd cc
      checked false false h = (refl, refl, h)

  copied_updater-ok :
      (copied : Bool × Files) (n n' : World) (u : Unit {0})
      → copied_updater site copied n ≡ (ok u, n')
      → copied ≡ (true, n'.disk.files)
  copied_updater-ok (true, files) n n' u h = cc
  copied_updater-ok (false, files) n n' u h = absurd cc

  launch_updater-ok :
      (n n' : World) (u : Unit {0})
      → launch_updater site n ≡ (ok u, n')
      → (site.launches ≡ true) × (n' ≡ n)
  unfolding launch_updater
  launch_updater-ok n n' u h = elim (Bool-cases site.launches) [
    | inl l ↦ (l, cc (rw (launch_updater, l) at h))
    | inr l ↦ absurd (cc (rw (launch_updater, l) at h))
  ]

  -- The last steps: the updater's copy, the saved state and the start.
  started-ok :
      (n n' : World) (u : Unit {0})
      → continue (λ _. save_new site version >> launch_updater site) (copy_updater site n)
        ≡ (ok u, n')
      → (n'.disk.state ≡ some (new_state site version))
        × (copy_file site.copies site.exe site.updater_exe n.disk.files ≡ (true, n'.disk.files))
  unfolding copy_updater save_state
  started-ok n n' u h =
      let (_, m, e, g) = continue-ok (copy_updater site n) h in
      let l = launch_updater-ok (save_new site version m).1 n' u g in
      let f =
        copied_updater-ok (copy_file site.copies site.exe site.updater_exe n.disk.files) n m _ e in
      (ap (λ x. x.disk.state) l.1, f ∙ ap (λ x. (true, x.disk.files)) (sym l.1))

  -- What holds of a node that has started the updater for `version`, and of the node before.
  pub record IsGuarded (force : Bool) (n n' : World) : Type 0 where
    pub enabled : site.enabled ≡ true
    pub frozen : site.frozen ≡ true
    pub transition : validate_transition site.current version site.allow_downgrade force ≡ none
    pub confirmed : is_unconfirmed (load_state n.disk) ≡ false
    pub contents : Text
    pub staged : lookup (staged_path site version) n'.disk.files ≡ some contents
    pub signed : (site.require_signed && not (site.is_signed contents)) ≡ false
    pub digested : is_wrong site (expected_of site (lookup version n.known)) contents ≡ false
    pub state : n'.disk.state ≡ some (new_state site version)
    pub copied :
        (files : Files) × (copy_file site.copies site.exe site.updater_exe files
          ≡ (true, n'.disk.files))

  -- When `apply` starts the updater, and the updater's own path is not that of the staged file, updates
  -- are enabled, the binary is packaged, the transition is
  -- allowed and no earlier update waits for its confirmation; the staged file is there, signed where
  -- that is required, and with the digest of its manifest where the version was known before the call;
  -- the state that is saved is that of a fresh update, and the binary was copied for the updater.
  pub apply-IsGuarded :
      (force : Bool) (n n' : World) (u : Unit {0})
      → same site.updater_exe (staged_path site version) ≡ false
      → apply site version force n ≡ (ok u, n')
      → IsGuarded force n n'
  unfolding apply save_state copy_updater verify_staged
  apply-IsGuarded force n n' u other h =
      let g1 = refuse_if-then (not site.enabled) disabled _ h in
      let g2 = refuse_if-then (not site.frozen) not_frozen _ g1.1 in
      let g3 =
        refuse_some-then (validate_transition site.current version site.allow_downgrade force) _
          g2.1 in
      let g4 = refuse_if-then (is_unconfirmed (load_state n.disk)) unconfirmed _ g3.1 in
      let (info, n5, e5, h5) = continue-ok (find_info site version n) g4.1 in
      let (_, n6, e6, h6) = continue-ok (ensure_staged site version n5) h5 in
      let v =
        verify_contents-then info (lookup (staged_path site version) n6.disk.files) _ n6 n' u h6 in
      let s = started-ok n6 n' u v.4 in
      record {
        enabled = ground (arith, g1.0);
        frozen = ground (arith, g2.0);
        transition = g3.0;
        confirmed = g4.0;
        contents = v.0;
        staged =
            ap (λ (x : Bool × Files). lookup (staged_path site version) x.1) (sym s.1)
            ∙ lookup-copy_file site.updater_exe site.copies site.exe (staged_path site version)
                n6.disk.files other
            ∙ v.1;
        signed = v.3;
        digested =
            ap (λ x. is_wrong site (expected_of site x) v.0) (sym (find_info-ok info n n5 e5))
            ∙ v.2;
        state = s.0;
        copied = (n6.disk.files, s.1);
      }
