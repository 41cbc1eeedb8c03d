-- ===== src/Updates/Boot/Again.antt =====
-- The starts of a node one after the other, without a confirmation between them.
use netpulse_monitor.Base.{ℕ, ◌≤◌, ◌≡◌, refl, true, some, List, [], ◌∷◌, arith, All}
use netpulse_monitor.Text.{Text, text_of, same_refl}
use netpulse_monitor.Text.Names.{has, has-with_last, same-append}
use netpulse_monitor.Dict.{lookup, insert, remove}
use netpulse_monitor.Dict.Laws.{lookup-insert, lookup-remove, lookup-insert_self}
use netpulse_monitor.Updates.Boot.{
  BootState, Disk, Calls, Started, confirming, restarting, load_state, save_state, start,
  count_attempt, max_attempts, failed_of,
}
use netpulse_monitor.Updates.Boot.Attempts.{
  IsAllowed, IsInstalled, rolled_files, rolled_state, start-confirming, start_rollback,
}

-- Each start with the time and what the system does with its calls.
unfoldable pub run_starts : List (Calls × ℕ) → Disk → List Started × Disk
unfolding start
run_starts [] d = ([], d)
run_starts ((calls, now) ∷ l) d =
    let r = start calls now d in let rest = run_starts l r.1 in (r.0 ∷ rest.0, rest.1)

module _ {st : BootState} {d : Disk} {exe old to failing kept : Text} where
  rolled-IsInstalled :
      (now : ℕ)
      → IsInstalled st d exe old to failing kept
      → IsInstalled
          (rolled_state now to st)
          (record {
            files = rolled_files d.files exe failing kept;
            state = some (rolled_state now to st);
          })
          exe
          old
          to
          kept
          kept
  rolled-IsInstalled now i = record {
    state = refl;
    exe_path = i.exe_path;
    old_path = i.old_path;
    to_version = i.to_version;
    unconfirmed = i.unconfirmed;
    exe_file = lookup-insert_self exe kept (insert (failed_of exe) failing (remove exe d.files));
    old_file =
        rw
          (
            lookup-insert exe old kept (insert (failed_of exe) failing (remove exe d.files)),
            i.old_is_other,
            lookup-insert (failed_of exe) old failing (remove exe d.files),
            i.failed_is_other,
            lookup-remove exe old d.files,
            i.old_is_other,
          )
          i.old_file;
    old_is_other = i.old_is_other;
    failed_is_other = i.failed_is_other;
  }

  counted-IsInstalled :
      (now : ℕ)
      → IsInstalled st d exe old to failing kept
      → IsInstalled
          (count_attempt now st)
          (save_state (count_attempt now st) d)
          exe
          old
          to
          failing
          kept
  unfolding save_state
  counted-IsInstalled now i = record {
    state = refl;
    exe_path = i.exe_path;
    old_path = i.old_path;
    to_version = i.to_version;
    unconfirmed = i.unconfirmed;
    exe_file = i.exe_file;
    old_file = i.old_file;
    old_is_other = i.old_is_other;
    failed_is_other = i.failed_is_other;
  }

-- Once a node has used up its attempts, every start ends in a rollback and another start, however
-- often it is started: the rollback does not clear the mark that causes it.
pub run_starts-restarting :
    (l : List (Calls × ℕ)) {st : BootState} {d : Disk} {exe old to failing kept : Text}
    → All (λ c. IsAllowed c.0) l
    → IsInstalled st d exe old to failing kept
    → max_attempts ≤ st.attempts
    → All (λ r. r ≡ restarting) (run_starts l d).0
unfolding run_starts
run_starts-restarting [] a i h = tt
run_starts-restarting ((calls, now) ∷ l) {st} {d} {exe} {old} {to} {failing} {kept} a i h =
    rw (start_rollback calls now st d exe old to failing kept a.0 i h)
      (refl, run_starts-restarting l a.1 (rolled-IsInstalled now i) (omega (arith, h)))

-- An update that is not confirmed is started twice. The third start puts the old version back
-- where the system allows it, keeps the failed one aside and locks its version.
pub run_starts-rollback :
    (c1 c2 c3 : Calls) (t1 t2 t3 : ℕ) {st : BootState} {d : Disk} {exe old to failing kept : Text}
    → IsAllowed c3
    → IsInstalled st d exe old to failing kept
    → st.attempts ≡ 0
    → let r = run_starts ((c1, t1) ∷ (c2, t2) ∷ (c3, t3) ∷ []) d in
      (r.0 ≡ confirming ∷ confirming ∷ restarting ∷ [])
      × (lookup exe r.1.files ≡ some kept)
      × (lookup (failed_of exe) r.1.files ≡ some failing)
      × (has to (load_state r.1).locked_versions ≡ true)
unfolding run_starts load_state save_state
run_starts-rollback c1 c2 c3 t1 t2 t3 {st} {d} {exe} {old} {to} {failing} {kept} a i z =
    let i1 = counted-IsInstalled t1 i in
    let i2 = counted-IsInstalled t2 i1 in
    rw
      (
        start-confirming c1 t1 d st i.state i.unconfirmed (omega (arith, z)),
        start-confirming c2 t2 (save_state (count_attempt t1 st) d) (count_attempt t1 st) i1.state
            i1.unconfirmed (omega (arith, z)),
        start_rollback c3 t3 (count_attempt t2 (count_attempt t1 st))
            (save_state (count_attempt t2 (count_attempt t1 st))
              (save_state (count_attempt t1 st) d))
            exe old to failing kept a i2 (omega (arith, z)),
      )
      (
        refl,
        lookup-insert_self exe kept (insert (failed_of exe) failing (remove exe d.files)),
        rw
            (
              lookup-insert exe (failed_of exe) kept
                  (insert (failed_of exe) failing (remove exe d.files)),
              same-append exe b'.' (text_of "failed"),
            )
            (lookup-insert_self (failed_of exe) failing (remove exe d.files)),
        rw (has-with_last to to st.locked_versions, same_refl to) refl,
      )
