-- ===== src/Watchdog/Offline.antt =====
-- When a machine that does not answer is taken for offline.
use netpulse_monitor.Base.{
  ℕ, suc, ◌+◌, ◌≤◌, ◌<◌, ◌≡◌, refl, sym, ap, ◌∙◌, inl, inr, true, false, some, List, [], ◌∷◌, leb,
  ltb, ◌⊎◌, ◌==◌, if◌then◌else◌, arith, map, length, Bool-cases,
}
use netpulse_monitor.Text.{Text, is_empty, strip}
use netpulse_monitor.Dict.Laws.{lookup-insert_self}
use netpulse_monitor.Inventory.{HostRow, Inventory, find_host, upsert_host, mark_online}
use netpulse_monitor.Inventory.Hosts.{
  IsNumbered, find_host-upsert_host, upsert_host-IsNumbered, mark_online-IsNumbered,
  find_host-mark_online, note_event-hosts,
}
use netpulse_monitor.Watchdog.{
  Collected, silent, Target, Watch, streak_of, number_or_0, offline_note, gone_offline, poll_silent,
  poll_host, run_polls,
}

module _ (t : Target) where
  -- The machine stands in the inventory as offline.
  abbrev pub IsOffline : Inventory → Type 0
  IsOffline v = (h : HostRow) × (find_host (strip t.host) v.hosts ≡ some h) × (h.online ≡ false)

  gone_offline-IsOffline :
      (now streak hid : ℕ) (error : Text) (v : Inventory) (h : HostRow)
      → find_host (strip t.host) v.hosts ≡ some h
      → h.ident ≡ hid
      → 1 ≤ hid
      → IsOffline (gone_offline t now streak error (hid, v)).1
  unfolding gone_offline
  gone_offline-IsOffline now streak hid error v h e i p = elim (Bool-cases (hid == 0)) [
    | inl z ↦ absurd (ground arith)
    | inr z ↦
        rw (gone_offline, z)
          (
            record h { online = false; updated_at = now },
            ap (find_host (strip t.host))
                  (note_event-hosts t.healing now (offline_note t now hid streak error)
                    (mark_online now hid false v)).0
                ∙ rw (sym i) (find_host-mark_online now false (strip t.host) v h e),
            refl,
          )
  ]

  gone_offline-IsNumbered :
      (now streak hid : ℕ) (error : Text) (v : Inventory)
      → IsNumbered v
      → IsNumbered (gone_offline t now streak error (hid, v)).1
  unfolding gone_offline
  gone_offline-IsNumbered now streak hid error v k = elim (Bool-cases (hid == 0)) [
    | inl z ↦ rw (gone_offline, z) k
    | inr z ↦
        rw (gone_offline, z)
          (let n =
              note_event-hosts t.healing now (offline_note t now hid streak error)
                (mark_online now hid false v) in
            let m = mark_online-IsNumbered now hid false v k in (rw n.1 m.0, rw n.0 m.1))
  ]

  -- A failed poll without a ping, once the streak is long enough.
  poll_silent-IsOffline :
      (now streak : ℕ) (error : Text) (v : Inventory)
      → is_empty (strip t.host) ≡ false
      → leb t.offline_after streak ≡ true
      → IsNumbered v
      → IsOffline (poll_silent t now false streak error v).1
        × IsNumbered (poll_silent t now false streak error v).1
  unfolding poll_silent
  poll_silent-IsOffline now streak error v named l k =
      let ip = if t.is_local then [] else t.host in
      let r = upsert_host now t.host ip [] v in
      let (h, e, i, p) = find_host-upsert_host now t.host ip [] v named k in
      rw l (
        gone_offline-IsOffline now streak r.0 error r.1 h e i p,
        gone_offline-IsNumbered now streak r.0 error r.1
            (upsert_host-IsNumbered now t.host ip [] v named k),
      )

  -- Polls without an answer, each with its time and its error.
  abbrev pub silence : List (ℕ × Text) → List (ℕ × Collected)
  silence = map (λ p. (p.0, silent false p.1))

  streak-poll_host :
      (now : ℕ) (error : Text) (w : Watch)
      → streak_of t.host (poll_host t now (silent false error) w).1 ≡ streak_of t.host w + 1
  unfolding poll_host
  streak-poll_host now error w =
      ap number_or_0 (lookup-insert_self t.host (streak_of t.host w + 1) w.fail_streak)

  poll_host-quiet :
      (now : ℕ) (error : Text) (w : Watch)
      → streak_of t.host w + 1 < t.offline_after
      → (poll_host t now (silent false error) w).1.inventory ≡ w.inventory
  unfolding poll_host poll_silent
  poll_host-quiet now error w h = ground arith

  -- Fewer polls without an answer than `offline_after` leave the inventory as it is.
  run_silence_quiet :
      (l : List (ℕ × Text)) (w : Watch)
      → streak_of t.host w + length l < t.offline_after
      → (run_polls t (silence l) w).1.inventory ≡ w.inventory
  unfolding run_polls
  run_silence_quiet [] w h = refl
  run_silence_quiet ((now, error) ∷ l) w h =
      let w' = (poll_host t now (silent false error) w).1 in
      run_silence_quiet l w' (omega (arith, h, streak-poll_host now error w))
      ∙ poll_host-quiet now error w (omega (arith, h))

  poll_host-IsOffline :
      (now : ℕ) (error : Text) (w : Watch)
      → is_empty (strip t.host) ≡ false
      → t.offline_after ≤ streak_of t.host w + 1
      → IsNumbered w.inventory
      → IsOffline (poll_host t now (silent false error) w).1.inventory
  unfolding poll_host
  poll_host-IsOffline now error w named h k =
      (poll_silent-IsOffline now (streak_of t.host w + 1) error w.inventory named (ground arith)
        k).0

  poll_host-IsNumbered :
      (now : ℕ) (error : Text) (w : Watch)
      → is_empty (strip t.host) ≡ false
      → IsNumbered w.inventory
      → IsNumbered (poll_host t now (silent false error) w).1.inventory
  unfolding poll_host poll_silent
  poll_host-IsNumbered now error w named k =
      elim (Bool-cases (leb t.offline_after (streak_of t.host w + 1))) [
        | inl e ↦ (poll_silent-IsOffline now (streak_of t.host w + 1) error w.inventory named e k).1
        | inr e ↦ rw e k
      ]

  run_silence_down :
      (now : ℕ) (error : Text) (l : List (ℕ × Text)) (w : Watch)
      → is_empty (strip t.host) ≡ false
      → t.offline_after ≤ streak_of t.host w + suc (length l)
      → IsNumbered w.inventory
      → IsOffline (run_polls t (silence ((now, error) ∷ l)) w).1.inventory
  unfolding run_polls
  run_silence_down now error [] w named h k =
      poll_host-IsOffline now error w named (omega (arith, h)) k
  run_silence_down now error ((now', error') ∷ l) w named h k =
      let w' = (poll_host t now (silent false error) w).1 in
      run_silence_down now' error' l w' named (omega (arith, h, streak-poll_host now error w))
        (poll_host-IsNumbered now error w named k)

  -- A machine that answers neither query nor ping: as long as its polls without an answer are fewer than
  -- `offline_after`, the inventory stays as it is; from then on, the machine stands in it as offline. The
  -- name of the machine is not blank, and the hosts are numbered from 1 on.
  pub run_silence-IsOffline :
      (now : ℕ) (error : Text) (l : List (ℕ × Text)) (w : Watch)
      → is_empty (strip t.host) ≡ false
      → IsNumbered w.inventory
      → let polls = streak_of t.host w + suc (length l) in
        let v = (run_polls t (silence ((now, error) ∷ l)) w).1.inventory in
        ((polls < t.offline_after) × (v ≡ w.inventory)) ⊎ ((t.offline_after ≤ polls) × IsOffline v)
  run_silence-IsOffline now error l w named k =
      elim (Bool-cases (ltb (streak_of t.host w + suc (length l)) t.offline_after)) [
        | inl h ↦
            let p : streak_of t.host w + suc (length l) < t.offline_after = ground arith in
            inl (p, run_silence_quiet ((now, error) ∷ l) w p)
        | inr h ↦
            let p : t.offline_after ≤ streak_of t.host w + suc (length l) = ground arith in
            inr (p, run_silence_down now error l w named p k)
      ]
