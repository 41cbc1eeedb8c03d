-- ===== src/Watchdog.antt =====
-- netpulse/watchdog.py: `_poll_host`, over the inventory. What a machine answers is an argument, and so
-- are the problems that `_apply_rules` finds in it; the classification of machines without WinRM
-- and the history of disks are left out.
pub mod Offline
mod Samples
use netpulse_monitor.Base.{
  ℕ, ◌+◌, Bool, true, false, not, ◌&&◌, Option, none, some, List, [], ◌∷◌, ◌++◌, leb, ltb, ◌==◌,
  if◌then◌else◌, take,
}
use netpulse_monitor.Text.{Text, text_of, is_empty}
use netpulse_monitor.Dict.{Dict, lookup, insert}
use netpulse_monitor.Healing.{Config, Execution}
use netpulse_monitor.Inventory.{Inventory, Note, note_event, upsert_host, mark_online}

-- A problem of `_apply_rules`.
pub record Problem : Type 0 where
  pub kind : Text
  pub severity : Text
  pub text : Text
  pub key : Text
  pub hours : ℕ

-- What a poll gets: an answer with the machine's name, or an error and whether a ping came back.
pub data Collected : Type 0 where
  answered : (name os : Text) → List Problem → Collected
  silent : (ping : Bool) (error : Text) → Collected

-- The machine that is polled, and the configuration: `offline_after_polls`, the rules of
-- self-healing, the address of the node itself and the date of a time as a text.
pub record Target : Type 0 where
  pub host : Text
  pub is_local : Bool
  pub my_ip : Text
  pub offline_after : ℕ
  pub healing : Option Config
  pub date : ℕ → Text
  pub decimal : ℕ → Text

-- `_fail_streak` and the inventory.
pub record Watch : Type 0 where
  pub fail_streak : Dict ℕ
  pub inventory : Inventory

abbrev pub Watched : Type 0
Watched = List Execution × Inventory

abbrev pub number_or_0 : Option ℕ → ℕ
number_or_0 none = 0
number_or_0 (some n) = n

-- `self._fail_streak.get(host, 0)`
abbrev pub streak_of : Text → Watch → ℕ
streak_of host w = number_or_0 (lookup host w.fail_streak)

module _ (t : Target) where
  abbrev pub ping_ip : Text
  ping_ip = if t.is_local then t.my_ip else t.host

  -- A note of the watchdog.
  abbrev pub note_of : (hid : ℕ) → (kind severity text key : Text) → (hours : ℕ) → Note
  note_of hid kind severity text key hours = record {
    host_id = hid;
    kind = kind;
    severity = severity;
    source = text_of "watchdog";
    text = text;
    dedup_key = some key;
    dedup_hours = hours;
  }

  abbrev pub offline_note : ℕ → (hid streak : ℕ) (error : Text) → Note
  offline_note now hid streak error =
      note_of hid (text_of "offline") (text_of "HIGH")
        (text_of "Машина недоступна "
          ++ t.decimal streak
          ++ text_of " опросов подряд ("
          ++ take 80 error
          ++ text_of ")")
        (t.host ++ text_of ":offline:" ++ t.date now) 6

  -- A machine that answers a ping, but not the query.
  unfoldable pub no_winrm : ℕ → (streak : ℕ) → ℕ × Inventory → Watched
  no_winrm now streak (hid, v) =
      if hid == 0
      then ([], v)
      else if leb t.offline_after streak
      then note_event t.healing now
          (note_of hid (text_of "nowinrm") (text_of "LOW")
            (text_of "Отвечает на ping, но нет WinRM — не Windows или выключен WinRM")
            (t.host ++ text_of ":nowinrm") 168)
          (mark_online now hid true v)
      else ([], mark_online now hid true v)

  -- A machine that has been silent for too long.
  unfoldable pub gone_offline : ℕ → (streak : ℕ) (error : Text) → ℕ × Inventory → Watched
  gone_offline now streak error (hid, v) =
      if hid == 0
      then ([], v)
      else note_event t.healing now (offline_note now hid streak error)
          (mark_online now hid false v)

  -- The branch of a failed collection, once the streak is counted.
  unfoldable pub poll_silent : ℕ → Bool → (streak : ℕ) (error : Text) → Inventory → Watched
  poll_silent now true streak error v = no_winrm now streak (upsert_host now t.host ping_ip [] v)
  poll_silent now false streak error v =
      if leb t.offline_after streak
      then gone_offline now streak error
          (upsert_host now t.host (if t.is_local then [] else t.host) [] v)
      else ([], v)

  -- The events of the problems, which `_apply_rules` notes one after the other.
  unfoldable pub note_problems : ℕ → (hid : ℕ) → List Problem → Inventory → Watched
  note_problems now hid [] v = ([], v)
  note_problems now hid (p ∷ ps) v =
      let r = note_event t.healing now (note_of hid p.kind p.severity p.text p.key p.hours) v in
      let rest = note_problems now hid ps r.1 in (r.0 ++ rest.0, rest.1)

  abbrev pub mark_seen : ℕ → ℕ → Inventory → Inventory
  mark_seen now hid v = if hid == 0 then v else mark_online now hid true v

  abbrev pub note_back : ℕ → ℕ → (streak : ℕ) → Inventory → Watched
  note_back now hid streak v =
      if ltb 0 streak
      then note_event t.healing now
          (note_of hid (text_of "online") (text_of "LOW") (text_of "Снова в сети")
            (t.host ++ text_of ":online:" ++ t.date now) 6)
          v
      else ([], v)

  abbrev pub note_all : ℕ → ℕ → List Problem → Watched → Watched
  note_all now hid ps (x, v) =
      let r = if hid == 0 then ([], v) else note_problems now hid ps v in (x ++ r.0, r.1)

  -- The branch of an answer.
  unfoldable pub poll_answered : ℕ → (streak : ℕ) → List Problem → ℕ × Inventory → Watched
  poll_answered now streak ps (hid, v) =
      note_all now hid ps (note_back now hid streak (mark_seen now hid v))

  abbrev pub name_or_host : Text → Text
  name_or_host name = if is_empty name then t.host else name

  abbrev pub set_streak : ℕ → Watch → Watched → List Execution × Watch
  set_streak n w (x, v) = (x, record { fail_streak = insert t.host n w.fail_streak; inventory = v })

  -- `_poll_host`
  unfoldable pub poll_host : ℕ → Collected → Watch → List Execution × Watch
  poll_host now (silent ping error) w =
      set_streak (streak_of t.host w + 1) w
        (poll_silent now ping (streak_of t.host w + 1) error w.inventory)
  poll_host now (answered name os ps) w = set_streak 0 w (
      poll_answered now (streak_of t.host w) ps
        (upsert_host now (name_or_host name) ping_ip (take 120 os) w.inventory))

  -- Polls one after the other, each with its time.
  unfoldable pub run_polls : List (ℕ × Collected) → Watch → List Execution × Watch
  run_polls [] w = ([], w)
  run_polls ((now, c) ∷ l) w =
      let r = poll_host now c w in let rest = run_polls l r.1 in (r.0 ++ rest.0, rest.1)
