-- ===== src/Inventory.antt =====
-- netpulse/inventory.py: the machines of a park and their events, with the rules of self-healing that
-- `note_event` calls. The time of a call, in seconds of local time, is an argument; alerts are left out.
pub mod Apart
pub mod Healed
pub mod Hosts
mod Samples
use netpulse_monitor.Base.{
  ℕ, ◌+◌, ◌-◌, ◌*◌, ◌/◌, min, max, Bool, true, false, ◌&&◌, ◌||◌, Option, none, some, List, [], ◌∷◌,
  ◌++◌, leb, ◌==◌, if◌then◌else◌, take, keep_if, any_of,
}
use netpulse_monitor.Text.{Text, text_of, same, same_option, is_empty, strip}
use netpulse_monitor.Healing.{Config, Event, LastRun, Execution, on_event}

-- A row of `hosts`, without the health score.
pub record HostRow : Type 0 where
  pub ident : ℕ
  pub name : Text
  pub ip : Text
  pub os : Text
  pub online : Bool
  pub first_seen : ℕ
  pub last_seen : ℕ
  pub updated_at : ℕ

-- A row of `events`.
pub record EventRow : Type 0 where
  pub timestamp : ℕ
  pub host_id : ℕ
  pub kind : Text
  pub severity : Text
  pub source : Text
  pub text : Text
  pub dedup_key : Option Text

-- The tables, the events from the newest on, with the number of the next host and the table of the
-- rules' last runs.
pub record Inventory : Type 0 where
  pub hosts : List HostRow
  pub next_host : ℕ
  pub events : List EventRow
  pub last_run : LastRun

-- The arguments of `note_event`; host number 0 stands for none.
pub record Note : Type 0 where
  pub host_id : ℕ
  pub kind : Text
  pub severity : Text
  pub source : Text
  pub text : Text
  pub dedup_key : Option Text
  pub dedup_hours : ℕ

-- `if dedup_key`
abbrev pub key_or_none : Option Text → Option Text
key_or_none none = none
key_or_none (some k) = if is_empty k then none else some k

-- The keys of `SEVERITY_WEIGHT`.
unfoldable pub known_severity : Text → Text
unfolding same
known_severity s =
    if same s (text_of "CRITICAL")
      || same s (text_of "HIGH")
      || same s (text_of "MEDIUM")
      || same s (text_of "LOW")
    then s
    else text_of "MEDIUM"

-- `timestamp > datetime('now', 'localtime', '-hours hours')`. Both sides are texts: the left one has a
-- T between its date and its time, the right one a space, which comes before T. So of one date the left
-- one is greater at any time, and of two dates the date decides.
unfoldable pub is_recent : (now hours timestamp : ℕ) → Bool
is_recent now hours timestamp = leb ((now - hours * 3600) / 86400) (timestamp / 86400)

abbrev pub is_repeat : (now hours : ℕ) → Text → EventRow → Bool
is_repeat now hours key e = same_option e.dedup_key (some key) && is_recent now hours e.timestamp

abbrev pub is_duplicate_of : ℕ → ℕ → Option Text → List EventRow → Bool
is_duplicate_of now hours none events = false
is_duplicate_of now hours (some k) events = any_of (is_repeat now (max 1 hours) k) events

-- Whether the key was noted within the window.
unfoldable pub is_duplicate : ℕ → Note → List EventRow → Bool
unfolding is_recent same_option
is_duplicate now n events = is_duplicate_of now n.dedup_hours (key_or_none n.dedup_key) events

unfoldable pub row_of : ℕ → Note → EventRow
unfolding known_severity
row_of now n = record {
  timestamp = now;
  host_id = n.host_id;
  kind = take 32 n.kind;
  severity = known_severity n.severity;
  source = take 16 n.source;
  text = take 1000 n.text;
  dedup_key = n.dedup_key;
}

-- `SELECT name FROM hosts WHERE id = ?`
unfoldable pub host_name : ℕ → List HostRow → Option Text
host_name i [] = none
host_name i (h ∷ hosts) = if h.ident == i then some h.name else host_name i hosts

-- What the rules of self-healing are given.
unfoldable pub event_of : Note → List HostRow → Event
unfolding known_severity host_name
event_of n hosts = record {
  kind = n.kind;
  severity = known_severity n.severity;
  host_name = if n.host_id == 0 then none else host_name n.host_id hosts;
}

abbrev pub heal : Option Config → ℕ → Event → LastRun → List Execution × LastRun
heal none now e runs = ([], runs)
heal (some c) now e runs = on_event now c e runs

abbrev pub add_row : EventRow → List Execution × LastRun → Inventory → List Execution × Inventory
add_row e healed v = (healed.0, record v { events = e ∷ v.events; last_run = healed.1 })

-- `note_event`: the runbooks that are executed, and the inventory afterwards. A duplicate changes
-- nothing.
unfoldable pub note_event : Option Config → ℕ → Note → Inventory → List Execution × Inventory
unfolding is_duplicate row_of event_of on_event
note_event healing now n v =
    if is_duplicate now n v.events
    then ([], v)
    else add_row (row_of now n) (heal healing now (event_of n v.hosts) v.last_run) v

-- Notes one after the other, each with its time.
unfoldable pub run_notes : Option Config → List (ℕ × Note) → Inventory → List Execution × Inventory
unfolding note_event
run_notes healing [] v = ([], v)
run_notes healing ((now, n) ∷ l) v =
    let r = note_event healing now n v in
    let rest = run_notes healing l r.1 in (r.0 ++ rest.0, rest.1)

-- `recent_events`, without the names of hosts; a limit of 0 counts as 80, host number 0 as none.
unfoldable pub recent_events : (limit host_id : ℕ) → Inventory → List EventRow
recent_events limit host_id v =
    take (min (max (if limit == 0 then 80 else limit) 1) 300)
      (keep_if (λ e. host_id == 0 || e.host_id == host_id) v.events)

-- `upsert_host`
unfoldable pub find_host : Text → List HostRow → Option HostRow
unfolding same
find_host name [] = none
find_host name (h ∷ hosts) = if same h.name name then some h else find_host name hosts

abbrev pub or_old : Text → Text → Text
or_old new old = if is_empty new then old else new

unfoldable pub seen_host : ℕ → (ip os : Text) → HostRow → HostRow
seen_host now ip os h = record h {
  last_seen = now;
  updated_at = now;
  ip = or_old ip h.ip;
  os = or_old os h.os;
}

-- `UPDATE hosts SET … WHERE id = ?`
unfoldable pub update_host : ℕ → (HostRow → HostRow) → List HostRow → List HostRow
update_host i f [] = []
update_host i f (h ∷ hosts) = (if h.ident == i then f h else h) ∷ update_host i f hosts

abbrev pub upsert_found : ℕ → (name ip os : Text) → Inventory → Option HostRow → ℕ × Inventory
upsert_found now name ip os v (some h) =
    (h.ident, record v { hosts = update_host h.ident (seen_host now ip os) v.hosts })
upsert_found now name ip os v none = (
  v.next_host,
  record v {
    hosts =
        v.hosts
        ++ record {
          ident = v.next_host;
          name = name;
          ip = ip;
          os = os;
          online = false;
          first_seen = now;
          last_seen = now;
          updated_at = now;
        }
          ∷ [];
    next_host = v.next_host + 1;
  },
)

-- `upsert_host` of a stripped name; number 0 stands for None.
unfoldable pub upsert_host : ℕ → (name ip os : Text) → Inventory → ℕ × Inventory
unfolding strip find_host update_host seen_host
upsert_host now name ip os v =
    if is_empty (strip name)
    then (0, v)
    else upsert_found now (strip name) ip os v (find_host (strip name) v.hosts)

-- `mark_online`
unfoldable pub mark_online : ℕ → ℕ → Bool → Inventory → Inventory
unfolding update_host
mark_online now i online v = record v {
  hosts = update_host i (λ h. record h { online = online; updated_at = now }) v.hosts;
}
