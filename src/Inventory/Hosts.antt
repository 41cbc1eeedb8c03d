-- ===== src/Inventory/Hosts.antt =====
-- The rows of hosts under their names.
use netpulse_monitor.Base.{
  ℕ, ◌≤◌, ◌≡◌, refl, ◌∙◌, inl, inr, Bool, false, Option, none, some, List, [], ◌∷◌, ◌++◌, ◌==◌,
  if◌then◌else◌, arith, All, Bool-cases, Option-cases,
}
use netpulse_monitor.Text.{Text, same_refl, is_empty, strip}
use netpulse_monitor.Healing.{Config}
use netpulse_monitor.Inventory.{
  HostRow, Inventory, Note, find_host, update_host, seen_host, upsert_host, mark_online, note_event,
  is_duplicate,
}

-- The hosts are numbered from 1 on.
abbrev pub IsNumbered : Inventory → Type 0
IsNumbered v = (1 ≤ v.next_host) × All (λ h. 1 ≤ h.ident) v.hosts

find_host-update_host :
    (name : Text) (i : ℕ) (f : HostRow → HostRow) (hosts : List HostRow) (h : HostRow)
    → ((x : HostRow) → (f x).name ≡ x.name)
    → find_host name hosts ≡ some h
    → find_host name (update_host i f hosts) ≡ some (if h.ident == i then f h else h)
unfolding find_host update_host
find_host-update_host name i f [] h k e = absurd cc
find_host-update_host name i f (x ∷ hosts) h k e =
    ground (arith, k x, find_host-update_host name i f hosts h k)

find_host-append :
    (h : HostRow) (hosts : List HostRow)
    → find_host h.name hosts ≡ none
    → find_host h.name (hosts ++ h ∷ []) ≡ some h
unfolding find_host
find_host-append h [] e = ground (arith, same_refl h.name)
find_host-append h (x ∷ hosts) e = ground (arith, find_host-append h hosts)

find_host-numbered :
    (name : Text) (hosts : List HostRow) (h : HostRow)
    → All (λ x. 1 ≤ x.ident) hosts
    → find_host name hosts ≡ some h
    → 1 ≤ h.ident
unfolding find_host
find_host-numbered name [] h a e = absurd cc
find_host-numbered name (x ∷ hosts) h a e = ground (arith, a.0, find_host-numbered name hosts h a.1)

update_host-numbered :
    (i : ℕ) (f : HostRow → HostRow) (hosts : List HostRow)
    → ((x : HostRow) → (f x).ident ≡ x.ident)
    → All (λ x. 1 ≤ x.ident) hosts
    → All (λ x. 1 ≤ x.ident) (update_host i f hosts)
unfolding update_host
update_host-numbered i f [] k a = tt
update_host-numbered i f (x ∷ hosts) k a =
    (ground (arith, k x, a.0), update_host-numbered i f hosts k a.1)

numbered-append :
    (hosts : List HostRow) (h : HostRow)
    → All (λ x. 1 ≤ x.ident) hosts
    → 1 ≤ h.ident
    → All (λ x. 1 ≤ x.ident) (hosts ++ h ∷ [])
numbered-append [] h a p = (p, tt)
numbered-append (x ∷ hosts) h a p = (a.0, numbered-append hosts h a.1 p)

module _ (now : ℕ) (name ip os : Text) (v : Inventory) (named : is_empty (strip name) ≡ false) where
  -- The row of a machine and its number, once it is entered or seen again.
  pub find_host-upsert_host :
      IsNumbered v
      → let r = upsert_host now name ip os v in
        (h : HostRow) × (find_host (strip name) r.1.hosts ≡ some h) × (h.ident ≡ r.0) × (1 ≤ r.0)
  unfolding upsert_host seen_host
  find_host-upsert_host k = elim (Option-cases (find_host (strip name) v.hosts)) [
    | inl e ↦ rw (upsert_host, named, e) (_, find_host-append _ v.hosts e, refl, k.0)
    | inr (h, e) ↦
        rw (upsert_host, named, e)
          (
            _,
            find_host-update_host (strip name) h.ident (seen_host now ip os) v.hosts h (λ x. refl)
                e,
            ground arith,
            find_host-numbered (strip name) v.hosts h k.1 e,
          )
  ]

  pub upsert_host-IsNumbered : IsNumbered v → IsNumbered (upsert_host now name ip os v).1
  unfolding upsert_host seen_host
  upsert_host-IsNumbered k = elim (Option-cases (find_host (strip name) v.hosts)) [
    | inl e ↦ rw (upsert_host, named, e) (omega (arith, k.0), numbered-append v.hosts _ k.1 k.0)
    | inr (h, e) ↦
        rw (upsert_host, named, e)
          (k.0, update_host-numbered h.ident (seen_host now ip os) v.hosts (λ x. refl) k.1)
  ]

pub mark_online-IsNumbered :
    (now i : ℕ) (b : Bool) (v : Inventory) → IsNumbered v → IsNumbered (mark_online now i b v)
unfolding mark_online
mark_online-IsNumbered now i b v k = (k.0, update_host-numbered i _ v.hosts (λ x. refl) k.1)

-- A machine that is marked is found so.
pub find_host-mark_online :
    (now : ℕ) (b : Bool) (name : Text) (v : Inventory) (h : HostRow)
    → find_host name v.hosts ≡ some h
    → find_host name (mark_online now h.ident b v).hosts
      ≡ some (record h { online = b; updated_at = now })
unfolding mark_online
find_host-mark_online now b name v h e =
    find_host-update_host name h.ident (λ x. record x { online = b; updated_at = now }) v.hosts h
      (λ x. refl) e
    ∙ ground arith

-- A note leaves the hosts and their numbers alone.
pub note_event-hosts :
    (healing : Option Config) (now : ℕ) (n : Note) (v : Inventory)
    → ((note_event healing now n v).1.hosts ≡ v.hosts)
      × ((note_event healing now n v).1.next_host ≡ v.next_host)
unfolding note_event
note_event-hosts healing now n v = elim (Bool-cases (is_duplicate now n v.events)) [
  | inl e ↦ rw (note_event, e) (refl, refl)
  | inr e ↦ rw (note_event, e) (refl, refl)
]
