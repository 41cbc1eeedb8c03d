-- ===== src/Operations.antt =====
-- netpulse/operations.py: the tables of incidents, device contexts and router health, and the
-- methods' common ground. A method takes the store and gives its result beside the store that it
-- leaves, also when it raises; a transaction that raises leaves what it found.
pub mod Incidents
pub mod Routers
pub mod Alerts
mod Samples
use netpulse_monitor.Base.{
  ℕ, ◌+◌, Bool, true, false, ◌||◌, Option, none, some, List, [], ◌∷◌, ltb, if◌then◌else◌, length,
  take,
}
use netpulse_monitor.Text.{Text, text_of, same, strip}
use netpulse_monitor.Dict.{Dict}

pub data Error : Type 0 where
  bad_text bad_incident bad_action no_incident not_open already_resolved empty_comment : Error
  bad_alerts bad_alert no_alertname : Error
  integrity_error : Error

pub data Result {ℓ} (A : Type ℓ) : Type ℓ where
  ok : A → Result A
  raise : Error → Result A

-- A value of a request body: a string, or anything else.
pub data Value : Type 0 where
  str : Text → Value
  other : Value

pub data IncidentStatus : Type 0 where
  opened acknowledged resolved : IncidentStatus

pub record Incident : Type 0 where
  pub event_key : Text
  pub device_id : Text
  pub title : Text
  pub severity : Text
  pub status : IncidentStatus
  pub owner : Text
  pub opened : ℕ
  pub updated : ℕ
  pub acknowledged_at : Option ℕ
  pub resolved_at : Option ℕ
  pub occurrences : ℕ

pub record Event : Type 0 where
  pub incident_id : Text
  pub ts : ℕ
  pub actor : Text
  pub action : Text
  pub message : Text

pub record Health : Type 0 where
  pub failures : ℕ
  pub last_success : Option ℕ
  pub last_check : ℕ

pub record Context : Type 0 where
  pub site : Text
  pub owner : Text
  pub tags : List Text
  pub maintenance_until : ℕ
  pub updated : ℕ

-- The tables, by primary key. The timeline grows at its end.
pub record Store : Type 0 where
  pub incidents : Dict Incident
  pub timeline : List Event
  pub health : Dict Health
  pub contexts : Dict Context

abbrev pub M : Type 0 → Type 0
M A = Store → Result A × Store

abbrev pub continue : {A B : Type 0} → (A → M B) → Result A × Store → Result B × Store
continue f (ok a, s) = f a s
continue f (raise e, s) = (raise e, s)

infixl 5 ◌>>=◌ ◌>>◌
abbrev pub ◌>>=◌ : {A B : Type 0} → M A → (A → M B) → M B
◌>>=◌ m f s = continue f (m s)

abbrev pub ◌>>◌ : {B : Type 0} → M (Unit {0}) → M B → M B
m >> k = m >>= λ _. k

abbrev pub pure : {A : Type 0} → A → M A
pure a s = (ok a, s)

abbrev pub fail : {A : Type 0} → Error → M A
fail e s = (raise e, s)

abbrev pub lift : {A : Type 0} → Result A → M A
lift r s = (r, s)

-- `if bad: raise e`
abbrev pub refuse : Bool → Error → M (Unit {0})
refuse true e s = (raise e, s)
refuse false e s = (ok tt, s)

-- `text(value, limit)`
unfoldable pub text : Value → ℕ → Result Text
unfolding strip
text other limit = raise bad_text
text (str s) limit = if ltb limit (length s) then raise bad_text else ok (strip s)

-- `status IN ('open','acknowledged')`, the condition of the unique index `active_incident_key`.
abbrev pub is_active : Incident → Bool
is_active r = elim r.status [ resolved ↦ false | _ ↦ true ]
