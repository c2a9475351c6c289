-- ===== src/Model.antt =====
-- service/model: the rows of the database, and the database.
-- A time is a number of nanoseconds, 0 for Go's zero time; `*time.Time` is an `Option`. A user id
-- is a natural number: every guard of the program treats all ids below 1 alike.
use re_casa_os_user_service.Prelude.{ℕ, ◌*◌, ◌^◌, Bytes, Bool, Option, List}

abbrev pub second : ℕ
second = 10 ^ 9

abbrev pub minute : ℕ
minute = 60 * second

abbrev pub hour : ℕ
hour = 60 * minute

pub record User : Type 0 where
  pub id : ℕ
  pub username : Bytes
  pub password : Bytes
  pub role : Bytes
  pub email : Bytes
  pub nickname : Bytes
  pub avatar : Bytes
  pub description : Bytes
  pub token_version : ℕ
  pub created_at : ℕ
  pub updated_at : ℕ

pub record RefreshSession : Type 0 where
  pub id : Bytes
  pub user_id : ℕ
  pub token_sha256 : Bytes
  pub issued_at : ℕ
  pub expires_at : ℕ
  pub used_at : Option ℕ
  pub replaced_by : Bytes
  pub revoked_at : Option ℕ
  pub revoke_reason : Bytes

pub record LoginAttempt : Type 0 where
  pub key : Bytes
  pub failures : ℕ
  pub window_started_at : ℕ
  pub locked_until : Option ℕ

pub data EventType : Type 0 where
  login_success login_failure login_lockout logout logout_all refresh_success refresh_failure
        refresh_reuse password_changed password_reset bootstrap_created :
      EventType

pub record CredentialEvent : Type 0 where
  pub id : ℕ
  pub occurred_at : ℕ
  pub installation_id : Bytes
  pub actor_user_id : ℕ
  pub event_type : EventType
  pub success : Bool
  pub source : Bytes
  pub detail : Bytes

pub record RevokedAccessToken : Type 0 where
  pub jti : Bytes
  pub user_id : ℕ
  pub expires_at : ℕ

-- The text of the status column: one of the three statuses, or anything else.
pub data Status : Type 0 where
  pristine initialized recovery : Status
  other : Bytes → Status

pub record BootstrapState : Type 0 where
  pub installation_id : Bytes
  pub status : Status
  pub admin_user_id : Option ℕ
  pub initialized_at : Option ℕ
  pub created_at : ℕ
  pub updated_at : ℕ

-- userbootstrap.State.
pub record State : Type 0 where
  pub installation_id : Bytes
  pub status : Status

-- The tables of user.db; `bootstrap` is the singleton row with id 1. `next_user_id` and
-- `next_event_id` are the ids that SQLite gives to the next rows.
pub record Db : Type 0 where
  pub users : List User
  pub next_user_id : ℕ
  pub bootstrap : Option BootstrapState
  pub sessions : List RefreshSession
  pub attempts : List LoginAttempt
  pub revoked : List RevokedAccessToken
  pub events : List CredentialEvent
  pub next_event_id : ℕ
