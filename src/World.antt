-- ===== src/World.antt =====
-- What an operation acts on: the database with its transactions, and the answers of the world
-- outside the program. `database/sql`, PostgreSQL, bcrypt, HMAC, the JWT library, the UUID and
-- random generators, the clock and SMTP are code that the repository does not hold: they are the
-- parameter `Env`. The n-th call out of the program reads its answer at n, and any call can fail.
pub mod Action
pub mod Ends
pub mod Prepares
pub mod Leaves
use go_auth_api.Base.{Bool, List, Option, String, ℕ}
use go_auth_api.Errors.{Error}
use go_auth_api.Models.Account.{
  EmailVerificationToken, PasswordResetToken, RefreshToken, Tenant, User,
}
use go_auth_api.Models.Event.{EventType, OutboxEvent, Payload}

-- `fault n` is the message of the n-th call's error, if it fails; a call that reaches the database may fail
-- by a constraint of the schema too, with one of the three messages. `confirmed_anyway n` tells of a
-- failed publication whether the broker has confirmed its message all the same, as after a time-out.
pub record Env : Type 0 where
  pub fault : ℕ → Option String
  pub clock : ℕ → ℕ
  pub new_uuid : ℕ → ℕ
  pub random_text : ℕ → String
  pub bcrypt : ℕ → String → String
  pub bcrypt_matches : String → String → Bool
  pub hmac_hex : String → String → String
  pub sign_claims : ℕ → String → ℕ → ℕ → String
  pub headers_error : String → Option String
  pub uuid_text : ℕ → String
  pub uuid_bytes : ℕ → String
  pub row_busy : ℕ → ℕ → Bool
  pub confirmed_anyway : ℕ → Bool
  pub unique_violation : String
  pub foreign_key_violation : String
  pub check_violation : String

-- A row of `password_reset_tokens`: the column `revoked_at` has no field in the Go struct.
pub record ResetRow : Type 0 where
  pub token : PasswordResetToken
  pub revoked_at : Option ℕ

-- A hash of the rate limiter in Redis: a field that was never set is `none`, and the key is gone
-- from `expires_at` on (`EXPIRE`).
pub record Bucket : Type 0 where
  pub failures : Option ℕ
  pub attempts : Option ℕ
  pub window_start : Option ℕ
  pub last_try : Option ℕ
  pub next_try : Option ℕ
  pub expires_at : ℕ

-- `models.EventEnvelope`: what is published for an event.
pub record EventEnvelope : Type 0 where
  pub event_id : ℕ
  pub event_type : EventType
  pub payload : Payload
  pub headers : Option String

-- The tables of migrations/postgres/001_init.sql that the Go code reads and writes.
pub record Database : Type 0 where
  pub users : List User
  pub email_tokens : List EmailVerificationToken
  pub refresh_tokens : List RefreshToken
  pub reset_tokens : List ResetRow
  pub outbox_events : List OutboxEvent
  pub tenants : List Tenant

-- An open transaction: what it sees, and the time at which it began, which `CURRENT_TIMESTAMP`
-- and `NOW()` read.
pub record Tx : Type 0 where
  pub work : Database
  pub began : ℕ

-- The database, the open transaction of the request, the calls made so far, the mails sent, the
-- hashes in Redis and the messages that the broker has confirmed, newest first.
pub record World : Type 0 where
  pub db : Database
  pub tx : Option Tx
  pub calls : ℕ
  pub mails : List (String × String)
  pub redis : String → Option Bucket
  pub broker : List EventEnvelope

pub data Outcome {ℓ} (A : Type ℓ) : Type ℓ where
  ok : A → Outcome A
  err : Error → Outcome A
  panicked : Outcome A
