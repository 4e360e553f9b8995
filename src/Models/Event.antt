-- ===== src/Models/Event.antt =====
-- internal/models/outbox_event.go: the events of the outbox, and the values that the service
-- marshals into their payloads. A payload is kept as the value whose JSON it is.
use go_auth_api.Base.{Bool, Option, String, none, ℕ}

pub data EventStatus : Type 0 where
  pending processing publishing published failed : EventStatus

pub data EventType : Type 0 where
  user_created user_updated user_deleted user_login_succeeded user_login_failed : EventType
  user_password_reset_required user_password_reset_succeeded : EventType
  email_verification_requested email_password_reset_requested email_new_device_login : EventType

-- `string(eventType)`
unfoldable pub event_type_text : EventType → String
event_type_text user_created = "user.created"
event_type_text user_updated = "user.updated"
event_type_text user_deleted = "user.deleted"
event_type_text user_login_succeeded = "user.login.succeeded"
event_type_text user_login_failed = "user.login.failed"
event_type_text user_password_reset_required = "user.password_reset.required"
event_type_text user_password_reset_succeeded = "user.password_reset.succeeded"
event_type_text email_verification_requested = "email.verification.requested"
event_type_text email_password_reset_requested = "email.password_reset.requested"
event_type_text email_new_device_login = "email.new_device_login"

-- `UserInfo` of internal/auth/handlers.go
pub record UserInfo : Type 0 where
  pub user_id : ℕ
  pub email : String
  pub username : String
  pub verified : Bool
  pub created_at : ℕ

-- The field `PayloadData any` of `EmailPayloadContext`.
pub data PayloadData : Type 0 where
  no_payload_data : PayloadData
  verification_request : String → ℕ → PayloadData
  password_reset_requested : String → PayloadData
  new_device_login : String → String → ℕ → String → PayloadData

pub record EmailPayloadContext : Type 0 where
  pub tenant : String
  pub user_id : ℕ
  pub email : String
  pub username : Option String
  pub event_id : ℕ
  pub ip : String
  pub payload_data : PayloadData

pub data Payload : Type 0 where
  user_info_payload : UserInfo → Payload
  email_payload : EmailPayloadContext → Payload

pub record OutboxEvent : Type 0 where
  pub id : ℕ
  pub aggregate_type : String
  pub aggregate_id : ℕ
  pub event_type : EventType
  pub payload : Payload
  pub headers : Option String
  pub status : EventStatus
  pub retry_count : ℕ
  pub next_retry_at : ℕ
  pub created_at : ℕ
  pub published_at : Option ℕ
  pub last_error : Option String
  pub locked_at : Option ℕ
  pub locked_until : Option ℕ
  pub locked_by : Option String

-- An `OutboxEvent` literal that leaves the other fields at their zero values.
unfoldable pub new_event : ℕ → EventType → Payload → ℕ → ℕ → OutboxEvent
new_event id event_type payload next_retry_at created_at = record {
  id = id;
  aggregate_type = "";
  aggregate_id = 0;
  event_type = event_type;
  payload = payload;
  headers = none;
  status = pending;
  retry_count = 0;
  next_retry_at = next_retry_at;
  created_at = created_at;
  published_at = none;
  last_error = none;
  locked_at = none;
  locked_until = none;
  locked_by = none;
}
