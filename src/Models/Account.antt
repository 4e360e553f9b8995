-- ===== src/Models/Account.antt =====
-- internal/models: users, tenants and the three kinds of token. A UUID is a number, with
-- `uuid.Nil` for 0; a `time.Time` is a number of nanoseconds; a nil pointer is `none`.
use go_auth_api.Base.{Bool, List, Option, String, false, true, ℕ, ◌*◌}

-- models/user.go
pub record User : Type 0 where
  pub id : ℕ
  pub email : String
  pub username : Option String
  pub password_hash : Option String
  pub email_verified : Bool
  pub is_active : Bool
  pub locked_at : Option ℕ
  pub tenant_id : ℕ
  pub created_at : ℕ
  pub updated_at : ℕ

-- models/tenant.go
pub data TenantStatus : Type 0 where
  active suspended pending_approval : TenantStatus
  other_status : String → TenantStatus

pub record Tenant : Type 0 where
  pub id : ℕ
  pub tenant_name : String
  pub name : String
  pub url : String
  pub email : String
  pub status : TenantStatus
  pub public_key : String
  pub api_key_hash : String
  pub allowed_origins : List String
  pub created_at : ℕ
  pub updated_at : ℕ

-- `Tenant.IsActive`
unfoldable pub tenant_is_active : Tenant → Bool
tenant_is_active t = elim t.status [ active ↦ true | _ ↦ false ]

-- models/refresh_token.go
pub record RefreshToken : Type 0 where
  pub id : ℕ
  pub user_id : ℕ
  pub tenant_id : ℕ
  pub token_hash : String
  pub client_id : String
  pub parent_token : ℕ
  pub family_id : ℕ
  pub expires_at : ℕ
  pub revoked_at : Option ℕ
  pub created_at : ℕ

-- models/password_reset_token.go
pub record PasswordResetToken : Type 0 where
  pub id : ℕ
  pub user_id : ℕ
  pub tenant_id : ℕ
  pub token_hash : String
  pub expires_at : ℕ
  pub used_at : Option ℕ
  pub created_at : ℕ

-- models/email_verification_token.go
pub record EmailVerificationToken : Type 0 where
  pub id : ℕ
  pub user_id : ℕ
  pub token_hash : String
  pub expires_at : ℕ
  pub used_at : Option ℕ
  pub created_at : ℕ

-- Durations of package `time`, in nanoseconds.
abbrev pub second : ℕ
second = 1000000000

abbrev pub minute : ℕ
minute = 60 * second

abbrev pub hour : ℕ
hour = 3600 * second
