-- ===== src/Examples.antt =====
-- Runs of the program on a small database, in a world where no call fails.
mod Sessions
mod Accounts
mod Passwords
mod Outbox
mod Http
mod Broker
mod Startup
mod Requests
mod Tokens
mod RateLimit
use go_auth_api.Base.{[], false, none, some, str_eq, true, ◌+◌, ◌∷◌}
use go_auth_api.Models.Account.{EmailVerificationToken, RefreshToken, Tenant, User, active}
use go_auth_api.Service.Context.{Service}
use go_auth_api.World.{Database, Env, ResetRow, World}

abbrev pub site : Env
site = record {
  fault = λ n. none;
  clock = λ n. 1000 + n;
  new_uuid = λ n. 100 + n;
  random_text = λ n. "fresh";
  bcrypt = λ n password. password;
  bcrypt_matches = λ hash password. str_eq hash password;
  hmac_hex = λ secret token. token;
  sign_claims = λ user email issued expires. "jwt";
  headers_error = λ raw. none;
  uuid_text = λ id. "uuid";
  uuid_bytes = λ id. "0123456789abcdef";
  row_busy = λ n id. false;
  confirmed_anyway = λ n. false;
  unique_violation = "duplicate key value violates unique constraint";
  foreign_key_violation = "violates foreign key constraint";
  check_violation = "violates check constraint";
}

-- The same world on a day when every call fails.
abbrev pub outage : Env
outage = record site { fault = λ n. some "connection refused" }

abbrev pub service : Service
service = record {
  token_secret = "secret";
  app_url = "https://app.example";
  has_email_repo = true;
  has_mailer = true;
}

abbrev pub shop : Tenant
shop = record {
  id = 1;
  tenant_name = "shop";
  name = "Shop";
  url = "https://shop.example";
  email = "shop@example.org";
  status = active;
  public_key = "pk";
  api_key_hash = "";
  allowed_origins = [];
  created_at = 0;
  updated_at = 0;
}

abbrev pub ann : User
ann = record {
  id = 7;
  email = "ann@example.org";
  username = none;
  password_hash = some "old password";
  email_verified = true;
  is_active = true;
  locked_at = none;
  tenant_id = 1;
  created_at = 0;
  updated_at = 0;
}

abbrev pub session : RefreshToken
session = record {
  id = 20;
  user_id = 7;
  tenant_id = 1;
  token_hash = "live";
  client_id = "client";
  parent_token = 0;
  family_id = 5;
  expires_at = 5000;
  revoked_at = none;
  created_at = 10;
}

abbrev pub exchanged : RefreshToken
exchanged = record session { id = 19; token_hash = "stolen"; revoked_at = some 900 }

abbrev pub reset_row : ResetRow
reset_row = record {
  token = record {
    id = 30;
    user_id = 7;
    tenant_id = 1;
    token_hash = "reset";
    expires_at = 5000;
    used_at = none;
    created_at = 10;
  };
  revoked_at = none;
}

abbrev pub email_token : EmailVerificationToken
email_token = record {
  id = 40;
  user_id = 7;
  token_hash = "verify";
  expires_at = 5000;
  used_at = none;
  created_at = 10;
}

abbrev pub tables : Database
tables = record {
  users = ann ∷ [];
  email_tokens = email_token ∷ [];
  refresh_tokens = session ∷ exchanged ∷ [];
  reset_tokens = reset_row ∷ [];
  outbox_events = [];
  tenants = shop ∷ [];
}

abbrev pub start : World
start = record { db = tables; tx = none; calls = 0; mails = []; redis = λ key. none; broker = [] }
