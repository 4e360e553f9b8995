-- ===== src/Service/Context.antt =====
-- The fields of `Service` (internal/auth/service.go) that its methods read as plain values, and the
-- tenant of the request's context (internal/auth/context.go).
pub mod Lookup
use go_auth_api.Base.{Bool, Option, String, none, some}
use go_auth_api.Errors.{Error, no_rows, tenant_not_found}
use go_auth_api.Models.Account.{Tenant}
use go_auth_api.World.Action.{Action, catch, pure, raise, ◌>>=◌, ◌>>◌}

pub record Service : Type 0 where
  pub token_secret : String
  pub app_url : String
  pub has_email_repo : Bool
  pub has_mailer : Bool

-- `TenantFromContext`, with `ok && tenant != nil` for `some`.
abbrev pub Context : Type 0
Context = Option Tenant

-- `tenant, ok := TenantFromContext(ctx); if !ok || tenant == nil { return ErrTenantNotFound }`
abbrev pub require_tenant : Context → Action Tenant
require_tenant none = raise tenant_not_found
require_tenant (some t) = pure t

-- `if err != nil { if errors.Is(err, sql.ErrNoRows) { return e }; return err }`
abbrev pub no_rows_as : Error → Error → Error
no_rows_as e no_rows = e
no_rows_as e other = other

abbrev pub none_if_no_rows : {A : Type 0} → Error → Action (Option A)
none_if_no_rows no_rows = pure none
none_if_no_rows e = raise e

-- The row that a look-up found, or none where it returned `sql.ErrNoRows`.
abbrev pub or_no_row : {A : Type 0} → Action A → Action (Option A)
or_no_row m = catch (do a ← m; pure (some a)) none_if_no_rows
