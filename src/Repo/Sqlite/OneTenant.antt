-- ===== src/Repo/Sqlite/OneTenant.antt =====
-- The repository of refresh tokens for SQLite against the one for PostgreSQL.
use go_auth_api.Base.{All, ◌≡◌}
use go_auth_api.Models.Account.{RefreshToken}
use go_auth_api.World.{Database}

-- The sessions of a SQLite database: none has a tenant.
abbrev pub NoTenants : Database → Type 0
NoTenants d = All (λ (t : RefreshToken). t.tenant_id ≡ 0) d.refresh_tokens
