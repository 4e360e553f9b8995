-- ===== src/Repo/Tenants.antt =====
-- internal/auth/tenants/tenants_repository_psql.go on the table `tenants`. The column
-- `allowed_origins` is read back as the list that was stored.
-- `postgresRepo.FindByTenantName`
use go_auth_api.Base.{String, str_eq, ℕ, ◌==◌}
use go_auth_api.Models.Account.{Tenant}
use go_auth_api.Sql.{scan_row, select_one}
use go_auth_api.World.{Env}
use go_auth_api.World.Action.{Action, Statement, execute, pool}

unfoldable pub tenant_by_name : String → Statement Tenant
tenant_by_name name now d =
    (scan_row (select_one (λ (t : Tenant). str_eq t.tenant_name name) d.tenants), d)

-- `postgresRepo.FindByID`
unfoldable pub tenant_by_id : ℕ → Statement Tenant
tenant_by_id id now d = (scan_row (select_one (λ (t : Tenant). t.id == id) d.tenants), d)

module _ (env : Env) where
  abbrev pub find_by_tenant_name : String → Action Tenant
  find_by_tenant_name name = execute env pool (tenant_by_name name)

  abbrev pub find_tenant_by_id : ℕ → Action Tenant
  find_tenant_by_id id = execute env pool (tenant_by_id id)
