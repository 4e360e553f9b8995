-- ===== src/Repo/Users.antt =====
-- internal/users/repository_psql.go on the table `users` of migrations/postgres/001_init.sql.
use go_auth_api.Base.{
  Bool, Option, String, false, if◌then◌else◌, none, some, str_eq, true, ℕ, ◌&&◌, ◌==◌, ◌||◌, ◌∷◌,
}
use go_auth_api.Errors.{external}
use go_auth_api.Models.Account.{User}
use go_auth_api.Sql.{exists_row, scan_row, select_one, update_rows}
use go_auth_api.World.{Env, err, ok}
use go_auth_api.World.Action.{Action, Conn, Statement, execute, pool, time_now, ◌>>=◌}

-- `CONSTRAINT users_perservice_email_unique`, `username TEXT UNIQUE` and the primary key: would `u`
-- clash with the row `v`?
unfoldable pub clashes_with : User → User → Bool
clashes_with u v =
    u.id == v.id || (u.tenant_id == v.tenant_id && str_eq u.email v.email) || elim u.username [
      | none ↦ false
      | some n ↦ elim v.username [ none ↦ false | some m ↦ str_eq n m ]
    ]

module _ (env : Env) where
  -- `INSERT INTO users`
  unfoldable pub insert_user : User → Statement (Unit {0})
  insert_user u now d =
      if exists_row (clashes_with u) d.users
      then (err (external env.unique_violation), d)
      else (ok tt, record d { users = u ∷ d.users })

  -- `postgresRepo.CreateTx`; `Create` is the same statement on the pool.
  abbrev pub create_user : Conn → User → Action (Unit {0})
  create_user exec u = execute env exec (insert_user u)

  -- `postgresRepo.FindByEmail`
  unfoldable pub user_by_email : String → ℕ → Statement User
  user_by_email email tenant now d = (
    scan_row (select_one (λ (u : User). str_eq u.email email && u.tenant_id == tenant) d.users),
    d,
  )

  abbrev pub find_user_by_email : String → ℕ → Action User
  find_user_by_email email tenant = execute env pool (user_by_email email tenant)

  -- `postgresRepo.FindByID`
  unfoldable pub user_by_id : ℕ → Statement User
  user_by_id id now d = (scan_row (select_one (λ (u : User). u.id == id) d.users), d)

  abbrev pub find_user_by_id : ℕ → Action User
  find_user_by_id id = execute env pool (user_by_id id)

-- `postgresRepo.ActivateUser`
unfoldable pub set_activated : ℕ → Statement (Unit {0})
set_activated user_id now d = (
  ok tt,
  record d {
    users =
        update_rows (λ (u : User). u.id == user_id)
          (λ u. record u { is_active = true; email_verified = true; updated_at = now }) d.users;
  },
)

-- `postgresRepo.LockoutUser`
unfoldable pub set_lockout : ℕ → Option ℕ → Statement (Unit {0})
set_lockout user_id locked_at now d = (
  ok tt,
  record d {
    users =
        update_rows (λ (u : User). u.id == user_id)
          (λ u. record u { locked_at = locked_at; updated_at = now }) d.users;
  },
)

-- `postgresRepo.ChangePassword`
unfoldable pub set_password : ℕ → String → Statement (Unit {0})
set_password user_id new_password_hash now d = (
  ok tt,
  record d {
    users =
        update_rows (λ (u : User). u.id == user_id)
          (λ u. record u { password_hash = some new_password_hash; updated_at = now }) d.users;
  },
)

module _ (env : Env) where
  abbrev pub activate_user : ℕ → Action (Unit {0})
  activate_user user_id = execute env pool (set_activated user_id)

  abbrev pub lockout_user : Conn → ℕ → Bool → Action (Unit {0})
  lockout_user exec user_id true = do
    now ← time_now env
    execute env exec (set_lockout user_id (some now))
  lockout_user exec user_id false = execute env exec (set_lockout user_id none)

  abbrev pub change_password_hash : Conn → ℕ → String → Action (Unit {0})
  change_password_hash exec user_id hash = execute env exec (set_password user_id hash)
