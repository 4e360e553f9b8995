-- ===== src/Startup/Databases.antt =====
-- internal/db/postgres.go, sqlite.go, migrate.go and open.go. The driver's answers are parameters: an
-- error's message, or none. What is kept of the pool is which handles are open.
use go_auth_api.Base.{
  Bool, Option, String, false, if◌then◌else◌, none, some, str_eq, suc, true, zero, ℕ, ◌-◌, ◌<>◌,
}
use go_auth_api.Config.Values.{Loaded, load_error, loaded}

-- What `sql.Open` and `Ping` answer in one attempt.
pub record Attempt : Type 0 where
  pub open_error : Option String
  pub ping_error : Option String

-- The handles opened and closed so far, and the seconds slept.
pub record DbHandles : Type 0 where
  pub opened_handles : ℕ
  pub closed_handles : ℕ
  pub slept : ℕ

abbrev pub no_handles : DbHandles
no_handles = record { opened_handles = 0; closed_handles = 0; slept = 0 }

abbrev pub open_one : DbHandles → DbHandles
open_one h = record h { opened_handles = suc h.opened_handles }

abbrev pub close_one : DbHandles → DbHandles
close_one h = record h { closed_handles = suc h.closed_handles }

-- `time.Sleep(backoff)`, of one second.
abbrev pub sleep_once : DbHandles → DbHandles
sleep_once h = record h { slept = suc h.slept }

-- `sql.Open` and then `Ping`: the error of the attempt.
abbrev pub attempt_error : Option String → Option String → Option String
attempt_error none ping = ping
attempt_error (some e) ping = some e

-- After a failed attempt a handle that `sql.Open` gave is closed.
abbrev pub after_failure : Option String → DbHandles → DbHandles
after_failure none h = close_one (open_one h)
after_failure (some e) h = h

abbrev pub max_tries : ℕ
max_tries = 5

-- `executeMigration` on the handle of attempt n.
abbrev pub migrate : Option String → ℕ → DbHandles → Loaded ℕ × DbHandles
migrate none n h = (loaded n, h)
migrate (some e) n h = (load_error e, close_one h)

module _ (attempts : ℕ → Attempt) (migration_error : Option String) where
  -- The loop of `OpenPostgres` at attempt n, with `left` attempts after it. What is returned is the
  -- number of the attempt whose handle is used.
  unfoldable pub connect : ℕ → ℕ → DbHandles → Loaded ℕ × DbHandles
  connect zero n h = elim (attempt_error (attempts n).open_error (attempts n).ping_error) [
    | none ↦ migrate migration_error n (open_one h)
    | some e ↦ (
      load_error ("failed to connect to database after 5 attempts: " <> e),
      after_failure (attempts n).open_error h,
    )
  ]
  connect (suc left) n h = elim (attempt_error (attempts n).open_error (attempts n).ping_error) [
    | none ↦ migrate migration_error n (open_one h)
    | some e ↦ connect left (suc n) (sleep_once (after_failure (attempts n).open_error h))
  ]

  -- `OpenPostgres`
  unfoldable pub open_postgres : Loaded ℕ × DbHandles
  open_postgres = connect (max_tries - 1) 1 no_handles

-- What the driver answers to `OpenSQLite`: `schemaExists` finds the table `users` or fails.
pub record SqliteFile : Type 0 where
  pub file_attempt : Attempt
  pub schema : Loaded Bool
  pub sqlite_migration_error : Option String

abbrev pub migrate_new : Loaded Bool → Option String → Loaded ℕ × DbHandles
migrate_new (load_error e) m = (load_error e, close_one (open_one no_handles))
migrate_new (loaded true) m = (loaded 1, open_one no_handles)
migrate_new (loaded false) m = migrate m 1 (open_one no_handles)

-- `OpenSQLite`
unfoldable pub open_sqlite : SqliteFile → Loaded ℕ × DbHandles
open_sqlite f = elim (attempt_error f.file_attempt.open_error f.file_attempt.ping_error) [
  | none ↦ migrate_new f.schema f.sqlite_migration_error
  | some e ↦ (load_error e, after_failure f.file_attempt.open_error no_handles)
]

-- `db.Open`
unfoldable pub open_database :
    (ℕ → Attempt) → Option String → SqliteFile → String → Loaded ℕ × DbHandles
open_database attempts migration_error file driver =
    if str_eq driver "sqlite"
    then open_sqlite file
    else if str_eq driver "postgres"
    then open_postgres attempts migration_error
    else (load_error ("unsupported database driver \"" <> driver <> "\""), no_handles)
