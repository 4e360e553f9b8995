-- ===== src/Startup/Serves.antt =====
-- cmd/server/main.go: what holds of a server that has started.
use go_auth_api.Base.{
  Bool-cases, Option, String, ap, arith, eq_iff, false, inl, inr, none, refl, some, str_eq, sym,
  true, ℕ, ◌<◌, ◌∙◌, ◌≡◌, ◌≤◌,
}
use go_auth_api.Broker.Connection.{new_rabbit_mq}
use go_auth_api.Config.Load.{
  Config, DatabaseConfig, PostgresConfig, get_env, load, load_db_configs, load_driver,
  load_token_secret, postgres_conf_loader, postgres_or_sqlite, redis_options_to_config,
}
use go_auth_api.Config.Values.{
  Loaded, bind_loaded, is_empty, load_error, loaded, loaded_inj, negsuc, otherwise, pos, to_uint8,
  ℤ,
}
use go_auth_api.Outbox.Worker.{WorkerConfig, default_worker_config, new_worker}
use go_auth_api.Startup.Connect.{Connected, Connects, open_postgres-Connected}
use go_auth_api.Startup.Databases.{Attempt, DbHandles, SqliteFile, no_handles, open_database}
use go_auth_api.Startup.Main.{
  Machine, Server, Starts, Starts-bind, Starts-started, Store, fatal, new_outbox_repo, or_fatal,
  panics, postgres_store, start_server, start_worker, started, started_inj, unless_error, ◌>>=◌,
}
use go_auth_api.World.Action.{handle}

false≢true : ¬ (false ≡ true)
false≢true h = cc

error≢loaded : {A : Type 0} {e : String} {a : A} → ¬ (load_error e ≡ loaded a)
error≢loaded h = cc

panics≢started : {A : Type 0} {e : String} {a : A} → ¬ (panics e ≡ started a)
panics≢started h = cc

fatal≢started : {A : Type 0} {e : String} {a : A} → ¬ (fatal e ≡ started a)
fatal≢started h = cc

sqlite≢postgres : ¬ (◌≡◌ {A = String} "sqlite" "postgres")
sqlite≢postgres h = false≢true ((eq_iff "sqlite" "postgres").1 h)

-- The driver that `LoadDBconfigs` chooses, and where PostgreSQL's settings are from.

postgres_or_sqlite-postgres :
    (getenv : String → String) (l : Loaded PostgresConfig)
    → (postgres_or_sqlite getenv l).driver ≡ "postgres"
    → l ≡ loaded (postgres_or_sqlite getenv l).postgres_conf
postgres_or_sqlite-postgres getenv (loaded pg) h = refl
postgres_or_sqlite-postgres getenv (load_error e) h = absurd (sqlite≢postgres h)

load_driver-postgres :
    (getenv : String → String) (db_driver : String) (d : DatabaseConfig)
    → load_driver getenv db_driver ≡ loaded d
    → d.driver ≡ "postgres"
    → (db_driver ≡ "postgres") × (postgres_conf_loader getenv ≡ loaded d.postgres_conf)
load_driver-postgres getenv db_driver d h e = elim (Bool-cases (str_eq db_driver "postgres")) [
  | inl q ↦ (
    (eq_iff db_driver "postgres").0 q,
    postgres_or_sqlite-postgres getenv _ (ap (λ c. c.driver) (loaded_inj (rw q at h)) ∙ e)
        ∙ ap (λ c. loaded c.postgres_conf) (loaded_inj (rw q at h)),
  )
  | inr q ↦ elim (Bool-cases (str_eq db_driver "sqlite")) [
    | inl r ↦ absurd (sqlite≢postgres (ap (λ c. c.driver) (loaded_inj (rw (q, r) at h)) ∙ e))
    | inr r ↦ absurd (error≢loaded (rw (q, r) at h))
  ]
]

load_db_configs-driver :
    (getenv : String → String) (d : DatabaseConfig)
    → load_db_configs getenv ≡ loaded d
    → d.driver ≡ "postgres"
    → (getenv "DB_DRIVER" ≡ "postgres") × (postgres_conf_loader getenv ≡ loaded d.postgres_conf)
unfolding load_db_configs
load_db_configs-driver getenv d h e = elim (Bool-cases (is_empty (getenv "DB_DRIVER"))) [
  | inl q ↦ absurd (sqlite≢postgres (load_driver-postgres getenv _ d (rw q at h) e).0)
  | inr q ↦ load_driver-postgres getenv _ d (rw q at h) e
]

otherwise-loaded :
    {A : Type 0} (l : Loaded A) (e : String) (a : A)
    → otherwise l (load_error e) ≡ loaded a
    → l ≡ loaded a
otherwise-loaded (loaded b) e a h = h
otherwise-loaded (load_error m) e a h = absurd cc

load-database :
    (getenv : String → String) (cfg : Config)
    → load getenv ≡ loaded cfg
    → load_db_configs getenv ≡ loaded cfg.database
unfolding load
load-database getenv cfg h =
    let (_, _, h1) = bind_loaded _ _ h in
    let (_, _, h2) = bind_loaded _ _ h1 in
    let (_, _, h3) = bind_loaded _ _ h2 in
    let (_, _, h4) = bind_loaded _ _ h3 in
    let (_, _, h5) = bind_loaded _ _ h4 in
    let (d, k, h6) = bind_loaded _ _ h5 in
    otherwise-loaded _ _ _ k ∙ ap (λ c. loaded c.database) (loaded_inj h6)

new_outbox_repo-started :
    (driver : String) (store : Store)
    → new_outbox_repo driver ≡ started store
    → (driver ≡ "postgres") × (store ≡ postgres_store)
unfolding new_outbox_repo
new_outbox_repo-started driver store h = elim (Bool-cases (str_eq driver "sqlite")) [
  | inl e ↦ absurd (panics≢started (rw e at h))
  | inr e ↦ elim (Bool-cases (str_eq driver "postgres")) [
    | inl q ↦ ((eq_iff driver "postgres").0 q, sym (started_inj (rw (e, q) at h)))
    | inr q ↦ absurd (panics≢started (rw (e, q) at h))
  ]
]

-- What a server works with.
abbrev pub Serves : Machine → Server → Type 0
Serves m srv =
    (m.getenv "DB_DRIVER" ≡ "postgres")
    × (srv.config.database.driver ≡ "postgres")
    × (postgres_conf_loader m.getenv ≡ loaded srv.config.database.postgres_conf)
    × ((n : ℕ) × (n ≤ 5) × Connects m.postgres_attempts n)
    × (m.redis_ping ≡ none)
    × ((new_rabbit_mq m.dialling).0.0 ≡ none)
    × (get_env m.getenv "TOKEN_SECRET" ≡ loaded srv.server_secret)
    × (srv.redis.db8 < 256)
    × (srv.outbox_store ≡ postgres_store)
    × (srv.worker ≡ some ("outbox-worker-1", default_worker_config))

or_fatal-started : {A : Type 0} (l : Loaded A) (a : A) → or_fatal l ≡ started a → l ≡ loaded a
or_fatal-started (loaded b) a h = ap (λ x. loaded x) cc
or_fatal-started (load_error e) a h = absurd cc

unless_error-started : (o : Option String) (u : Unit {0}) → unless_error o ≡ started u → o ≡ none
unless_error-started none u h = refl
unless_error-started (some e) u h = absurd cc

-- The loop returned a handle, so some attempt connected.
within-Connected :
    (attempts : ℕ → Attempt) (migration : Option String) (r : Loaded ℕ × DbHandles)
    → Connected attempts migration 1 5 no_handles r
    → (handle : ℕ) → r.0 ≡ loaded handle
    → (n : ℕ) × (n ≤ 5) × Connects attempts n
within-Connected attempts migration r (inl (k, a, b, c, d, e, f, g)) handle h = (k, b, c)
within-Connected attempts migration r (inr (a, (m, q), c, d)) handle h =
    absurd (error≢loaded (sym q ∙ h))

to_uint8-lt : (n : ℤ) → to_uint8 n < 256
to_uint8-lt (pos n) = omega arith
to_uint8-lt (negsuc n) = omega arith

open_database-postgres :
    (attempts : ℕ → Attempt) (migration : Option String) (file : SqliteFile) (driver : String)
    (handle : ℕ)
    → (open_database attempts migration file driver).0 ≡ loaded handle
    → driver ≡ "postgres"
    → (n : ℕ) × (n ≤ 5) × Connects attempts n
unfolding open_database
open_database-postgres attempts migration file driver handle h e =
    within-Connected attempts migration _ (open_postgres-Connected attempts migration) handle
      (rw e at h)

start_worker-started :
    (driver : String) (rabbit : Option String) (w : Option (String × WorkerConfig))
    → start_worker driver rabbit ≡ started w
    → driver ≡ "postgres"
    → (rabbit ≡ none) × (w ≡ some ("outbox-worker-1", default_worker_config))
unfolding new_worker ◌>>=◌
start_worker-started driver none w h e = (refl, sym (started_inj (rw e at h)))
start_worker-started driver (some m) w h e = absurd (fatal≢started (rw e at h))

start_server-Starts : (m : Machine) → Starts (start_server m) (Serves m)
unfolding start_server redis_options_to_config load_token_secret
start_server-Starts m = Starts-bind _ _ λ cfg e1. Starts-bind _ _ λ keys e2.
    Starts-bind _ _ λ secret e3. Starts-bind _ _ λ handle e4. Starts-bind _ _ λ options e5.
      Starts-bind _ _ λ pinged e6. Starts-bind _ _ λ scripts e7. Starts-bind _ _ λ users e8.
        Starts-bind _ _ λ refreshes e9. Starts-bind _ _ λ emails e10. Starts-bind _ _ λ outbox e11.
          Starts-bind _ _ λ tenants e12. Starts-bind _ _ λ worker e13.
            let (pg, store) = new_outbox_repo-started _ _ e11 in
            let (vars, conf) =
              load_db_configs-driver _ _ (load-database _ _ (or_fatal-started _ _ e1)) pg in
            let (rabbit, started_worker) = start_worker-started _ _ _ e13 pg in
            Starts-started _ (
              vars,
              pg,
              conf,
              open_database-postgres _ _ _ _ _ (or_fatal-started _ _ e4) pg,
              unless_error-started _ _ e6,
              rabbit,
              or_fatal-started _ _ e3,
              to_uint8-lt options.db_number,
              store,
              started_worker,
            )

-- What the server needs to start.
pub start_server-Serves : (m : Machine) (srv : Server) → start_server m ≡ started srv → Serves m srv
unfolding start_server
start_server-Serves m srv h = (start_server-Starts m).holds srv h
