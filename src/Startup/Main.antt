-- ===== src/Startup/Main.antt =====
-- cmd/server/main.go and the factories of the repositories. Starting the goroutines of the worker and
-- of the HTTP server, and the shutdown, are left out.
use go_auth_api.Base.{
  Bool, List, Option, String, [], if◌then◌else◌, none, refl, some, str_eq, subst, ℕ, ◌∷◌, ◌≡◌,
}
use go_auth_api.Broker.Connection.{Dialling, new_rabbit_mq}
use go_auth_api.Config.Load.{
  Config, RedisConfig, load, load_redis_config, load_token_secret, redis_options_to_config,
}
use go_auth_api.Config.Values.{Loaded, load_error, loaded}
use go_auth_api.Outbox.Worker.{WorkerConfig, new_worker}
use go_auth_api.Startup.Databases.{Attempt, SqliteFile, open_database}
use go_auth_api.Startup.Keys.{KeyFiles, load_keys}
use go_auth_api.Startup.Logger.{Logger, new_logger}
use go_auth_api.Startup.Scripts.{Scripts, init_scripts}
use go_auth_api.World.Action.{handle}

-- What the operating system, the libraries of Go, Redis and RabbitMQ answer while the server starts.
pub record Machine : Type 0 where
  pub getenv : String → String
  pub stat : String → Bool
  pub files : KeyFiles
  pub postgres_attempts : ℕ → Attempt
  pub postgres_migration : Option String
  pub sqlite_file : SqliteFile
  pub redis_ping : Option String
  pub read_script : String → Loaded String
  pub dialling : Dialling

-- How a step of `main` ends: with a value, with `log.Fatal`, or with a panic.
pub data Started (A : Type 0) : Type 0 where
  started : A → Started A
  fatal : String → Started A
  panics : String → Started A

infixl 5 ◌>>=◌ ◌>>◌
unfoldable pub ◌>>=◌ : {A B : Type 0} → Started A → (A → Started B) → Started B
started a >>= f = f a
fatal e >>= f = fatal e
panics e >>= f = panics e

-- Whatever `m` starts with satisfies `P`.
pub record Starts {A : Type 0} (m : Started A) (P : A → Type 0) : Type 0 where
  pub holds : (a : A) → m ≡ started a → P a

pub started_inj : {A : Type 0} {a b : A} → started a ≡ started b → a ≡ b
started_inj h = cc

pub Starts-started : {A : Type 0} {P : A → Type 0} (a : A) → P a → Starts (started a) P
Starts-started {P = P} a h = record { holds = λ b e. subst (λ x. P x) (started_inj e) h }

pub Starts-bind :
    {A B : Type 0} {P : B → Type 0} (m : Started A) (f : A → Started B)
    → ((a : A) → m ≡ started a → Starts (f a) P)
    → Starts (m >>= f) P
unfolding ◌>>=◌
Starts-bind (started a) f h = h a refl
Starts-bind (fatal e) f h = record { holds = λ b e. absurd cc }
Starts-bind (panics e) f h = record { holds = λ b e. absurd cc }

-- `if err != nil { log.Fatal(err) }`
abbrev pub or_fatal : {A : Type 0} → Loaded A → Started A
or_fatal (loaded a) = started a
or_fatal (load_error e) = fatal e

abbrev pub ◌>>◌ : {A B : Type 0} → Started A → Started B → Started B
a >> b = a >>= λ _. b

abbrev pub unless_error : Option String → Started (Unit {0})
unless_error none = started tt
unless_error (some e) = fatal e

pub data Store : Type 0 where
  sqlite_store postgres_store : Store

-- `NewUserRepo`
unfoldable pub new_user_repo : String → Started Store
new_user_repo driver =
    if str_eq driver "sqlite"
    then started sqlite_store
    else if str_eq driver "postgres"
    then started postgres_store
    else panics "unsupported database driver"

-- `NewRefreshRepo`, `NewEmailVerificationRepo` and `NewTenantRepo` choose alike.
abbrev pub new_refresh_repo : String → Started Store
new_refresh_repo driver = new_user_repo driver

abbrev pub new_email_repo : String → Started Store
new_email_repo driver = new_user_repo driver

abbrev pub new_tenant_repo : String → Started Store
new_tenant_repo driver = new_user_repo driver

-- `NewOutboxRepo`
unfoldable pub new_outbox_repo : String → Started Store
new_outbox_repo driver =
    if str_eq driver "sqlite"
    then panics "Sqlite no support for Outbox Events"
    else if str_eq driver "postgres"
    then started postgres_store
    else panics "unsupported database driver"

-- What the server works with once it serves: the repositories, and the worker that publishes the
-- outbox with its identifier.
pub record Server : Type 0 where
  pub config : Config
  pub redis : RedisConfig
  pub private_key : String
  pub public_key : String
  pub server_secret : String
  pub stores : List Store
  pub outbox_store : Store
  pub worker : Option (String × WorkerConfig)
  pub scripts : Scripts
  pub logger : Logger

-- `outbox.NewProcessor` and `outbox.NewWorker`, where RabbitMQ answers.
abbrev pub start_worker : String → Option String → Started (Option (String × WorkerConfig))
start_worker driver rabbit_error =
    if str_eq driver "postgres"
    then (do
      unless_error rabbit_error
      started (some ("outbox-worker-1", new_worker (record { poll_interval = 0; batch_size = 0 }))))
    else started none

module _ (m : Machine) where
  -- `main`, to where the server listens.
  unfoldable pub start_server : Started Server
  start_server = do
    cfg ← or_fatal (load m.getenv)
    keys ← or_fatal (load_keys m.getenv m.stat m.files)
    secret ← or_fatal (load_token_secret m.getenv)
    handle ←
        or_fatal
          (open_database m.postgres_attempts m.postgres_migration m.sqlite_file
            cfg.database.driver).0
    redis_options ← or_fatal (load_redis_config m.getenv)
    unless_error m.redis_ping
    lua ← or_fatal (init_scripts m.read_script)
    users ← new_user_repo cfg.database.driver
    refreshes ← new_refresh_repo cfg.database.driver
    emails ← new_email_repo cfg.database.driver
    outbox ← new_outbox_repo cfg.database.driver
    tenants ← new_tenant_repo cfg.database.driver
    worker ← start_worker cfg.database.driver (new_rabbit_mq m.dialling).0.0
    started (record {
      config = cfg;
      redis = redis_options_to_config redis_options;
      private_key = keys.0;
      public_key = keys.1;
      server_secret = secret;
      stores = users ∷ refreshes ∷ emails ∷ tenants ∷ [];
      outbox_store = outbox;
      worker = worker;
      scripts = lua;
      logger = new_logger cfg.environment cfg.log_level;
    })
