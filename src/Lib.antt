-- ===== src/Lib.antt =====
-- GoAuthAPI: the authentication service in internal/auth, its PostgreSQL repositories, the rate
-- limiter and the outbox that publishes events to RabbitMQ.
--
-- The service's methods read the tenant of the request, look rows up, prepare tokens and
-- events, and write them in one SQL transaction, events included (the outbox pattern). A worker
-- claims the events in batches, publishes them and marks them. The rate limiter counts failures
-- in Redis.
--
-- The files and the code they model:
-- - Errors: internal/auth/errors.go and wrapUserCreateError of internal/auth/service.go.
-- - Models: internal/models. UUIDs and times are numbers (0 is uuid.Nil; nanoseconds), a nil
--   pointer is `none`, and a JSON payload is the value that is marshalled.
-- - World: what the code acts on. The database is a record of tables; an open transaction sees
--   its own copy, which COMMIT makes the database; statements on the pool commit at once.
--   World.Action has the operations of database/sql, uuid, time and the mailer as state passing
--   with errors and panics; World.Ends and World.Prepares have one proof rule for each.
-- - Sql, Repo: internal/users/repository_psql.go,
--   internal/auth/refresh/refresh_repository_psql.go,
--   internal/auth/mail/email_repository_psql.go,
--   internal/auth/tenants/tenants_repository_psql.go and internal/outbox/outbox_repository.go,
--   each statement as a function on the tables of migrations/postgres/001_init.sql, with its
--   primary keys, uniqueness and foreign keys.
-- - Repo.Sqlite: internal/users/repository_sqlite.go and its like for refresh tokens, mail and
--   tenants, which are deprecated, on a schema whose tables have no tenant.
-- - Tokens: internal/auth/jwt.go (the generators, signClientID and verifyClientID) and
--   internal/crypto/hash.go.
-- - RateLimit: internal/auth/ratelimiter/ratelimiters.go and the Lua scripts of
--   internal/auth/luascripts.
-- - Service: internal/auth/service.go, a module for each group of methods: Sessions
--   (rotateHelper, Refresh, Logout, RevokeAll), Signup (Register, SignupService and helpers),
--   Verification (VerifyEmail, ResendVerification), Login, Passwords (ChangePassword,
--   RequestResetPassword, ResetPassword).
-- - Http: internal/auth/handlers.go, internal/auth/middleware.go and
--   internal/auth/validations.go, a request being the fields that the handlers read, and the
--   routes of RegisterRoutes. Http.Server is the whole path of a request: InitRouter of
--   internal/config/router.go. The record Web has the functions of Go's libraries that decode
--   and check them.
-- - Outbox: internal/outbox/processor.go and internal/outbox/worker.go.
-- - Broker: internal/broker/rabbitmq.go, publisher confirms as a step relation on the state
--   under its mutexes; Broker.Connection has NewRabbitMQ and Close on the answers of the AMQP
--   library. The outbox sees the broker by the contract of Publish: nil for a confirmed
--   message, and an error for one that the broker may have confirmed or not.
-- - Service.Requests: the requests that the routes hand to the service, one after the other, as
--   a relation on databases.
-- - Config: internal/config/load.go and keyloaders.go, on the environment and the files as
--   functions, with the functions of strings and strconv written out.
-- - Mail: the text of the verification mail of internal/auth/mail/smtp.go.
-- - Startup: cmd/server/main.go to where the server listens, the level of
--   internal/auth/logger/logger.go, luascripts.Init, the factories of the repositories, and
--   internal/db: the retry loop of OpenPostgres is structural on the attempts left, and what is
--   kept of the pool is which handles are open.
-- - Base has the shared names, lists and texts; Examples has runs on a small database.
--
-- Parameters: bcrypt, HMAC, RS256, random bytes, UUIDs, the clock, SMTP, the broker, the
-- messages of PostgreSQL's errors and the rows that SKIP LOCKED passes over are the fields of
-- World.Env. The n-th call out of the program reads its answer at n and fails as `fault n`
-- says, so a theorem for every Env covers every placement of failures. Nothing is assumed of
-- these functions but what a theorem states.
--
-- The interleaving that the model has is that of statements on the pool with the open
-- transaction of the same request; other requests appear as any later state of the database. A
-- statement that fails leaves its transaction usable, where PostgreSQL aborts it: the code
-- never goes on with a transaction after a failure. Loops are structural, so no fuel is used; a
-- worker runs on a given list of the signals that its select receives.
--
-- Not modelled: the declaration of the exchange beyond its error, when the worker's ticker
-- fires, the goroutines and the shutdown of main, ParseAccessToken (the JWT library, called by
-- tests only), the format of log lines, metrics, CORS headers, and deviceFromRequest, which
-- nothing calls.
pub mod Base
pub mod Errors
pub mod Models
pub mod World
pub mod Sql
pub mod Repo
pub mod RateLimit
pub mod Tokens
pub mod Service
pub mod Outbox
pub mod Http
pub mod Broker
pub mod Config
pub mod Mail
pub mod Startup
pub mod Examples
