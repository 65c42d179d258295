-- ===== src/Lib.antt =====
-- The accounts service of UdeSA X (the Python package under src/users_api): registration, logins,
-- sessions, passwords, the status of accounts, administrators, and the events in and out.
--
-- A request runs in one database transaction. It reads and writes the tables through repositories,
-- counts attempts and closes sessions in Redis, and leaves events in the table `outbox`, which a
-- publisher moves to RabbitMQ. A consumer writes the events of another service into the audit log.
--
-- Which file models what:
--  * Model.Account, Token, Event, Problem: the dataclasses of app/models, app/events.py and
--    app/errors.py. Instants are microseconds, ids are numbers.
--  * Platform: what the service stands on and does not implement. Redis is a key space with the law
--    of each command; argon2, SHA-256, PyJWT and the source of randomness are functions. A random
--    value is known by the position at which it was drawn.
--  * World.State, World.Exec: the tables as lists in the order of insertion, Redis, the clock, and
--    the count of drawn values; a handler is a function of that state to a result and a new state,
--    and what it wrote before raising stays written. The clock does not move inside a handler.
--    World.Ensures: a statement that an action keeps of the tables, with a rule for each way to build
--    an action.
--  * Text, Text.Uuid, Text.Base64, Text.Calendar, Text.Iso: the methods of `str` that the code uses,
--    with the case of Latin-1, the spelling of a UUID, Python's Base64 for URLs, and `isoformat` in
--    UTC, each with its reader; the years of an instant are split off on fuel for one year more than
--    it can have.
--  * Config: the settings that the operations read (config/settings.py).
--  * Cache.RateLimiter, Cache.Sessions: infrastructure/redis.
--  * Store.Users, VerificationTokens, ResetTokens, RefreshTokens, Records:
--    infrastructure/database/*_repository.py; a unique column that would repeat raises
--    `integrity_error`, and an address or a handle of a new account that is too long for its column
--    raises `data_error`. The other columns with a width hold digests and members of enumerations.
--    Store.RefreshTokens.Once has sequences of statements with the requests that are rolled back.
--  * Store.Searches: the two searches of user_repository.py, with SQL's ILIKE and the order newest
--    first. A cursor there is the position that it spells; Store.Cursors has the text, and what reads
--    an instant or a UUID in another spelling is a parameter. Store.Searches.Pages follows the cursors
--    on fuel, and fuel above the number of rows found is enough.
--  * Store.AuditLog: `list_page` of audit_repository.py.
--  * Security: app/security.py.
--  * Service.Lockout, Service.Auth.*: app/services/auth.py (`LoginPolicy` and its guard, `register`
--    and `verify_email`, `login` and `admin_login`, `refresh`, `logout`).
--  * Service.CurrentPassword, PasswordReset, PasswordChange, AccountDeletion, AccountBlock,
--    AccountReview, Audit, Admins, Feedback, Preferences, Profile, Metrics, AdminUserAccounts,
--    Search: the file of that name in app/services. The loop of the public search runs on fuel.
--  * Integrity: what the code takes for granted of the accounts, and in its child modules that each
--    statement on the tables and each operation of the services keeps it.
--  * Api.Bodies, Api.Replies: the bodies of the requests with their rules, and those of the answers
--    (api/schemas). Api.Routes.Auth, Me, Backoffice, Internal: one definition for each route of the
--    files of api. An id in a path is a UUID that was read, the guards run before the rules of the
--    body, and the search of users has fuel for two batches more than there are accounts.
--    Api.Server: a request as a call with its headers, what answers it, and requests in sequence.
--  * Api.Request: the transaction of a request (infrastructure/database/session.py), the answers of
--    api/errors.py and the route `refresh` of api/auth.py. Api.CurrentUser: api/deps.py. Api.Schemas:
--    the rules of api/schemas. Api.Health: `build_report` of infrastructure/health.py. Api.Seed:
--    seed_superadmin.py.
--  * Messaging.Publisher: `publish_batch` and `drain` of infrastructure/rabbitmq/outbox_publisher.py.
--    The broker is a function that answers each publication of each pass. `drain` runs on fuel, and
--    fuel above the number of rows is enough for it to finish.
--  * Messaging.Instances: two instances that run `publish_batch` on one table, as a sequence of
--    things that happen: a row is added, an instance locks a batch, publishes a row, commits or stops.
--    A row stays locked until its instance commits or stops.
--  * Messaging.AuditEvents: app/audit_events.py, from a message of the right shape on.
--    Messaging.Consumer: `_settle` of infrastructure/rabbitmq/event_consumer.py and the handler of
--    api/event_handlers.py.
--  * Tests: a platform that meets the laws of Platform, and runs.
--
-- Where the code changes the object of an account and then calls `update`, the model passes the
-- changed record on. Titles and details of errors are kept; a number or a text that an f-string puts
-- in a detail stands beside it.
--
-- Not modelled: connections to the broker, telemetry, the construction of the application,
-- and what FastAPI does before a route: the reading of JSON, missing or unknown fields, and
-- the list of fields in the answer to a refused body. Requests do not interleave, except for
-- the statements on refresh tokens (Store.RefreshTokens.Once, Refinement) and the two
-- publishers (Messaging.Instances).
pub mod Common
pub mod Model
pub mod Platform
pub mod World
pub mod Messaging
pub mod Text
pub mod Config
pub mod Cache
pub mod Store
pub mod Security
pub mod Service
pub mod Api
pub mod Integrity
mod Tests
