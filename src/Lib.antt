-- ===== src/Lib.antt =====
-- synapse-go: shared Go packages that guard requests of a multi-tenant service.
--
-- A request passes the route guards (tokens, tenant, permission), the rate limits and the
-- idempotency middleware before a handler runs; locks and the circuit breaker guard what the
-- handler calls, and the outboxes carry the events that it publishes. Each package is a directory
-- of the repository, and each has its own module here:
--   Base          numbers, texts, maps, time and decimals that the modules share
--   Auth          auth/auth.go: the key (Secret), claims and the service (Claims), issuing and
--                 parsing (Tokens), over an interface of golang-jwt (Jwt), of which Sample is a
--                 concrete instance
--   Access        middleware/platform.go and permission.go: BearerToken (Bearer), PlatformToken and
--                 TenantToken (Tokens), RequireFeature and RequireTenantActive (Tenants),
--                 RequireTenantPermission (Permissions); auth.go and role.go: the limits of an
--                 address and the roles (Throttle)
--   Rbac          rbac/rbac.go: matching of permission codes, and what a code covers
--   Ratelimit     ratelimit/: the Lua scripts (Scripts) over an interface of Redis counters, and the
--                 limiter's CheckPreRequest, TrackPostResponse and ReleaseConcurrency (Limiter);
--                 estimator.go (Estimator)
--   Cache         cache/lru.go: the cache of one process (Lru), and the association list in the order
--                 of use that it refines (Recency)
--   Runtimeguard  runtimeguard/limiter.go and lock.go: the fixed-window limiter and the locks of one
--                 process; redis.go: the limiter's script over an interface of counters with a
--                 time to live (Windows), the limiter and the lock manager (Redis)
--   Idempotency   idempotency/: rows and the repository interface (Rows), Begin and Complete
--                 (Idempotency), the Gin middleware (Middleware); the statements of repo.go on a
--                 table (Table), the job that deletes expired rows (Expiry), keys and hashes (Keys)
--   Webhook       webhook/webhook.go: signed headers
--   Files         files/files.go: the policy of uploads and the keys of their objects
--   Utils         utils/phone.go and utils/ip.go
--   Pii           pii/pii.go: the rules of redaction and what each puts in place of a match
--   Notify        notify/notify.go: retries; notification/notification.go: the limits of a message
--   Healthcheck   healthcheck/healthcheck.go: concurrent checks in any order of ending
--   Job           job/job.go: leases (Lease) and BackoffPolicy with the Calculator of
--                 utils/backoff.go (Backoff); job/cronguard.go (Cron); jobpayload/ (Payload)
--   Lock          lock/ and idempotent/: the scripts over an interface of Redis string keys (Keys),
--                 the distributed locker (Distributed), TryLock, ExecuteWithLock, Check and its
--                 middleware (Simple)
--   Breaker       circuitbreaker/breaker.go
--   Outbox        outbox/outbox.go: the process-local store of events
--   Events        reliableevents/: the outbox table and its statements (Events), the service
--                 (Service)
-- In each, a method of a Go type is a function that takes the state and gives the new state back;
-- the Go names are kept, in the spelling of this language. Errors are values: an Option or a sum.
--
-- State and interfaces. Redis, the SQL database behind idempotency, golang-jwt, the tenant cache and
-- what a checker or a lookup answers are parameters: records of operations with the laws that their
-- documentation gives, or functions. A call that fails is a `fault` argument, or an answer that is
-- an error; a failed call has changed nothing, but for those of Access/Throttle whose answer is lost.
-- A mutex and a Lua script make a step atomic, so
-- concurrent use is a sequence of such steps (Lock/Held, Idempotency/Race). The statements of
-- reliableevents are functions on tables, which compare texts exactly, as a binary collation does.
--
-- SHA-256, HMAC, http.NewRequest and float64 with package math are parameters too (Idempotency/Keys,
-- Webhook, Job/Backoff), and so are media types and path cleaning (Files), what a regular expression
-- matches (Pii) and what encoding/json reads (Ratelimit/Estimator, Notify).
--
-- Numbers. Times are nanoseconds since Go's zero time as natural numbers (since the Unix epoch in
-- Ratelimit and Webhook, and the milliseconds of the clock of Redis in Runtimeguard/Windows and what
-- stands on it). Durations and Go's signed integers are unbounded integers, so their overflow is not
-- modelled, but for the difference of times in Webhook, which saturates. An unsigned 64-bit id is a
-- natural number, and a parsed one is checked against 2^64. Texts are lists of code points, and
-- `len` counts the bytes of their UTF-8 encoding; bytes that are no UTF-8 are not modelled.
--
-- Bounds. Loops over lists are structural recursion. The one function on fuel writes decimal digits
-- (Base/Decimal) and is given one more than the number, which has fewer digits than that.
--
-- Not modelled: logging, metrics, context cancellation but in the retries of Notify, HTTP and SQL
-- drivers, and the packages that only call a third party; nil receivers; the registered claims of a token but issuer, audience,
-- issue and expiry.
pub mod Base
pub mod Breaker
pub mod Runtimeguard
pub mod Idempotency
pub mod Ratelimit
pub mod Lock
pub mod Auth
pub mod Access
pub mod Rbac
pub mod Outbox
pub mod Events
pub mod Cache
pub mod Job
pub mod Webhook
pub mod Files
pub mod Utils
pub mod Pii
pub mod Notify
pub mod Healthcheck
