-- ===== src/Lib.antt =====
-- A model of the Go library bricks, a kit for microservices, and what its parts guarantee.
--
-- The parts and the files that model them (paths of the sources from the repository's root):
--   * Log: maintenance/log. Log/Ring is the ring buffer stringRing of sink.go, Log/Sink the sink that a
--     request's log is kept in; a write is one step, since it holds the sink's mutex. Log/Remote is the
--     remote address of a request and Log/RequestId its id, both of handler.go, with the round tripper
--     that sends the id on (http/transport/request_id.go).
--   * Failover: maintenance/failover/failover.go. The loop of ActivePassive.Run as a function of the
--     signals that its select receives, with what redis and kubernetes reply.
--   * Cache: pkg/cache. Cache/Spec states what a cache is, Cache/Memory is memory.go with its clock
--     and the two lock sections of Get, Cache/Redis is redis.go over a client that is a parameter.
--   * Security: http/security. The bearer token of a request (helper.go), and the authorization by an
--     api key (apikey/authorizer.go, Security/ApiKey).
--   * Oauth2: http/oauth2, which uses Security. The introspection of a request (oauth2.go) by an
--     introspecter that is a parameter, the scopes (scope.go, Oauth2/Scope), the authorizer and the
--     middleware of required scopes (authorizer.go, middleware/scopes_middleware.go,
--     Oauth2/Authorizer).
--   * Middleware: http/middleware. Middleware/Dependency is external_dependency.go: a service reports
--     in a header which services it called, and how long that took. Middleware/Forwarded is the request
--     in a context (context.go), Middleware/Metrics the counted responses (metrics.go).
--   * Transport: http/transport. Transport/Chain is chainable.go, the chain of round trippers with the
--     pointers that link them; Transport/Dependency is external_dependency_round_tripper.go, the
--     client's side of that report; Transport/Retry is retry_round_tripper.go,
--     attempt_round_tripper.go and circuit_breaker_tripper.go; Transport/Dump is
--     dump_round_tripper.go.
--   * Health: maintenance/health/servicehealthcheck. Health/Registry and Health/Background are
--     healthcheck.go, Health/Handlers the three handlers of /health, /health/check and
--     /health/check.json.
--   * Locale: locale, and the client's side of it, http/transport/locale_round_tripper.go. Locale is
--     locale.go, context.go and http.go, Locale/Strategy is strategy.go.
--   * Synctx: pkg/synctx. The work queue (work_queue.go, wg.go) as a step relation: the steps of its
--     workers, of any calls of Wait and of the context interleave in any order; the reuse of a queue
--     behind Wait is left out.
--   * Runtime: http/jsonapi/runtime and pkg/isotime. Runtime/Errors is error.go, Runtime/Isotime
--     isotime.go, Runtime/Scan parameters.go, Runtime/Validation validation.go;
--     Runtime/Middleware is http/jsonapi/middleware/error_middleware.go.
--   * Params: http/jsonapi/runtime/standard_params.go, the pagination, sorting and filters of a
--     request; Params/Reading adds them to the query of a database.
--   * Routine: pkg/routine. The routine that runs in one instance: its single runs and their backoffs
--     (backoff.go), and the loop that keeps up its lock (redis_lock.go). Routine/Registry is Run and
--     the shutdown of routine.go as a step relation.
--   * Longpoll: http/longpoll/longpoll.go, one round for each execution of the polled function.
--   * Utm: pkg/tracking/utm. The UTM data of a request, its middleware and its round tripper; requests
--     hold the addresses of their URLs, since a clone of a request shares its URL.
--   * Backend: the health checks of backend. Backend/Postgres, Backend/Redis and Backend/Objstore are
--     the health_*.go of these, Backend/Queue is queue/rmq.go, Backend/Couchdb couchdb/health_check.go;
--     Backend/Cached is the interface of a check that keeps its result for a time to live.
--   * Redact: pkg/redact. The schemes, the redactor whose slice of patterns is a window on an array in
--     a store, and the redactor of a context.
--   * Errors: maintenance/errors. error.go with the recovery from panics and the breadcrumbs of a
--     report, and context.go (Errors/Hide). It uses Runtime for the answer.
--   * Livetest: test/livetest. The states of a test and the loop that runs the tests.
--   * Generator: http/jsonapi/generator. Generator/Routes is the order of route.go, Generator/Types the
--     Go type and the tags of a schema (generate_helper.go).
--   * Transfer: pkg/context/transfer.go, the context of a routine, made by the transfers of Oauth2,
--     Errors, Middleware, Redact, Utm, Log and Locale.
--   * Prelude: what these share. Text is a Go string as the list of its bytes; Int the signed
--     integers; Time a time.Time in nanoseconds since Go's zero time and a time.Duration as an int64
--     that wraps around; Assoc a map as an association list; Result a value or an error; Decimal the
--     numbers of %d and strconv.
--
-- State is passed explicitly: an operation takes the record of its component and gives the next.
-- What a component reads from outside (a clock, redis, kubernetes, an introspecter, the outcome of a
-- callback) is an argument of the operation. A panic is `none` or a constructor of its own.
-- Functions that loop do so by recursion on their input, the list of signals, ticks, calls or bytes;
-- the fuel there is: that of the decimal digits of a number, which is more than the number and so more
-- than its digits; that of a request in a chain, one more than the round trippers of the chain; and
-- that of the jumps of the check of couchdb, which need not end, and of which the properties say how
-- many there are.
--
-- Not modelled: vendored and copied code (vendor, maintenance/errors/raven, the request and response
-- nodes of http/jsonapi), generated code, what the generator writes with jennifer, the commands (cmd,
-- tools, internal/service), and the parts that mostly call another library: the connections of backend
-- (postgres, redis, couchdb, objstore, k8sapi), tracing, metrics, grpc, the HTTP server, and the
-- logger; the packets of sentry; and the smaller parts maintenance/health and
-- maintenance/util.
pub mod Prelude
pub mod Livetest
pub mod Log
pub mod Failover
pub mod Cache
pub mod Security
pub mod Oauth2
pub mod Middleware
pub mod Transfer
pub mod Transport
pub mod Health
pub mod Backend
pub mod Locale
pub mod Synctx
pub mod Redact
pub mod Generator
pub mod Runtime
pub mod Errors
pub mod Params
pub mod Routine
pub mod Longpoll
pub mod Utm
