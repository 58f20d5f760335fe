-- ===== src/Backend.antt =====
-- backend: the health checks of the services that a program uses (health_postgres.go,
-- health_redis.go, health_objstore.go, health_check.go of couchdb, rmq.go). Each keeps its last result
-- in a ConnectionState for a time to live; what the service replies is an argument.
pub mod Cached
pub mod Postgres
pub mod Redis
pub mod Queue
pub mod Objstore
pub mod Couchdb
pub mod Recent
mod Tests
