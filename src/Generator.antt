-- ===== src/Generator.antt =====
-- http/jsonapi/generator: the order of the routes (route.go), and the Go type and the tags of a schema
-- (generate_helper.go, removeOmitempty of generate_types.go). What is written with jennifer is a value.
pub mod Routes
pub mod Types
mod Tests
