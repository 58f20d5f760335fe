-- ===== src/Health.antt =====
-- maintenance/health/servicehealthcheck: the results of health checks, and their cached state
-- (connection_state.go). Times are nanoseconds since Go's zero time.
pub mod Registry
pub mod Handlers
pub mod Background
mod Tests
use bricks.Prelude.{Bool, [], ◌∷◌}
use bricks.Prelude.Int.{ℤ, pos}
use bricks.Prelude.Text.{Text, codes, text_eq}

-- HealthState, a string. The state of a check that has not run is the empty one.
abbrev pub err : Text
err = codes "ERR"

abbrev pub warn : Text
warn = codes "WARN"

abbrev pub ok : Text
ok = codes "OK"

pub record HealthCheckResult : Type 0 where
  pub state : Text
  pub msg : Text

abbrev pub is_err : HealthCheckResult → Bool
is_err r = text_eq r.state err

abbrev pub is_warn : HealthCheckResult → Bool
is_warn r = text_eq r.state warn

pub record ConnectionState : Type 0 where
  pub last_check : ℤ
  pub result : HealthCheckResult

abbrev pub zero_state : ConnectionState
zero_state = record { last_check = pos 0; result = record { state = []; msg = [] } }

-- Each operation is one step, since it holds the mutex. `now` is time.Now().
unfoldable pub set_connection_state : HealthCheckResult → ℤ → ConnectionState → ConnectionState
set_connection_state result now cs = record { last_check = now; result = result }

unfoldable pub set_error_state : Text → ℤ → ConnectionState → ConnectionState
unfolding set_connection_state
set_error_state e now cs = set_connection_state (record { state = err; msg = e }) now cs

unfoldable pub set_healthy : ℤ → ConnectionState → ConnectionState
unfolding set_connection_state
set_healthy now cs = set_connection_state (record { state = ok; msg = [] }) now cs

unfoldable pub get_state : ConnectionState → HealthCheckResult
get_state cs = cs.result

unfoldable pub last_checked : ConnectionState → ℤ
last_checked cs = cs.last_check
