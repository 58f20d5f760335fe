-- ===== src/Backend/Postgres.antt =====
-- backend/postgres/health_postgres.go. The statements are those of cfg.HealthCheckTableName.
use bricks.Prelude.{arith, ◌≡◌, ap, true, false, List, [], ◌∷◌, Option, none, some, if◌then◌else◌}
use bricks.Prelude.Int.{ℤ}
use bricks.Prelude.Text.{Text}
use bricks.Health.{ConnectionState, set_error_state, set_healthy, set_connection_state}
use bricks.Backend.Cached.{is_fresh, shown, first_error, until_error, CachedCheck}

pub data Statement : Type 0 where
  select_one insert_true delete_all : Statement

-- A call of HealthCheck: the clock when it starts and when a result is stored, and the error of each
-- statement, if it is executed.
pub record Call : Type 0 where
  pub now : ℤ
  pub stored : ℤ
  pub exec : Statement → Option Text

-- The state, and the statements that were executed, in order
pub record Checked : Type 0 where
  pub state : ConnectionState
  pub executed : List Statement

-- if _, err := h.Pool.Exec(…); err != nil { … }
unfoldable pub exec_or : Statement → Call → Option Text → ConnectionState → Checked → Checked
exec_or s c (some e) cs rest = record { state = set_error_state e c.stored cs; executed = s ∷ [] }
exec_or s c none cs rest = record { state = rest.state; executed = s ∷ rest.executed }

abbrev pub exec : Statement → Call → ConnectionState → Checked → Checked
exec s c cs rest = exec_or s c (c.exec s) cs rest

-- HealthCheck, whose result is that of the state
unfoldable pub health_check : ℤ → Call → ConnectionState → Checked
unfolding exec_or
health_check ttl c cs =
    if is_fresh ttl c.now cs
    then record { state = cs; executed = [] }
    else exec select_one c cs (
        exec insert_true c cs
          (exec delete_all c cs (record { state = set_healthy c.stored cs; executed = [] })))

abbrev pub statements : List Statement
statements = select_one ∷ insert_true ∷ delete_all ∷ []

abbrev pub outcome : Call → Option Text
outcome c = first_error c.exec statements

-- The checks of a state that is stale
stale_check :
    (c : Call) (cs : ConnectionState)
    → exec select_one c cs (
        exec insert_true c cs
          (exec delete_all c cs (record { state = set_healthy c.stored cs; executed = [] })))
      ≡ record {
        state = record { last_check = c.stored; result = shown (outcome c) };
        executed = until_error c.exec statements;
      }
unfolding exec_or set_error_state set_healthy set_connection_state
stale_check c cs = ground arith

-- A result that is not older than its time to live stays, and nothing is asked of the database.
-- Otherwise the three statements are executed, up to the first that fails, whose error is the new
-- result; the database is healthy if none fails.
pub health_check-outcome :
    (ttl : ℤ) (c : Call) (cs : ConnectionState)
    → health_check ttl c cs ≡ (
        if is_fresh ttl c.now cs then record { state = cs; executed = [] } else record {
          state = record { last_check = c.stored; result = shown (outcome c) };
          executed = until_error c.exec statements;
        })
unfolding health_check
health_check-outcome ttl c cs =
    ap (λ (x : Checked). if is_fresh ttl c.now cs then record { state = cs; executed = [] } else x)
      (stale_check c cs)

pub check-fresh :
    (ttl : ℤ) (c : Call) (cs : ConnectionState)
    → is_fresh ttl c.now cs ≡ true
    → (health_check ttl c cs).state ≡ cs
check-fresh ttl c cs fresh = rw (health_check-outcome ttl c cs, fresh)

pub check-stale :
    (ttl : ℤ) (c : Call) (cs : ConnectionState)
    → is_fresh ttl c.now cs ≡ false
    → (health_check ttl c cs).state ≡ record { last_check = c.stored; result = shown (outcome c) }
check-stale ttl c cs stale = rw (health_check-outcome ttl c cs, stale)

unfoldable pub postgres_check : ℤ → CachedCheck Call
postgres_check ttl = record {
  ttl = ttl;
  now = λ c. c.now;
  stored = λ c. c.stored;
  outcome = outcome;
  check = λ c cs. (health_check ttl c cs).state;
  check-fresh = check-fresh ttl;
  check-stale = check-stale ttl;
}
