-- ===== src/Livetest.antt =====
-- test/livetest: the state of a test (test_proxy.go), and the runs of all tests (livetest.go). A test
-- is the list of the calls that it makes, in order; what it prints is left out.
pub mod Verdicts
mod Tests
use bricks.Prelude.{
  ℕ, ◌+◌, Bool, true, false, not, ◌||◌, List, [], ◌∷◌, ◌++◌, Option, none, some, if◌then◌else◌,
}

pub data TestState : Type 0 where
  running ok failed skipped : TestState

-- The values that a test panics with; those of other code are not told apart.
pub data Panic : Type 0 where
  err_skip_now err_fail_now other : Panic

-- The methods that T has, and a panic of the test's own. Errorf is as Error, Fatalf as Fatal, Logf as
-- Log and Skipf as Skip.
pub data Action : Type 0 where
  log error fail fail_now fatal skip skip_now panics : Action

abbrev pub TestFunc : Type 0
TestFunc = List Action

-- if t.state == StateRunning { t.state = next }
abbrev pub from_running : TestState → TestState → TestState
from_running next running = next
from_running next ok = ok
from_running next failed = failed
from_running next skipped = skipped

-- The new state, and the value of the panic by which the call ends.
unfoldable pub call : Action → TestState → TestState × Option Panic
call log s = (s, none)
call error s = (from_running failed s, none)
call fail s = (from_running failed s, none)
call fail_now s = (from_running failed s, some err_fail_now)
call fatal s = (from_running failed s, some err_fail_now)
call skip s = (from_running skipped s, none)
call skip_now s = (from_running skipped s, some err_skip_now)
call panics s = (s, some other)

-- A panic ends the test.
abbrev pub unless_panic :
    TestState × Option Panic → (TestState → TestState × Option Panic) → TestState × Option Panic
unless_panic (s, some p) go = (s, some p)
unless_panic (s, none) go = go s

-- t(proxy)
unfoldable pub calls : TestFunc → TestState → TestState × Option Panic
unfolding call
calls [] s = (s, none)
calls (a ∷ rest) s = unless_panic (call a s) (calls rest)

abbrev pub is_skip_now : Panic → Bool
is_skip_now err_skip_now = true
is_skip_now err_fail_now = false
is_skip_now other = false

abbrev pub is_fail_now : Panic → Bool
is_fail_now err_skip_now = false
is_fail_now err_fail_now = true
is_fail_now other = false

-- A test that was executed, and whether a panic of it was logged.
pub record Executed : Type 0 where
  pub state : TestState
  pub panic_logged : Bool

-- The deferred function: the test err != ErrSkipNow || err != ErrFailNow, and Fail
unfoldable pub recovered : TestState × Option Panic → Executed
recovered (s, none) = record { state = s; panic_logged = false }
recovered (s, some p) =
    if not (is_skip_now p) || not (is_fail_now p)
    then record { state = from_running failed s; panic_logged = true }
    else record { state = s; panic_logged = false }

unfoldable pub ok_if_no_skip_fail : Executed → Executed
ok_if_no_skip_fail e = record e { state = from_running ok e.state }

-- executeTest, up to its metrics
unfoldable pub execute_test : TestFunc → Executed
unfolding calls recovered ok_if_no_skip_fail
execute_test t = ok_if_no_skip_fail (recovered (calls t running))

-- paceLivetestTotal, by its label result
pub record Totals : Type 0 where
  pub failed_total : ℕ
  pub succeeded_total : ℕ
  pub skipped_total : ℕ

abbrev pub no_totals : Totals
no_totals = record { failed_total = 0; succeeded_total = 0; skipped_total = 0 }

-- The switch over the state; `none` is the panic of an invalid state.
unfoldable pub count : TestState → Totals → Option Totals
count running m = none
count failed m = some (record m { failed_total = m.failed_total + 1 })
count ok m = some (record m { succeeded_total = m.succeeded_total + 1 })
count skipped m = some (record m { skipped_total = m.skipped_total + 1 })

abbrev pub and_then : Option Totals → (Totals → Option Totals) → Option Totals
and_then none go = none
and_then (some m) go = go m

-- testRun. No test returns an error, so none ends the loop.
unfoldable pub test_run : List TestFunc → Totals → Option Totals
test_run [] m = some m
test_run (t ∷ tests) m = and_then (count (execute_test t).state m) (test_run tests)

-- What the loop of Test receives: a tick of the ticker, with what the tests do in the run that it
-- starts, or that the context is done.
pub data Signal : Type 0 where
  tick : List TestFunc → Signal
  done : Signal

-- What Test comes to: it has returned the error of the context, or it waits, or it has panicked.
pub data Progress : Type 0 where
  returned waiting : Totals → Progress
  panicked : Progress

abbrev pub or_panic : Option Totals → (Totals → Progress) → Progress
or_panic none go = panicked
or_panic (some m) go = go m

unfoldable pub receive : List Signal → Totals → Progress
receive [] m = waiting m
receive (done ∷ signals) m = returned m
receive (tick tests ∷ signals) m = or_panic (test_run tests m) (receive signals)

-- Test, for what the tests do in the first run
unfoldable pub test : List TestFunc → List Signal → Totals → Progress
test tests signals m = or_panic (test_run tests m) (receive signals)
