-- ===== src/Livetest/Verdicts.antt =====
-- What the outcome of a test is, told by the calls that it makes, and what the totals count.
use bricks.Prelude.{
  arith, ℕ, ◌+◌, ◌≡◌, refl, ap, ◌∙◌, Bool, true, false, List, [], ◌∷◌, ◌++◌, Option, none, some,
  if◌then◌else◌,
}
use bricks.Livetest.{
  TestState, running, ok, failed, skipped, Panic, err_skip_now, err_fail_now, other, log, error,
  fail, fail_now, fatal, skip, skip_now, panics, TestFunc, from_running, calls, recovered,
  ok_if_no_skip_fail, execute_test, Totals, no_totals, count, test_run, Signal, tick, done,
  Progress, returned, waiting, receive, test,
}

-- The first call that decides on the test; what comes behind it has no effect on the state.
abbrev pub decided : TestFunc → TestState
decided [] = ok
decided (log ∷ rest) = decided rest
decided (error ∷ rest) = failed
decided (fail ∷ rest) = failed
decided (fail_now ∷ rest) = failed
decided (fatal ∷ rest) = failed
decided (skip ∷ rest) = skipped
decided (skip_now ∷ rest) = skipped
decided (panics ∷ rest) = failed

-- The value that a test panics with.
abbrev pub panic_of : TestFunc → Option Panic
panic_of [] = none
panic_of (log ∷ rest) = panic_of rest
panic_of (error ∷ rest) = panic_of rest
panic_of (fail ∷ rest) = panic_of rest
panic_of (skip ∷ rest) = panic_of rest
panic_of (fail_now ∷ rest) = some err_fail_now
panic_of (fatal ∷ rest) = some err_fail_now
panic_of (skip_now ∷ rest) = some err_skip_now
panic_of (panics ∷ rest) = some other

abbrev pub is_some : Option Panic → Bool
is_some none = false
is_some (some p) = true

-- In a state that is decided, only the panic is open.
module _ (s : TestState) (kept : (n : TestState) → from_running n s ≡ s) where
  calls-decided : (t : TestFunc) → calls t s ≡ (s, panic_of t)
  unfolding calls
  calls-decided [] = refl
  calls-decided (log ∷ t) = calls-decided t
  calls-decided (error ∷ t) = rw (kept failed) (calls-decided t)
  calls-decided (fail ∷ t) = rw (kept failed) (calls-decided t)
  calls-decided (skip ∷ t) = rw (kept skipped) (calls-decided t)
  calls-decided (fail_now ∷ t) = rw (kept failed)
  calls-decided (fatal ∷ t) = rw (kept failed)
  calls-decided (skip_now ∷ t) = rw (kept skipped)
  calls-decided (panics ∷ t) = refl

  recovered-decided :
      (p : Option Panic) → recovered (s, p) ≡ record { state = s; panic_logged = is_some p }
  unfolding recovered
  recovered-decided none = refl
  recovered-decided (some err_skip_now) = rw (kept failed)
  recovered-decided (some err_fail_now) = rw (kept failed)
  recovered-decided (some other) = rw (kept failed)

  executed-decided :
      (t : TestFunc)
      → recovered (calls t s) ≡ record { state = s; panic_logged = is_some (panic_of t) }
  executed-decided t = rw (calls-decided t) (recovered-decided (panic_of t))

from_failed : (n : TestState) → from_running n failed ≡ failed
from_failed n = refl

from_skipped : (n : TestState) → from_running n skipped ≡ skipped
from_skipped n = refl

-- Whatever calls a test makes: it is failed or skipped by the first call that fails or skips it, a
-- panic of its own being a failure, and is ok if it makes no such call. A panic of it is logged
-- whenever it makes a call that panics, also if that is only SkipNow or FailNow.
pub execute_test-decided :
    (t : TestFunc)
    → execute_test t ≡ record { state = decided t; panic_logged = is_some (panic_of t) }
unfolding execute_test
execute_test-decided t = executed t
  where
    executed :
        (t : TestFunc)
        → ok_if_no_skip_fail (recovered (calls t running))
          ≡ record { state = decided t; panic_logged = is_some (panic_of t) }
    executed [] = refl
    executed (log ∷ t) = executed t
    executed (error ∷ t) = rw (executed-decided failed from_failed t)
    executed (fail ∷ t) = rw (executed-decided failed from_failed t)
    executed (fail_now ∷ t) = refl
    executed (fatal ∷ t) = refl
    executed (skip ∷ t) = rw (executed-decided skipped from_skipped t)
    executed (skip_now ∷ t) = refl
    executed (panics ∷ t) = refl

-- One for the state that is asked for, and zero for the others.
abbrev pub one_if_failed : TestState → ℕ
one_if_failed running = 0
one_if_failed ok = 0
one_if_failed failed = 1
one_if_failed skipped = 0

abbrev pub one_if_ok : TestState → ℕ
one_if_ok running = 0
one_if_ok ok = 1
one_if_ok failed = 0
one_if_ok skipped = 0

abbrev pub one_if_skipped : TestState → ℕ
one_if_skipped running = 0
one_if_skipped ok = 0
one_if_skipped failed = 0
one_if_skipped skipped = 1

-- How many tests are decided in such a way.
abbrev pub how_many : (TestState → ℕ) → List TestFunc → ℕ
how_many one [] = 0
how_many one (t ∷ tests) = one (decided t) + how_many one tests

abbrev pub and_those : Totals → List TestFunc → Totals
and_those m tests = record {
  failed_total = m.failed_total + how_many one_if_failed tests;
  succeeded_total = m.succeeded_total + how_many one_if_ok tests;
  skipped_total = m.skipped_total + how_many one_if_skipped tests;
}

count-decided : (t : TestFunc) (m : Totals) → count (decided t) m ≡ some (and_those m (t ∷ []))
unfolding count
count-decided [] m = ground arith
count-decided (log ∷ t) m = count-decided t m
count-decided (error ∷ t) m = ground arith
count-decided (fail ∷ t) m = ground arith
count-decided (fail_now ∷ t) m = ground arith
count-decided (fatal ∷ t) m = ground arith
count-decided (skip ∷ t) m = ground arith
count-decided (skip_now ∷ t) m = ground arith
count-decided (panics ∷ t) m = ground arith

how_many-append :
    (one : TestState → ℕ) (ts us : List TestFunc)
    → how_many one (ts ++ us) ≡ how_many one ts + how_many one us
how_many-append one [] us = omega arith
how_many-append one (t ∷ ts) us = omega (arith, how_many-append one ts us)

and_those-append :
    (m : Totals) (ts us : List TestFunc) → and_those (and_those m ts) us ≡ and_those m (ts ++ us)
and_those-append m ts us = ground (
  arith,
  how_many-append one_if_failed ts us,
  how_many-append one_if_ok ts us,
  how_many-append one_if_skipped ts us,
)

and_those-nil : (m : Totals) → m ≡ and_those m []
and_those-nil m = ground arith

test_run-decided :
    (tests : List TestFunc) (m : Totals) → test_run tests m ≡ some (and_those m tests)
unfolding test_run
test_run-decided [] m = ap some (and_those-nil m)
test_run-decided (t ∷ tests) m =
    rw (execute_test-decided t, count-decided t m)
      (test_run-decided tests (and_those m (t ∷ [])) ∙ ap some (and_those-append m (t ∷ []) tests))

-- The tests that are run before the context is done, and whether it is done.
abbrev pub run_before_done : List Signal → List TestFunc
run_before_done [] = []
run_before_done (tick tests ∷ signals) = tests ++ run_before_done signals
run_before_done (done ∷ signals) = []

abbrev pub is_done : List Signal → Bool
is_done [] = false
is_done (tick tests ∷ signals) = is_done signals
is_done (done ∷ signals) = true

abbrev pub ending : List Signal → Totals → Progress
ending signals m = if is_done signals then returned m else waiting m

receive-ending :
    (signals : List Signal) (m : Totals)
    → receive signals m ≡ ending signals (and_those m (run_before_done signals))
unfolding receive
receive-ending [] m = ap waiting (and_those-nil m)
receive-ending (done ∷ signals) m = ap returned (and_those-nil m)
receive-ending (tick tests ∷ signals) m = rw (test_run-decided tests m) (
    receive-ending signals (and_those m tests)
    ∙ ap (ending signals) (and_those-append m tests (run_before_done signals)))

-- Whatever the tests do and whenever the context is done: the tests are run once and then at every
-- tick before that; each of them is counted once, by the call that decides on it; Test returns as soon
-- as it receives that the context is done, waits until then, and never panics.
pub test-decided :
    (tests : List TestFunc) (signals : List Signal)
    → test tests signals no_totals ≡ (
        if is_done signals
        then returned (and_those no_totals (tests ++ run_before_done signals))
        else waiting (and_those no_totals (tests ++ run_before_done signals)))
unfolding test
test-decided tests signals = rw (test_run-decided tests no_totals) (
    receive-ending signals (and_those no_totals tests)
    ∙ ap (ending signals) (and_those-append no_totals tests (run_before_done signals)))
