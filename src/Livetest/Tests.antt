-- ===== src/Livetest/Tests.antt =====
-- Runs of test/livetest.
use bricks.Prelude.{◌≡◌, refl, [], ◌∷◌, true, false}
use bricks.Livetest.{
  TestFunc, log, error, skip_now, fail, panics, failed, ok, returned, execute_test, test, no_totals,
  tick, done,
}
use bricks.Livetest.Verdicts.{test-decided}

abbrev skips_itself : TestFunc
skips_itself = log ∷ skip_now ∷ error ∷ []

test-decided_example :
    test (skips_itself ∷ []) (tick ((panics ∷ []) ∷ []) ∷ done ∷ []) no_totals
    ≡ returned (record { failed_total = 1; succeeded_total = 0; skipped_total = 1 })
test-decided_example = test-decided (skips_itself ∷ []) (tick ((panics ∷ []) ∷ []) ∷ done ∷ [])

a_failure_stands :
    execute_test (fail ∷ skip_now ∷ []) ≡ record { state = failed; panic_logged = true }
unfolding execute_test
a_failure_stands = refl

nothing_said : execute_test (log ∷ []) ≡ record { state = ok; panic_logged = false }
unfolding execute_test
nothing_said = refl
