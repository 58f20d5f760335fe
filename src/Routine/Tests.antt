-- ===== src/Routine/Tests.antt =====
-- Runs of pkg/routine.
use bricks.Prelude.{ℕ, suc, ◌*◌, ◌≡◌, refl, true, List, [], ◌∷◌}
use bricks.Prelude.Int.{pos}
use bricks.Prelude.Text.{codes, text_eq}
use bricks.Routine.{
  Exponential, Outcome, lock_error, not_obtained, ran, run, run_loop, single_run, duration_of,
  reset_all,
}

-- A backoff that counts its attempts, and doubles with each.
doubled : ℕ → ℕ
doubled ℕ.zero = 1
doubled (suc n) = 2 * doubled n

abbrev counting : Exponential
counting = record { Backoff = ℕ; duration = λ n. (pos (doubled n), suc n); reset = λ _. 0 }

abbrev outcomes : List Outcome
outcomes = lock_error ∷ lock_error ∷ ran true ∷ not_obtained ∷ ran true ∷ []

waits_run : run counting 50 0 outcomes ≡ (
  pos 0 ∷ pos 1 ∷ pos 2 ∷ pos 1 ∷ pos 10 ∷ pos 1 ∷ [],
  (codes "lock", 0) ∷ (codes "routine", 1) ∷ [],
)
unfolding run run_loop single_run duration_of reset_all text_eq doubled
waits_run = refl
