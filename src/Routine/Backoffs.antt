-- ===== src/Routine/Backoffs.antt =====
-- pkg/routine/backoff.go and redis_lock.go: at most one of the backoffs is in use.
use bricks.Prelude.{ℕ, ◌/◌, ◌≡◌, ◌⊎◌, inl, inr, true, false, List, [], ◌∷◌, All, if_cases}
use bricks.Prelude.Int.{ℤ, pos}
use bricks.Prelude.Text.{Text, codes, text_eq}
use bricks.Routine.{
  Exponential, Outcome, lock_error, not_obtained, ran, CombinedExponentialBackoff, reset_all,
  duration_of, single_run, run_loop, run,
}

module _ (exponential : Exponential) where
  open exponential use {Backoff, duration, reset}

  -- A backoff that is not in use: resetting it changes nothing.
  abbrev pub IsReset : Backoff → Type 0
  IsReset b = reset b ≡ b

  -- All backoffs but those of one key are reset.
  abbrev pub OnlyUsed : Text → CombinedExponentialBackoff exponential → Type 0
  OnlyUsed key all = All (λ (e : Text × Backoff). (text_eq e.0 key ≡ true) ⊎ IsReset e.1) all

  module _ (reset_twice : (b : Backoff) → reset (reset b) ≡ reset b) where
    reset_all-OnlyUsed :
        (key : Text) (all : CombinedExponentialBackoff exponential)
        → OnlyUsed key (reset_all exponential all)
    unfolding reset_all
    reset_all-OnlyUsed key [] = tt
    reset_all-OnlyUsed key ((k, b) ∷ all) = (inr (reset_twice b), reset_all-OnlyUsed key all)

    duration_of-OnlyUsed :
        (key : Text) (all : CombinedExponentialBackoff exponential)
        → OnlyUsed key (duration_of exponential key all).1
    unfolding duration_of
    duration_of-OnlyUsed key [] = tt
    duration_of-OnlyUsed key ((k, b) ∷ all) =
        if_cases (λ (r : ℤ × CombinedExponentialBackoff exponential). OnlyUsed key r.1)
          (text_eq k key) _ _ (λ e. (inl e, duration_of-OnlyUsed key all))
          (λ _. (inr (reset_twice b), duration_of-OnlyUsed key all))

    single_run-OnlyUsed :
        (i : ℤ) (o : Outcome) (all : CombinedExponentialBackoff exponential)
        → (key : Text) × OnlyUsed key (single_run exponential i o all).1
    unfolding single_run
    single_run-OnlyUsed i lock_error all = (codes "lock", duration_of-OnlyUsed (codes "lock") all)
    single_run-OnlyUsed i not_obtained all = ([], reset_all-OnlyUsed [] all)
    single_run-OnlyUsed i (ran true) all =
        (codes "routine", duration_of-OnlyUsed (codes "routine") all)
    single_run-OnlyUsed i (ran false) all = ([], reset_all-OnlyUsed [] all)

    run_loop-OnlyUsed :
        (i again : ℤ) (os : List Outcome) (all : CombinedExponentialBackoff exponential)
        → (key : Text) × OnlyUsed key all
        → (key : Text) × OnlyUsed key (run_loop exponential i again os all).1
    unfolding run_loop
    run_loop-OnlyUsed i again [] all h = h
    run_loop-OnlyUsed i again (o ∷ os) all h =
        run_loop-OnlyUsed i (single_run exponential i o all).0 os (single_run exponential i o all).1
          (single_run-OnlyUsed i o all)

    -- However often the lock or the routine fails, and in whatever order: at any time all backoffs
    -- are reset but those of one key at most, if a new backoff is one that is reset.
    pub run-OnlyUsed :
        (ttl : ℕ) (fresh : Backoff) (os : List Outcome)
        → IsReset fresh
        → (key : Text) × OnlyUsed key (run exponential ttl fresh os).1
    unfolding run
    run-OnlyUsed ttl fresh os h =
        run_loop-OnlyUsed (pos (ttl / 5)) (pos 0) os
          ((codes "lock", fresh) ∷ (codes "routine", fresh) ∷ []) ([], (inr h, (inr h, tt)))
