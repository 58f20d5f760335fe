-- ===== src/Routine.antt =====
-- pkg/routine: the routine that is kept running in one instance (backoff.go, redis_lock.go). The
-- exponential backoffs of github.com/jpillora/backoff are a parameter, and so is what redis replies.
-- The TTL of the lock is not negative.
pub mod Backoffs
pub mod KeepUp
pub mod Registry
mod Tests
use bricks.Prelude.{ℕ, ◌/◌, Bool, true, false, List, [], ◌∷◌, Option, none, some, if◌then◌else◌}
use bricks.Prelude.Int.{ℤ, pos, ltb_ℤ}
use bricks.Prelude.Text.{Text, codes, text_eq}

-- Backoff: its next duration, which counts an attempt, and Reset.
pub record Exponential : Type 1 where
  pub Backoff : Type 0
  pub duration : Backoff → ℤ × Backoff
  pub reset : Backoff → Backoff

-- What a single run comes to: the lock is not obtained for an error or since another has it, or the
-- routine runs, and may panic.
pub data Outcome : Type 0 where
  lock_error not_obtained : Outcome
  ran : (panicked : Bool) → Outcome

module _ (exponential : Exponential) where
  open exponential use {Backoff, duration, reset}

  abbrev pub CombinedExponentialBackoff : Type 0
  CombinedExponentialBackoff = List (Text × Backoff)

  unfoldable pub reset_all : CombinedExponentialBackoff → CombinedExponentialBackoff
  reset_all [] = []
  reset_all ((k, backoff) ∷ all) = (k, reset backoff) ∷ reset_all all

  unfoldable pub duration_of : Text → CombinedExponentialBackoff → ℤ × CombinedExponentialBackoff
  duration_of key [] = (pos 0, [])
  duration_of key ((k, backoff) ∷ all) =
      let rest = duration_of key all in
      if text_eq k key
      then ((duration backoff).0, (k, (duration backoff).1) ∷ rest.1)
      else (rest.0, (k, reset backoff) ∷ rest.1)

  -- singleRun: the time after which to try again, and the backoffs
  unfoldable pub single_run :
      ℤ → Outcome → CombinedExponentialBackoff → ℤ × CombinedExponentialBackoff
  unfolding reset_all duration_of
  single_run retry_interval lock_error backoff = duration_of (codes "lock") backoff
  single_run retry_interval not_obtained backoff = (retry_interval, reset_all backoff)
  single_run retry_interval (ran true) backoff = duration_of (codes "routine") backoff
  single_run retry_interval (ran false) backoff = (retry_interval, reset_all backoff)

  -- The loop of Run, until its context is done: the times that it waits, and the backoffs.
  unfoldable pub run_loop :
      ℤ → ℤ → List Outcome → CombinedExponentialBackoff → List ℤ × CombinedExponentialBackoff
  unfolding single_run
  run_loop retry_interval try_again_in [] backoff = (try_again_in ∷ [], backoff)
  run_loop retry_interval try_again_in (outcome ∷ outcomes) backoff =
      let (again, next) = single_run retry_interval outcome backoff in
      let (waits, last) = run_loop retry_interval again outcomes next in
      (try_again_in ∷ waits, last)

  -- Run, with the backoffs as NewBackoff makes them
  unfoldable pub run : ℕ → Backoff → List Outcome → List ℤ × CombinedExponentialBackoff
  unfolding run_loop
  run lock_ttl fresh outcomes =
      run_loop (pos (lock_ttl / 5)) (pos 0) outcomes
        ((codes "lock", fresh) ∷ (codes "routine", fresh) ∷ [])

-- What Refresh replies, with what TTL replies after ErrNotObtained; an error is `none`.
pub data Refresh : Type 0 where
  refreshed failed : Refresh
  refused : Option ℤ → Refresh

-- One round of keepUpLock: whether the context is done first, which of two timers of the same
-- length comes first, and the replies.
pub record Round : Type 0 where
  pub is_done : Bool
  pub runs_out_first : Bool
  pub reply : Refresh

pub data Ended : Type 0 where
  still_held context_done ran_out no_ttl not_refreshed : Ended

-- The timer of lockRunsOutIn comes before the one of refreshInterval.
abbrev pub runs_out : ℤ → ℤ → Bool → Bool
runs_out lock_runs_out_in refresh_interval first =
    if ltb_ℤ lock_runs_out_in refresh_interval
    then true
    else if ltb_ℤ refresh_interval lock_runs_out_in
    then false
    else first

-- What a round goes on with, by what Refresh replied.
unfoldable pub after_refresh :
    (ℤ → Option Refresh → Ended × Option Refresh) → ℕ → Refresh → Ended × Option Refresh
after_refresh next refresh_ttl refreshed = next (pos refresh_ttl) (some refreshed)
after_refresh next refresh_ttl failed = (not_refreshed, some failed)
after_refresh next refresh_ttl (refused none) = (no_ttl, some (refused none))
after_refresh next refresh_ttl (refused (some ttl)) = next ttl (some (refused (some ttl)))

-- keepUpLock: how it ends, and what the last Refresh replied.
unfoldable pub keep_up_lock : ℕ → List Round → ℤ → Option Refresh → Ended × Option Refresh
unfolding after_refresh
keep_up_lock refresh_ttl [] lock_runs_out_in last = (still_held, last)
keep_up_lock refresh_ttl (r ∷ rs) lock_runs_out_in last =
    let rest = after_refresh (keep_up_lock refresh_ttl rs) refresh_ttl r.reply in
    if r.is_done
    then (context_done, last)
    else if runs_out lock_runs_out_in (pos (refresh_ttl / 5)) r.runs_out_first
    then (ran_out, last)
    else rest
