-- ===== src/Longpoll/Tests.antt =====
-- Runs of http/longpoll.
use bricks.Prelude.{ℕ, ◌+◌, ◌≢◌, false, List, [], ◌∷◌, none, arith}
use bricks.Prelude.Int.{pos}
use bricks.Longpoll.{
  Config, default_config, deadline, Polled, polling, finished, Round, long_poll_until,
}
use bricks.Longpoll.Bounds.{long_poll_until-Ends, once_without_duration}

abbrev start : ℕ
start = 63_780_000_000_000_000_000

-- A round that has waited so many nanoseconds since the start, without a result.
abbrev nothing_after : ℕ → Round ℕ
nothing_after n = record { ok = false; err = none; now = start + n; canceled = none }

abbrev rounds : List (Round ℕ)
rounds = nothing_after 600_000_000 ∷ nothing_after 1_200_000_000 ∷ nothing_after 1_800_000_000 ∷ []

long_poll_until-Ends_example :
    long_poll_until default_config (pos 1_500_000_000) start (nothing_after 0 ∷ rounds) ≢ polling
long_poll_until-Ends_example =
    long_poll_until-Ends default_config (pos 1_500_000_000) start (nothing_after 0) rounds
      (unfold default_config in (omega arith, (omega arith, (omega arith, (omega arith, tt)))))
      (unfold default_config deadline bricks.Longpoll.Bounds.retries in omega arith)
