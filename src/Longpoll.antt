-- ===== src/Longpoll.antt =====
-- http/longpoll/longpoll.go. The clock is in nanoseconds since Go's zero time and the durations of the
-- configuration are not negative; each execution of the function is one round.
pub mod Bounds
mod Tests
use bricks.Prelude.{
  ℕ, zero, suc, ◌+◌, Bool, true, false, not, List, [], ◌∷◌, Option, none, some, if◌then◌else◌, ltb,
}
use bricks.Prelude.Int.{ℤ, pos, ltb_ℤ, leb_ℤ, eqb_ℤ, pos_part}

pub record Config : Type 0 where
  pub retry_time : ℕ
  pub min_wait_time : ℕ
  pub max_wait_time : ℕ

-- The configuration Default
unfoldable pub default_config : Config
default_config = record {
  retry_time = 500_000_000;
  min_wait_time = 1_000_000_000;
  max_wait_time = 60_000_000_000;
}

-- `until`, for the time at the start
unfoldable pub deadline : Config → ℕ → ℤ → ℕ
deadline c now d =
    if not (eqb_ℤ d (pos 0))
    then if ltb_ℤ d (pos c.min_wait_time)
      then now + c.min_wait_time
      else if ltb_ℤ (pos c.max_wait_time) d
      then now + c.max_wait_time
      else now + pos_part d
    else now

-- What LongPollUntil returns, or that it still polls.
pub data Polled (E : Type 0) : Type 0 where
  polling : Polled E
  finished : (ok : Bool) → (err : Option E) → Polled E

-- One round: what fn returns, the clock after it, and the error of the context if that is done while
-- the round waits for its retry.
pub record Round (E : Type 0) : Type 0 where
  pub ok : Bool
  pub err : Option E
  pub now : ℕ
  pub canceled : Option E

module _ {E : Type 0} (c : Config) (d : ℤ) where
  -- The end of a round, for what the rounds behind it come to
  unfoldable pub wait : Option E → Polled E → Polled E
  wait none rest = rest
  wait (some e) rest = finished false (some e)

  unfoldable pub after_fn : ℕ → Round E → Option E → Polled E → Polled E
  unfolding wait
  after_fn until r (some e) rest = finished r.ok (some e)
  after_fn until r none rest =
      if r.ok
      then finished true none
      else if leb_ℤ d (pos 0)
      then finished false none
      else if not (ltb (r.now + c.retry_time) until)
      then finished false none
      else wait r.canceled rest

  -- The loop
  unfoldable pub poll : ℕ → List (Round E) → Polled E
  unfolding after_fn
  poll until [] = polling
  poll until (r ∷ rs) = after_fn until r r.err (poll until rs)

  -- LongPollUntil, called at a time
  unfoldable pub long_poll_until : ℕ → List (Round E) → Polled E
  unfolding poll
  long_poll_until start rs = poll (deadline c start d) rs
