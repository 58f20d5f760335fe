-- ===== src/Transport/Retry.antt =====
-- http/transport: retry_round_tripper.go, attempt_round_tripper.go and circuit_breaker_tripper.go. What
-- retry.Transport does is a parameter, a tree: it sends a request again, depending on what came back,
-- or returns something. So is what the circuit breaker does, and the transport behind, which may
-- change a world.
pub mod Attempts
use bricks.Prelude.{
  ℕ, ◌+◌, ◌-◌, ◌*◌, ◌%◌, ltb, ◌==◌, Bool, true, false, ◌||◌, List, [], ◌∷◌, Option, none, some,
  if◌then◌else◌, any_of,
}
use bricks.Prelude.Int.{ℤ, pos, negsuc, ◌+ℤ◌}
use bricks.Prelude.Text.{Text, is_empty}

-- Go errors, as errors.As and errors.Is tell them apart. One error may wrap another.
pub data GoError : Type 0 where
  max_error open_state retry_failed : GoError
  circuit_broken : (host : Text) → GoError
  other : Text → GoError
  wrapped : Text → GoError → GoError

-- A response, by its status
pub record Response : Type 0 where
  pub status_code : ℕ

-- (resp, err)
pub record Returned : Type 0 where
  pub resp : Option Response
  pub err : Option GoError

-- errors.As(err, &maxRetriesError)
unfoldable pub as_max_error : GoError → Bool
as_max_error max_error = true
as_max_error open_state = false
as_max_error retry_failed = false
as_max_error (circuit_broken host) = false
as_max_error (other text) = false
as_max_error (wrapped text e) = as_max_error e

-- errors.Is(err, gobreaker.ErrOpenState)
unfoldable pub is_open_state : GoError → Bool
is_open_state max_error = false
is_open_state open_state = true
is_open_state retry_failed = false
is_open_state (circuit_broken host) = false
is_open_state (other text) = false
is_open_state (wrapped text e) = is_open_state e

-- What retry.Transport does with a request
pub data Retries : Type 0 where
  give : Returned → Retries
  send : (Returned → Retries) → Retries

-- An int32 that wraps around
abbrev pub two_31 : ℕ
two_31 = 2147483648

abbrev pub to_int32 : ℕ → ℤ
to_int32 n = if ltb n two_31 then pos n else negsuc (2 * two_31 - 1 - n)

unfoldable pub wrap32 : ℤ → ℤ
wrap32 (pos n) = to_int32 (n % (2 * two_31))
wrap32 (negsuc n) = to_int32 (2 * two_31 - 1 - n % (2 * two_31))

-- retry.Decision
pub data Decision : Type 0 where
  ignore retry abort : Decision

-- RetryCodes
unfoldable pub retry_codes : List ℕ → Option Response → Decision
retry_codes codes none = ignore
retry_codes codes (some r) = if any_of (λ code. r.status_code == code) codes then retry else ignore

-- Context, for the error of a context that is done
unfoldable pub context : Option GoError → Decision × Option GoError
context (some e) = (abort, some e)
context none = (ignore, none)

-- What a request with its retries comes to, with the attempts in the contexts of the calls behind
pub record Sent (W : Type 0) : Type 0 where
  pub returned : Returned
  pub attempts : List ℤ
  pub world : W

module _ {W : Type 0} (transport : ℤ → W → Returned × W) where
  -- attemptRoundTripper.RoundTrip, whose transport gets the attempt in its context
  unfoldable pub attempt_round_trip : ℤ → W → ℤ × (Returned × W)
  attempt_round_trip attempt w = let a = wrap32 (attempt +ℤ pos 1) in (a, transport a w)

  abbrev pub with_attempt : ℤ → Sent W → Sent W
  with_attempt a s = record { returned = s.returned; attempts = a ∷ s.attempts; world = s.world }

  -- retryTransport.RoundTrip(req), from the attempts that were made
  unfoldable pub retried : Retries → ℤ → W → Sent W
  unfolding attempt_round_trip
  retried (give r) attempt w = record { returned = r; attempts = []; world = w }
  retried (send next) attempt w =
      let (a, (r, w')) = attempt_round_trip attempt w in with_attempt a (retried (next r) a w')

  abbrev pub mapped_error : GoError → GoError
  mapped_error e = if as_max_error e then retry_failed else e

  unfoldable pub mapped : Returned → Option GoError → Returned
  mapped r none = record { resp = r.resp; err = none }
  mapped r (some e) = record { resp = none; err = some (mapped_error e) }

  -- RetryRoundTripper.RoundTrip: each request has a new attemptRoundTripper.
  unfoldable pub round_trip : Retries → W → Sent W
  unfolding retried mapped
  round_trip retries w =
      let s = retried retries (pos 0) w in
      record { returned = mapped s.returned s.returned.err; attempts = s.attempts; world = s.world }

-- circuitBreakerTripper.RoundTrip, for what breaker.Execute returns and the host of the request
unfoldable pub breaker_error : Text → GoError → GoError
breaker_error host e = if is_open_state e then circuit_broken host else e

unfoldable pub breaker_round_trip : Text → Returned → Option GoError → Returned
unfolding breaker_error
breaker_round_trip host r none = record { resp = r.resp; err = none }
breaker_round_trip host r (some e) = record { resp = none; err = some (breaker_error host e) }
