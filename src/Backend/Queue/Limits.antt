-- ===== src/Backend/Queue/Limits.antt =====
-- What the health check of the queues shows, and what it does not as long as there is no queue.
use bricks.Prelude.{
  arith, ◌≡◌, ◌≢◌, refl, ap, ◌∙◌, not, ◌&&◌, List, [], ◌∷◌, Option, none, some, if◌then◌else◌,
  Bool-cases, inl, inr,
}
use bricks.Prelude.Int.{ℤ}
use bricks.Prelude.Text.{Text}
use bricks.Prelude.Result.{ok}
use bricks.Health.{ConnectionState, set_error_state, set_healthy, set_connection_state}
use bricks.Backend.Cached.{is_fresh, shown}
use bricks.Backend.Queue.{
  Limits, Call, exceeds, limit_error, range_limits, collect, query, health_check,
}

-- The error of the first queue that is longer than its limit
abbrev pub first_exceeded : Limits → List (Text × ℤ) → Option Text
first_exceeded [] stats = none
first_exceeded ((name, limit) ∷ limits) stats =
    if exceeds stats name limit then some (limit_error name limit) else first_exceeded limits stats

range_limits-first :
    (limits : Limits) (stats : List (Text × ℤ)) (stored : ℤ) (n : Text) (l : ℤ)
    (cs : ConnectionState)
    → range_limits ((n, l) ∷ limits) stats stored cs
      ≡ record { last_check = stored; result = shown (first_exceeded ((n, l) ∷ limits) stats) }
unfolding range_limits set_error_state set_healthy set_connection_state
range_limits-first [] stats stored n l cs = ground arith
range_limits-first ((m, k) ∷ limits) stats stored n l cs = elim (Bool-cases (exceeds stats n l)) [
  | inl e ↦ rw e
  | inr e ↦ rw e (range_limits-first limits stats stored m k (set_healthy stored cs))
]

abbrev pub verdict : Limits → List (Text × ℤ) → ℤ → ConnectionState → ConnectionState
verdict [] stats stored cs = cs
verdict (q ∷ limits) stats stored cs = record {
  last_check = stored;
  result = shown (first_exceeded (q ∷ limits) stats);
}

range_limits-verdict :
    (limits : Limits) (stats : List (Text × ℤ)) (stored : ℤ) (cs : ConnectionState)
    → range_limits limits stats stored cs ≡ verdict limits stats stored cs
unfolding range_limits
range_limits-verdict [] stats stored cs = refl
range_limits-verdict ((n, l) ∷ limits) stats stored cs =
    range_limits-first limits stats stored n l cs

module _ (ttl : ℤ) (limits : Limits) where
  -- If there are queues with a limit and their counts are known: the check shows the error of the first
  -- queue that is longer than its limit, in the order of the map, or that all is well if there is none;
  -- unless the last result is fresh, which it keeps if it may.
  pub health_check-verdict :
      (c : Call) (stats : List (Text × ℤ)) (cs : ConnectionState)
      → c.queues_err ≡ none
      → c.stats ≡ ok stats
      → limits ≢ []
      → health_check ttl limits c cs ≡ (
          if not c.ignore_interval && is_fresh ttl c.now cs
          then cs
          else record { last_check = c.stored; result = shown (first_exceeded limits stats) })
  unfolding health_check query collect
  health_check-verdict c stats cs q s h =
      rw (q, s)
        (ap (λ x. if not c.ignore_interval && is_fresh ttl c.now cs then cs else x)
          (range_limits-verdict limits stats c.stored cs ∙ nonempty limits stats c.stored cs h))
    where
      nonempty :
          (l : Limits) (stats : List (Text × ℤ)) (t : ℤ) (cs : ConnectionState)
          → l ≢ []
          → verdict l stats t cs
            ≡ record { last_check = t; result = shown (first_exceeded l stats) }
      nonempty [] stats t cs h = absurd (h refl)
      nonempty (x ∷ l) stats t cs h = refl

-- The calls of a time in which rmq replies to every one of them
abbrev pub NoErrors : List Call → Type 0
NoErrors [] = Unit
NoErrors (c ∷ calls) =
    (c.queues_err ≡ none) × ((stats : List (Text × ℤ)) × (c.stats ≡ ok stats)) × NoErrors calls

unfoldable pub health_checks : ℤ → Limits → List Call → ConnectionState → ConnectionState
health_checks ttl limits [] cs = cs
health_checks ttl limits (c ∷ calls) cs =
    health_checks ttl limits calls (health_check ttl limits c cs)

unchanged :
    (ttl : ℤ) (c : Call) (stats : List (Text × ℤ)) (cs : ConnectionState)
    → c.queues_err ≡ none
    → c.stats ≡ ok stats
    → health_check ttl [] c cs ≡ cs
unfolding health_check query collect range_limits
unchanged ttl c stats cs q s = rw (q, s) ground arith

-- As long as no queue has a limit, an error stays what the check shows, however often it is made and
-- although rmq replies to every request, and never becomes healthy.
pub no_queue_stays :
    (ttl : ℤ) (calls : List Call) (cs : ConnectionState)
    → NoErrors calls
    → health_checks ttl [] calls cs ≡ cs
unfolding health_checks
no_queue_stays ttl [] cs h = refl
no_queue_stays ttl (c ∷ calls) cs (q, (stats, s), h) =
    rw (unchanged ttl c stats cs q s) (no_queue_stays ttl calls cs h)
