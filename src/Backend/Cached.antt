-- ===== src/Backend/Cached.antt =====
-- What the health checks of backend share: a result that is kept for a time to live. An implementation
-- states that it is such a check; the laws hold of each.
use bricks.Prelude.{
  arith, ◌≡◌, Bool, true, false, List, [], ◌∷◌, Option, none, some, ◌⊎◌, inl, inr, Bool-cases,
}
use bricks.Prelude.Int.{ℤ, pos, leb_ℤ, ◌≤ℤ◌, ◌<ℤ◌, -ℤ_parts}
use bricks.Prelude.Text.{Text}
use bricks.Prelude.Time.{sub_time, IsNow, max_duration}
use bricks.Health.{HealthCheckResult, err, ok, ConnectionState, zero_state, last_checked}

-- time.Since(h.state.LastChecked()) <= ttl
unfoldable pub is_fresh : ℤ → ℤ → ConnectionState → Bool
unfolding last_checked
is_fresh ttl now cs = leb_ℤ (sub_time now (last_checked cs)) ttl

-- What SetErrorState and SetHealthy show
abbrev pub shown : Option Text → HealthCheckResult
shown none = record { state = ok; msg = [] }
shown (some e) = record { state = err; msg = e }

-- A check: from its call, which has the clock at its start and when it stores a result and what the
-- service replies, it makes of a state that is not fresh the outcome.
pub record CachedCheck (Call : Type 0) : Type 0 where
  pub ttl : ℤ
  pub now : Call → ℤ
  pub stored : Call → ℤ
  pub outcome : Call → Option Text
  pub check : Call → ConnectionState → ConnectionState
  pub check-fresh :
      (c : Call) (cs : ConnectionState) → is_fresh ttl (now c) cs ≡ true → check c cs ≡ cs
  pub check-stale :
      (c : Call) (cs : ConnectionState)
      → is_fresh ttl (now c) cs ≡ false
      → check c cs ≡ record { last_check = stored c; result = shown (outcome c) }

-- The first error of several requests that are made in turn, and the requests up to that one.
module _ {R : Type 0} (reply : R → Option Text) where
  abbrev pub first_error : List R → Option Text
  first_error [] = none
  first_error (r ∷ rs) = elim (reply r) [ none ↦ first_error rs | some e ↦ some e ]

  abbrev pub until_error : List R → List R
  until_error [] = []
  until_error (r ∷ rs) = r ∷ elim (reply r) [ none ↦ until_error rs | some e ↦ [] ]

-- A new state is fresh for no clock of a running program.
pub is_fresh-zero_state :
    (ttl now : ℤ) → ttl <ℤ max_duration → IsNow now → is_fresh ttl now zero_state ≡ false
unfolding is_fresh sub_time
is_fresh-zero_state ttl now h n = ground (arith, -ℤ_parts now (pos 0))

pub is_fresh→le :
    (ttl now : ℤ) (cs : ConnectionState)
    → is_fresh ttl now cs ≡ true
    → sub_time now cs.last_check ≤ℤ ttl
unfolding is_fresh
is_fresh→le ttl now cs h = ground arith

module _ {Call : Type 0} (k : CachedCheck Call) where
  open k use {ttl, now, stored, outcome, check, check-fresh, check-stale}

  -- The state after calls, of which the last one is the first of the list
  abbrev pub after : List Call → ConnectionState
  after [] = zero_state
  after (c ∷ earlier) = check c (after earlier)

  abbrev pub result_of : Call → ConnectionState
  result_of c = record { last_check = stored c; result = shown (outcome c) }

  -- The state is what one of the calls has stored.
  abbrev pub StoredByOne : List Call → ConnectionState → Type 0
  StoredByOne [] s = ⊥
  StoredByOne (c ∷ earlier) s = (s ≡ result_of c) ⊎ StoredByOne earlier s

  abbrev pub AllNow : List Call → Type 0
  AllNow [] = Unit
  AllNow (c ∷ earlier) = IsNow (now c) × AllNow earlier

  abbrev pub Recent : Call → List Call → Type 0
  Recent c earlier =
      StoredByOne (c ∷ earlier) (after (c ∷ earlier))
      × ((after (c ∷ earlier) ≡ result_of c)
          ⊎ (sub_time (now c) (after (c ∷ earlier)).last_check ≤ℤ ttl))

  stale-Recent :
      (c : Call) (earlier : List Call)
      → is_fresh ttl (now c) (after earlier) ≡ false
      → Recent c earlier
  stale-Recent c earlier stale =
      let e : after (c ∷ earlier) ≡ result_of c = check-stale c (after earlier) stale in
      (inl e, inl e)

  -- What a call leaves is what it has stored itself, or what an earlier call has stored and is fresh.
  pub check-Recent :
      (c : Call) (earlier : List Call)
      → ttl <ℤ max_duration
      → AllNow (c ∷ earlier)
      → Recent c earlier
  check-Recent c [] h (n, _) = stale-Recent c [] (is_fresh-zero_state ttl (now c) h n)
  check-Recent c (d ∷ earlier) h (n, ns) =
      elim (Bool-cases (is_fresh ttl (now c) (after (d ∷ earlier)))) [
        | inl fresh ↦ rw (check-fresh c (after (d ∷ earlier)) fresh) (
          inr (check-Recent d earlier h ns).0,
          inr (is_fresh→le ttl (now c) (after (d ∷ earlier)) fresh),
        )
        | inr stale ↦ stale-Recent c (d ∷ earlier) stale
      ]
