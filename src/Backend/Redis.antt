-- ===== src/Backend/Redis.antt =====
-- backend/redis/health_redis.go: a key is written and read.
use bricks.Prelude.{arith, ◌≡◌, ap, true, false, List, [], ◌∷◌, Option, none, some, if◌then◌else◌}
use bricks.Prelude.Int.{ℤ}
use bricks.Prelude.Text.{Text}
use bricks.Health.{ConnectionState, set_error_state, set_healthy, set_connection_state}
use bricks.Backend.Cached.{is_fresh, shown, first_error, until_error, CachedCheck}

pub data Command : Type 0 where
  set_key get_key : Command

-- A call of HealthCheck: the clock when it starts and when a result is stored, and the error of each
-- command, if it is sent.
pub record Call : Type 0 where
  pub now : ℤ
  pub stored : ℤ
  pub reply : Command → Option Text

-- The state, and the commands that were sent, in order
pub record Checked : Type 0 where
  pub state : ConnectionState
  pub sent : List Command

unfoldable pub send_or : Command → Call → Option Text → ConnectionState → Checked → Checked
send_or k c (some e) cs rest = record { state = set_error_state e c.stored cs; sent = k ∷ [] }
send_or k c none cs rest = record { state = rest.state; sent = k ∷ rest.sent }

abbrev pub send : Command → Call → ConnectionState → Checked → Checked
send k c cs rest = send_or k c (c.reply k) cs rest

-- HealthCheck, whose result is that of the state
unfoldable pub health_check : ℤ → Call → ConnectionState → Checked
unfolding send_or
health_check ttl c cs =
    if is_fresh ttl c.now cs
    then record { state = cs; sent = [] }
    else send set_key c cs
        (send get_key c cs (record { state = set_healthy c.stored cs; sent = [] }))

abbrev pub outcome : Call → Option Text
outcome c = first_error c.reply (set_key ∷ get_key ∷ [])

stale_check :
    (c : Call) (cs : ConnectionState)
    → send set_key c cs (send get_key c cs (record { state = set_healthy c.stored cs; sent = [] }))
      ≡ record {
        state = record { last_check = c.stored; result = shown (outcome c) };
        sent = until_error c.reply (set_key ∷ get_key ∷ []);
      }
unfolding send_or set_error_state set_healthy set_connection_state
stale_check c cs = ground arith

pub health_check-outcome :
    (ttl : ℤ) (c : Call) (cs : ConnectionState)
    → health_check ttl c cs ≡ (
        if is_fresh ttl c.now cs then record { state = cs; sent = [] } else record {
          state = record { last_check = c.stored; result = shown (outcome c) };
          sent = until_error c.reply (set_key ∷ get_key ∷ []);
        })
unfolding health_check
health_check-outcome ttl c cs =
    ap (λ (x : Checked). if is_fresh ttl c.now cs then record { state = cs; sent = [] } else x)
      (stale_check c cs)

pub check-fresh :
    (ttl : ℤ) (c : Call) (cs : ConnectionState)
    → is_fresh ttl c.now cs ≡ true
    → (health_check ttl c cs).state ≡ cs
check-fresh ttl c cs fresh = rw (health_check-outcome ttl c cs, fresh)

pub check-stale :
    (ttl : ℤ) (c : Call) (cs : ConnectionState)
    → is_fresh ttl c.now cs ≡ false
    → (health_check ttl c cs).state ≡ record { last_check = c.stored; result = shown (outcome c) }
check-stale ttl c cs stale = rw (health_check-outcome ttl c cs, stale)

unfoldable pub redis_check : ℤ → CachedCheck Call
redis_check ttl = record {
  ttl = ttl;
  now = λ c. c.now;
  stored = λ c. c.stored;
  outcome = outcome;
  check = λ c cs. (health_check ttl c cs).state;
  check-fresh = check-fresh ttl;
  check-stale = check-stale ttl;
}
