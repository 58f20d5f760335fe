-- ===== src/Backend/Recent.antt =====
-- The results of the checks that ask postgres and redis, in any history of calls.
use bricks.Prelude.{List, ◌∷◌}
use bricks.Prelude.Int.{ℤ, ◌<ℤ◌}
use bricks.Prelude.Time.{max_duration}
use bricks.Backend.Cached.{Recent, AllNow, check-Recent}
use bricks.Backend.Postgres
use bricks.Backend.Redis
use bricks.Backend.Postgres.{postgres_check}
use bricks.Backend.Redis.{redis_check}

-- Whatever the clock shows, as long as that is more than 292 years: what a call on a check of postgres
-- or redis leaves is the outcome of this call, or that of an earlier one, stored not longer ago than the
-- time to live, of which the latest call is the first of the list.
pub health_checks-Recent :
    (ttl : ℤ) (c : Postgres.Call) (earlier : List Postgres.Call) (d : Redis.Call)
    (earlier' : List Redis.Call)
    → ttl <ℤ max_duration
    → AllNow (postgres_check ttl) (c ∷ earlier)
    → AllNow (redis_check ttl) (d ∷ earlier')
    → Recent (postgres_check ttl) c earlier × Recent (redis_check ttl) d earlier'
unfolding postgres_check redis_check
health_checks-Recent ttl c earlier d earlier' h n m =
    (check-Recent (postgres_check ttl) c earlier h n, check-Recent (redis_check ttl) d earlier' h m)
