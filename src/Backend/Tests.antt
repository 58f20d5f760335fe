-- ===== src/Backend/Tests.antt =====
-- Runs of the health checks of postgres, redis, the queues and the object store.
use bricks.Prelude.{
  arith, ◌≡◌, ◌↔◌, refl, inl, inr, Bool, true, false, List, [], ◌∷◌, Option, none, some, ap,
}
use bricks.Prelude.Int.{ℤ, pos, negsuc}
use bricks.Prelude.Text.{Text, codes, text_eq}
use bricks.Prelude.Result.{ok}
use bricks.Health.{zero_state}
use bricks.Backend.Cached.{is_fresh, shown, Recent}
use bricks.Backend.Objstore.{TimeFormat}
use bricks.Backend.Objstore.Healthy.{health_check-healthy_iff, IsGood}
use bricks.Backend.Queue.Limits.{no_queue_stays, first_exceeded, health_checks}
use bricks.Backend.Recent.{health_checks-Recent}
use bricks.Backend.Postgres
use bricks.Backend.Postgres.{
  select_one, insert_true, delete_all, health_check-outcome, postgres_check,
}
use bricks.Backend.Redis
use bricks.Backend.Redis.{redis_check}
use bricks.Backend.Queue
use bricks.Backend.Objstore

abbrev now : ℤ
now = pos 9_300_000_000_000_000_000

abbrev later : ℤ
later = pos 9_300_000_000_000_000_400

abbrev insert_fails : Postgres.Statement → Option Text
insert_fails select_one = none
insert_fails insert_true = some (codes "read only")
insert_fails delete_all = none

abbrev read_only : ℤ → Postgres.Call
read_only t = record { now = t; stored = t; exec = insert_fails }

abbrev works : ℤ → Redis.Call
works t = record { now = t; stored = t; reply = λ c. none }

health_checks-Recent_example :
    Recent (postgres_check (pos 1000)) (read_only later) (read_only now ∷ [])
    × Recent (redis_check (pos 1000)) (works now) []
unfolding postgres_check redis_check
health_checks-Recent_example =
    health_checks-Recent (pos 1000) (read_only later) (read_only now ∷ []) (works now) []
      (omega arith) (omega arith) (omega arith)

abbrev seconds : TimeFormat
seconds = record { format = λ t. write t; parse = read }
  where
    write : ℤ → Text
    write (pos n) = n ∷ []
    write (negsuc n) = []

    read : Text → Option ℤ
    read [] = none
    read (n ∷ s) = some (pos n)

-- Another instance has overwritten the object.
abbrev overwritten : Objstore.Call
overwritten = record {
  now = now;
  check_time = now;
  stored = later;
  put = ok (codes "v1");
  got = none;
  read = ok (9_300_000_001_000_000_000 ∷ []);
}

stale_now : is_fresh (pos 1000) now zero_state ≡ false
unfolding is_fresh bricks.Prelude.Time.sub_time bricks.Prelude.Int.◌-ℤ◌ bricks.Health.last_checked
stale_now = refl

overwritten-IsGood : IsGood seconds overwritten
unfolding bricks.Prelude.Int.◌-ℤ◌ bricks.Prelude.Int.◌+ℤ◌
overwritten-IsGood = (
  (codes "v1", refl),
  refl,
  (
    9_300_000_001_000_000_000 ∷ [],
    refl,
    inr (pos 9_300_000_001_000_000_000, refl, omega arith, omega arith),
  ),
)

health_check-healthy_iff_example :
    ((Objstore.health_check seconds (pos 1000) overwritten zero_state).state
      ≡ record { last_check = later; result = shown none })
    ↔ IsGood seconds overwritten
health_check-healthy_iff_example =
    health_check-healthy_iff seconds (pos 1000) overwritten zero_state stale_now

expected_object :
    (Objstore.health_check seconds (pos 1000) overwritten zero_state).state
    ≡ record { last_check = later; result = shown none }
expected_object = health_check-healthy_iff_example.1 overwritten-IsGood

abbrev limits : Queue.Limits
limits = (codes "mail", pos 10) ∷ (codes "jobs", pos 5) ∷ []

abbrev counts : List (Text × ℤ)
counts = (codes "mail", pos 10) ∷ (codes "jobs", pos 6) ∷ []

abbrev counted : Queue.Call
counted = record {
  now = now;
  stored = now;
  ignore_interval = true;
  queues_err = none;
  stats = ok counts;
}

too_many_jobs :
    first_exceeded limits counts ≡ some (codes "Queue 'jobs' exceeded safe health limit of '5'")
unfolding bricks.Prelude.Assoc.lookup text_eq bricks.Prelude.Decimal.format_int
    bricks.Prelude.Decimal.decimal
too_many_jobs = refl

no_queue_stays_example :
    health_checks
      (pos 1000)
      []
      (counted ∷ counted ∷ [])
      (record { last_check = now; result = shown (some (codes "error")) })
    ≡ record { last_check = now; result = shown (some (codes "error")) }
no_queue_stays_example =
    no_queue_stays (pos 1000) (counted ∷ counted ∷ [])
      (record { last_check = now; result = shown (some (codes "error")) })
      (refl, (counts, refl), (refl, (counts, refl), tt))
