-- ===== src/Health/Tests.antt =====
-- Runs of maintenance/health/servicehealthcheck.
use bricks.Prelude.{ℕ, ◌≡◌, refl, Bool, true, false, ◌||◌, ◌+◌, List, [], ◌∷◌, if◌then◌else◌, arith}
use bricks.Prelude.Int.{ℤ, pos}
use bricks.Prelude.Text.{Text, codes}
use bricks.Health.{HealthCheckResult, err, ok, zero_state}
use bricks.Health.Registry.{Kind, is_required, is_optional, register_all, no_checks}
use bricks.Health.Registry.Names.{view, after, first_place, view-register_all}
use bricks.Health.Background.{
  HealthCheckCfg, Tick, Worker, init_error, init_ok, returned, panicked, new_worker, rounds,
}
use bricks.Health.Background
use bricks.Health.Background.Rounds.{rounds-uninitialized}

abbrev registrations : List (Kind × Text)
registrations =
    (is_required, codes "redis") ∷ (is_optional, codes "queue") ∷ (is_optional, codes "redis") ∷ []

view-register_all_example :
    view (codes "redis") (register_all registrations no_checks)
    ≡ after (first_place (codes "redis") registrations) (view (codes "redis") no_checks)
view-register_all_example = view-register_all (codes "redis") registrations no_checks

abbrev year_2022 : ℕ
year_2022 = 63_780_000_000_000_000_000

abbrev tick : ℕ → Tick
tick n = record {
  started = pos (year_2022 + n);
  initialized_at = pos (year_2022 + n);
  stored = pos (year_2022 + n);
  init = init_error (codes "no route to host");
  check = returned (record { state = ok; msg = [] });
}

abbrev cfg : HealthCheckCfg
cfg = record {
  interval = pos 60_000_000_000;
  init_result_error_ttl = pos 10_000_000_000;
  max_wait = pos 5_000_000_000;
  warmup_delay = pos 0;
}

rounds-uninitialized_example :
    (rounds
      (tick 0 ∷ tick 60_000_000_000 ∷ [])
      (new_worker true cfg (pos year_2022) (codes "now"))).bg_state.result.state
    ≡ err
rounds-uninitialized_example =
    rounds-uninitialized (tick 0) (tick 60_000_000_000 ∷ []) cfg (pos year_2022) (codes "now")
      (omega arith) (omega arith)
      (unfold rounds bricks.Health.Background.round new_worker bricks.Health.last_checked
          bricks.Prelude.Time.sub_time bricks.Prelude.Int.◌-ℤ◌ bricks.Prelude.Int.◌+ℤ◌
          bricks.Health.Background.after_init bricks.Health.set_error_state
          bricks.Health.set_connection_state in
        refl)
