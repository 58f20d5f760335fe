-- ===== src/Failover/Tests.antt =====
-- Runs of a member of maintenance/failover/failover.go.
use bricks.Prelude.{◌≡◌, refl, true, false, List, [], ◌∷◌, some}
use bricks.Prelude.Int.{pos}
use bricks.Failover.{
  Status, undefined, on_active, on_passive, on_stop, ActivePassive, Signal, done, tick, retry,
  round, run, finished, new_active_passive, label,
}
use bricks.Failover.Safety.{ResultSound, run-new-ResultSound, expired_ttl_panics}
use bricks.Failover.Hooks.{StopsOnce, run-new-StopsOnce}

-- The lock is obtained, refreshed, lost and not obtained any more.
abbrev takeover : List Signal
takeover =
    retry true true (pos 1000) true
    ∷ tick true true
    ∷ tick false true
    ∷ retry false true (pos 0) true
    ∷ done
    ∷ []

abbrev member : ActivePassive
member = new_active_passive true true true

abbrev ended : ActivePassive
ended = record {
  has_on_active = true;
  has_on_passive = true;
  has_on_stop = true;
  state = Status.passive;
  has_lock = false;
  pod_label = some (label Status.passive);
  calls = on_active ∷ on_passive ∷ on_stop ∷ [];
}

takeover_runs : run takeover member ≡ finished true false ended
unfolding run round new_active_passive
takeover_runs = refl

run-new-ResultSound_example : ResultSound (run takeover member)
run-new-ResultSound_example = run-new-ResultSound takeover true true true

expired_ttl_panics_example :
    (b : ActivePassive) × (run (retry true true (pos 0) true ∷ takeover) member
      ≡ finished false true b)
    × (b.state ≡ undefined)
    × (b.has_lock ≡ true)
unfolding new_active_passive
expired_ttl_panics_example = expired_ttl_panics member true true takeover (λ e. cc)

run-new-StopsOnce_example : StopsOnce true (run takeover member)
run-new-StopsOnce_example = run-new-StopsOnce takeover true true true
