-- ===== src/Routine/Registry/Tests.antt =====
-- A run of the registry of routines: a routine is registered, a signal is received, the routine starts
-- while the shutdown holds the mutex, and another one cannot be registered.
use bricks.Prelude.{arith, ℕ, ◌≡◌, refl, true, false}
use bricks.Prelude.Store.{put}
use bricks.Routine.Registry.{
  Routines, created, registered, started, cancel, is_canceled, no_routines, begins, registers,
  starts, receives, shutdown, shutdown_cancels, Steps, start, and_then,
}
use bricks.Routine.Registry.Shutdown.{is_registered, shutdown-canceled}

abbrev one_made : Routines
one_made = record no_routines { ctr = 1; phase = put 1 created no_routines.phase }

abbrev signal_received : Routines
signal_received = record one_made { signaled = true }

abbrev one_registered : Routines
one_registered = record signal_received {
  phase = put 1 (registered false) signal_received.phase;
  contexts = put 1 true signal_received.contexts;
}

abbrev shutting : Routines
shutting = record one_registered { shut = true; pending = one_registered.contexts }

abbrev two_made : Routines
two_made = record shutting { ctr = 2; phase = put 2 created shutting.phase }

abbrev one_runs : Routines
one_runs = record two_made { phase = put 1 (started false false) two_made.phase }

abbrev stopped : Routines
stopped = record one_runs {
  phase = put 1 (cancel (one_runs.phase 1)) one_runs.phase;
  pending = put 1 false one_runs.pending;
}

to_lock : Steps no_routines shutting
to_lock =
    and_then one_registered shutting
      (and_then signal_received one_registered
        (and_then one_made signal_received (and_then no_routines one_made start begins)
          (receives refl))
        (registers 1 refl refl))
      (shutdown refl refl)

from_lock : Steps shutting stopped
from_lock =
    and_then one_runs stopped
      (and_then two_made one_runs (and_then shutting two_made start begins) (starts 1 false refl))
      (shutdown_cancels 1 refl refl)

none_left : (n : ℕ) → stopped.pending n ≡ false
none_left n = ground arith

shutdown-canceled_example :
    (is_registered (shutting.phase 1) ≡ true) × (is_canceled (stopped.phase 1) ≡ true)
shutdown-canceled_example =
    shutdown-canceled shutting stopped to_lock refl from_lock none_left 1 refl
