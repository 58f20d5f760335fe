-- ===== src/Health/Background.antt =====
-- maintenance/health/servicehealthcheck/healthcheck.go: the check that runs in the background of a
-- registered check, one round for each tick of its timer.
pub mod Rounds
use bricks.Prelude.{
  Bool, true, false, not, ◌&&◌, List, [], ◌∷◌, ◌++◌, Option, none, some, if◌then◌else◌,
}
use bricks.Prelude.Int.{ℤ, ◌+ℤ◌, ltb_ℤ}
use bricks.Prelude.Text.{Text, codes}
use bricks.Prelude.Time.{sub_time}
use bricks.Health.{
  HealthCheckResult, ok, ConnectionState, zero_state, set_connection_state, set_error_state,
  last_checked,
}

pub record HealthCheckCfg : Type 0 where
  pub interval : ℤ
  pub init_result_error_ttl : ℤ
  pub max_wait : ℤ
  pub warmup_delay : ℤ

pub data HealthCheckOption : Type 0 where
  use_interval use_init_err_result_ttl use_max_wait use_warmup : ℤ → HealthCheckOption

unfoldable pub apply_option : HealthCheckOption → HealthCheckCfg → HealthCheckCfg
apply_option (use_interval i) cfg = record {
  interval = i;
  init_result_error_ttl = cfg.init_result_error_ttl;
  max_wait = cfg.max_wait;
  warmup_delay = cfg.warmup_delay;
}
apply_option (use_init_err_result_ttl ttl) cfg = record {
  interval = cfg.interval;
  init_result_error_ttl = ttl;
  max_wait = cfg.max_wait;
  warmup_delay = cfg.warmup_delay;
}
apply_option (use_max_wait w) cfg = record {
  interval = cfg.interval;
  init_result_error_ttl = cfg.init_result_error_ttl;
  max_wait = w;
  warmup_delay = cfg.warmup_delay;
}
apply_option (use_warmup d) cfg = record {
  interval = cfg.interval;
  init_result_error_ttl = cfg.init_result_error_ttl;
  max_wait = cfg.max_wait;
  warmup_delay = d;
}

-- The outcome of Init, after the recovery of initHealthCheck; what a panic prints is its text.
pub data InitOutcome : Type 0 where
  init_ok : InitOutcome
  init_error init_panic : Text → InitOutcome

-- What a call of HealthCheck comes to. A panic is recovered from at the end of the round.
pub data CheckOutcome : Type 0 where
  returned : HealthCheckResult → CheckOutcome
  panicked : CheckOutcome

-- One round: the clock when it starts, after Init, and when a result is stored, and what the calls
-- come to that the round may make.
pub record Tick : Type 0 where
  pub started : ℤ
  pub initialized_at : ℤ
  pub stored : ℤ
  pub init : InitOutcome
  pub check : CheckOutcome

-- The variables of the goroutine. `start_text` is healthCheckStart in the format RFC 3339.
pub record Worker : Type 0 where
  pub has_initialization : Bool
  pub initialized : Bool
  pub warmup_finished : Bool
  pub warmup_deadline : ℤ
  pub start_text : Text
  pub ttl : ℤ
  pub bg_state : ConnectionState

abbrev with_state : Worker → ConnectionState → Worker
with_state w s = record {
  has_initialization = w.has_initialization;
  initialized = w.initialized;
  warmup_finished = w.warmup_finished;
  warmup_deadline = w.warmup_deadline;
  start_text = w.start_text;
  ttl = w.ttl;
  bg_state = s;
}

unfoldable pub new_worker : Bool → HealthCheckCfg → ℤ → Text → Worker
new_worker has_initialization cfg health_check_start start_text = record {
  has_initialization = has_initialization;
  initialized = false;
  warmup_finished = false;
  warmup_deadline = health_check_start +ℤ cfg.warmup_delay;
  start_text = start_text;
  ttl = cfg.init_result_error_ttl;
  bg_state = zero_state;
}

-- The actual health check
unfoldable pub run_check : Tick → Worker → CheckOutcome → Worker
unfolding set_connection_state
run_check t w (returned r) = with_state w (set_connection_state r t.stored w.bg_state)
run_check t w panicked = w

abbrev warmed_up : Worker → Worker
warmed_up w = record {
  has_initialization = w.has_initialization;
  initialized = w.initialized;
  warmup_finished = true;
  warmup_deadline = w.warmup_deadline;
  start_text = w.start_text;
  ttl = w.ttl;
  bg_state = w.bg_state;
}

abbrev pub warming_up : Worker → HealthCheckResult
warming_up w = record {
  state = ok;
  msg = codes "Service warms up since '" ++ w.start_text ++ codes "'";
}

-- The part behind the initialization
unfoldable pub proceed : Tick → Worker → Worker
unfolding run_check set_connection_state
proceed t w =
    if w.warmup_finished
    then run_check t w t.check
    else if ltb_ℤ w.warmup_deadline t.initialized_at
    then run_check t (warmed_up w) t.check
    else with_state w (set_connection_state (warming_up w) t.stored w.bg_state)

unfoldable pub initialize : Worker → Worker
initialize w = record {
  has_initialization = w.has_initialization;
  initialized = true;
  warmup_finished = w.warmup_finished;
  warmup_deadline = w.warmup_deadline;
  start_text = w.start_text;
  ttl = w.ttl;
  bg_state = w.bg_state;
}

unfoldable pub after_init : Tick → Worker → InitOutcome → Worker
unfolding proceed initialize set_error_state
after_init t w init_ok = proceed t (initialize w)
after_init t w (init_error e) = with_state w (set_error_state e t.stored w.bg_state)
after_init t w (init_panic p) =
    with_state w (set_error_state (codes "panic: " ++ p) t.stored w.bg_state)

-- One iteration of the loop
unfoldable pub round : Tick → Worker → Worker
unfolding after_init proceed
round t w =
    if w.has_initialization && not w.initialized
    then if ltb_ℤ (sub_time t.started (last_checked w.bg_state)) w.ttl
      then w
      else after_init t w t.init
    else proceed t w

unfoldable pub rounds : List Tick → Worker → Worker
unfolding round
rounds [] w = w
rounds (t ∷ ts) w = rounds ts (round t w)
