-- ===== src/Health/Background/Rounds.antt =====
-- The rounds of a background health check (healthcheck.go): what its state shows.
use bricks.Prelude.{
  ◌≡◌, refl, sym, ap, ◌∙◌, Bool, true, false, not, ◌&&◌, List, [], ◌∷◌, if_cases, arith,
}
use bricks.Prelude.Int.{ℤ, pos, ◌≤ℤ◌, ltb_ℤ, -ℤ_parts}
use bricks.Prelude.Text.{Text}
use bricks.Prelude.Time.{IsNow, max_duration, sub_time}
use bricks.Health.{HealthCheckResult, err, set_connection_state, set_error_state, last_checked}
use bricks.Health.Background.{
  HealthCheckCfg, InitOutcome, init_ok, init_error, init_panic, CheckOutcome, returned, panicked,
  Tick, Worker, new_worker, run_check, proceed, initialize, after_init, round, rounds,
}

-- A round that does not initialize changes neither what is initialized nor what is to be.
run_check-initialized :
    (t : Tick) (w : Worker) (c : CheckOutcome) → (run_check t w c).initialized ≡ w.initialized
unfolding run_check
run_check-initialized t w (returned r) = refl
run_check-initialized t w panicked = refl

proceed-initialized : (t : Tick) (w : Worker) → (proceed t w).initialized ≡ w.initialized
unfolding proceed
proceed-initialized t w =
    if_cases (λ (v : Worker). v.initialized ≡ w.initialized) w.warmup_finished _ _
      (λ _. run_check-initialized t w t.check)
      (λ _.
        if_cases (λ (v : Worker). v.initialized ≡ w.initialized)
          (ltb_ℤ w.warmup_deadline t.initialized_at) _ _ (λ _. run_check-initialized t _ t.check)
          (λ _. refl))

run_check-needs :
    (t : Tick) (w : Worker) (c : CheckOutcome)
    → (run_check t w c).has_initialization ≡ w.has_initialization
unfolding run_check
run_check-needs t w (returned r) = refl
run_check-needs t w panicked = refl

proceed-needs : (t : Tick) (w : Worker) → (proceed t w).has_initialization ≡ w.has_initialization
unfolding proceed
proceed-needs t w =
    if_cases (λ (v : Worker). v.has_initialization ≡ w.has_initialization) w.warmup_finished _ _
      (λ _. run_check-needs t w t.check)
      (λ _.
        if_cases (λ (v : Worker). v.has_initialization ≡ w.has_initialization)
          (ltb_ℤ w.warmup_deadline t.initialized_at) _ _ (λ _. run_check-needs t _ t.check)
          (λ _. refl))

-- A check that has to be initialized shows an error as long as it is not.
record Pending (w : Worker) : Type 0 where
  needs : w.has_initialization ≡ true
  shows : w.initialized ≡ false → w.bg_state.result.state ≡ err

after_init-Pending :
    (t : Tick) (w : Worker) (i : InitOutcome)
    → w.has_initialization ≡ true
    → Pending (after_init t w i)
unfolding after_init initialize set_error_state set_connection_state
after_init-Pending t w init_ok h = record {
  needs = proceed-needs t (initialize w) ∙ h;
  shows = λ e. absurd (ground (arith, proceed-initialized t (initialize w)));
}
after_init-Pending t w (init_error e) h = record { needs = h; shows = λ _. refl }
after_init-Pending t w (init_panic e) h = record { needs = h; shows = λ _. refl }

round-Pending : (t : Tick) (w : Worker) → Pending w → Pending (round t w)
unfolding round
round-Pending t w h =
    if_cases Pending (w.has_initialization && not w.initialized) _ _
      (λ _.
        if_cases Pending (ltb_ℤ (sub_time t.started (last_checked w.bg_state)) w.ttl) _ _ (λ _. h)
          (λ _. after_init-Pending t w t.init h.needs))
      (λ e. record {
        needs = proceed-needs t w ∙ h.needs;
        shows = λ f.
            absurd (
              both w.has_initialization w.initialized h.needs e
                (sym (proceed-initialized t w) ∙ f));
      })
  where
    both : (a b : Bool) → a ≡ true → (a && not b) ≡ false → b ≡ false → ⊥
    both a b p q r = ground arith

rounds-Pending : (ts : List Tick) (w : Worker) → Pending w → Pending (rounds ts w)
unfolding rounds
rounds-Pending [] w h = h
rounds-Pending (t ∷ ts) w h = rounds-Pending ts (round t w) (round-Pending t w h)

-- The first round tries to initialize, since the zero time is long ago.
first_round :
    (t : Tick) (cfg : HealthCheckCfg) (start : ℤ) (text : Text)
    → IsNow t.started
    → cfg.init_result_error_ttl ≤ℤ max_duration
    → Pending (round t (new_worker true cfg start text))
unfolding round new_worker last_checked
first_round t cfg start text h k =
    let d : sub_time t.started (pos 0) ≡ max_duration =
      unfold sub_time in ground (arith, -ℤ_parts t.started (pos 0)) in
    let f : ltb_ℤ (sub_time t.started (pos 0)) cfg.init_result_error_ttl ≡ false =
      rw d (ground arith) in
    rw f (after_init-Pending t (new_worker true cfg start text) t.init refl)

-- A health check that has to be initialized is shown as an error from its first round on and
-- until an initialization succeeds, whatever the health check itself would say; for a clock that
-- shows more than 292 years at the first round, and a TTL that is a duration.
pub rounds-uninitialized :
    (t : Tick) (ts : List Tick) (cfg : HealthCheckCfg) (start : ℤ) (text : Text)
    → IsNow t.started
    → cfg.init_result_error_ttl ≤ℤ max_duration
    → (rounds (t ∷ ts) (new_worker true cfg start text)).initialized ≡ false
    → (rounds (t ∷ ts) (new_worker true cfg start text)).bg_state.result.state ≡ err
unfolding rounds
rounds-uninitialized t ts cfg start text h k =
    (rounds-Pending ts (round t (new_worker true cfg start text))
      (first_round t cfg start text h k)).shows

-- The result of the last check that returned.
result_of : HealthCheckResult → CheckOutcome → HealthCheckResult
result_of r (returned s) = s
result_of r panicked = r

unfoldable pub last_returned : HealthCheckResult → List Tick → HealthCheckResult
unfolding result_of
last_returned r [] = r
last_returned r (t ∷ ts) = last_returned (result_of r t.check) ts

-- Initialized, where that is needed, and warmed up.
pub record IsReady (w : Worker) : Type 0 where
  pub is_initialized : (w.has_initialization && not w.initialized) ≡ false
  pub is_warm : w.warmup_finished ≡ true

run_check-IsReady :
    (t : Tick) (w : Worker) (c : CheckOutcome) → IsReady w → IsReady (run_check t w c)
unfolding run_check
run_check-IsReady t w (returned r) h = record {
  is_initialized = h.is_initialized;
  is_warm = h.is_warm;
}
run_check-IsReady t w panicked h = h

round_ready : (t : Tick) (w : Worker) → IsReady w → round t w ≡ run_check t w t.check
unfolding round proceed
round_ready t w h =
    if_cases (λ (v : Worker). v ≡ run_check t w t.check) (w.has_initialization && not w.initialized)
      _ _ (λ e. absurd (false_true (w.has_initialization && not w.initialized) h.is_initialized e))
      (λ _.
        if_cases (λ (v : Worker). v ≡ run_check t w t.check) w.warmup_finished _ _ (λ _. refl)
          (λ e. absurd (false_true w.warmup_finished e h.is_warm)))
  where
    false_true : (b : Bool) → b ≡ false → b ≡ true → ⊥
    false_true b p q = ground arith

run_check-result :
    (t : Tick) (w : Worker) (c : CheckOutcome)
    → (run_check t w c).bg_state.result ≡ result_of w.bg_state.result c
unfolding run_check set_connection_state result_of
run_check-result t w (returned r) = refl
run_check-result t w panicked = refl

-- A check that is initialized and warmed up shows what the last round's check returned, or what it
-- showed before if no check returned: a check that panics changes nothing.
pub rounds-last_returned :
    (ts : List Tick) (w : Worker)
    → IsReady w
    → (rounds ts w).bg_state.result ≡ last_returned w.bg_state.result ts
unfolding rounds last_returned
rounds-last_returned [] w h = refl
rounds-last_returned (t ∷ ts) w h =
    let r : round t w ≡ run_check t w t.check = round_ready t w h in
    ap (λ (v : Worker). (rounds ts v).bg_state.result) r
    ∙ rounds-last_returned ts (run_check t w t.check) (run_check-IsReady t w t.check h)
    ∙ ap (λ r. last_returned r ts) (run_check-result t w t.check)
