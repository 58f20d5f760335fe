-- ===== src/Synctx/Tests.antt =====
-- Runs of pkg/synctx.
use bricks.Prelude.{ℕ, ◌≡◌, ◌≢◌, ◌∙◌, sym, refl, inl, inr, true, false, [], none, some}
use bricks.Prelude.Store.{put, put-cases}
use bricks.Prelude.Text.{codes}
use bricks.Synctx.{
  Error, failed_to, context, canceled, Waiter, WorkQueue, new_work_queue, Steps, start, and_then,
  set_err, cancel, counter, idle, selecting, returning, returned, setting, add, work_done,
  work_failed, error_set, work_cancels, work_finishes, wait_called, finish_closed, select_finish,
  select_done, wait_sets, wait_returns,
}
use bricks.Synctx.Sound.{waited_without_error}
use bricks.Synctx.Blame.{IsWorkers, OnlyWait, err-IsWorkers}

-- One worker that succeeds, and a call of Wait, whose number is 0.
abbrev no_wait : ℕ → Waiter
no_wait n = idle

abbrev waited : ℕ → Waiter
waited = put 0 returned (put 0 returning (put 0 selecting no_wait))

abbrev succeeded : WorkQueue
succeeded = record {
  running = 0;
  failed = [];
  cancelling = 0;
  finishing = 0;
  failures = 0;
  err = none;
  ctx_err = some canceled;
  parent_done = false;
  finish = put 0 true (λ n. false);
  waiter = waited;
}

succeeds : Steps new_work_queue succeeded
unfolding new_work_queue cancel counter
succeeds =
    and_then _ _
      (and_then _ _
        (and_then _ _
          (and_then _ _
            (and_then _ _
              (and_then _ _ (and_then _ _ start (add (inl (λ n. refl)))) (work_done 0 refl))
              (wait_called 0 refl))
            (work_finishes 0 refl))
          (finish_closed 0 (λ h. cc) refl))
        (select_finish 0 refl refl))
      (wait_returns 0 refl)

waited_without_error_example :
    (succeeded.running ≡ 0) × (succeeded.finishing ≡ 0) × (succeeded.failures ≡ 0)
waited_without_error_example = waited_without_error succeeded 0 succeeds refl refl

-- One worker that fails while Wait waits, and whose cancellation Wait sees.
abbrev oops : Error
oops = failed_to (codes "load") (codes "no route")

abbrev failing : WorkQueue
failing = record {
  running = 0;
  failed = [];
  cancelling = 1;
  finishing = 0;
  failures = 1;
  err = some oops;
  ctx_err = none;
  parent_done = false;
  finish = λ n. false;
  waiter = put 0 selecting no_wait;
}

abbrev set_and_returned : ℕ → Waiter
set_and_returned =
    put 0 returned (put 0 returning (put 0 (setting canceled) (put 0 selecting no_wait)))

abbrev failed_queue : WorkQueue
failed_queue = record {
  running = 0;
  failed = [];
  cancelling = 0;
  finishing = 1;
  failures = 1;
  err = some oops;
  ctx_err = some canceled;
  parent_done = false;
  finish = λ n. false;
  waiter = set_and_returned;
}

to_failing : Steps new_work_queue failing
unfolding new_work_queue set_err
to_failing =
    and_then _ _
      (and_then _ _ (and_then _ _ (and_then _ _ start (add (inl (λ n. refl)))) (wait_called 0 refl))
        (work_failed 0 (codes "load") (codes "no route") refl))
      (error_set [] [] oops refl)

failure : Steps new_work_queue failed_queue
unfolding cancel set_err
failure =
    and_then _ _
      (and_then _ _
        (and_then _ _ (and_then _ _ to_failing (work_cancels 0 refl))
          (select_done 0 canceled refl refl))
        (wait_sets 0 canceled refl))
      (wait_returns 0 refl)

abbrev AtMostFirst : (ℕ → Waiter) → Type 0
AtMostFirst f = (n : ℕ) → f n ≢ idle → n ≡ 0

first_moves : (w : Waiter) (f : ℕ → Waiter) → AtMostFirst f → AtMostFirst (put 0 w f)
first_moves w f h n g = elim (put-cases 0 w f n) [ inl (p, _) ↦ p | inr x ↦ h n (λ i. g (x ∙ i)) ]

waits_at_0 : AtMostFirst set_and_returned
waits_at_0 =
    first_moves returned (put 0 returning (put 0 (setting canceled) (put 0 selecting no_wait))) (
      first_moves returning (put 0 (setting canceled) (put 0 selecting no_wait)) (
        first_moves (setting canceled) (put 0 selecting no_wait)
          (first_moves selecting no_wait (λ n h. absurd (h refl)))))

failed_queue-OnlyWait : OnlyWait failed_queue
failed_queue-OnlyWait n m h g =
    waits_at_0 n (λ i. let x : returned ≡ idle = sym h ∙ i in cc) ∙ sym (waits_at_0 m g)

err-IsWorkers_example : IsWorkers oops
err-IsWorkers_example = err-IsWorkers failed_queue oops failure refl failed_queue-OnlyWait refl

-- Two calls of Wait at the same time, without any worker: the first returns and cancels the context, and
-- the second takes that for an error.
abbrev spoiled : WorkQueue
spoiled = record {
  running = 0;
  failed = [];
  cancelling = 0;
  finishing = 0;
  failures = 0;
  err = some (context canceled);
  ctx_err = some canceled;
  parent_done = false;
  finish = put 0 true (λ n. false);
  waiter = put 1 returning (
      put 1 (setting canceled)
        (put 0 returned (put 0 returning (put 1 selecting (put 0 selecting no_wait)))));
}

spoils : Steps new_work_queue spoiled
unfolding new_work_queue cancel counter set_err
spoils =
    and_then _ _
      (and_then _ _
        (and_then _ _
          (and_then _ _
            (and_then _ _
              (and_then _ _ (and_then _ _ start (wait_called 0 refl)) (wait_called 1 refl))
              (finish_closed 0 (λ h. cc) refl))
            (select_finish 0 refl refl))
          (wait_returns 0 refl))
        (select_done 1 canceled refl refl))
      (wait_sets 1 canceled refl)
