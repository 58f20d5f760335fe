-- ===== src/Synctx.antt =====
-- pkg/synctx/work_queue.go and wg.go: the work queue. Its goroutines interleave: each step is what
-- one of them does at once. The workers are counted by what they do next. Wait can be called any number
-- of times, also at the same time: its calls are numbered. Work is added before Wait is called or while
-- a worker is left, as sync.WaitGroup asks for; the reuse of a queue behind Wait is left out.
pub mod Sound
pub mod Blame
mod Tests
use bricks.Prelude.{
  ℕ, zero, suc, ◌+◌, ◌≡◌, ◌≢◌, ◌⊎◌, length, Bool, true, false, List, [], ◌∷◌, ◌++◌, Option, none,
  some,
}
use bricks.Prelude.Store.{put}
use bricks.Prelude.Text.{Text, codes}

pub data ContextError : Type 0 where
  canceled deadline_exceeded : ContextError

-- The errors of the queue: "failed to %s: %v" of a worker, or the one of its context.
pub data Error : Type 0 where
  failed_to : Text → Text → Error
  context : ContextError → Error

-- Where a call of Wait is: before Wait, in its select, behind one of the cases, or back.
pub data Waiter : Type 0 where
  idle selecting returning returned : Waiter
  setting : ContextError → Waiter

pub record WorkQueue : Type 0 where
  -- The workers that run their function, those whose function has returned an error that is to be
  -- set, those that are to cancel, and those that are to call Done.
  pub running : ℕ
  pub failed : List Error
  pub cancelling : ℕ
  pub finishing : ℕ
  -- How many functions have returned an error.
  pub failures : ℕ
  pub err : Option Error
  pub ctx_err : Option ContextError
  -- The context that the queue was made with is canceled or past its deadline.
  pub parent_done : Bool
  -- For each call of Wait, whether the channel that wg.Finish made for it is closed, and where it is
  pub finish : ℕ → Bool
  pub waiter : ℕ → Waiter

unfoldable pub new_work_queue : WorkQueue
new_work_queue = record {
  running = 0;
  failed = [];
  cancelling = 0;
  finishing = 0;
  failures = 0;
  err = none;
  ctx_err = none;
  parent_done = false;
  finish = λ n. false;
  waiter = λ n. idle;
}

abbrev pub first {ℓ} : {A : Type ℓ} → Option A → A → Option A
first none e = some e
first (some d) e = some d

-- setErr
unfoldable pub set_err : Error → WorkQueue → WorkQueue
set_err e q = record q { err = first q.err e }

-- The cancel function of the queue's context
unfoldable pub cancel : ContextError → WorkQueue → WorkQueue
cancel e q = record q { ctx_err = first q.ctx_err e }

-- The count of the WaitGroup
unfoldable pub counter : WorkQueue → ℕ
counter q = q.running + length q.failed + q.cancelling + q.finishing

pub data Step (q : WorkQueue) : WorkQueue → Type 0 where
  -- Add, up to the start of the goroutine
  add :
      ((n : ℕ) → q.waiter n ≡ idle) ⊎ (counter q ≢ 0)
      → Step q (record q { running = suc q.running })
  -- fn returns nil, or an error.
  work_done :
      (n : ℕ) → q.running ≡ suc n → Step q (record q { running = n; finishing = suc q.finishing })
  work_failed :
      (n : ℕ) (description message : Text)
      → q.running ≡ suc n
      → Step q (record q {
        running = n;
        failures = suc q.failures;
        failed = failed_to description message ∷ q.failed;
      })
  -- The worker sets its error, cancels, and is done.
  error_set :
      (before after : List Error) (e : Error)
      → q.failed ≡ before ++ e ∷ after
      → Step q (set_err e (record q { failed = before ++ after; cancelling = suc q.cancelling }))
  work_cancels :
      (n : ℕ)
      → q.cancelling ≡ suc n
      → Step q (cancel canceled (record q { cancelling = n; finishing = suc q.finishing }))
  work_finishes : (n : ℕ) → q.finishing ≡ suc n → Step q (record q { finishing = n })
  -- The parent's context is done, and with it the queue's.
  parent_stops : (e : ContextError) → Step q (cancel e (record q { parent_done = true }))
  -- Wait is called; the goroutine of its Finish closes the channel when no worker is left, also when
  -- Wait has returned by then.
  wait_called :
      (n : ℕ) → q.waiter n ≡ idle → Step q (record q { waiter = put n selecting q.waiter })
  finish_closed :
      (n : ℕ)
      → q.waiter n ≢ idle
      → counter q ≡ 0
      → Step q (record q { finish = put n true q.finish })
  -- The cases of Wait's select, what the second does, and the deferred cancel.
  select_finish :
      (n : ℕ)
      → q.waiter n ≡ selecting
      → q.finish n ≡ true
      → Step q (record q { waiter = put n returning q.waiter })
  select_done :
      (n : ℕ) (e : ContextError)
      → q.waiter n ≡ selecting
      → q.ctx_err ≡ some e
      → Step q (record q { waiter = put n (setting e) q.waiter })
  wait_sets :
      (n : ℕ) (e : ContextError)
      → q.waiter n ≡ setting e
      → Step q (set_err (context e) (record q { waiter = put n returning q.waiter }))
  wait_returns :
      (n : ℕ)
      → q.waiter n ≡ returning
      → Step q (cancel canceled (record q { waiter = put n returned q.waiter }))

-- What can come of a queue.
pub data Steps (q : WorkQueue) : WorkQueue → Type 0 where
  start : Steps q q
  and_then : (r s : WorkQueue) → Steps q r → Step r s → Steps q s
