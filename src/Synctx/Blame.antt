-- ===== src/Synctx/Blame.antt =====
-- pkg/synctx/work_queue.go: the error of a worker is not hidden by the cancellation that it causes.
use mathlib.Core.Path.{subst}
use bricks.Prelude.{
  ℕ, suc, ◌≡◌, ◌≢◌, sym, ap, ◌∙◌, ◌⊎◌, inl, inr, true, false, List, [], ◌∷◌, ◌++◌, Option, none,
  some, All,
}
use bricks.Prelude.Store.{put, put-cases, put-same, put_back, put_kept}
use bricks.Synctx.{
  ContextError, returning, Error, failed_to, context, Waiter, idle, selecting, returned, setting,
  WorkQueue, new_work_queue, set_err, cancel, Step, Steps, start, and_then, first, add, work_done,
  work_failed, error_set, work_cancels, work_finishes, parent_stops, wait_called, finish_closed,
  select_finish, select_done, wait_sets, wait_returns,
}

-- An error of a worker
abbrev pub IsWorkers : Error → Type 0
IsWorkers (failed_to d m) = Unit {0}
IsWorkers (context e) = ⊥

abbrev IsNotContext : Option Error → Type 0
IsNotContext none = Unit {0}
IsNotContext (some e) = IsWorkers e

abbrev IsSomeWorkers : Option Error → Type 0
IsSomeWorkers none = ⊥
IsSomeWorkers (some e) = IsWorkers e

not_context : (o : Option Error) → IsSomeWorkers o → IsNotContext o
not_context none h = absurd h
not_context (some e) h = h

first_not_context :
    (o : Option Error) (e : Error) → IsNotContext o → IsWorkers e → IsSomeWorkers (first o e)
first_not_context none e h k = k
first_not_context (some d) e h k = h

first_kept : (o : Option Error) (e : Error) → IsSomeWorkers o → IsSomeWorkers (first o e)
first_kept none e h = absurd h
first_kept (some d) e h = h

split_errors :
    (b a : List Error) (e : Error)
    → All IsWorkers (b ++ e ∷ a)
    → IsWorkers e × All IsWorkers (b ++ a)
split_errors [] a e h = h
split_errors (d ∷ b) a e (h, hs) = let r = split_errors b a e hs in (r.0, (h, r.1))

-- No call of Wait is beside one that has returned.
abbrev pub OnlyWait : WorkQueue → Type 0
OnlyWait q = (n m : ℕ) → q.waiter n ≡ returned → q.waiter m ≢ idle → n ≡ m

-- What is set is a worker's error, and it is set before anything is canceled.
record Blamed (q : WorkQueue) : Type 0 where
  workers : All IsWorkers q.failed
  unspoiled : IsNotContext q.err
  cancels : (n : ℕ) → q.cancelling ≡ suc n → IsSomeWorkers q.err
  canceled_by :
      (e : ContextError)
      → q.ctx_err ≡ some e
      → ((n : ℕ) × (q.waiter n ≡ returned)) ⊎ IsSomeWorkers q.err
  sets : (n : ℕ) (e : ContextError) → q.waiter n ≡ setting e → IsSomeWorkers q.err

Blame : WorkQueue → Type 0
Blame q = q.parent_done ≡ false → OnlyWait q → Blamed q

-- A call of Wait that moves on, from where it has not returned to a place that is not idle
module _ (q : WorkQueue) (k : ℕ) (v w : Waiter) (from : q.waiter k ≡ v) (unreturned : v ≢ returned)
    (moved : w ≢ idle) where
  not_returned : q.waiter k ≢ returned
  not_returned h = unreturned (sym from ∙ h)

  was_only :
      ((n m : ℕ) → put k w q.waiter n ≡ returned → put k w q.waiter m ≢ idle → n ≡ m) → OnlyWait q
  was_only only n m h g =
      only n m (put_kept k w q.waiter n returned not_returned h) (elim (put-cases k w q.waiter m) [
        | inl (_, x) ↦ (λ i. moved (sym x ∙ i))
        | inr x ↦ (λ i. g (sym x ∙ i))
      ])

  still_by :
      {P : Type 0}
      → ((n : ℕ) × (q.waiter n ≡ returned)) ⊎ P
      → ((n : ℕ) × (put k w q.waiter n ≡ returned)) ⊎ P
  still_by (inl (n, h)) = inl (n, put_kept k w q.waiter n returned not_returned h)
  still_by (inr p) = inr p

-- Beside a call of Wait in its select none has returned.
by_worker :
    {P : Type 0} (q : WorkQueue) (k : ℕ)
    → q.waiter k ≡ selecting
    → OnlyWait q
    → ((n : ℕ) × (q.waiter n ≡ returned)) ⊎ P
    → P
by_worker q k w only (inl (n, h)) =
    let p : n ≡ k = only n k h (λ i. let x : selecting ≡ idle = sym w ∙ i in cc) in
    absurd (let x : selecting ≡ returned = sym w ∙ ap q.waiter (sym p) ∙ h in cc)
by_worker q k w only (inr p) = p

start_Blame : Blame new_work_queue
unfolding Blame new_work_queue
start_Blame _ _ = record {
  workers = tt;
  unspoiled = tt;
  cancels = λ n h. cc;
  canceled_by = λ e h. cc;
  sets = λ n e h. cc;
}

Step-Blame : (q r : WorkQueue) → Step q r → Blame q → Blame r
unfolding Blame set_err cancel
Step-Blame q _ (add i) u p only =
    let v : Blamed q = u p only in
    record {
      workers = v.workers;
      unspoiled = v.unspoiled;
      cancels = v.cancels;
      canceled_by = v.canceled_by;
      sets = v.sets;
    }
Step-Blame q _ (work_done n e) u p only =
    let v : Blamed q = u p only in
    record {
      workers = v.workers;
      unspoiled = v.unspoiled;
      cancels = v.cancels;
      canceled_by = v.canceled_by;
      sets = v.sets;
    }
Step-Blame q _ (work_failed n d m e) u p only =
    let v : Blamed q = u p only in
    record {
      workers = (tt, v.workers);
      unspoiled = v.unspoiled;
      cancels = v.cancels;
      canceled_by = v.canceled_by;
      sets = v.sets;
    }
Step-Blame q _ (error_set b a e f) u p only =
    let v : Blamed q = u p only in
    let parts : IsWorkers e × All IsWorkers (b ++ a) =
      split_errors b a e (subst (All IsWorkers) f v.workers) in
    let s : IsSomeWorkers (first q.err e) = first_not_context q.err e v.unspoiled parts.0 in
    record {
      workers = parts.1;
      unspoiled = not_context (first q.err e) s;
      cancels = λ _ _. s;
      canceled_by = λ _ _. inr s;
      sets = λ _ _ _. s;
    }
Step-Blame q _ (work_cancels n e) u p only =
    let v : Blamed q = u p only in
    let s : IsSomeWorkers q.err = v.cancels n e in
    record {
      workers = v.workers;
      unspoiled = v.unspoiled;
      cancels = λ _ _. s;
      canceled_by = λ _ _. inr s;
      sets = v.sets;
    }
Step-Blame q _ (work_finishes n e) u p only =
    let v : Blamed q = u p only in
    record {
      workers = v.workers;
      unspoiled = v.unspoiled;
      cancels = v.cancels;
      canceled_by = v.canceled_by;
      sets = v.sets;
    }
Step-Blame q _ (parent_stops e) u p only = absurd (let k : true ≡ false = p in cc)
Step-Blame q _ (finish_closed k w z) u p only =
    let v : Blamed q = u p only in
    record {
      workers = v.workers;
      unspoiled = v.unspoiled;
      cancels = v.cancels;
      canceled_by = v.canceled_by;
      sets = v.sets;
    }
Step-Blame q _ (wait_called k i) u p only =
    let v : Blamed q = u p (was_only q k idle selecting i (λ x. cc) (λ x. cc) only) in
    record {
      workers = v.workers;
      unspoiled = v.unspoiled;
      cancels = v.cancels;
      canceled_by = λ e c. still_by q k idle selecting i (λ x. cc) (λ x. cc) (v.canceled_by e c);
      sets = λ n e h. v.sets n e (put_back k selecting q.waiter n (setting e) (λ x. cc) h);
    }
Step-Blame q _ (select_finish k w f) u p only =
    let v : Blamed q = u p (was_only q k selecting returning w (λ x. cc) (λ x. cc) only) in
    record {
      workers = v.workers;
      unspoiled = v.unspoiled;
      cancels = v.cancels;
      canceled_by =
          λ e c. still_by q k selecting returning w (λ x. cc) (λ x. cc) (v.canceled_by e c);
      sets = λ n e h. v.sets n e (put_back k returning q.waiter n (setting e) (λ x. cc) h);
    }
Step-Blame q _ (select_done k e w c) u p only =
    let before : OnlyWait q = was_only q k selecting (setting e) w (λ x. cc) (λ x. cc) only in
    let v : Blamed q = u p before in
    let s : IsSomeWorkers q.err = by_worker q k w before (v.canceled_by e c) in
    record {
      workers = v.workers;
      unspoiled = v.unspoiled;
      cancels = λ _ _. s;
      canceled_by = λ _ _. inr s;
      sets = λ _ _ _. s;
    }
Step-Blame q _ (wait_sets k e w) u p only =
    let v : Blamed q = u p (was_only q k (setting e) returning w (λ x. cc) (λ x. cc) only) in
    let s : IsSomeWorkers (first q.err (context e)) = first_kept q.err (context e) (v.sets k e w) in
    record {
      workers = v.workers;
      unspoiled = not_context (first q.err (context e)) s;
      cancels = λ _ _. s;
      canceled_by = λ _ _. inr s;
      sets = λ _ _ _. s;
    }
Step-Blame q _ (wait_returns k w) u p only =
    let v : Blamed q = u p (was_only q k returning returned w (λ x. cc) (λ x. cc) only) in
    record {
      workers = v.workers;
      unspoiled = v.unspoiled;
      cancels = v.cancels;
      canceled_by = λ _ _. inl (k, put-same k returned q.waiter);
      sets = λ n e h. v.sets n e (put_back k returned q.waiter n (setting e) (λ x. cc) h);
    }

Steps-Blame : (q r : WorkQueue) → Steps q r → Blame q → Blame r
Steps-Blame q _ start u = u
Steps-Blame q _ (and_then r s steps step) u = Step-Blame r s step (Steps-Blame q r steps u)

-- Unless the context that the queue was made with is done, or Wait was called beside a call of it that
-- has returned: what Err returns is the error of a worker and never that of the canceled context,
-- although a worker that fails cancels it.
pub err-IsWorkers :
    (q : WorkQueue) (e : Error)
    → Steps new_work_queue q
    → q.parent_done ≡ false
    → OnlyWait q
    → q.err ≡ some e
    → IsWorkers e
unfolding Blame
err-IsWorkers q e steps p only h =
    let v : Blamed q = Steps-Blame new_work_queue q steps start_Blame p only in
    subst IsNotContext h v.unspoiled
