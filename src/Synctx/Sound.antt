-- ===== src/Synctx/Sound.antt =====
-- pkg/synctx/work_queue.go: what Err says.
use mathlib.Core.Path.{subst}
use bricks.Prelude.{
  ℕ, suc, ◌≡◌, ◌≢◌, refl, sym, ap, ◌∙◌, ◌⊎◌, inl, inr, Bool, true, false, List, [], ◌∷◌, ◌++◌,
  Option, none, some, length, arith,
}
use bricks.Prelude.Store.{put, put-cases, put_never}
use bricks.Synctx.{
  Error, context, Waiter, idle, setting, counter, selecting, returning, returned, WorkQueue,
  new_work_queue, set_err, cancel, Step, Steps, start, and_then, first, add, work_done, work_failed,
  error_set, work_cancels, work_finishes, parent_stops, wait_called, finish_closed, select_finish,
  select_done, wait_sets, wait_returns,
}

abbrev pub is_back : Waiter → Bool
is_back returning = true
is_back returned = true
is_back _ = false

record NoWorker (q : WorkQueue) : Type 0 where
  none_runs : q.running ≡ 0
  none_failed : q.failed ≡ []
  none_cancels : q.cancelling ≡ 0
  none_finishes : q.finishing ≡ 0

-- As long as no error is set, the failures are those still to be set, and a call of Wait is past its
-- select only if no worker is left.
record Unset (q : WorkQueue) : Type 0 where
  held : q.err ≡ none → length q.failed ≡ q.failures
  closed : (n : ℕ) → q.finish n ≡ true → (q.waiter n ≢ idle) × NoWorker q
  back : q.err ≡ none → (n : ℕ) → is_back (q.waiter n) ≡ true → q.finish n ≡ true

none_in : {A : Type 0} (xs : List A) → length xs ≡ 0 → xs ≡ []
none_in [] h = refl
none_in (x ∷ xs) h = absurd (omega arith)

counter-NoWorker : (q : WorkQueue) → counter q ≡ 0 → NoWorker q
unfolding counter
counter-NoWorker q h = record {
  none_runs = omega arith;
  none_failed = none_in q.failed (omega arith);
  none_cancels = omega arith;
  none_finishes = omega arith;
}

NoWorker-counter : (q : WorkQueue) → NoWorker q → counter q ≡ 0
unfolding counter
NoWorker-counter q n = rw (n.none_runs, n.none_failed, n.none_cancels, n.none_finishes) refl

append-cons :
    {A : Type 0} (xs ys : List A) (x : A) → length (xs ++ x ∷ ys) ≡ suc (length (xs ++ ys))
append-cons [] ys x = refl
append-cons (z ∷ xs) ys x = ap suc (append-cons xs ys x)

first_set : {A : Type 0} (o : Option A) (e : A) → first o e ≢ none
first_set none e h = cc
first_set (some d) e h = cc

start_Unset : Unset new_work_queue
unfolding new_work_queue
start_Unset = record { held = λ _. refl; closed = λ n h. cc; back = λ _ n h. cc }

some_failed : (q : WorkQueue) (b a : List Error) (e : Error) → q.failed ≡ b ++ e ∷ a → q.failed ≢ []
some_failed q b a e p h =
    let l : length (b ++ e ∷ a) ≡ length {A = Error} [] = ap length (sym p ∙ h) in
    absurd (omega (arith, append-cons b a e))

-- No worker is left when a channel is closed, so none takes a step.
module _ (q : WorkQueue) (m : ℕ) (u : Unset q) (f : q.finish m ≡ true) {P : Type 0} where
  not_running : {n : ℕ} → q.running ≡ suc n → P
  not_running e = let z : q.running ≡ 0 = (u.closed m f).1.none_runs in absurd (omega arith)

  not_cancelling : {n : ℕ} → q.cancelling ≡ suc n → P
  not_cancelling e =
      let z : q.cancelling ≡ 0 = (u.closed m f).1.none_cancels in absurd (omega arith)

  not_finishing : {n : ℕ} → q.finishing ≡ suc n → P
  not_finishing e = let z : q.finishing ≡ 0 = (u.closed m f).1.none_finishes in absurd (omega arith)

  not_adding : ((n : ℕ) → q.waiter n ≡ idle) ⊎ (counter q ≢ 0) → P
  not_adding (inl i) = absurd ((u.closed m f).0 (i m))
  not_adding (inr b) = absurd (b (NoWorker-counter q (u.closed m f).1))

-- A call of Wait that moves on, to a place that is not idle
module _ (q : WorkQueue) (k : ℕ) (w : Waiter) (u : Unset q) (moved : w ≢ idle) where
  still_waits : (n : ℕ) → q.finish n ≡ true → put k w q.waiter n ≢ idle
  still_waits n h = put_never k w q.waiter n idle moved (u.closed n h).0

  back_before :
      (n : ℕ)
      → (is_back w ≡ true → q.finish k ≡ true)
      → q.err ≡ none
      → is_back (put k w q.waiter n) ≡ true
      → q.finish n ≡ true
  back_before n f e h = elim (put-cases k w q.waiter n) [
    | inl (p, x) ↦ subst (λ m. q.finish m ≡ true) (sym p) (f (ap is_back (sym x) ∙ h))
    | inr x ↦ u.back e n (ap is_back (sym x) ∙ h)
  ]

same_workers :
    (q r : WorkQueue)
    → q.running ≡ r.running
    → q.failed ≡ r.failed
    → q.cancelling ≡ r.cancelling
    → q.finishing ≡ r.finishing
    → NoWorker q
    → NoWorker r
same_workers q r a b c d n = record {
  none_runs = sym a ∙ n.none_runs;
  none_failed = sym b ∙ n.none_failed;
  none_cancels = sym c ∙ n.none_cancels;
  none_finishes = sym d ∙ n.none_finishes;
}

Step-Unset : (q r : WorkQueue) → Step q r → Unset q → Unset r
unfolding set_err cancel
Step-Unset q _ (add i) u = record {
  held = u.held;
  closed = λ n h. not_adding q n u h i;
  back = u.back;
}
Step-Unset q _ (work_done m e) u = record {
  held = u.held;
  closed = λ n h. not_running q n u h e;
  back = u.back;
}
Step-Unset q _ (work_failed m d t e) u = record {
  held = λ h. ap suc (u.held h);
  closed = λ n h. not_running q n u h e;
  back = u.back;
}
Step-Unset q _ (error_set b a e p) u = record {
  held = λ h. absurd (first_set q.err e h);
  closed = λ n h. absurd (some_failed q b a e p (u.closed n h).1.none_failed);
  back = λ h. absurd (first_set q.err e h);
}
Step-Unset q _ (work_cancels m e) u = record {
  held = u.held;
  closed = λ n h. not_cancelling q n u h e;
  back = u.back;
}
Step-Unset q _ (work_finishes m e) u = record {
  held = u.held;
  closed = λ n h. not_finishing q n u h e;
  back = u.back;
}
Step-Unset q _ (parent_stops e) u = record {
  held = u.held;
  closed = λ n h. ((u.closed n h).0, same_workers q _ refl refl refl refl (u.closed n h).1);
  back = u.back;
}
Step-Unset q _ (finish_closed k w z) u = record {
  held = u.held;
  closed = λ n h. (
    elim (put-cases k true q.finish n) [
      | inl (p, x) ↦ (λ i. w (ap q.waiter (sym p) ∙ i))
      | inr x ↦ (u.closed n (sym x ∙ h)).0
    ],
    same_workers q _ refl refl refl refl (counter-NoWorker q z),
  );
  back = λ e n h. elim (put-cases k true q.finish n) [ inl (p, x) ↦ x | inr x ↦ x ∙ u.back e n h ];
}
Step-Unset q _ (wait_called k i) u = record {
  held = u.held;
  closed = λ n h. (
    still_waits q k selecting u (λ x. cc) n h,
    same_workers q _ refl refl refl refl (u.closed n h).1,
  );
  back = λ e n h. back_before q k selecting u (λ x. cc) n (λ x. cc) e h;
}
Step-Unset q _ (select_finish k w f) u = record {
  held = u.held;
  closed = λ n h. (
    still_waits q k returning u (λ x. cc) n h,
    same_workers q _ refl refl refl refl (u.closed n h).1,
  );
  back = λ e n h. back_before q k returning u (λ x. cc) n (λ x. f) e h;
}
Step-Unset q _ (select_done k d w c) u = record {
  held = u.held;
  closed = λ n h. (
    still_waits q k (setting d) u (λ x. cc) n h,
    same_workers q _ refl refl refl refl (u.closed n h).1,
  );
  back = λ e n h. back_before q k (setting d) u (λ x. cc) n (λ x. cc) e h;
}
Step-Unset q _ (wait_sets k d w) u = record {
  held = λ h. absurd (first_set q.err (context d) h);
  closed = λ n h. (
    still_waits q k returning u (λ x. cc) n h,
    same_workers q _ refl refl refl refl (u.closed n h).1,
  );
  back = λ h. absurd (first_set q.err (context d) h);
}
Step-Unset q _ (wait_returns k w) u = record {
  held = u.held;
  closed = λ n h. (
    still_waits q k returned u (λ x. cc) n h,
    same_workers q _ refl refl refl refl (u.closed n h).1,
  );
  back = λ e n h. back_before q k returned u (λ x. cc) n (λ x. u.back e k (ap is_back w)) e h;
}

Steps-Unset : (q r : WorkQueue) → Steps q r → Unset q → Unset r
Steps-Unset q _ start u = u
Steps-Unset q _ (and_then r s steps step) u = Step-Unset r s step (Steps-Unset q r steps u)

-- If a call of Wait has returned and Err says nothing, then every function that was added has returned,
-- and none has returned an error.
pub waited_without_error :
    (q : WorkQueue) (n : ℕ)
    → Steps new_work_queue q
    → q.waiter n ≡ returned
    → q.err ≡ none
    → (q.running ≡ 0) × (q.finishing ≡ 0) × (q.failures ≡ 0)
waited_without_error q n steps w e =
    let u : Unset q = Steps-Unset new_work_queue q steps start_Unset in
    let z : NoWorker q = (u.closed n (u.back e n (ap is_back w))).1 in
    (z.none_runs, z.none_finishes, sym (u.held e) ∙ ap length z.none_failed)
