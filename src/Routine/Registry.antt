-- ===== src/Routine/Registry.antt =====
-- pkg/routine/routine.go: the routines that Run starts, the map of their contexts, and the shutdown that
-- cancels these. Each step is what one goroutine does at once, or in one critical section of the mutex
-- of the map; the map and the routines are functions of the routine's number.
pub mod Shutdown
mod Tests
use bricks.Prelude.{ℕ, ◌+◌, ◌≡◌, Bool, true, false}
use bricks.Prelude.Store.{put}

-- A routine: Run has made its context; has registered that in the map; has started the function. With it,
-- whether the context is canceled, and whether the function has returned or panicked.
pub data Phase : Type 0 where
  absent created : Phase
  registered : (canceled : Bool) → Phase
  started : (canceled ended : Bool) → Phase

-- The cancel function of a context
abbrev pub cancel : Phase → Phase
cancel absent = absent
cancel created = created
cancel (registered canceled) = registered true
cancel (started canceled ended) = started true ended

abbrev pub is_canceled : Phase → Bool
is_canceled absent = false
is_canceled created = false
is_canceled (registered canceled) = canceled
is_canceled (started canceled ended) = canceled

-- The counter, the routines, the map of the contexts, whether a signal was received, whether the shutdown
-- holds the mutex, and the contexts that it has yet to cancel
pub record Routines : Type 0 where
  pub ctr : ℕ
  pub phase : ℕ → Phase
  pub contexts : ℕ → Bool
  pub signaled : Bool
  pub shut : Bool
  pub pending : ℕ → Bool

abbrev pub no_routines : Routines
no_routines = record {
  ctr = 0;
  phase = λ n. absent;
  contexts = λ n. false;
  signaled = false;
  shut = false;
  pending = λ n. false;
}

pub data Step (s : Routines) : Routines → Type 0 where
  -- Run, up to the lock
  begins : Step s (record s { ctr = s.ctr + 1; phase = put (s.ctr + 1) created s.phase })
  -- contexts[num] = cancel, under the mutex
  registers :
      (n : ℕ)
      → s.shut ≡ false
      → s.phase n ≡ created
      → Step s
          (record s { phase = put n (registered false) s.phase; contexts = put n true s.contexts })
  -- Behind the unlock: the function is started, whatever became of its context since.
  starts :
      (n : ℕ) (canceled : Bool)
      → s.phase n ≡ registered canceled
      → Step s (record s { phase = put n (started canceled false) s.phase })
  -- The CancelFunc that Run returned, which can be called before the function is started
  cancels : (n : ℕ) → Step s (record s { phase = put n (cancel (s.phase n)) s.phase })
  -- The function returns or panics; the deferred calls cancel its context and handle the panic.
  ends :
      (n : ℕ) (canceled : Bool)
      → s.phase n ≡ started canceled false
      → Step s (record s { phase = put n (started true true) s.phase })
  -- delete(contexts, num) under the mutex, when the context is done
  deregisters :
      (n : ℕ)
      → s.shut ≡ false
      → is_canceled (s.phase n) ≡ true
      → Step s (record s { contexts = put n false s.contexts })
  -- A signal is received.
  receives : s.signaled ≡ false → Step s (record s { signaled = true })
  -- Then the mutex is locked for good.
  shutdown :
      s.signaled ≡ true → s.shut ≡ false → Step s (record s { shut = true; pending = s.contexts })
  -- One round of the loop over the contexts: cancel() of one of them
  shutdown_cancels :
      (n : ℕ)
      → s.shut ≡ true
      → s.pending n ≡ true
      → Step s
          (record s { phase = put n (cancel (s.phase n)) s.phase; pending = put n false s.pending })

-- What can come of a program's routines
pub data Steps (s : Routines) : Routines → Type 0 where
  start : Steps s s
  and_then : (t u : Routines) → Steps s t → Step t u → Steps s u
