-- ===== src/Failover/Safety.antt =====
-- The member of maintenance/failover/failover.go: what holds in every round of Run.
use bricks.Prelude.{◌≡◌, Bool, true, false, List, [], ◌∷◌, All, refl, ◌≢◌, some, arith, ◌⊎◌}
use bricks.Prelude.Int.{pos, ◌≤ℤ◌}
use bricks.Failover.{
  active, undefined, ActivePassive, Signal, done, closed, tick, retry, Round, loop, returns, panics,
  round, label, run, Result, waiting, finished, new_active_passive, stop, after, become_active,
  become_undefined,
}

-- The active member has a lock, and the pod has the label of the state, unless that is undefined.
pub record IsSound (a : ActivePassive) : Type 0 where
  pub locked : a.state ≡ active → a.has_lock ≡ true
  pub labelled : (a.state ≡ undefined) ⊎ (a.pod_label ≡ some (label a.state))

-- What each outcome of a round comes to.
abbrev RoundSound : Round → Type 0
RoundSound (loop b) = IsSound b
RoundSound (returns e b) = IsSound b
RoundSound (panics b) = IsSound b

round-RoundSound : (s : Signal) (a : ActivePassive) → IsSound a → RoundSound (round s a)
unfolding round
round-RoundSound done a h = h
round-RoundSound closed a h = h
round-RoundSound (tick r l) a h = ground arith
round-RoundSound (retry o l d l') a h = ground arith

abbrev pub ResultSound : Result → Type 0
ResultSound (waiting b) = IsSound b
ResultSound (finished e p b) = IsSound b

stop-IsSound : (a : ActivePassive) → IsSound a → IsSound (stop a)
unfolding stop
stop-IsSound a h = ground arith

after-ResultSound :
    (next : ActivePassive → Result)
    → ((b : ActivePassive) → IsSound b → ResultSound (next b))
    → (r : Round) → RoundSound r
    → ResultSound (after next r)
unfolding after
after-ResultSound next keep (loop b) k = keep b k
after-ResultSound next keep (returns e b) k = stop-IsSound b k
after-ResultSound next keep (panics b) k = stop-IsSound b k

run-ResultSound : (ss : List Signal) (a : ActivePassive) → IsSound a → ResultSound (run ss a)
unfolding run
run-ResultSound [] a h = h
run-ResultSound (s ∷ ss) a h =
    after-ResultSound (run ss) (run-ResultSound ss) (round s a) (round-RoundSound s a h)

-- The TTL that is read for an obtained lock is at least two nanoseconds.
abbrev pub HasTtl : Signal → Type 0
HasTtl (retry true l d l') = pos 2 ≤ℤ d
HasTtl _ = Unit

-- No panic, and no nil lock is refreshed.
abbrev pub NoPanic : Result → Type 0
NoPanic (waiting b) = Unit
NoPanic (finished e p b) = p ≡ false

abbrev Calm : Round → Type 0
Calm (panics b) = ⊥
Calm _ = Unit

round-Calm : (s : Signal) (a : ActivePassive) → IsSound a → HasTtl s → Calm (round s a)
unfolding round
round-Calm done a h t = tt
round-Calm closed a h t = tt
round-Calm (tick r l) a h t = ground arith
round-Calm (retry true l d l') a h t = ground arith
round-Calm (retry false l d l') a h t = ground arith

after-NoPanic :
    (next : ActivePassive → Result)
    → ((b : ActivePassive) → IsSound b → NoPanic (next b))
    → (r : Round) → RoundSound r
    → Calm r
    → NoPanic (after next r)
unfolding after
after-NoPanic next keep (loop b) k c = keep b k
after-NoPanic next keep (returns e b) k c = refl
after-NoPanic next keep (panics b) k c = absurd c

run-NoPanic :
    (ss : List Signal) (a : ActivePassive) → All HasTtl ss → IsSound a → NoPanic (run ss a)
unfolding run
run-NoPanic [] a ts h = tt
run-NoPanic (s ∷ ss) a (t, ts) h =
    after-NoPanic (run ss) (λ b. run-NoPanic ss b ts) (round s a) (round-RoundSound s a h)
      (round-Calm s a h t)

new-IsSound : (p q r : Bool) → IsSound (new_active_passive p q r)
unfolding new_active_passive
new-IsSound p q r = ground arith

-- Whatever signals a new member receives, and whatever the replies of redis and kubernetes are:
-- when Run waits or has returned, an active member has a lock, and the label of its pod is the one
-- of its state unless that state is undefined.
pub run-new-ResultSound :
    (ss : List Signal) (p q r : Bool) → ResultSound (run ss (new_active_passive p q r))
run-new-ResultSound ss p q r = run-ResultSound ss _ (new-IsSound p q r)

-- If every TTL that is read for an obtained lock is at least two nanoseconds, then Run never
-- panics: in particular it never refreshes a lock that it does not have.
pub run-new-NoPanic :
    (ss : List Signal) (p q r : Bool) → All HasTtl ss → NoPanic (run ss (new_active_passive p q r))
run-new-NoPanic ss p q r ts = run-NoPanic ss _ ts (new-IsSound p q r)

-- A lock that is obtained by a member that is not active, and whose TTL is then read as zero (it
-- has expired, or the TTL cannot be read), ends Run by a panic, whatever else it would receive. The
-- member is left undefined, with its lock, and the signals behind are not served.
pub expired_ttl_panics :
    (a : ActivePassive) (labelled relabelled : Bool) (rest : List Signal)
    → a.state ≢ active
    → (b : ActivePassive) × (run (retry true labelled (pos 0) relabelled ∷ rest) a
        ≡ finished false true b)
      × (b.state ≡ undefined)
      × (b.has_lock ≡ true)
unfolding run round stop become_undefined become_active
expired_ttl_panics a labelled relabelled rest h = (
  stop (become_undefined relabelled (become_active labelled (record a { has_lock = true }))),
  ground arith,
  ground arith,
  ground arith,
)
