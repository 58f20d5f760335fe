-- ===== src/Failover/Hooks.antt =====
-- The hooks of maintenance/failover/failover.go: when they are called.
use mathlib.Core.List.{append-nil}
use bricks.Prelude.{
  ℕ, suc, ◌+◌, ◌≡◌, refl, Bool, true, not, ◌&&◌, List, [], ◌∷◌, ◌++◌, arith, if◌then◌else◌,
}
use bricks.Failover.{
  Status, active, passive, Hook, on_active, on_passive, on_stop, ActivePassive, Signal, done,
  closed, tick, retry, Round, loop, returns, panics, round, run, Result, waiting, finished,
  new_active_passive, stop, after, is,
}

-- The calls that a change of the state is to make.
abbrev pub called : ActivePassive → Status → Status → List Hook
called a old new =
    if is new active && not (is old active)
    then if a.has_on_active then on_active ∷ [] else []
    else if is new passive && not (is old passive)
    then if a.has_on_passive then on_passive ∷ [] else []
    else []

-- A round after which Run goes on calls OnActive exactly if the member becomes active in it,
-- OnPassive exactly if it becomes passive in it, and nothing otherwise; the hooks stay as they are.
pub round_calls :
    (s : Signal) (a b : ActivePassive)
    → round s a ≡ loop b
    → b.calls ≡ a.calls ++ called a a.state b.state
unfolding round
round_calls done a b e = cc
round_calls closed a b e = cc
round_calls (tick r l) a b e = ground (arith, append-nil a.calls)
round_calls (retry o l d l') a b e = ground (arith, append-nil a.calls)

-- The number of calls of OnStop.
pub stops : List Hook → ℕ
stops [] = 0
stops (on_stop ∷ hs) = suc (stops hs)
stops (h ∷ hs) = stops hs

stops-append : (hs ks : List Hook) → stops (hs ++ ks) ≡ stops hs + stops ks
unfolding stops
stops-append [] ks = omega arith
stops-append (on_stop ∷ hs) ks = omega (arith, stops-append hs ks)
stops-append (on_active ∷ hs) ks = stops-append hs ks
stops-append (on_passive ∷ hs) ks = stops-append hs ks

-- The hook is as in the start, and was not called.
abbrev Unstopped : Bool → ActivePassive → Type 0
Unstopped q a = (stops a.calls ≡ 0) × (a.has_on_stop ≡ q)

abbrev RoundUnstopped : Bool → Round → Type 0
RoundUnstopped q (loop b) = Unstopped q b
RoundUnstopped q (returns e b) = Unstopped q b
RoundUnstopped q (panics b) = Unstopped q b

round-RoundUnstopped :
    (q : Bool) (s : Signal) (a : ActivePassive) → Unstopped q a → RoundUnstopped q (round s a)
unfolding round stops
round-RoundUnstopped q done a h = h
round-RoundUnstopped q closed a h = h
round-RoundUnstopped q (tick r l) a h = ground arith
round-RoundUnstopped q (retry o l d l') a h =
    ground (arith, stops-append a.calls (on_active ∷ []), stops-append a.calls (on_passive ∷ []))

-- Before Run ends OnStop is not called; when it ends, the last call is that of OnStop, if the hook
-- is set, and the only one.
abbrev pub StopsOnce : Bool → Result → Type 0
StopsOnce q (waiting b) = stops b.calls ≡ 0
StopsOnce q (finished e p b) =
    (before : List Hook) × (stops before ≡ 0)
    × (b.calls ≡ before ++ (if q then on_stop ∷ [] else []))

stop-StopsOnce :
    (q : Bool) (a : ActivePassive) → Unstopped q a → StopsOnce q (finished true true (stop a))
unfolding stop
stop-StopsOnce q a h = (a.calls, h.0, ground (arith, append-nil a.calls))

after-StopsOnce :
    (q : Bool) (next : ActivePassive → Result)
    → ((b : ActivePassive) → Unstopped q b → StopsOnce q (next b))
    → (r : Round) → RoundUnstopped q r
    → StopsOnce q (after next r)
unfolding after
after-StopsOnce q next keep (loop b) k = keep b k
after-StopsOnce q next keep (returns e b) k = stop-StopsOnce q b k
after-StopsOnce q next keep (panics b) k = stop-StopsOnce q b k

run-StopsOnce :
    (q : Bool) (ss : List Signal) (a : ActivePassive) → Unstopped q a → StopsOnce q (run ss a)
unfolding run
run-StopsOnce q [] a h = h.0
run-StopsOnce q (s ∷ ss) a h =
    after-StopsOnce q (run ss) (run-StopsOnce q ss) (round s a) (round-RoundUnstopped q s a h)

-- For a new member and any signals: OnStop is not called as long as Run waits, and however Run
-- ends, by a signal, an error or a panic, OnStop (if it is set) is called once, after all else.
pub run-new-StopsOnce :
    (ss : List Signal) (p q r : Bool) → StopsOnce r (run ss (new_active_passive p q r))
unfolding new_active_passive stops
run-new-StopsOnce ss p q r = run-StopsOnce r ss _ (refl, refl)
