-- ===== src/Failover.antt =====
-- maintenance/failover/failover.go: the active and the passive member of a cluster.
-- The lock in redis, the API of kubernetes and the channels are outside of the program: a `Signal`
-- is what the select of Run receives, together with the replies to the calls that may follow.
-- Times are Go durations in nanoseconds. A call of a hook is an entry of `calls`.
pub mod Safety
pub mod Hooks
mod Tests
use bricks.Prelude.{◌++◌, Bool, true, false, not, List, [], ◌∷◌, Option, none, some, if◌then◌else◌}
use bricks.Prelude.Int.{ℤ, pos, leb_ℤ, eqb_ℤ}
use bricks.Prelude.Text.{Text, codes}

pub data Status : Type 0 where
  passive undefined active : Status

pub data Hook : Type 0 where
  on_active on_passive on_stop : Hook

pub record ActivePassive : Type 0 where
  pub has_on_active : Bool
  pub has_on_passive : Bool
  pub has_on_stop : Bool
  pub state : Status
  -- The variable `lock` of Run: is it other than nil?
  pub has_lock : Bool
  -- The label that the pod has: the last one that the API accepted.
  pub pod_label : Option Text
  pub calls : List Hook

pub data Signal : Type 0 where
  -- ctx.Done(), and a message on a.close
  done closed : Signal
  -- t.C, with the replies: was the lock refreshed, was the label set?
  tick : Bool → Bool → Signal
  -- retry.C, with the replies: was the lock obtained, was the label set, the TTL (0 with an
  -- error), was the label set once more?
  retry : Bool → Bool → ℤ → Bool → Signal

-- What the loop of Run does next: another round, a return with or without an error, a panic.
pub data Round : Type 0 where
  loop : ActivePassive → Round
  returns : Bool → ActivePassive → Round
  panics : ActivePassive → Round

unfoldable pub label : Status → Text
label active = codes "active"
label passive = codes "passive"
label undefined = codes "undefined"

abbrev pub is : Status → Status → Bool
is active active = true
is passive passive = true
is undefined undefined = true
is _ _ = false

-- The reply of the API is the first argument; the result tells if the state was set.
set_state : Bool → Status → ActivePassive → ActivePassive × Bool
set_state true s a = (record a { state = s; pod_label = some (label s) }, true)
set_state false s a = (record a { state = undefined }, false)

call : Bool → Hook → ActivePassive → ActivePassive
call true h a = record a { calls = a.calls ++ h ∷ [] }
call false h a = a

become_active : Bool → ActivePassive → ActivePassive
unfolding set_state call
become_active ok a =
    let (b, is_set) = set_state ok active a in
    if is_set then call b.has_on_active on_active b else b

become_passive : Bool → ActivePassive → ActivePassive
unfolding set_state call
become_passive ok a =
    let (b, is_set) = set_state ok passive a in
    if is_set then call b.has_on_passive on_passive b else b

become_undefined : Bool → ActivePassive → ActivePassive
unfolding set_state
become_undefined ok a = (set_state ok undefined a).0

-- The case of t.C: a refresh on a nil lock is a panic.
on_tick : Bool → Bool → ActivePassive → Round
unfolding become_undefined
on_tick refreshed labelled a =
    if is a.state active
    then if not a.has_lock
      then panics a
      else if refreshed
      then loop a
      else loop (become_undefined labelled a)
    else loop a

-- t.Reset(d / 2) panics if the interval is not positive.
reset_ticker : ℤ → ActivePassive → Round
reset_ticker d a = if leb_ℤ (pos 2) d then loop a else panics a

-- The lock was not obtained: Obtain returns a nil lock.
on_refused : Bool → ActivePassive → Round
unfolding become_passive
on_refused labelled a =
    if not (is a.state passive) then loop (become_passive labelled a) else loop a

-- The lock was obtained.
on_obtained : Bool → ℤ → Bool → ActivePassive → Round
unfolding become_active become_undefined reset_ticker
on_obtained labelled ttl relabelled a = reset_ticker ttl (
    if eqb_ℤ ttl (pos 0)
    then become_undefined relabelled (become_active labelled a)
    else become_active labelled a)

-- The case of retry.C.
on_retry : Bool → Bool → ℤ → Bool → ActivePassive → Round
unfolding on_refused on_obtained
on_retry obtained labelled ttl relabelled a =
    if not (is a.state active)
    then if obtained
      then on_obtained labelled ttl relabelled (record a { has_lock = true })
      else on_refused labelled (record a { has_lock = false })
    else loop a

unfoldable pub round : Signal → ActivePassive → Round
unfolding on_tick on_retry label
round done a = returns true a
round closed a = returns false a
round (tick refreshed labelled) a = on_tick refreshed labelled a
round (retry obtained labelled ttl relabelled) a = on_retry obtained labelled ttl relabelled a

-- How a call of Run ends, or that it waits for a signal. A panic is recovered by the deferred
-- handler, and Run returns no error then.
pub data Result : Type 0 where
  waiting : ActivePassive → Result
  finished : (error panicked : Bool) → ActivePassive → Result

-- The deferred calls.
stop : ActivePassive → ActivePassive
unfolding call
stop a = call a.has_on_stop on_stop a

-- What comes after a round.
after : (ActivePassive → Result) → Round → Result
unfolding stop
after next (loop b) = next b
after next (returns error b) = finished error false (stop b)
after next (panics b) = finished false true (stop b)

-- The loop of Run, on the signals that it receives.
unfoldable pub run : List Signal → ActivePassive → Result
unfolding after
run [] a = waiting a
run (s ∷ rest) a = after (run rest) (round s a)

-- A member as NewActivePassive makes it, with the hooks that are set.
unfoldable pub new_active_passive : Bool → Bool → Bool → ActivePassive
new_active_passive hook_active hook_passive hook_stop = record {
  has_on_active = hook_active;
  has_on_passive = hook_passive;
  has_on_stop = hook_stop;
  state = undefined;
  has_lock = false;
  pod_label = none;
  calls = [];
}
