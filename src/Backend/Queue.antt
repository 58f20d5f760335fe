-- ===== src/Backend/Queue.antt =====
-- backend/queue/rmq.go: the queues with their limits, and their health check. The map of the limits is
-- an association list; its order is Go's order of Range.
pub mod Limits
use bricks.Prelude.{
  ◌≡◌, Bool, true, false, not, ◌&&◌, List, [], ◌∷◌, ◌++◌, Option, none, some, if◌then◌else◌,
}
use bricks.Prelude.Int.{ℤ, pos, ltb_ℤ}
use bricks.Prelude.Text.{Text, codes}
use bricks.Prelude.Assoc.{lookup, insert}
use bricks.Prelude.Decimal.{format_int}
use bricks.Prelude.Result.{Result, ok, err}
use bricks.Health.{ConnectionState, set_error_state, set_healthy}
use bricks.Backend.Cached.{is_fresh}

abbrev pub Limits : Type 0
Limits = List (Text × ℤ)

-- rmqConnection != nil, and queueHealthLimits
pub record Queues : Type 0 where
  pub connected : Bool
  pub limits : Limits

-- The end of initDefault, for the error of OpenConnectionWithRedisClient
unfoldable pub connect : Option Text → Queues → Queues × Option Text
connect none q = (record q { connected = true }, none)
connect (some e) q = (record q { connected = false }, some e)

unfoldable pub init_default : Option Text → Queues → Queues × Option Text
unfolding connect
init_default open_err q = if q.connected then (q, none) else connect open_err q

-- if _, ok := queueHealthLimits.Load(name); ok { … }
unfoldable pub store_limit : Text → ℤ → Option ℤ → Queues → Queues
store_limit name limit (some old) q = q
store_limit name limit none q = record q { limits = insert name limit q.limits }

unfoldable pub opened : Text → ℤ → Option Text → Queues → Queues × Option Text
unfolding store_limit
opened name limit (some e) q = (q, some e)
opened name limit none q = (store_limit name limit (lookup name q.limits) q, none)

abbrev pub unless_error :
    Queues × Option Text → (Queues → Queues × Option Text) → Queues × Option Text
unless_error (q, some e) go = (q, some e)
unless_error (q, none) go = go q

-- NewQueue, for the errors of opening the connection and the queue; its error
unfoldable pub new_queue : Text → ℤ → Option Text → Option Text → Queues → Queues × Option Text
unfolding init_default opened
new_queue name limit open_err queue_err q =
    unless_error (init_default open_err q) (opened name limit queue_err)

-- stats.QueueStats[name].ReadyCount; a queue without statistics has none ready.
abbrev pub ready_count : Option ℤ → ℤ
ready_count none = pos 0
ready_count (some n) = n

-- A call of HealthCheck: the clock when it starts and when a result is stored, IgnoreInterval, the
-- error of GetOpenQueues, and the error or the counts of CollectStats.
pub record Call : Type 0 where
  pub now : ℤ
  pub stored : ℤ
  pub ignore_interval : Bool
  pub queues_err : Option Text
  pub stats : Result Text (List (Text × ℤ))

abbrev pub exceeds : List (Text × ℤ) → Text → ℤ → Bool
exceeds stats name limit = ltb_ℤ limit (ready_count (lookup name stats))

abbrev pub limit_error : Text → ℤ → Text
limit_error name limit =
    codes "Queue '"
    ++ name
    ++ codes "' exceeded safe health limit of '"
    ++ format_int limit
    ++ codes "'"

-- The function that Range calls
unfoldable pub range_limits : Limits → List (Text × ℤ) → ℤ → ConnectionState → ConnectionState
range_limits [] stats stored cs = cs
range_limits ((name, limit) ∷ limits) stats stored cs =
    let rest = range_limits limits stats stored (set_healthy stored cs) in
    if exceeds stats name limit then set_error_state (limit_error name limit) stored cs else rest

unfoldable pub collect :
    Limits → Call → Result Text (List (Text × ℤ)) → ConnectionState → ConnectionState
unfolding range_limits
collect limits c (err e) cs =
    set_error_state (codes "error while collecting stats: " ++ e) c.stored cs
collect limits c (ok stats) cs = range_limits limits stats c.stored cs

unfoldable pub query : Limits → Call → Option Text → ConnectionState → ConnectionState
unfolding collect
query limits c (some e) cs =
    set_error_state (codes "error while retrieving open queues: " ++ e) c.stored cs
query limits c none cs = collect limits c c.stats cs

-- HealthCheck, whose result is that of the state
unfoldable pub health_check : ℤ → Limits → Call → ConnectionState → ConnectionState
unfolding query
health_check ttl limits c cs =
    if not c.ignore_interval && is_fresh ttl c.now cs then cs else query limits c c.queues_err cs
