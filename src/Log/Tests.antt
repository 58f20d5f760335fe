-- ===== src/Log/Tests.antt =====
-- Runs of the sink of maintenance/log/sink.go.
use bricks.Prelude.{
  arith, ◌↔◌, ◌⊎◌, ◌++◌, ℕ, ◌≡◌, refl, true, List, [], ◌∷◌, Option, none, some, length,
}
use bricks.Prelude.Int.{pos}
use bricks.Prelude.Text.{is_empty, Text, codes, join, has_prefix}
use bricks.Log.Ring.{write_string, get_content, new_string_ring}
use bricks.Log.Sink.{
  Sink, SinkOption, silenced, sized, new_sink, handler_with_sink, write_all, write, init_once,
  to_json, default_sink_size,
}
use bricks.Log.Sink.Laws.{Logged, handler_with_sink-Logged}
use bricks.Log.Remote.{is_private, v4_in_v6_prefix}
use bricks.Log.Remote.Private.{Within, number, is_private_iff}
use bricks.Log.RequestId.{Xid, request_id_handler, round_trip, context_transfer}
use bricks.Log.RequestId.Passed.{IsId, request_id_handler-round_trip}
use bricks.Runtime.Errors.{Response, get_header}

-- A log output that takes every byte.
abbrev accept : Text → ℕ × Option Text
accept b = (length b, none)

abbrev lines : List Text
lines = codes "a" ∷ codes "b" ∷ codes "c" ∷ codes "d" ∷ codes "e" ∷ []

abbrev two : List SinkOption
two = sized (pos 2) ∷ silenced ∷ []

abbrev content : Option (Sink × List Text) → Option Text
content none = none
content (some (s, out)) = to_json s

two_of_five : content (write_all accept (new_sink two) [] lines) ≡ some (codes "[d,e]")
unfolding write_all write init_once write_string get_content new_sink to_json join new_string_ring
two_of_five = refl

silent_health : (handler_with_sink (codes "/health" ∷ []) (codes "/health/check")).silent ≡ true
unfolding handler_with_sink has_prefix
silent_health = refl

handler_with_sink-Logged_example :
    Logged accept
      (handler_with_sink (codes "/health" ∷ []) (codes "/health/check"))
      default_sink_size
      lines
    × ((handler_with_sink (codes "/health" ∷ []) (codes "/health/check")).silent ≡ true)
unfolding has_prefix
handler_with_sink-Logged_example =
    handler_with_sink-Logged accept (codes "/health" ∷ []) (codes "/health/check") lines

is_private_iff_example : (is_private (v4_in_v6_prefix ++ 172 ∷ 31 ∷ 4 ∷ 9 ∷ []) ≡ true) ↔ (
    Within (number 172 31 4 9) (number 10 0 0 0) (number 10 255 255 255)
    ⊎ Within (number 172 31 4 9) (number 172 16 0 0) (number 172 31 255 255)
    ⊎ Within (number 172 31 4 9) (number 192 168 0 0) (number 192 168 255 255))
is_private_iff_example =
    is_private_iff 172 31 4 9 (omega arith) (omega arith) (omega arith) (omega arith)

-- Ids that are their texts, of which the empty one is nil
abbrev xid : Xid Text
xid = record { from_string = λ s. s; string = λ s. s; nil_id = []; is_nil = is_empty }

abbrev answer : Response
answer = record { header = []; sent = none; body = [] }

xid-IsId : IsId xid (codes "9m4e2mr0ui3e8a215n4g")
unfolding is_empty
xid-IsId = record { read_back = refl; not_nil = refl; written = refl }

request_id_handler-round_trip_example :
    (context_transfer xid
        (request_id_handler xid
          (round_trip xid (some (codes "9m4e2mr0ui3e8a215n4g")) (codes "x"))
          none
          (codes "new")
          answer).context
        none
      ≡ some (codes "9m4e2mr0ui3e8a215n4g"))
    × (get_header
          (codes "Request-Id")
          (request_id_handler xid
            (round_trip xid (some (codes "9m4e2mr0ui3e8a215n4g")) (codes "x"))
            none
            (codes "new")
            answer).response
        ≡ codes "9m4e2mr0ui3e8a215n4g")
request_id_handler-round_trip_example =
    request_id_handler-round_trip xid (codes "9m4e2mr0ui3e8a215n4g") (codes "x") none none
      (codes "new") answer xid-IsId
