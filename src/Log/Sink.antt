-- ===== src/Log/Sink.antt =====
-- The type Sink of maintenance/log/sink.go. The log output, an io.Writer, is a parameter: the reply
-- to a write. What was passed on to it is kept beside the sink. The lock is not modelled: a write
-- is one step.
pub mod Laws
use bricks.Prelude.{
  ℕ, ◌++◌, ◌==◌, Bool, true, false, List, [], ◌∷◌, Option, none, some, length, if◌then◌else◌,
}
use bricks.Prelude.Int.{ℤ, pos, pos_part, ltb_ℤ}
use bricks.Prelude.Text.{Text, codes, join, has_prefix}
use bricks.Log.Ring.{StringRing, new_string_ring, write_string, get_content}

pub record Sink : Type 0 where
  pub silent : Bool
  pub custom_size : ℤ
  pub ring : StringRing
  pub init_done : Bool
  pub has_output : Bool

abbrev pub default_sink_size : ℕ
default_sink_size = 1000

-- The zero value of the type.
abbrev pub zero_sink : Sink
zero_sink = record {
  silent = false;
  custom_size = pos 0;
  ring = record { items = []; next_pos = 0; size = 0 };
  init_done = false;
  has_output = false;
}

pub data SinkOption : Type 0 where
  silenced : SinkOption
  sized : ℤ → SinkOption

apply_options : List SinkOption → Sink → Sink
apply_options [] s = s
apply_options (silenced ∷ opts) s = apply_options opts (record s { silent = true })
apply_options (sized n ∷ opts) s = apply_options opts (record s { custom_size = n })

abbrev pub sink_size : Sink → ℕ
sink_size s = if ltb_ℤ (pos 0) s.custom_size then pos_part s.custom_size else default_sink_size

unfoldable pub new_sink : List SinkOption → Sink
unfolding apply_options
new_sink opts =
    let s = apply_options opts zero_sink in record s { ring = new_string_ring (sink_size s) }

-- The sink that handlerWithSink puts into the context of a request for the path.
silent_from : List Text → Text → Sink → Sink
silent_from [] path s = s
silent_from (prefix ∷ ps) path s =
    silent_from ps path (if has_prefix path prefix then record s { silent = true } else s)

unfoldable pub handler_with_sink : List Text → Text → Sink
unfolding silent_from
handler_with_sink prefixes path = silent_from prefixes path zero_sink

init_buffer : Sink → Sink
init_buffer s =
    if s.ring.size == 0
    then record s {
      ring = record { items = s.ring.items; next_pos = s.ring.next_pos; size = default_sink_size };
    }
    else s

-- s.init.Do(s.initBuffer)
unfoldable pub init_once : Sink → Sink
unfolding init_buffer
init_once s = if s.init_done then s else record (init_buffer s) { init_done = true }

pub record Written : Type 0 where
  pub sink : Sink
  pub passed_on : List Text
  pub n : ℕ
  pub err : Option Text

module _ (log_output : Text → ℕ × Option Text) where
  hand_over : Sink → List Text → Text → Written
  hand_over s out b =
      if s.silent then record { sink = s; passed_on = out; n = length b; err = none } else record {
        sink = s;
        passed_on = out ++ b ∷ [];
        n = (log_output b).0;
        err = (log_output b).1;
      }

  store : Sink → List Text → Text → Option StringRing → Option Written
  store s out b none = none
  store s out b (some ring) = some (hand_over (record s { ring = ring; has_output = true }) out b)

  unfoldable pub write : Sink → List Text → Text → Option Written
  unfolding store hand_over
  write s out b = let t = init_once s in store t out b (write_string t.ring b)

  -- The writes of a request, one after the other.
  unfoldable pub write_all : Sink → List Text → List Text → Option (Sink × List Text)
  write_all s out [] = some (s, out)
  write_all s out (b ∷ bs) = elim (write s out b) [
    | none ↦ none
    | some w ↦ write_all w.sink w.passed_on bs
  ]

bracketed : Option (List Text) → Option Text
bracketed none = none
bracketed (some parts) = some (codes "[" ++ (join parts b',' ++ codes "]"))

unfoldable pub to_json : Sink → Option Text
unfolding bracketed
to_json s = bracketed (get_content s.ring)
