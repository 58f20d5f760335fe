-- ===== src/Errors.antt =====
-- maintenance/errors: the middleware that recovers from panics, the request in a context, and
-- the breadcrumbs of a report to sentry. The client of sentry, time.Parse and zerolog.ParseLevel are
-- parameters; what is logged is left out.
pub mod Recovered
pub mod Crumbs
pub mod Hide
mod Tests
use bricks.Prelude.{
  ℕ, ◌+◌, Bool, true, false, not, ◌&&◌, List, [], ◌∷◌, ◌++◌, Option, none, some, if◌then◌else◌,
}
use bricks.Prelude.Int.{ℤ}
use bricks.Prelude.Text.{Text, codes, text_eq, is_empty}
use bricks.Prelude.Assoc.{lookup, remove}
use bricks.Prelude.Result.{Result, ok, err, ◌>>=◌}
use bricks.Runtime.Errors.{Response, other, write_error}

-- A value of a panic or an error that is reported, by its text; PanicWrap wraps the one of a panic.
pub data Reported : Type 0 where
  plain : Text → Reported
  panic_wrap : Text → Reported

-- What is sent to sentry: the name of the handler and the text
pub record Event : Type 0 where
  pub handler_name : Text
  pub text : Text

-- paceHTTPPanicCounter and the events that were sent
pub record Reports : Type 0 where
  pub panics : ℕ
  pub events : List Event

abbrev pub unwrapped : Reported → Text
unwrapped (plain text) = text
unwrapped (panic_wrap text) = text

unfoldable pub send_event : Text → Text → Reports → Reports
send_event handler_name text r = record {
  panics = r.panics;
  events = r.events ++ record { handler_name = handler_name; text = text } ∷ [];
}

abbrev pub internal_server_error : Text
internal_server_error = codes "Internal Server Error"

-- HandleError
unfoldable pub handle_error : Reported → Text → Response → Reports → Response × Reports
unfolding send_event
handle_error rp handler_name w r =
    ((write_error 500 (other internal_server_error) w).0, send_event handler_name (unwrapped rp) r)

-- Handle
unfoldable pub handle : Reported → Reports → Reports
unfolding send_event
handle rp r = send_event [] (unwrapped rp) r

abbrev pub count_panic : Reports → Reports
count_panic r = record { panics = r.panics + 1; events = r.events }

-- HandleRequest, for the value that recover gives
unfoldable pub handle_request : Option Text → Text → Response → Reports → Response × Reports
unfolding handle_error
handle_request none handler_name w r = (w, r)
handle_request (some text) handler_name w r =
    handle_error (panic_wrap text) handler_name w (count_panic r)

-- HandleWithCtx
unfoldable pub handle_with_ctx : Option Text → Text → Reports → Reports
unfolding send_event
handle_with_ctx none handler_name r = r
handle_with_ctx (some text) handler_name r = send_event handler_name text r

-- What a handler comes to: the response behind it, and the value of its panic if it panics. Go 1.19
-- recovers nil from panic(nil), for which HandleRequest does what it does without a panic: it is `none`.
pub record Served : Type 0 where
  pub response : Response
  pub panic : Option Text

-- recoveryHandler.ServeHTTP
unfoldable pub serve_recovered : (Response → Served) → Response → Reports → Response × Reports
unfolding handle_request
serve_recovered next w r =
    let s = next w in handle_request s.panic (codes "rootHandler") s.response r

-- ContextTransfer, on the requests in the two contexts
unfoldable pub context_transfer {ℓ} : {R : Type ℓ} → Option R → Option R → Option R
context_transfer (some r) target = some r
context_transfer none target = target

-- A value of a log entry
pub data Value : Type 0 where
  string : Text → Value
  number : ℤ → Value
  nested : List Text → Value

abbrev pub Entry : Type 0
Entry = List (Text × Value)

-- zerolog.Level
pub data Level : Type 0 where
  trace_level debug_level info_level warn_level error_level fatal_level panic_level : Level
  no_level disabled : Level

pub record Breadcrumb : Type 0 where
  pub category : Text
  pub level : Text
  pub message : Text
  pub timestamp : ℤ
  pub typ : Text
  pub values : Entry

-- v.(string), where a missing key is no string
abbrev pub as_string : Text → Option Value → Result Text Text
as_string name (some (string s)) = ok s
as_string name (some (number n)) = err (codes "cannot parse " ++ name)
as_string name (some (nested vs)) = err (codes "cannot parse " ++ name)
as_string name none = err (codes "cannot parse " ++ name)

-- The same, where a missing key is the empty string
abbrev pub as_optional_string : Text → Option Value → Result Text Text
as_optional_string name none = ok []
as_optional_string name (some v) = as_string name (some v)

abbrev pub or_error {ℓ} : {A : Type ℓ} → Text → Option A → Result Text A
or_error name none = err (codes "cannot parse " ++ name)
or_error name (some a) = ok a

-- translateZerologLevelToSentryLevel
unfoldable pub translate_level : Option Level → Option Text
translate_level none = none
translate_level (some trace_level) = some (codes "info")
translate_level (some info_level) = some (codes "info")
translate_level (some debug_level) = some (codes "debug")
translate_level (some warn_level) = some (codes "warning")
translate_level (some error_level) = some (codes "error")
translate_level (some fatal_level) = some (codes "fatal")
translate_level (some panic_level) = some (codes "fatal")
translate_level (some no_level) = some []
translate_level (some disabled) = some []

abbrev pub error_type : Text → Text → Text
error_type typ level = if is_empty typ && text_eq level (codes "fatal") then codes "error" else typ

-- The keys in the order in which they are taken out
abbrev pub consumed : List Text
consumed =
    codes "req_id"
    ∷ codes "time"
    ∷ codes "level"
    ∷ codes "message"
    ∷ codes "sentry:category"
    ∷ codes "sentry:type"
    ∷ []

-- delete(data, key), for each of the keys
abbrev pub remove_all : List Text → Entry → Entry
remove_all [] d = d
remove_all (k ∷ ks) d = remove_all ks (remove k d)

abbrev pub with_values : Entry → Result Text Breadcrumb → Result Text Breadcrumb
with_values values (err e) = err e
with_values values (ok crumb) = ok (record crumb { values = values })

abbrev pub collect : Result Text Breadcrumb → Option (List Breadcrumb) → Option (List Breadcrumb)
collect (err e) rest = none
collect (ok crumb) none = none
collect (ok crumb) (some crumbs) = some (crumb ∷ crumbs)

module _ (parse_time : Text → Option ℤ) (parse_level : Text → Option Level) where
  -- What createBreadcrumb reads of the map, of which it has taken out what it read before.
  unfoldable pub read_breadcrumb : Entry → Result Text Breadcrumb
  unfolding translate_level
  read_breadcrumb d0 =
      let d1 = remove (codes "time") d0 in
      let d2 = remove (codes "level") d1 in
      let d3 = remove (codes "message") d2 in
      let d4 = remove (codes "sentry:category") d3 in
      do
        time_raw ← as_string (codes "time") (lookup (codes "time") d0)
        time ← or_error (codes "time") (parse_time time_raw)
        level_raw ← as_string (codes "level") (lookup (codes "level") d1)
        level ← or_error (codes "level") (translate_level (parse_level level_raw))
        message ← as_string (codes "message") (lookup (codes "message") d2)
        category ← as_optional_string (codes "category") (lookup (codes "sentry:category") d3)
        typ ← as_optional_string (codes "type") (lookup (codes "sentry:type") d4)
        ok (record {
          category = category;
          level = level;
          message = message;
          timestamp = time;
          typ = error_type typ level;
          values = [];
        })

  -- createBreadcrumb: its values are what is left of the map.
  unfoldable pub create_breadcrumb : Entry → Result Text Breadcrumb
  unfolding read_breadcrumb
  create_breadcrumb entry =
      with_values (remove_all consumed entry) (read_breadcrumb (remove (codes "req_id") entry))

  -- The loop of getBreadcrumbs: one failure drops all; `none` is nil.
  unfoldable pub create_breadcrumbs : List Entry → Option (List Breadcrumb)
  create_breadcrumbs [] = some []
  create_breadcrumbs (entry ∷ entries) =
      collect (create_breadcrumb entry) (create_breadcrumbs entries)

  -- getBreadcrumbs, for the sink of the context and what json.Unmarshal makes of its JSON
  unfoldable pub get_breadcrumbs : Option (Option (List Entry)) → Option (List Breadcrumb)
  unfolding create_breadcrumbs
  get_breadcrumbs none = none
  get_breadcrumbs (some none) = none
  get_breadcrumbs (some (some entries)) = create_breadcrumbs entries
