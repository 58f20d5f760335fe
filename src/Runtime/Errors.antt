-- ===== src/Runtime/Errors.antt =====
-- http/jsonapi/runtime/error.go. The source of an error maps names to texts; its meta information, which
-- the code here never sets, is left out. The encoding as JSON is one value of the body.
pub mod Sent
use bricks.Prelude.{
  ℕ, Bool, true, false, List, [], ◌∷◌, ◌++◌, Option, none, some, map, if◌then◌else◌,
}
use bricks.Prelude.Text.{Text, codes, join}
use bricks.Prelude.Assoc.{lookup, insert}
use bricks.Prelude.Decimal.{decimal}

pub record Error : Type 0 where
  pub id : Text
  pub title : Text
  pub detail : Text
  pub status : Text
  pub code : Text
  pub source : Option (List (Text × Text))

abbrev pub no_error : Error
no_error = record { id = []; title = []; detail = []; status = []; code = []; source = none }

-- setHTTPStatus and setID of one error
unfoldable pub set_http_status : ℕ → Error → Error
set_http_status code e = record {
  id = e.id;
  title = e.title;
  detail = e.detail;
  status = decimal code;
  code = e.code;
  source = e.source;
}

unfoldable pub set_id : Text → Error → Error
set_id id e = record {
  id = id;
  title = e.title;
  detail = e.detail;
  status = e.status;
  code = e.code;
  source = e.source;
}

-- Error.Error and Errors.Error
abbrev pub titles : List Error → List Text
titles [] = []
titles (e ∷ es) = e.title ∷ titles es

unfoldable pub message : List Error → Text
message es = join (titles es) 10

-- What was written to the client.
pub data Body : Type 0 where
  document : List Error → Body
  bytes : Text → Body

-- A http.ResponseWriter: its header, and the status and the header that were sent
pub record Response : Type 0 where
  pub header : List (Text × Text)
  pub sent : Option (ℕ × List (Text × Text))
  pub body : List Body

unfoldable pub set_header : Text → Text → Response → Response
set_header name value w = record {
  header = insert name value w.header;
  sent = w.sent;
  body = w.body;
}

abbrev pub first_sent :
    Option (ℕ × List (Text × Text)) → ℕ × List (Text × Text) → Option (ℕ × List (Text × Text))
first_sent none new = some new
first_sent (some old) new = some old

-- WriteHeader: only the first call has an effect.
unfoldable pub write_header : ℕ → Response → Response
write_header code w = record {
  header = w.header;
  sent = first_sent w.sent (code, w.header);
  body = w.body;
}

-- Write: it sends the header with 200 if that was not sent.
unfoldable pub write_body : Body → Response → Response
unfolding write_header
write_body b w = record {
  header = w.header;
  sent = first_sent w.sent (200, w.header);
  body = w.body ++ b ∷ [];
}

abbrev pub or_empty : Option Text → Text
or_empty none = []
or_empty (some v) = v

abbrev pub get_header : Text → Response → Text
get_header name w = or_empty (lookup name w.header)

-- A Go error: the three types that WriteError tells apart, or the text of another
pub data GoError : Type 0 where
  value pointer : Error → GoError
  errors : List Error → GoError
  other : Text → GoError

unfoldable pub error_list : GoError → List Error
error_list (value e) = e ∷ []
error_list (pointer e) = e ∷ []
error_list (errors es) = es
error_list (other text) = record no_error { title = text } ∷ []

-- The caller's error behind a call, which changes what it points to
unfoldable pub caller_error : GoError → List Error → GoError
caller_error (value e) es = value e
caller_error (pointer e) [] = pointer e
caller_error (pointer e) (f ∷ es) = pointer f
caller_error (errors es) fs = errors fs
caller_error (other text) es = other text

abbrev pub content_type : Text
content_type = codes "application/vnd.api+json"

-- The errors with the status and the request's id
unfoldable pub marked : ℕ → Text → List Error → List Error
marked code req_id es = map (set_id req_id) (map (set_http_status code) es)

-- WriteError, and the caller's error behind it
unfoldable pub write_error : ℕ → GoError → Response → Response × GoError
unfolding error_list marked
write_error code e w =
    let w' = write_header code (set_header (codes "Content-Type") content_type w) in
    let es = marked code (get_header (codes "Request-Id") w') (error_list e) in
    (write_body (document es) w', caller_error e es)
