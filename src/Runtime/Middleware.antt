-- ===== src/Runtime/Middleware.antt =====
-- http/jsonapi/middleware/error_middleware.go: the writer that turns what is written behind the status of
-- an error into an error of JSON API. A handler is the list of the calls that it makes on its writer.
pub mod Answer
pub mod Late
use bricks.Prelude.{
  ℕ, ◌==◌, leb, ltb, take, Bool, true, false, not, ◌&&◌, ◌||◌, List, [], ◌∷◌, ◌++◌, if◌then◌else◌,
}
use bricks.Prelude.Text.{Text, codes, text_eq, is_empty}
use bricks.Runtime.Errors.{
  Response, bytes, set_header, get_header, write_body, other, content_type, write_error,
}
use bricks.Runtime.Errors

pub record ErrorMiddleware : Type 0 where
  pub writer : Response
  pub status_code : ℕ
  pub has_err : Bool
  pub has_bytes : Bool

-- The calls of a handler. With a write comes what the writer behind returns if it is asked: how many
-- bytes it has taken, and whether it succeeded; one that fails can have taken some.
pub data Call : Type 0 where
  set : Text → Text → Call
  write_header : ℕ → Call
  write : Text → ℕ → Bool → Call

-- strings.Trim(s, "\n")
abbrev pub trim_left : Text → Text
trim_left [] = []
trim_left (c ∷ s) = let rest = trim_left s in if c == 10 then rest else c ∷ s

abbrev pub reverse : Text → Text
reverse [] = []
reverse (c ∷ s) = reverse s ++ c ∷ []

abbrev pub trim : Text → Text
trim s = reverse (trim_left (reverse (trim_left s)))

-- What Write does when it writes through
unfoldable pub write_through : Text → ℕ → Bool → ErrorMiddleware → ErrorMiddleware
write_through b n succeeds e = record {
  writer = write_body (bytes (take n b)) e.writer;
  status_code = e.status_code;
  has_err = e.has_err;
  has_bytes = e.has_bytes || (succeeds && ltb 0 n);
}

unfoldable pub send_error : Text → ErrorMiddleware → ErrorMiddleware
send_error b e = record {
  writer = (write_error e.status_code (other (trim b)) e.writer).0;
  status_code = e.status_code;
  has_err = true;
  has_bytes = e.has_bytes;
}

unfoldable pub is_converted : Text → ErrorMiddleware → Bool
is_converted accept e =
    leb 400 e.status_code
    && text_eq accept content_type
    && not (text_eq (get_header (codes "Content-Type") e.writer) content_type)

module _ (accept : Text) where
  -- Write
  unfoldable pub write_bytes : Text → ℕ → Bool → ErrorMiddleware → ErrorMiddleware
  unfolding write_through send_error is_converted
  write_bytes b n succeeds e =
      if e.has_err
      then e
      else if is_converted accept e
      then if e.has_bytes then e else send_error b e
      else write_through b n succeeds e

  -- WriteHeader, and the writer's own Header().Set
  unfoldable pub step : Call → ErrorMiddleware → ErrorMiddleware
  unfolding write_bytes
  step (set name value) e = record {
    writer = set_header name value e.writer;
    status_code = e.status_code;
    has_err = e.has_err;
    has_bytes = e.has_bytes;
  }
  step (write_header code) e = record {
    writer = Errors.write_header code e.writer;
    status_code = code;
    has_err = e.has_err;
    has_bytes = e.has_bytes;
  }
  step (write b n succeeds) e = write_bytes b n succeeds e

  unfoldable pub steps : List Call → ErrorMiddleware → ErrorMiddleware
  steps [] e = e
  steps (c ∷ calls) e = steps calls (step c e)

  -- Error
  unfoldable pub serve : List Call → Response → Response
  unfolding steps step
  serve calls w =
      (steps calls
        (record { writer = w; status_code = 0; has_err = false; has_bytes = false })).writer
