-- ===== src/Runtime/Errors/Sent.antt =====
-- What a client is sent by WriteError.
use bricks.Prelude.{ℕ, ◌≡◌, refl, ap, List, [], ◌∷◌, ◌++◌, Option, none, some, map}
use bricks.Prelude.Text.{Text, codes, text_eq}
use bricks.Prelude.Assoc.{lookup, insert, lookup-insert}
use bricks.Prelude.Decimal.{decimal}
use bricks.Runtime.Errors.{
  or_empty, Error, set_http_status, set_id, set_header, write_header, write_body, Response, GoError,
  error_list, caller_error, content_type, get_header, document, first_sent, marked, write_error,
}

-- The error as the client sees it
abbrev pub seen : ℕ → Text → Error → Error
seen code req_id e = record {
  id = req_id;
  title = e.title;
  detail = e.detail;
  status = decimal code;
  code = e.code;
  source = e.source;
}

marked-seen :
    (code : ℕ) (req_id : Text) (es : List Error) → marked code req_id es ≡ map (seen code req_id) es
unfolding marked set_http_status set_id
marked-seen code req_id [] = refl
marked-seen code req_id (e ∷ es) = ap (◌∷◌ (seen code req_id e)) (marked-seen code req_id es)

-- The header with the content type
abbrev pub json_header : Response → List (Text × Text)
json_header w = insert (codes "Content-Type") content_type w.header

request_id_kept :
    (w : Response)
    → lookup (codes "Request-Id") (json_header w) ≡ lookup (codes "Request-Id") w.header
unfolding text_eq
request_id_kept w = lookup-insert (codes "Content-Type") (codes "Request-Id") content_type w.header

-- The status that is sent: the first one
abbrev pub answered : ℕ → Response → List Error → Response
answered code w es = record {
  header = json_header w;
  sent = first_sent w.sent (code, json_header w);
  body = w.body ++ document (map (seen code (get_header (codes "Request-Id") w)) es) ∷ [];
}

first_sent-twice :
    (o : Option (ℕ × List (Text × Text))) (c d : ℕ × List (Text × Text))
    → first_sent (first_sent o c) d ≡ first_sent o c
first_sent-twice none c d = refl
first_sent-twice (some s) c d = refl

-- Whatever the error is: it is written as a list of errors in its order, each with the text of the
-- status, the id that the response has in its header, and what else it had; the content type is set,
-- and the status is sent unless one was sent before. Of the caller, an error that is passed by pointer
-- or in a list is changed in the same way.
pub write_error_lem :
    (code : ℕ) (e : GoError) (w : Response)
    → ((write_error code e w).0 ≡ answered code w (error_list e))
      × ((write_error code e w).1
          ≡ caller_error e (map (seen code (get_header (codes "Request-Id") w)) (error_list e)))
unfolding write_error set_header write_header write_body
write_error_lem code e w =
    let same_id : or_empty (lookup (codes "Request-Id") (json_header w))
        ≡ get_header (codes "Request-Id") w =
      ap or_empty (request_id_kept w) in
    rw
      (
        same_id,
        marked-seen code (get_header (codes "Request-Id") w) (error_list e),
        first_sent-twice w.sent (code, json_header w) (200, json_header w),
      )
      (refl, refl)
