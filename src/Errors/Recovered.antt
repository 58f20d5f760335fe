-- ===== src/Errors/Recovered.antt =====
-- What a client and sentry see of a handler that panics.
use bricks.Prelude.{◌+◌, ◌≡◌, refl, [], ◌∷◌, ◌++◌, Option, none, some}
use bricks.Prelude.Text.{Text, codes}
use bricks.Runtime.Errors.{Response, no_error, other, error_list}
use bricks.Runtime.Errors.Sent.{answered, write_error_lem}
use bricks.Errors.{
  Reports, Served, internal_server_error, serve_recovered, handle_request, handle_error, send_event,
}

-- The response and the reports that a handler leaves, by what it comes to
abbrev pub outcome : Served → Reports → Response × Reports
outcome s r = elim s.panic [
  | none ↦ (s.response, r)
  | some text ↦ (
    answered 500 s.response (record no_error { title = internal_server_error } ∷ []),
    record {
      panics = r.panics + 1;
      events = r.events ++ record { handler_name = codes "rootHandler"; text = text } ∷ [];
    },
  )
]

by_panic :
    (panic : Option Text) (w : Response) (r : Reports)
    → handle_request panic (codes "rootHandler") w r
      ≡ outcome (record { response = w; panic = panic }) r
unfolding handle_request handle_error send_event error_list
by_panic none w r = refl
by_panic (some text) w r = rw (write_error_lem 500 (other internal_server_error) w).0 refl

-- The middleware lets no panic pass. A handler that returns has its response as it is and no report; one
-- that panics, other than with nil, is counted, its panic is reported once with its own value, and the client is answered
-- with the error of an internal server error, behind what the handler had written: the status is 500
-- unless the handler had sent one.
pub serve_recovered-outcome :
    (next : Response → Served) (w : Response) (r : Reports)
    → serve_recovered next w r ≡ outcome (next w) r
unfolding serve_recovered
serve_recovered-outcome next w r = by_panic (next w).panic (next w).response r
