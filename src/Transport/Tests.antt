-- ===== src/Transport/Tests.antt =====
-- Runs of http/transport.
use bricks.Prelude.{
  arith, ℕ, ◌+◌, true, false, ◌≡◌, refl, List, [], ◌∷◌, ◌++◌, none, some, map, All,
}
use bricks.Prelude.Int.{ℤ, pos}
use bricks.Prelude.Result.{ok}
use bricks.Prelude.Text.{Text, codes, has_byte-Lacks, text_eq}
use bricks.Middleware.Dependency.{Call, write, add_external_dependency, external_dependency}
use bricks.Middleware.Dependency.Report.{at_first_write}
use bricks.Middleware.Dependency.RoundTrip.{IsReportable, in_milliseconds}
use bricks.Transport.Chain.{chain, final}
use bricks.Transport.Chain.Order.{round_trip-chain}
use bricks.Transport.Retry
use bricks.Transport.Retry.{Retries, give, send, Returned, Response, max_error, other, retry_failed}
use bricks.Transport.Dump
use bricks.Transport.Dump.{
  DumpRoundTripper, new_tripper, Dumps, any_enabled, contains_blacklisted_prefix, Fields,
  set_round_trip_options,
}
use bricks.Transport.Dump.Logged.{round_trip-IsMasked, IsMasked}
use bricks.Transport.Dependency.{
  round_trip, first_header, known_list, round_trip-external_dependency,
}

abbrev calls : List Call
calls = add_external_dependency (codes "db") (pos 7000000) ∷ write (codes "body") ∷ []

reportable : All IsReportable (known_list (at_first_write [] calls))
unfolding at_first_write
reportable = (
  record {
    no_comma = has_byte-Lacks 44 (codes "db") refl;
    no_colon = has_byte-Lacks 58 (codes "db") refl;
    is_duration = (omega arith, omega arith);
  },
  tt,
)

round_trip-external_dependency_example :
    round_trip
      (codes "api")
      (pos 9000000)
      (some (first_header (external_dependency calls).headers))
      (some [])
    ≡ some (
        ([] ++ record { name = codes "api"; duration = pos 9000000 } ∷ [])
        ++ map in_milliseconds (known_list (at_first_write [] calls)))
round_trip-external_dependency_example =
    round_trip-external_dependency [] (codes "api") (pos 9000000) calls (λ e. cc) reportable

-- The trippers that retry, trace and log.
round_trip-chain_example :
    bricks.Transport.Chain.round_trip 4 (chain (λ _. final) (7 ∷ 3 ∷ 5 ∷ []))
    ≡ some (7 ∷ 3 ∷ 5 ∷ [])
round_trip-chain_example =
    round_trip-chain (λ _. final) (7 ∷ 3 ∷ 5 ∷ [])
      (tt, (((λ e. omega arith), tt), (((λ e. omega arith), ((λ e. omega arith), tt)), tt)))

-- Every call fails, until the retries give up after two.
abbrev failure : Returned
failure = record { resp = none; err = some (other (codes "refused")) }

abbrev twice : Retries
twice = send (λ r. send (λ r'. give (record { resp = none; err = some max_error })))

abbrev fails : ℤ → ℕ → Returned × ℕ
fails attempt w = (failure, w + 1)

given_up :
    (Retry.round_trip fails twice 0).returned ≡ record { resp = none; err = some retry_failed }
unfolding Retry.round_trip Retry.as_max_error
given_up = refl

abbrev dumping : DumpRoundTripper
dumping = record new_tripper { dump_request = true; dump_response_hex = true }

abbrev dumps : Dumps
dumps = record {
  request = λ b. ok (codes "GET /");
  response = λ b. ok (codes "200");
  encode_hex = λ s. codes "0x" ++ s;
}

abbrev mask : Text → Text
mask s = codes "*"

abbrev logged_fields : Fields
logged_fields = (codes "request", codes "*") ∷ (codes "response-hex", codes "0x*") ∷ []

logged_event : Dump.round_trip dumping dumps mask (codes "http://a") true ≡ some logged_fields
unfolding Dump.round_trip any_enabled contains_blacklisted_prefix
logged_event = refl

round_trip-IsMasked_example :
    (any_enabled dumping ≡ true)
    × (contains_blacklisted_prefix (codes "http://a") dumping.blacklist_any ≡ false)
    × (true ≡ true)
    × All (IsMasked dumping dumps mask (codes "http://a")) logged_fields
round_trip-IsMasked_example =
    round_trip-IsMasked dumping dumps mask (codes "http://a") true logged_fields refl logged_event

options_set :
    set_round_trip_options (codes "request" ∷ codes "response-hex" ∷ []) new_tripper
    ≡ (dumping, none)
unfolding set_round_trip_options text_eq
options_set = refl
