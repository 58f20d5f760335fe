-- ===== src/Transport/Dependency.antt =====
-- http/transport/external_dependency_round_tripper.go: what a client learns of the dependencies of
-- the service that it calls.
use mathlib.Core.List.{append-nil}
use bricks.Prelude.{
  ◌≡◌, refl, sym, ap, ◌∙◌, ◌≢◌, false, List, [], ◌∷◌, ◌++◌, Option, none, some, map, All,
  if◌then◌else◌,
}
use bricks.Prelude.Int.{ℤ}
use bricks.Prelude.Text.{Text, is_empty}
use bricks.Middleware.Dependency.{
  ExternalDependency, ExternalDependencyContext, add_dependency, dependency_string, string, parse,
  Call, external_dependency, write_dependencies,
}
use bricks.Middleware.Dependency.Report.{
  Known, unwritten, known, at_first_write, reported, external_dependency-reported,
}
use bricks.Middleware.Dependency.RoundTrip.{IsReportable, in_milliseconds, parse-string}

unfoldable pub add_named : ExternalDependencyContext → Text → ℤ → ExternalDependencyContext
add_named ec name elapsed = if is_empty name then ec else add_dependency ec name elapsed

-- `resp` is the value of the header External-Dependencies, empty if the response has none; no
-- response (nil) is `none`.
unfoldable pub parse_response : ExternalDependencyContext → Option Text → ExternalDependencyContext
parse_response ec none = ec
parse_response ec (some header) = if is_empty header then ec else parse ec header

-- What RoundTrip does to the dependencies in the request's context, if that has any (nil: `none`).
unfoldable pub round_trip :
    Text → ℤ → Option Text → Option ExternalDependencyContext → Option ExternalDependencyContext
unfolding add_named parse_response
round_trip name elapsed resp none = none
round_trip name elapsed resp (some ec) = some (parse_response (add_named ec name elapsed) resp)

-- resp.Header.Get
unfoldable pub first_header : List Text → Text
first_header [] = []
first_header (h ∷ hs) = h

-- The dependencies that are reported.
abbrev pub known_list : Known → ExternalDependencyContext
known_list unwritten = []
known_list (known c) = c

starts : (n s t : Text) → is_empty ((n ++ 58 ∷ s) ++ t) ≡ false
unfolding is_empty
starts [] s t = refl
starts (c ∷ n) s t = refl

string_nonempty :
    (d : ExternalDependency) (ds : List ExternalDependency) → is_empty (string (d ∷ ds)) ≡ false
unfolding string write_dependencies dependency_string
string_nonempty d ds = starts d.name _ _

parse_response-reported :
    (c : ExternalDependencyContext) (k : Known)
    → All IsReportable (known_list k)
    → parse_response c (some (first_header (reported k))) ≡ c ++ map in_milliseconds (known_list k)
unfolding parse_response first_header reported
parse_response-reported c unwritten h = unfold is_empty in sym (append-nil c)
parse_response-reported c (known []) h = unfold is_empty in sym (append-nil c)
parse_response-reported c (known (d ∷ ds)) h = rw (string_nonempty d ds) (parse-string c (d ∷ ds) h)

-- A client that has a name for the service, and whose request was served by the middleware of
-- ExternalDependency around a handler that made the calls and leaves the header to it, knows afterwards,
-- behind what it knew: the service with the elapsed time, then the dependencies that the handler had
-- added before it first wrote to the response, with their durations in whole milliseconds; provided
-- that the names of these have no comma and no colon.
pub round_trip-external_dependency :
    (ec : ExternalDependencyContext) (name : Text) (elapsed : ℤ) (cs : List Call)
    → name ≢ []
    → All IsReportable (known_list (at_first_write [] cs))
    → round_trip name elapsed (some (first_header (external_dependency cs).headers)) (some ec)
      ≡ some (
          (ec ++ record { name = name; duration = elapsed } ∷ [])
          ++ map in_milliseconds (known_list (at_first_write [] cs)))
unfolding round_trip add_named is_empty add_dependency
round_trip-external_dependency ec [] elapsed cs n h = absurd (n refl)
round_trip-external_dependency ec (c ∷ name) elapsed cs n h = ap some (
    ap
      (λ x.
        parse_response (ec ++ record { name = c ∷ name; duration = elapsed } ∷ [])
          (some (first_header x)))
      (external_dependency-reported cs)
    ∙ parse_response-reported (ec ++ record { name = c ∷ name; duration = elapsed } ∷ [])
        (at_first_write [] cs) h)
