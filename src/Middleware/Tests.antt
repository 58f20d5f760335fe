-- ===== src/Middleware/Tests.antt =====
-- Runs of http/middleware.
use bricks.Prelude.{
  Option, none, some, if◌then◌else◌, arith, ◌≡◌, refl, ◌≢◌, Bool, true, false, List, [], ◌∷◌, ◌++◌,
  map, All,
}
use bricks.Prelude.Int.{ℤ, pos, negsuc, ◌*ℤ◌}
use bricks.Runtime.Errors.{Response}
use bricks.Prelude.Text.{text_eq, is_empty, has_prefix, codes, has_byte-Lacks}
use bricks.Prelude.Decimal.{format_int, decimal, digits}
use bricks.Middleware.Dependency.{
  ExternalDependency, string, parse, Call, write, write_header, add_external_dependency,
  external_dependency, serve, step, add_header, add_dependency, write_dependencies,
  dependency_string, milliseconds,
}
use bricks.Middleware.Dependency.RoundTrip.{IsReportable, in_milliseconds, parse-string}
use bricks.Log.Remote as Remote
use bricks.Middleware.Forwarded.{get_x_forwarded_for_header_from_context, request_in_context}
use bricks.Middleware.Forwarded.Received.{
  IsPublic, proxy_aware_remote-get_x_forwarded_for_header_from_context,
}
use bricks.Middleware.Metrics as Metrics

abbrev redis : ExternalDependency
redis = record { name = codes "redis"; duration = pos 2999999 }

abbrev clock : ExternalDependency
clock = record { name = codes "clock"; duration = negsuc 4500000 }

abbrev calls : List Call
calls =
    add_external_dependency (codes "redis") (pos 2999999)
    ∷ write_header 200
    ∷ add_external_dependency (codes "late") (pos 1)
    ∷ write (codes "body")
    ∷ []

string_run : string (redis ∷ clock ∷ []) ≡ codes "redis:2,clock:-4"
unfolding string write_dependencies dependency_string milliseconds format_int decimal digits
    bricks.Prelude.Int.◌-ℤ◌
string_run = refl

calls_run : (external_dependency calls).headers ≡ codes "redis:2" ∷ []
unfolding external_dependency serve step add_header add_dependency string write_dependencies
    dependency_string milliseconds format_int decimal digits
calls_run = refl

reportable : All IsReportable (redis ∷ clock ∷ [])
reportable = (
  record {
    no_comma = has_byte-Lacks 44 (codes "redis") refl;
    no_colon = has_byte-Lacks 58 (codes "redis") refl;
    is_duration = (omega arith, omega arith);
  },
  (
    record {
      no_comma = has_byte-Lacks 44 (codes "clock") refl;
      no_colon = has_byte-Lacks 58 (codes "clock") refl;
      is_duration = (omega arith, omega arith);
    },
    tt,
  ),
)

parse-string_example :
    parse (clock ∷ []) (string (redis ∷ clock ∷ []))
    ≡ (clock ∷ []) ++ map in_milliseconds (redis ∷ clock ∷ [])
parse-string_example = parse-string (clock ∷ []) (redis ∷ clock ∷ []) reportable

abbrev net : Remote.Net
net = record {
  parse_ip = λ s.
      if text_eq s (codes "84.5.6.7")
      then some (Remote.v4_in_v6_prefix ++ 84 ∷ 5 ∷ 6 ∷ 7 ∷ [])
      else none;
  is_global_unicast = λ ip. true;
  split_host_port = λ s.
      if text_eq s (codes "84.5.6.7:4000") then some (codes "84.5.6.7", codes "4000") else none;
}

abbrev behind_proxy : Remote.Request
behind_proxy = record {
  header = λ h. if text_eq h (codes "X-Forwarded-For") then codes "10.1.1.1, unknown" else [];
  remote_addr = codes "84.5.6.7:4000";
}

abbrev passed_on : Remote.Request
passed_on = record {
  header =
      λ h. if text_eq h (codes "X-Forwarded-For") then codes "10.1.1.1, unknown, 84.5.6.7" else [];
  remote_addr = codes "10.0.0.9:1";
}

public : IsPublic net (codes "84.5.6.7")
unfolding Remote.address text_eq Remote.is_private has_prefix
public = record { no_comma = has_byte-Lacks 44 (codes "84.5.6.7") refl; good = refl }

proxy_aware_remote_example : Remote.proxy_aware_remote net passed_on ≡ codes "84.5.6.7"
unfolding get_x_forwarded_for_header_from_context request_in_context is_empty text_eq
proxy_aware_remote_example =
    proxy_aware_remote-get_x_forwarded_for_header_from_context net behind_proxy passed_on
      (codes "84.5.6.7") (codes "4000") (codes "10.1.1.1, unknown, 84.5.6.7") refl public refl refl

abbrev answer : Response
answer = record { header = []; sent = none; body = [] }

-- A handler that makes no call is counted under the status 0.
metrics_of_no_call : (Metrics.metrics (codes "GET") [] [] answer).counted.code ≡ codes "0"
unfolding Metrics.metrics Metrics.steps format_int decimal digits
metrics_of_no_call = refl
