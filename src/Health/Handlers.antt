-- ===== src/Health/Handlers.antt =====
-- maintenance/health/servicehealthcheck: the handlers of /health (health_handler.go), of
-- /health/check (health_handler_readable.go) and of /health/check.json (health_handler_json.go).
-- The order of the checks is that of the lists; Go's is random. The body of the JSON handler is the
-- map that it encodes.
pub mod Statuses
use bricks.Prelude.{ℕ, suc, ◌-◌, Bool, true, false, List, [], ◌∷◌, ◌++◌, if◌then◌else◌, length, ltb}
use bricks.Prelude.Text.{Text, codes, text_eq}
use bricks.Prelude.Decimal.{decimal}
use bricks.Prelude.Assoc.{insert}
use bricks.Health.{HealthCheckResult, err, ok, is_err, is_warn}
use bricks.Health.Registry.{Registry, checks_results}

abbrev pub Results : Type 0
Results = List (Text × HealthCheckResult)

-- fmt.Sprintf("%s: %s", name, res.Msg)
abbrev pub line : Text → HealthCheckResult → Text
line name res = name ++ codes ": " ++ res.msg

unfoldable pub errors : Results → List Text
errors [] = []
errors ((name, res) ∷ rs) =
    let rest = errors rs in if is_err res then line name res ∷ rest else rest

unfoldable pub warnings : Results → List Text
warnings [] = []
warnings ((name, res) ∷ rs) =
    let rest = warnings rs in
    if is_err res then rest else if is_warn res then line name res ∷ rest else rest

pub record Written : Type 0 where
  pub status : ℕ
  pub body : Text

unfoldable pub write_health : Results → Written
unfolding errors warnings
write_health rs =
    if ltb 0 (length (errors rs))
    then record {
      status = 503;
      body =
          codes "ERR: "
          ++ decimal (length (errors rs))
          ++ codes " errors and "
          ++ decimal (length (warnings rs))
          ++ codes " warnings";
    }
    else record { status = 200; body = ok }

unfoldable pub health_handler : Registry → Written
unfolding write_health
health_handler r = write_health (checks_results r.required)

-- Text filled up with spaces to a width in runes, for ASCII.
unfoldable pub spaces : ℕ → Text
spaces ℕ.zero = []
spaces (suc n) = 32 ∷ spaces n

unfoldable pub padded : ℕ → Text → Text
unfolding spaces
padded width s = s ++ spaces (width - length s)

unfoldable pub table : ℕ → Results → Text
unfolding padded
table width [] = []
table width ((name, res) ∷ rs) =
    padded width name
    ++ codes "   "
    ++ padded 3 res.state
    ++ codes "   "
    ++ res.msg
    ++ 10 ∷ table width rs

unfoldable pub status_after : ℕ → Results → ℕ
status_after status [] = status
status_after status ((name, res) ∷ rs) = status_after (if is_err res then 503 else status) rs

unfoldable pub readable_health_handler : Registry → Written
unfolding table status_after
readable_health_handler r = record {
  status = status_after 200 (checks_results r.required);
  body =
      codes "Required Services: \n"
      ++ table r.longest_check_name (checks_results r.required)
      ++ codes "Optional Services: \n"
      ++ table r.longest_check_name (checks_results r.optional);
}

pub record ServiceStats : Type 0 where
  pub status : Text
  pub required : Bool
  pub error : Text

unfoldable pub service_stats : Bool → HealthCheckResult → ServiceStats
service_stats required res = record {
  status = res.state;
  required = required;
  error = if is_err res then res.msg else [];
}

unfoldable pub add_stats : Bool → Results → List (Text × ServiceStats) → List (Text × ServiceStats)
unfolding service_stats
add_stats required [] m = m
add_stats required ((name, res) ∷ rs) m =
    add_stats required rs (insert name (service_stats required res) m)

pub record JsonWritten : Type 0 where
  pub status : ℕ
  pub check_response : List (Text × ServiceStats)

unfoldable pub json_health_handler : Registry → JsonWritten
unfolding status_after add_stats
json_health_handler r = record {
  status = status_after (status_after 200 (checks_results r.required)) (checks_results r.optional);
  check_response =
      add_stats false (checks_results r.optional) (add_stats true (checks_results r.required) []);
}
