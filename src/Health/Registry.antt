-- ===== src/Health/Registry.antt =====
-- maintenance/health/servicehealthcheck/healthcheck.go: the registered checks, by their names.
pub mod Names
use bricks.Prelude.{
  ℕ, Bool, true, false, List, [], ◌∷◌, Option, none, some, if◌then◌else◌, length, ltb, map, ◌||◌,
}
use bricks.Prelude.Text.{Text}
use bricks.Prelude.Assoc.{lookup, insert}
use bricks.Health.{ConnectionState, HealthCheckResult, zero_state, get_state}

abbrev pub Checks : Type 0
Checks = List (Text × ConnectionState)

-- requiredChecks, optionalChecks and longestCheckName, and the names of the goroutines that were
-- started, the last one first
pub record Registry : Type 0 where
  pub required : Checks
  pub optional : Checks
  pub longest_check_name : ℕ
  pub background : List Text

abbrev pub no_checks : Registry
no_checks = record { required = []; optional = []; longest_check_name = 20; background = [] }

abbrev pub is_some : Option ConnectionState → Bool
is_some none = false
is_some (some s) = true

-- _, ok := checks.Load(name)
unfoldable pub is_registered : Text → Checks → Bool
is_registered name checks = is_some (lookup name checks)

-- Which of the two lists a check is added to.
pub data Kind : Type 0 where
  is_required is_optional : Kind

unfoldable pub store_check : Kind → Text → Registry → Registry
store_check is_required name r = record r { required = insert name zero_state r.required }
store_check is_optional name r = record r { optional = insert name zero_state r.optional }

unfoldable pub widen : Text → Registry → Registry
widen name r =
    if ltb r.longest_check_name (length name)
    then record r { longest_check_name = length name }
    else r

-- go func() { ... }
unfoldable pub start_check : Text → Registry → Registry
start_check name r = record r { background = name ∷ r.background }

-- registerHealthCheck, with the start of the check in the background; what that goroutine does is
-- Health.Background.
unfoldable pub register_health_check : Kind → Text → Registry → Registry
unfolding is_registered store_check widen start_check
register_health_check kind name r =
    if is_registered name r.required
    then r
    else if is_registered name r.optional
    then r
    else start_check name (store_check kind name (widen name r))

unfoldable pub register_all : List (Kind × Text) → Registry → Registry
register_all [] r = r
register_all ((kind, name) ∷ rest) r = register_all rest (register_health_check kind name r)

unfoldable pub checks_results : Checks → List (Text × HealthCheckResult)
unfolding get_state
checks_results [] = []
checks_results ((name, s) ∷ checks) = (name, get_state s) ∷ checks_results checks
