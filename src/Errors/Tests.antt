-- ===== src/Errors/Tests.antt =====
-- Runs of maintenance/errors.
use bricks.Prelude.{
  arith, ℕ, ◌≡◌, ◌⊎◌, refl, inl, inr, true, false, List, [], ◌∷◌, ◌++◌, Option, none, some,
  if◌then◌else◌,
}
use bricks.Prelude.Int.{ℤ, pos}
use bricks.Prelude.Text.{Text, codes, text_eq}
use bricks.Runtime.Errors.{Response}
use bricks.Errors.{
  Reports, Served, serve_recovered, Entry, string, number, Level, info_level, fatal_level,
  Breadcrumb, get_breadcrumbs, create_breadcrumb,
}
use bricks.Errors.Recovered.{outcome, serve_recovered-outcome}
use bricks.Errors.Crumbs.{get_breadcrumbs-Made, Keeps, Fails}
use bricks.Errors.Hide.{hide_error, canceled, plain, wraps, was_canceled, text_of, is_canceled}

abbrev response : Response
response = record { header = []; sent = none; body = [] }

abbrev panics : Response → Served
panics w = record { response = w; panic = some (codes "index out of range") }

abbrev no_reports : Reports
no_reports = record { panics = 0; events = [] }

serve_recovered-outcome_example :
    serve_recovered panics response no_reports ≡ outcome (panics response) no_reports
serve_recovered-outcome_example = serve_recovered-outcome panics response no_reports

abbrev parse_time : Text → Option ℤ
parse_time s = some (pos 5)

abbrev parse_level : Text → Option Level
parse_level s = if text_eq s (codes "fatal") then some fatal_level else some info_level

abbrev entries : List Entry
entries =
    ((codes "time", string (codes "now"))
      ∷ (codes "level", string (codes "fatal"))
      ∷ (codes "message", string (codes "m"))
      ∷ (codes "n", number (pos 3))
      ∷ [])
    ∷ []

get_breadcrumbs-Made_example :
    ((cs : List Breadcrumb) × (get_breadcrumbs parse_time parse_level (some (some entries))
        ≡ some cs)
      × Keeps parse_time parse_level entries cs)
    ⊎ ((get_breadcrumbs parse_time parse_level (some (some entries)) ≡ none)
        × Fails parse_time parse_level entries)
get_breadcrumbs-Made_example = get_breadcrumbs-Made parse_time parse_level entries

fatal_entry :
    get_breadcrumbs parse_time parse_level (some (some entries))
    ≡ some (
        record {
          category = [];
          level = codes "fatal";
          message = codes "m";
          timestamp = pos 5;
          typ = codes "error";
          values = (codes "n", number (pos 3)) ∷ [];
        }
        ∷ [])
unfolding get_breadcrumbs create_breadcrumb text_eq bricks.Prelude.Assoc.lookup
    bricks.Prelude.Assoc.remove bricks.Prelude.Text.is_empty
fatal_entry = refl

-- The text of the error stays if it ends with that of the context's error, and else grows.
text_kept :
    text_of (
      hide_error was_canceled
        (wraps (codes "query: context canceled") canceled)
        (some (plain 7 (codes "no rows"))))
    ≡ codes "no rows: query: context canceled"
unfolding hide_error text_of is_canceled bricks.Prelude.Text.trim_suffix text_eq
text_kept = refl

text_grows :
    text_of (hide_error was_canceled (wraps (codes "context canceled (query)") canceled) none)
    ≡ codes "context canceled (query)context canceled"
unfolding hide_error text_of is_canceled bricks.Prelude.Text.trim_suffix text_eq
text_grows = refl
