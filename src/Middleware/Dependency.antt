-- ===== src/Middleware/Dependency.antt =====
-- http/middleware/external_dependency.go: the report of the external dependencies of a request.
pub mod Report
pub mod RoundTrip
use bricks.Prelude.{
  ℕ, zero, suc, ◌-◌, ◌/◌, ◌<◌, Bool, true, false, not, List, [], ◌∷◌, ◌++◌, Option, none, some,
  if◌then◌else◌, length, ltb, ◌==◌,
}
use bricks.Prelude.Int.{ℤ, pos, negsuc, ◌-ℤ◌, ◌*ℤ◌}
use bricks.Prelude.Text.{Text, split}
use bricks.Prelude.Decimal.{format_int, parse_int}
use bricks.Prelude.Time.{wrap}

-- A duration is in nanoseconds.
pub record ExternalDependency : Type 0 where
  pub name : Text
  pub duration : ℤ

abbrev pub ExternalDependencyContext : Type 0
ExternalDependencyContext = List ExternalDependency

unfoldable pub add_dependency : ExternalDependencyContext → Text → ℤ → ExternalDependencyContext
add_dependency c name duration = c ++ record { name = name; duration = duration } ∷ []

-- d.Milliseconds(), rounded towards zero
unfoldable pub milliseconds : ℤ → ℤ
milliseconds (pos n) = pos (n / 1000000)
milliseconds (negsuc n) = pos 0 -ℤ pos (suc n / 1000000)

-- externalDependency.String
unfoldable pub dependency_string : ExternalDependency → Text
unfolding milliseconds
dependency_string r = r.name ++ 58 ∷ format_int (milliseconds r.duration)

-- The loop of String, with `sep` commas left to write; none are left below one.
unfoldable pub write_dependencies : ℕ → List ExternalDependency → Text
unfolding dependency_string
write_dependencies sep [] = []
write_dependencies sep (dep ∷ deps) =
    let rest = write_dependencies (sep - 1) deps in
    dependency_string dep ++ (if ltb 0 sep then 44 ∷ rest else rest)

-- ExternalDependencyContext.String. Without dependencies `sep` is -1 in the source, and unused.
unfoldable pub string : ExternalDependencyContext → Text
unfolding write_dependencies
string c = write_dependencies (length c - 1) c

-- What is before the first byte of the kind, and behind it.
unfoldable pub cut_at : ℕ → Text → Option (Text × Text)
cut_at b [] = none
cut_at b (c ∷ s) = let rest = cut_at b s in if c == b then some ([], s) else in_front c rest
  where
    in_front : ℕ → Option (Text × Text) → Option (Text × Text)
    in_front c none = none
    in_front c (some (p, q)) = some (c ∷ p, q)

unfoldable pub add_parsed : ExternalDependencyContext → Text → Option ℤ → ExternalDependencyContext
add_parsed c name none = c
add_parsed c name (some dur) = add_dependency c name (wrap (pos 1000000 *ℤ dur))

unfoldable pub add_value :
    ExternalDependencyContext → Option (Text × Text) → ExternalDependencyContext
unfolding add_parsed
add_value c none = c
add_value c (some (name, dur)) = add_parsed c name (parse_int dur)

unfoldable pub parse_values : ExternalDependencyContext → List Text → ExternalDependencyContext
unfolding add_value cut_at
parse_values c [] = c
parse_values c (value ∷ values) = parse_values (add_value c (cut_at 58 value)) values

unfoldable pub parse : ExternalDependencyContext → Text → ExternalDependencyContext
unfolding parse_values
parse c s = parse_values c (split s 44)

-- externalDependencyWriter: its flag and the dependencies that it reports, with the values that
-- it has added of the header External-Dependencies, and what it has passed on.
pub data Passed : Type 0 where
  body : Text → Passed
  status : ℕ → Passed

pub record Writer : Type 0 where
  pub header : Bool
  pub edc : ExternalDependencyContext
  pub headers : List Text
  pub passed : List Passed

unfoldable pub add_header : Writer → Writer
add_header w = if w.header then w else record {
  header = true;
  edc = w.edc;
  headers = if ltb 0 (length w.edc) then w.headers ++ string w.edc ∷ [] else w.headers;
  passed = w.passed;
}

abbrev pub pass : Writer → Passed → Writer
pass w p = record {
  header = w.header;
  edc = w.edc;
  headers = w.headers;
  passed = w.passed ++ p ∷ [];
}

-- What the handler behind the middleware does; that it can set headers itself is left out.
pub data Call : Type 0 where
  write : Text → Call
  write_header : ℕ → Call
  add_external_dependency : Text → ℤ → Call

unfoldable pub step : Writer → Call → Writer
unfolding add_header add_dependency
step w (write s) = pass (add_header w) (body s)
step w (write_header code) = pass (add_header w) (status code)
step w (add_external_dependency name dur) = record {
  header = w.header;
  edc = add_dependency w.edc name dur;
  headers = w.headers;
  passed = w.passed;
}

-- The middleware ExternalDependency, for the calls of the next handler
unfoldable pub serve : Writer → List Call → Writer
unfolding step
serve w [] = w
serve w (c ∷ cs) = serve (step w c) cs

unfoldable pub external_dependency : List Call → Writer
unfolding serve
external_dependency cs = serve (record { header = false; edc = []; headers = []; passed = [] }) cs
