-- ===== src/Middleware/Dependency/RoundTrip.antt =====
-- http/middleware/external_dependency.go: a report that is parsed.
use mathlib.Core.List.{append-nil, append_assoc}
use bricks.Prelude.{
  ℕ, suc, ◌-◌, ◌≡◌, refl, sym, ap, ◌∙◌, ◌≢◌, true, List, [], ◌∷◌, ◌++◌, some, map, length, All,
  All-append, ltb, arith, inl,
}
use bricks.Prelude.Int.{ℤ, pos, negsuc, ◌-ℤ◌, ◌*ℤ◌}
use bricks.Prelude.Text.{Text, Lacks, split, join, split-join}
use bricks.Prelude.Decimal.{format_int, parse_int-format_int, format_int-Lacks}
use bricks.Prelude.Time.{wrap_exact, IsDuration}
use bricks.Middleware.Dependency.{
  ExternalDependency, ExternalDependencyContext, add_dependency, milliseconds, dependency_string,
  write_dependencies, string, cut_at, add_parsed, add_value, parse_values, parse,
}

-- The names that a report can hold, and the durations of Go.
pub record IsReportable (d : ExternalDependency) : Type 0 where
  pub no_comma : Lacks 44 d.name
  pub no_colon : Lacks 58 d.name
  pub is_duration : IsDuration d.duration

-- A dependency with its duration in whole milliseconds.
unfoldable pub in_milliseconds : ExternalDependency → ExternalDependency
in_milliseconds d = record { name = d.name; duration = pos 1000000 *ℤ milliseconds d.duration }

milliseconds-IsDuration : (d : ℤ) → IsDuration d → IsDuration (milliseconds d)
unfolding milliseconds ◌-ℤ◌
milliseconds-IsDuration (pos n) h = ground arith
milliseconds-IsDuration (negsuc n) h = ground arith

rounded-IsDuration : (d : ℤ) → IsDuration d → IsDuration (pos 1000000 *ℤ milliseconds d)
unfolding milliseconds ◌-ℤ◌ ◌*ℤ◌
rounded-IsDuration (pos n) h = ground arith
rounded-IsDuration (negsuc n) h = ground arith

cut_at-append : (b : ℕ) (s t : Text) → Lacks b s → cut_at b (s ++ b ∷ t) ≡ some (s, t)
unfolding cut_at
cut_at-append b [] t h = ground arith
cut_at-append b (c ∷ s) t (h, hs) = rw (cut_at-append b s t hs) (ground arith)

write_more :
    (n : ℕ) (d : ExternalDependency) (ds : List ExternalDependency)
    → write_dependencies (suc n) (d ∷ ds) ≡ dependency_string d ++ 44 ∷ write_dependencies n ds
unfolding write_dependencies
write_more n d ds =
    let comma : ltb 0 (suc n) ≡ true = ground arith in
    let left : suc n - 1 ≡ n = omega arith in rw (comma, left) refl

write_all :
    (d : ExternalDependency) (ds : List ExternalDependency)
    → write_dependencies (length ds) (d ∷ ds) ≡ join (map dependency_string (d ∷ ds)) 44
unfolding join
write_all d [] = unfold write_dependencies in append-nil (dependency_string d)
write_all d (e ∷ ds) =
    write_more (length ds) d (e ∷ ds) ∙ ap (λ s. dependency_string d ++ 44 ∷ s) (write_all e ds)

string-join :
    (d : ExternalDependency) (ds : List ExternalDependency)
    → string (d ∷ ds) ≡ join (map dependency_string (d ∷ ds)) 44
unfolding string
string-join d ds =
    let left : suc (length ds) - 1 ≡ length ds = omega arith in
    ap (λ n. write_dependencies n (d ∷ ds)) left ∙ write_all d ds

dependency_string-Lacks : (d : ExternalDependency) → IsReportable d → Lacks 44 (dependency_string d)
unfolding dependency_string
dependency_string-Lacks d h =
    All-append (λ c. c ≢ 44) d.name (58 ∷ format_int (milliseconds d.duration)) h.no_comma
      (
        (λ e. omega arith),
        format_int-Lacks 44 (milliseconds d.duration) (λ e. omega arith) (inl (omega arith)),
      )

no_commas :
    (ds : List ExternalDependency) → All IsReportable ds → All (Lacks 44) (map dependency_string ds)
no_commas [] h = tt
no_commas (d ∷ ds) (h, hs) = (dependency_string-Lacks d h, no_commas ds hs)

add_value-dependency :
    (c : ExternalDependencyContext) (d : ExternalDependency)
    → IsReportable d
    → add_value c (cut_at 58 (dependency_string d)) ≡ c ++ in_milliseconds d ∷ []
unfolding dependency_string add_value add_parsed add_dependency in_milliseconds
add_value-dependency c d h =
    rw
      (
        cut_at-append 58 d.name (format_int (milliseconds d.duration)) h.no_colon,
        parse_int-format_int (milliseconds d.duration)
            (milliseconds-IsDuration d.duration h.is_duration),
        wrap_exact (pos 1000000 *ℤ milliseconds d.duration)
            (rounded-IsDuration d.duration h.is_duration),
      )
      refl

parse_values-dependencies :
    (ds : List ExternalDependency) (c : ExternalDependencyContext)
    → All IsReportable ds
    → parse_values c (map dependency_string ds) ≡ c ++ map in_milliseconds ds
unfolding parse_values
parse_values-dependencies [] c h = sym (append-nil c)
parse_values-dependencies (d ∷ ds) c (h, hs) =
    ap (λ e. parse_values e (map dependency_string ds)) (add_value-dependency c d h)
    ∙ (parse_values-dependencies ds (c ++ in_milliseconds d ∷ []) hs
        ∙ append_assoc c (in_milliseconds d ∷ []) (map in_milliseconds ds))

-- A report of dependencies whose names have no comma and no colon is parsed as these dependencies,
-- in order and behind those known before, with their durations rounded to milliseconds towards
-- zero.
pub parse-string :
    (c ds : ExternalDependencyContext)
    → All IsReportable ds
    → parse c (string ds) ≡ c ++ map in_milliseconds ds
unfolding parse
parse-string c [] h =
    unfold string write_dependencies split parse_values add_value cut_at in sym (append-nil c)
parse-string c (d ∷ ds) h =
    ap (λ s. parse_values c (split s 44)) (string-join d ds)
    ∙ ap (parse_values c)
        (split-join (dependency_string d) (map dependency_string ds) 44 (no_commas (d ∷ ds) h))
    ∙ parse_values-dependencies (d ∷ ds) c h
