-- ===== src/Health/Handlers/Statuses.antt =====
-- The status codes of the health handlers.
use bricks.Prelude.{
  ℕ, ◌≡◌, refl, ap, ◌∙◌, Bool, true, false, ◌||◌, [], ◌∷◌, if◌then◌else◌, length, ltb, any_of,
  Bool-cases, inl, inr, arith,
}
use bricks.Health.{is_err, get_state}
use bricks.Health.Registry.{Registry, Checks, checks_results}
use bricks.Health.Handlers.{
  Written, errors, write_health, health_handler, status_after, readable_health_handler,
  json_health_handler,
}

-- Some check shows an error.
abbrev pub some_err : Checks → Bool
some_err checks = any_of (λ c. is_err c.1.result) checks

abbrev choose : Bool → ℕ → ℕ → ℕ
choose b m n = if b then m else n

status_after-results :
    (status : ℕ) (checks : Checks)
    → status_after status (checks_results checks) ≡ (if some_err checks then 503 else status)
unfolding status_after checks_results get_state
status_after-results status [] = refl
status_after-results status ((name, s) ∷ checks) =
    status_after-results (if is_err s.result then 503 else status) checks
    ∙ either (is_err s.result) (some_err checks)
  where
    either : (a b : Bool) → choose b 503 (choose a 503 status) ≡ choose (a || b) 503 status
    either true true = refl
    either true false = refl
    either false true = refl
    either false false = refl

some_errors : (checks : Checks) → ltb 0 (length (errors (checks_results checks))) ≡ some_err checks
unfolding errors checks_results get_state
some_errors [] = ground arith
some_errors ((name, s) ∷ checks) = elim (Bool-cases (is_err s.result)) [
  | inl e ↦ rw e (ground arith)
  | inr e ↦ rw e (some_errors checks)
]

if_status :
    {A : Type 0} (f : A → ℕ) (b : Bool) (x y : A)
    → f (if b then x else y) ≡ (if b then f x else f y)
if_status f true x y = refl
if_status f false x y = refl

health-status :
    (r : Registry) → (health_handler r).status ≡ (if some_err r.required then 503 else 200)
unfolding health_handler write_health
health-status r =
    if_status (λ (w : Written). w.status) (ltb 0 (length (errors (checks_results r.required)))) _ _
    ∙ ap (λ b. choose b 503 200) (some_errors r.required)

readable-status :
    (r : Registry) → (readable_health_handler r).status ≡ (if some_err r.required then 503 else 200)
unfolding readable_health_handler
readable-status r = status_after-results 200 r.required

nested : (a b : Bool) → choose b 503 (choose a 503 200) ≡ choose (a || b) 503 200
nested true true = refl
nested true false = refl
nested false true = refl
nested false false = refl

json-status :
    (r : Registry)
    → (json_health_handler r).status
      ≡ (if some_err r.required || some_err r.optional then 503 else 200)
unfolding json_health_handler
json-status r =
    status_after-results (status_after 200 (checks_results r.required)) r.optional
    ∙ ap (λ n. if some_err r.optional then 503 else n) (status_after-results 200 r.required)
    ∙ nested (some_err r.required) (some_err r.optional)

-- The handlers of /health and /health/check answer with 503 exactly if a required check shows an
-- error, and with 200 otherwise; the one of /health/check.json also if an optional check does.
pub handlers-status :
    (r : Registry)
    → ((health_handler r).status ≡ (if some_err r.required then 503 else 200))
      × ((readable_health_handler r).status ≡ (if some_err r.required then 503 else 200))
      × ((json_health_handler r).status
          ≡ (if some_err r.required || some_err r.optional then 503 else 200))
handlers-status r = (health-status r, readable-status r, json-status r)
