-- ===== src/Runtime/Validation/Leaves.antt =====
-- The errors that a client sees of a struct that is not valid.
use mathlib.Core.List.{append_assoc, append-nil}
use bricks.Prelude.{◌≡◌, refl, sym, ap, ◌∙◌, false, List, [], ◌∷◌, ◌++◌, some}
use bricks.Prelude.Text.{Text}
use bricks.Runtime.Errors.{Error, Response, errors, error_list}
use bricks.Runtime.Errors.Sent.{answered, write_error_lem}
use bricks.Runtime.Validation.{
  FieldError, ValidErrors, nil, cons, ValidError, nested, field, unhandled,
  generate_validation_error, generate_validation_errors, generate_one, invalid_fields,
  validate_struct,
}

-- The errors of fields, at any depth, from left to right
mutual
  pub leaves : ValidErrors → List FieldError
  leaves nil = []
  leaves (cons e errs) = leaves_of e ++ leaves errs

  pub leaves_of : ValidError → List FieldError
  leaves_of (nested errs) = leaves errs
  leaves_of (field e) = e ∷ []
  leaves_of (unhandled text) = []

-- No error is of a type that govalidator does not document.
unfoldable mutual
  pub IsHandled : ValidErrors → Type 0
  IsHandled nil = Unit
  IsHandled (cons e errs) = IsHandledOne e × IsHandled errs

  pub IsHandledOne : ValidError → Type 0
  IsHandledOne (nested errs) = IsHandled errs
  IsHandledOne (field e) = Unit
  IsHandledOne (unhandled text) = ⊥

abbrev pub generated : Text → List FieldError → List Error
generated source [] = []
generated source (e ∷ es) = generate_validation_error e source ∷ generated source es

generated-append :
    (source : Text) (es fs : List FieldError)
    → generated source (es ++ fs) ≡ generated source es ++ generated source fs
generated-append source [] fs = refl
generated-append source (e ∷ es) fs =
    ap (◌∷◌ (generate_validation_error e source)) (generated-append source es fs)

mutual
  unfolding generate_validation_errors generate_one leaves leaves_of IsHandled IsHandledOne

  collected :
      (errs : ValidErrors) (es : List Error) (source : Text)
      → IsHandled errs
      → generate_validation_errors errs es source ≡ some (es ++ generated source (leaves errs))
  collected nil es source h = ap some (sym (append-nil es))
  collected (cons e errs) es source (h, hs) = rw (collected_one e es source h) (
      collected errs (es ++ generated source (leaves_of e)) source hs
      ∙ ap some (
          append_assoc es (generated source (leaves_of e)) (generated source (leaves errs))
          ∙ ap (◌++◌ es) (sym (generated-append source (leaves_of e) (leaves errs)))))

  collected_one :
      (e : ValidError) (es : List Error) (source : Text)
      → IsHandledOne e
      → generate_one e es source ≡ some (es ++ generated source (leaves_of e))
  collected_one (nested errs) es source h = collected errs es source h
  collected_one (field e) es source h = refl
  collected_one (unhandled text) es source h = absurd h

-- A struct whose fields are not valid, with errors of the documented types: false is returned, and the
-- client is answered by 422 with one error for each field that is not valid, at any depth of the tree,
-- in its order.
pub validate_struct-invalid :
    (errs : ValidErrors) (source : Text) (w : Response)
    → IsHandled errs
    → validate_struct (some (invalid_fields errs)) source w
      ≡ some (false, answered 422 w (generated source (leaves errs)))
unfolding validate_struct error_list
validate_struct-invalid errs source w h =
    rw (collected errs [] source h) (
      ap (λ x. some (false, x)) (write_error_lem 422 (errors (generated source (leaves errs))) w).0)
