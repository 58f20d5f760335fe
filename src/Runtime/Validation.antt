-- ===== src/Runtime/Validation.antt =====
-- http/jsonapi/runtime/validation.go. What govalidator finds is a parameter: a tree of errors. The
-- rule for iso8601 that the file registers is a call of isotime.
pub mod Leaves
use bricks.Prelude.{
  ℕ, ◌+◌, Bool, true, false, ◌&&◌, leb, List, [], ◌∷◌, ◌++◌, Option, none, some, if◌then◌else◌, map,
}
use bricks.Prelude.Text.{Text, codes, text_eq, has_prefix}
use bricks.Runtime.Errors.{Error, no_error, Response, errors, write_error}

pub record FieldError : Type 0 where
  pub name : Text
  pub path : List Text
  pub message : Text

-- valid.Errors, which holds errors and lists of errors
mutual
  pub data ValidErrors : Type 0 where
    nil : ValidErrors
    cons : ValidError → ValidErrors → ValidErrors

  pub data ValidError : Type 0 where
    nested : ValidErrors → ValidError
    field : FieldError → ValidError
    unhandled : Text → ValidError

-- strings.ToLower, of ASCII
abbrev pub to_lower : Text → Text
to_lower [] = []
to_lower (c ∷ s) = (if leb 65 c && leb c 90 then c + 32 else c) ∷ to_lower s

abbrev pub path_of : List Text → Text
path_of [] = []
path_of (p ∷ ps) = 47 ∷ (to_lower p ++ path_of ps)

-- What is left of the text behind a prefix
abbrev pub behind : Text → Text → Text
behind s [] = s
behind [] (p ∷ prefix) = []
behind (c ∷ s) (p ∷ prefix) = behind s prefix

-- strings.Replace(s, old, "", 1), for an old text that is not empty
unfoldable pub remove_first : Text → Text → Text
remove_first [] old = []
remove_first (c ∷ s) old =
    if has_prefix (c ∷ s) old then behind (c ∷ s) old else c ∷ remove_first s old

-- generateValidationError
unfoldable pub generate_validation_error : FieldError → Text → Error
unfolding remove_first
generate_validation_error e source = record no_error {
  title = e.name ++ codes " is invalid";
  detail = e.message;
  source = some (
      (
        source,
        let path = path_of (e.path ++ e.name ∷ []) in
            if text_eq source (codes "parameter") then remove_first path (codes "/param") else path,
      )
      ∷ []);
}

abbrev pub and_after :
    Option (List Error) → (List Error → Option (List Error)) → Option (List Error)
and_after none go = none
and_after (some es) go = go es

-- generateValidationErrors: the errors with those that are appended; `none` is the panic of an error
-- of another type.
unfoldable mutual
  pub generate_validation_errors : ValidErrors → List Error → Text → Option (List Error)
  generate_validation_errors nil es source = some es
  generate_validation_errors (cons e errs) es source =
      and_after (generate_one e es source) (λ fs. generate_validation_errors errs fs source)

  pub generate_one : ValidError → List Error → Text → Option (List Error)
  generate_one (nested errs) es source = generate_validation_errors errs es source
  generate_one (field e) es source = some (es ++ generate_validation_error e source ∷ [])
  generate_one (unhandled text) es source = none

-- What valid.ValidateStruct returns if it does not return true: the errors, or another error
pub data Invalid : Type 0 where
  invalid_fields : ValidErrors → Invalid
  other_error : Text → Invalid

abbrev pub answer : Option (List Error) → Response → Option (Bool × Response)
answer none w = none
answer (some es) w = some (false, (write_error 422 (errors es) w).0)

-- ValidateStruct: what it returns and the response; `none` is a panic.
unfoldable pub validate_struct : Option Invalid → Text → Response → Option (Bool × Response)
unfolding generate_validation_errors
validate_struct none source w = some (true, w)
validate_struct (some (other_error text)) source w = none
validate_struct (some (invalid_fields errs)) source w =
    answer (generate_validation_errors errs [] source) w

-- ValidateParameters and ValidateRequest
unfoldable pub validate_parameters : Option Invalid → Response → Option (Bool × Response)
validate_parameters found w = validate_struct found (codes "parameter") w

unfoldable pub validate_request : Option Invalid → Response → Option (Bool × Response)
validate_request found w = validate_struct found (codes "pointer") w
