-- ===== src/Runtime/Tests.antt =====
-- Runs of http/jsonapi/runtime and pkg/isotime.
use bricks.Prelude.{
  ◌⊎◌, All, arith, ℕ, ◌≡◌, refl, Bool, true, false, List, [], ◌∷◌, Option, none, some,
}
use bricks.Prelude.Int.{ℤ, pos}
use bricks.Prelude.Text.{Text, codes, text_eq, is_empty}
use bricks.Prelude.Result.{ok}
use bricks.Prelude.Decimal.{parse_int}
use bricks.Runtime.Errors.{Response}
use bricks.Runtime.Errors.Sent.{answered}
use bricks.Runtime.Scan.{
  Kind, Scanners, scan, scan_slice, Target, single, slice, ScanParameter, Request, in_query,
  in_path, scan_parameters,
}
use bricks.Runtime.Scan.Slices.{values, scan_slice-values}
use bricks.Runtime.Scan.Parameters.{Scans, scan_parameters-Scans}
use bricks.Runtime.Validation.{
  FieldError, ValidErrors, cons, nil, field, nested, invalid_fields, validate_struct,
}
use bricks.Runtime.Validation.Leaves.{leaves, generated, validate_struct-invalid}
use bricks.Runtime.Errors.{content_type}
use bricks.Runtime.Middleware.{Call, set, write_header, write, serve}
use bricks.Runtime.Middleware.Late.{IsDocument, fresh, sent_type, serve-content_type}

-- The values that are scanned here
data Value : Type 0 where
  int : ℤ → Value
  text : Text → Value

abbrev int_value : Option ℤ → Option Value
int_value none = none
int_value (some n) = some (int n)

abbrev scanners : Scanners Value
scanners = record {
  new_from_string = λ s. none;
  parse = λ l s. none;
  of_time = int;
  of_text = text;
  sscan = λ s. int_value (parse_int s);
  zero_value = int (pos 0);
  quote = λ s. s;
}

scan_slice-values_example :
    scan_slice scanners Kind.other (codes "1" ∷ codes "" ∷ codes "22" ∷ [])
    ≡ values scanners Kind.other (codes "1" ∷ codes "" ∷ codes "22" ∷ [])
scan_slice-values_example =
    scan_slice-values scanners Kind.other (codes "1" ∷ codes "" ∷ codes "22" ∷ [])

two_values :
    scan_slice scanners Kind.other (codes "1" ∷ codes "" ∷ codes "22" ∷ [])
    ≡ ok (int (pos 1) ∷ int (pos 22) ∷ [])
unfolding scan_slice scan parse_int is_empty bricks.Prelude.Decimal.value_from
two_values = refl

abbrev response : Response
response = record { header = (codes "Request-Id", codes "r1") ∷ []; sent = none; body = [] }

abbrev parameters : List (ScanParameter Value)
parameters =
    record {
      target = single (text []);
      kind = Kind.string;
      type_name = codes "*string";
      location = in_path;
      input = codes "a";
      name = codes "id";
    }
    ∷ record {
      target = slice [];
      kind = Kind.other;
      type_name = codes "int";
      location = in_query;
      input = [];
      name = codes "n";
    }
    ∷ []

abbrev request : Request
request = record { query = (codes "n", codes "x" ∷ []) ∷ []; header = λ name. [] }

scan_parameters-Scans_example :
    Scans scanners request parameters response
      (scan_parameters scanners parameters request response)
scan_parameters-Scans_example = scan_parameters-Scans scanners request parameters response

refused_number : (scan_parameters scanners parameters request response).valid ≡ false
unfolding scan_parameters bricks.Runtime.Scan.scan_at scan bricks.Prelude.Assoc.lookup text_eq
    scan_slice parse_int is_empty bricks.Prelude.Decimal.value_from
refused_number = refl

abbrev field_error : Text → FieldError
field_error name = record { name = name; path = codes "Data" ∷ []; message = codes "too long" }

abbrev found : ValidErrors
found =
    cons (nested (cons (field (field_error (codes "Name"))) nil))
      (cons (field (field_error (codes "Age"))) nil)

validate_struct-invalid_example :
    validate_struct (some (invalid_fields found)) (codes "pointer") response
    ≡ some (false, answered 422 response (generated (codes "pointer") (leaves found)))
unfolding bricks.Runtime.Validation.Leaves.IsHandled
validate_struct-invalid_example =
    validate_struct-invalid found (codes "pointer") response ((tt, tt), (tt, tt))

-- A write that fails behind some of its bytes, and two writes behind the status of an error
abbrev calls : List Call
calls =
    write (codes "ok") 1 false
    ∷ write_header 400
    ∷ write (codes "bad") 3 true
    ∷ write (codes "more") 4 true
    ∷ []

serve-content_type_example :
    (sent_type
        (serve content_type
          (set (codes "Content-Type") (codes "text/plain")
            ∷ write_header 404
            ∷ write (codes "not found") 9 true
            ∷ [])
          fresh).sent
      ≡ some (404, some (codes "text/plain")))
    × IsDocument
        (serve content_type
          (set (codes "Content-Type") (codes "text/plain")
            ∷ write_header 404
            ∷ write (codes "not found") 9 true
            ∷ [])
          fresh).body
unfolding text_eq
serve-content_type_example =
    serve-content_type 404 (codes "text/plain") (codes "not found") 9 true (omega arith) refl
