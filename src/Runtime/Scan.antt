-- ===== src/Runtime/Scan.antt =====
-- http/jsonapi/runtime/parameters.go. What a parameter points to is a value or a slice of values, whose
-- elements are not bytes: fmt.Sscan scans into a *[]byte, and into no other slice. What the libraries scan (decimal.NewFromString, time.Parse, fmt.Sscan) and strconv.Quote are parameters.
pub mod Slices
pub mod Parameters
use bricks.Prelude.{
  ℕ, zero, suc, ◌+◌, ◌-◌, ltb, Bool, true, false, not, ◌&&◌, List, [], ◌∷◌, ◌++◌, Option, none,
  some, if◌then◌else◌, length, set, take,
}
use bricks.Prelude.Int.{ℤ}
use bricks.Prelude.Text.{Text, codes, is_empty}
use bricks.Prelude.Assoc.{lookup}
use bricks.Prelude.Result.{Result, ok, err}
use bricks.Runtime.Errors.{Error, no_error, Response, GoError, pointer, write_error}
use bricks.Runtime.Isotime.{parse_iso8601}

-- The types that Scan tells apart
pub data Kind : Type 0 where
  decimal time string other : Kind

pub record Scanners (V : Type 0) : Type 0 where
  pub new_from_string : Text → Option V
  pub parse : Text → Text → Option ℤ
  pub of_time : ℤ → V
  pub of_text : Text → V
  pub sscan : Text → Option V
  pub zero_value : V
  pub quote : Text → Text

pub data ScanIn : Type 0 where
  in_path in_query in_header : ScanIn

pub data Target (V : Type 0) : Type 0 where
  single : V → Target V
  slice : List V → Target V

pub record ScanParameter (V : Type 0) : Type 0 where
  pub target : Target V
  pub kind : Kind
  pub type_name : Text
  pub location : ScanIn
  pub input : Text
  pub name : Text

-- A request: the values of its query, and r.Header.Get, which reads a header by its canonical name
pub record Request : Type 0 where
  pub query : List (Text × List Text)
  pub header : Text → Text

abbrev pub or_nil : Option (List Text) → List Text
or_nil none = []
or_nil (some vs) = vs

-- strings.Join(input, " ")
abbrev pub spaced : List Text → Text
spaced [] = []
spaced (s ∷ []) = s
spaced (s ∷ t ∷ ts) = s ++ 32 ∷ spaced (t ∷ ts)

module _ {V : Type 0} (sc : Scanners V) where
  abbrev pub time_value : Option ℤ → Option V
  time_value none = none
  time_value (some t) = some (sc.of_time t)

  -- Scan: `some` is n == 1.
  unfoldable pub scan : Kind → Text → Option V
  scan decimal str = sc.new_from_string str
  scan time str = time_value (parse_iso8601 sc.parse str)
  scan string str = some (sc.of_text str)
  scan other str = sc.sscan str

  -- BuildInvalidValueError, for a parameter's name and a type's
  unfoldable pub build_invalid_value_error : Text → Text → Text → Error
  build_invalid_value_error name typ value = record no_error {
    title = codes "invalid value for " ++ name;
    detail = codes "invalid value, expected " ++ typ ++ codes " got: " ++ sc.quote value;
    source = some ((codes "parameter", name) ∷ []);
  }

  abbrev pub or_invalid :
      Text → Option V → (V → Result Text (List V × ℕ)) → Result Text (List V × ℕ)
  or_invalid v none go = err v
  or_invalid v (some x) go = go x

  -- The loop over the values of a slice: an error is the value that cannot be scanned, else the array
  -- and the number of the empty values.
  unfoldable pub scan_elements : Kind → List Text → ℕ → ℕ → List V → Result Text (List V × ℕ)
  scan_elements kind [] i invalid array = ok (array, invalid)
  scan_elements kind (v ∷ input) i invalid array =
      let skipped = scan_elements kind input (i + 1) (invalid + 1) array in
      let stored =
        or_invalid v (scan kind v)
          (λ x. scan_elements kind input (i + 1) invalid (set array (i - invalid) x)) in
      if is_empty v then skipped else stored

  -- reflect.MakeSlice
  abbrev pub make_slice : ℕ → List V
  make_slice zero = []
  make_slice (suc n) = sc.zero_value ∷ make_slice n

  -- The array without its end, if values were empty
  abbrev pub shortened : ℕ → Result Text (List V × ℕ) → Result Text (List V)
  shortened size (err v) = err v
  shortened size (ok (array, invalid)) =
      ok (if ltb 0 invalid then take (size - invalid) array else array)

  unfoldable pub scan_slice : Kind → List Text → Result Text (List V)
  unfolding scan_elements
  scan_slice kind input =
      shortened (length input) (scan_elements kind input 0 0 (make_slice (length input)))

  -- What becomes of one parameter: the type and the text of an invalid value, or the new target
  abbrev pub Outcome : Type 0
  Outcome = Result (Text × Text) (Target V)

  -- The end of the loop's body. fmt.Sscan scans no slice, except of bytes.
  unfoldable pub assign : ScanParameter V → Text → Option V → Outcome
  assign p scan_data (some v) = ok (single v)
  assign p scan_data none =
      if not (is_empty scan_data) then err (p.type_name, scan_data) else ok p.target

  unfoldable pub scan_single : ScanParameter V → Text → Target V → Outcome
  unfolding assign
  scan_single p scan_data (single old) = assign p scan_data (scan p.kind scan_data)
  scan_single p scan_data (slice old) = assign p scan_data none

  abbrev pub slice_outcome : ScanParameter V → Result Text (List V) → Outcome
  slice_outcome p (err v) = err (p.type_name, v)
  slice_outcome p (ok array) = ok (slice array)

  unfoldable pub scan_query : ScanParameter V → List Text → Target V → Outcome
  unfolding scan_single
  scan_query p input (slice old) = slice_outcome p (scan_slice p.kind input)
  scan_query p input (single old) = scan_single p (spaced input) (single old)

  unfoldable pub scan_at : ScanParameter V → Request → ScanIn → Outcome
  unfolding scan_single scan_query
  scan_at p r in_path = scan_single p p.input p.target
  scan_at p r in_query = scan_query p (or_nil (lookup p.name r.query)) p.target
  scan_at p r in_header = scan_single p (r.header p.name) p.target

  -- What ScanParameters returns, the response, and what the parameters point to behind it
  pub record Scanned : Type 0 where
    pub valid : Bool
    pub response : Response
    pub targets : List (Target V)

  abbrev pub targets_of : List (ScanParameter V) → List (Target V)
  targets_of [] = []
  targets_of (p ∷ ps) = p.target ∷ targets_of ps

  abbrev pub and_target : Target V → Scanned → Scanned
  and_target t s = record { valid = s.valid; response = s.response; targets = t ∷ s.targets }

  unfoldable pub scanned :
      ScanParameter V → List (ScanParameter V) → Response → Outcome → Scanned → Scanned
  scanned p ps w (ok t) rest = and_target t rest
  scanned p ps w (err (typ, value)) rest = record {
    valid = false;
    response = (write_error 400 (pointer (build_invalid_value_error p.name typ value)) w).0;
    targets = p.target ∷ targets_of ps;
  }

  -- ScanParameters
  unfoldable pub scan_parameters : List (ScanParameter V) → Request → Response → Scanned
  unfolding scanned
  scan_parameters [] r w = record { valid = true; response = w; targets = [] }
  scan_parameters (p ∷ ps) r w = scanned p ps w (scan_at p r p.location) (scan_parameters ps r w)
