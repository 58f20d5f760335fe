-- ===== src/Params.antt =====
-- http/jsonapi/runtime/standard_params.go: the pagination, the sorting and the filters that are read
-- of a request's query. The mapper of the columns and the sanitizer of the values are parameters.
-- Errors keep what their text is made of.
pub mod Pages
pub mod Sorting
pub mod Reading
mod Tests
use bricks.Prelude.{
  ℕ, Bool, true, false, not, ◌&&◌, ◌||◌, List, [], ◌∷◌, ◌++◌, Option, none, some, if◌then◌else◌,
  map,
}
use bricks.Prelude.Int.{ℤ, pos, ◌*ℤ◌, ◌-ℤ◌, ltb_ℤ, eqb_ℤ}
use bricks.Prelude.Text.{
  Text, codes, is_empty, split, has_prefix, trim_prefix, has_suffix, trim_suffix,
}
use bricks.Prelude.Assoc.{lookup, insert}
use bricks.Prelude.Decimal.{parse_int}
use bricks.Prelude.Time.{wrap}

pub record Config : Type 0 where
  pub max_page_size : ℤ
  pub min_page_size : ℤ
  pub default_page_size : ℤ

-- r.URL.Query(); its order is that of the list, Go's is random.
abbrev pub Query : Type 0
Query = List (Text × List Text)

-- What Map returns: the column, if the value is allowed.
abbrev pub ColumnMapper : Type 0
ColumnMapper = Text → Option Text

-- What SanitizeValue makes of a column's value; an error is `none`.
abbrev pub ValueSanitizer : Type 0 → Type 0
ValueSanitizer V = Text → Text → Option V

-- MapMapper
unfoldable pub map_value : List (Text × Text) → ColumnMapper
map_value mapping value = lookup value mapping

pub record UrlQueryParameters (V : Type 0) : Type 0 where
  pub has_pagination : Bool
  pub page_nr : ℤ
  pub page_size : ℤ
  pub order : List Text
  pub filter : List (Text × List V)

pub data ParamError : Type 0 where
  not_a_number : Text → ParamError
  invalid_page_size : ParamError
  invalid_sorting invalid_filter : List Text → ParamError

-- url.Values.Get
abbrev pub first_value : Option (List Text) → Text
first_value none = []
first_value (some []) = []
first_value (some (v ∷ vs)) = v

abbrev pub get : Query → Text → Text
get q name = first_value (lookup name q)

-- What strconv.Atoi makes of the size, or the default.
abbrev pub read_size : Config → Text → Option ℤ
read_size cfg size_str =
    if not (is_empty size_str) then parse_int size_str else some cfg.default_page_size

module _ {V : Type 0} where
  abbrev pub zero_parameters : UrlQueryParameters V
  zero_parameters = record {
    has_pagination = false;
    page_nr = pos 0;
    page_size = pos 0;
    order = [];
    filter = [];
  }

  -- The end of readPagination, for the numbers that were read.
  unfoldable pub check_page_size :
      Config → ℤ → ℤ → UrlQueryParameters V → UrlQueryParameters V × Option ParamError
  check_page_size cfg page_nr page_size u =
      if ltb_ℤ page_size cfg.min_page_size || ltb_ℤ cfg.max_page_size page_size
      then (u, some invalid_page_size)
      else (record u { page_nr = page_nr; page_size = page_size }, none)

  unfoldable pub with_size :
      Config → Text → ℤ → Option ℤ → UrlQueryParameters V → UrlQueryParameters V × Option ParamError
  unfolding check_page_size
  with_size cfg size_str page_nr none u = (u, some (not_a_number size_str))
  with_size cfg size_str page_nr (some page_size) u = check_page_size cfg page_nr page_size u

  unfoldable pub with_number :
      Config
      → Text
      → Text
      → Option ℤ
      → UrlQueryParameters V
      → UrlQueryParameters V × Option ParamError
  unfolding with_size
  with_number cfg page_str size_str none u = (u, some (not_a_number page_str))
  with_number cfg page_str size_str (some page_nr) u =
      with_size cfg size_str page_nr (read_size cfg size_str) u

  unfoldable pub read_pagination :
      Config → Query → UrlQueryParameters V → UrlQueryParameters V × Option ParamError
  unfolding with_number
  read_pagination cfg q u =
      if is_empty (get q (codes "page[number]"))
      then (record u { has_pagination = false }, none)
      else with_number cfg (get q (codes "page[number]")) (get q (codes "page[size]"))
          (parse_int (get q (codes "page[number]"))) (record u { has_pagination = true })

-- The loop of readSorting: the orders, and the names that are not valid
unfoldable pub order_of : Text → Text
order_of val = if has_prefix val (codes "-") then codes " DESC" else codes " ASC"

unfoldable pub sort_by : Text → Text → Option Text → List Text × List Text → List Text × List Text
sort_by val order none (orders, invalid) = (orders, val ∷ invalid)
sort_by val order (some key) (orders, invalid) = ((key ++ order) ∷ orders, invalid)

unfoldable pub sort_values : ColumnMapper → List Text → List Text × List Text
unfolding sort_by order_of
sort_values mapper [] = ([], [])
sort_values mapper (val ∷ sorting) =
    let rest = sort_values mapper sorting in
    if is_empty val
    then rest
    else sort_by (trim_prefix val (codes "-")) (order_of val) (mapper (trim_prefix val (codes "-")))
        rest

abbrev pub error_if : (List Text → ParamError) → List Text → Option ParamError
error_if e [] = none
error_if e (v ∷ vs) = some (e (v ∷ vs))

-- getFilterKey: the column or, if it is not allowed, the field, and whether it is
unfoldable pub get_filter_key : Text → ColumnMapper → Text × Bool
get_filter_key query_name model_mapping =
    key (trim_suffix (trim_prefix query_name (codes "filter[")) (codes "]"))
      (model_mapping (trim_suffix (trim_prefix query_name (codes "filter[")) (codes "]")))
  where
    key : Text → Option Text → Text × Bool
    key field none = (field, false)
    key field (some mapped) = (mapped, true)

abbrev pub separated : List Text → List Text
separated [] = []
separated (value ∷ values) = split value 44 ++ separated values

abbrev pub Filters : Type 0 → Type 0
Filters V = List (Text × List V)

module _ {V : Type 0} where
  unfoldable pub read_sorting :
      ColumnMapper → Query → UrlQueryParameters V → UrlQueryParameters V × Option ParamError
  unfolding sort_values
  read_sorting mapper q u =
      let sort = get q (codes "sort") in
      let (orders, invalid) = sort_values mapper (split sort 44) in
      if is_empty sort
      then (u, none)
      else (record u { order = orders }, error_if invalid_sorting invalid)

  -- The two loops of getFilterValues; a value that is not valid ends them.
  unfoldable pub sanitize_all : ValueSanitizer V → Text → List Text → Option (List V)
  sanitize_all sanitizer field_name [] = some []
  sanitize_all sanitizer field_name (value ∷ values) =
      both (sanitizer field_name value) (sanitize_all sanitizer field_name values)
    where
      both : Option V → Option (List V) → Option (List V)
      both none rest = none
      both (some v) none = none
      both (some v) (some vs) = some (v ∷ vs)

  unfoldable pub get_filter_values : Text → List Text → ValueSanitizer V → Option (List V)
  unfolding sanitize_all
  get_filter_values field_name query_values sanitizer =
      sanitize_all sanitizer field_name (separated query_values)

  unfoldable pub add_filter : Text → Option (List V) → Filters V × List Text → Filters V × List Text
  add_filter key none (filter, invalid) = (filter, invalid ++ key ∷ [])
  add_filter key (some values) (filter, invalid) = (insert key values filter, invalid)

  unfoldable pub filter_step :
      ColumnMapper
      → ValueSanitizer V
      → Text
      → List Text
      → Filters V × List Text
      → Filters V × List Text
  unfolding add_filter get_filter_key get_filter_values
  filter_step mapper sanitizer query_name query_values (filter, invalid) =
      let (key, is_valid) = get_filter_key query_name mapper in
      if not (has_prefix query_name (codes "filter[") && has_suffix query_name (codes "]"))
      then (filter, invalid)
      else if not is_valid
      then (filter, invalid ++ key ∷ [])
      else add_filter key (get_filter_values key query_values sanitizer) (filter, invalid)

  unfoldable pub filter_query :
      ColumnMapper → ValueSanitizer V → Query → Filters V × List Text → Filters V × List Text
  unfolding filter_step
  filter_query mapper sanitizer [] f = f
  filter_query mapper sanitizer ((name, values) ∷ q) f =
      filter_query mapper sanitizer q (filter_step mapper sanitizer name values f)

  unfoldable pub read_filter :
      ColumnMapper
      → ValueSanitizer V
      → Query
      → UrlQueryParameters V
      → UrlQueryParameters V × Option ParamError
  unfolding filter_query
  read_filter mapper sanitizer q u =
      let (filter, invalid) = filter_query mapper sanitizer q ([], []) in
      (record u { filter = filter }, error_if invalid_filter invalid)
