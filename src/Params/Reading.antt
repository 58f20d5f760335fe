-- ===== src/Params/Reading.antt =====
-- http/jsonapi/runtime/standard_params.go: all parameters of a request, and the query of a database
-- that they are added to. go-pg's query is the list of what it is told.
use bricks.Prelude.{List, [], ◌∷◌, ◌++◌, Option, none, some, if◌then◌else◌}
use bricks.Prelude.Int.{ℤ, pos, ◌*ℤ◌, ◌-ℤ◌, eqb_ℤ}
use bricks.Prelude.Text.{Text}
use bricks.Prelude.Time.{wrap}
use bricks.Params.{
  Config, Query, ColumnMapper, ValueSanitizer, UrlQueryParameters, ParamError, zero_parameters,
  read_pagination, read_sorting, read_filter,
}

pub data Told (V : Type 0) : Type 0 where
  offset limit : ℤ → Told V
  where_is : Text → V → Told V
  where_in : Text → List V → Told V
  order_by : Text → Told V

abbrev errors_of : Option ParamError → List ParamError
errors_of none = []
errors_of (some e) = e ∷ []

-- The offset of a page, an int
unfoldable pub page_offset : ℤ → ℤ → ℤ
page_offset page_size page_nr =
    if eqb_ℤ page_nr (pos 0) then pos 0 else wrap (wrap (page_size *ℤ page_nr) -ℤ pos 1)

module _ {V : Type 0} where
  -- ReadURLQueryParameters, with the errors that its error combines; none is nil.
  unfoldable pub read_url_query_parameters :
      Config → Query → ColumnMapper → ValueSanitizer V → UrlQueryParameters V × List ParamError
  read_url_query_parameters cfg q mapper sanitizer =
      let (u, e) = read_pagination cfg q zero_parameters in
      let (v, f) = read_sorting mapper q u in
      let (w, g) = read_filter mapper sanitizer q v in
      (w, errors_of e ++ errors_of f ++ errors_of g)

  unfoldable pub filter_told : Text → List V → List (Told V)
  filter_told name [] = []
  filter_told name (v ∷ []) = where_is name v ∷ []
  filter_told name (v ∷ w ∷ vs) = where_in name (v ∷ w ∷ vs) ∷ []

  unfoldable pub filters_told : List (Text × List V) → List (Told V)
  unfolding filter_told
  filters_told [] = []
  filters_told ((name, vs) ∷ filters) = filter_told name vs ++ filters_told filters

  unfoldable pub orders_told : List Text → List (Told V)
  orders_told [] = []
  orders_told (val ∷ order) = order_by val ∷ orders_told order

  -- AddToQuery
  unfoldable pub add_to_query : UrlQueryParameters V → List (Told V) → List (Told V)
  unfolding page_offset filters_told orders_told
  add_to_query u query =
      query
      ++ (if u.has_pagination
          then offset (page_offset u.page_size u.page_nr) ∷ limit u.page_size ∷ []
          else [])
      ++ filters_told u.filter
      ++ orders_told u.order
