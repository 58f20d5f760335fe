-- ===== src/Params/Sorting.antt =====
-- http/jsonapi/runtime/standard_params.go: the sorting that a client asks for.
use bricks.Prelude.{
  ◌≡◌, refl, Bool, true, false, List, [], ◌∷◌, ◌++◌, none, some, map, All, if◌then◌else◌, if_cases,
  arith,
}
use bricks.Prelude.Text.{
  Text, codes, is_empty, join, split-join, Lacks, has_prefix, trim_prefix, has_prefix-append,
  trim_prefix-append,
}
use bricks.Params.{
  Query, ColumnMapper, get, UrlQueryParameters, order_of, sort_by, sort_values, read_sorting,
}

-- A name that a client sorts by, in descending or in ascending order, and the column it stands for.
pub record Wish : Type 0 where
  pub name : Text
  pub descending : Bool
  pub column : Text

-- The mapper gives the column, and the name can be written: it has no comma, is not empty, and
-- starts with no minus sign.
pub record IsWish (mapper : ColumnMapper) (w : Wish) : Type 0 where
  pub mapped : mapper w.name ≡ some w.column
  pub no_comma : Lacks 44 w.name
  pub no_minus : has_prefix w.name (codes "-") ≡ false
  pub nonempty : is_empty w.name ≡ false

unfoldable pub written : Wish → Text
written w = if w.descending then codes "-" ++ w.name else w.name

unfoldable pub ordered : Wish → Text
ordered w = w.column ++ (if w.descending then codes " DESC" else codes " ASC")

written_cases :
    (mapper : ColumnMapper) (name column : Text) (d : Bool)
    → IsWish mapper (record { name = name; descending = d; column = column })
    → (is_empty (written (record { name = name; descending = d; column = column })) ≡ false)
      × (trim_prefix (written (record { name = name; descending = d; column = column })) (codes "-")
          ≡ name)
      × (order_of (written (record { name = name; descending = d; column = column }))
          ≡ (if d then codes " DESC" else codes " ASC"))
unfolding written order_of
written_cases mapper name column true h = (
  (unfold is_empty in refl),
  trim_prefix-append (codes "-") name,
  rw (has_prefix-append (codes "-") name) refl,
)
written_cases mapper name column false h =
    (h.nonempty, (unfold trim_prefix in rw h.no_minus refl), rw h.no_minus refl)

sort_values-written :
    (mapper : ColumnMapper) (ws : List Wish)
    → All (IsWish mapper) ws
    → sort_values mapper (map written ws) ≡ (map ordered ws, [])
unfolding sort_values
sort_values-written mapper [] h = refl
sort_values-written mapper (w ∷ ws) (h, hs) =
    let (full, name, order) = written_cases mapper w.name w.column w.descending h in
    rw (full, name, order, h.mapped, sort_values-written mapper ws hs)
      (unfold sort_by ordered in refl)

written-Lacks : (mapper : ColumnMapper) (w : Wish) → IsWish mapper w → Lacks 44 (written w)
unfolding written
written-Lacks mapper w h =
    if_cases (Lacks 44) w.descending _ _ (λ _. ((λ e. omega arith), h.no_comma)) (λ _. h.no_comma)

no_commas_written :
    (mapper : ColumnMapper) (ws : List Wish)
    → All (IsWish mapper) ws
    → All (Lacks 44) (map written ws)
no_commas_written mapper [] h = tt
no_commas_written mapper (w ∷ ws) (h, hs) =
    (written-Lacks mapper w h, no_commas_written mapper ws hs)

join_nonempty :
    (p : Text) (ps : List Text) → is_empty p ≡ false → is_empty (join (p ∷ ps) 44) ≡ false
unfolding join is_empty
join_nonempty [] ps h = cc
join_nonempty (c ∷ p) [] h = refl
join_nonempty (c ∷ p) (q ∷ ps) h = refl

module _ {V : Type 0} where
  -- A query whose sort parameter lists names that can be written and that the mapper knows is read
  -- without an error as the order by their columns, in the same sequence, each ascending or
  -- descending as it was written.
  pub read_sorting-written :
      (mapper : ColumnMapper) (q : Query) (u : UrlQueryParameters V) (w : Wish) (ws : List Wish)
      → All (IsWish mapper) (w ∷ ws)
      → get q (codes "sort") ≡ join (map written (w ∷ ws)) 44
      → read_sorting mapper q u ≡ (record u { order = map ordered (w ∷ ws) }, none)
  unfolding read_sorting
  read_sorting-written mapper q u w ws h e =
      let full : is_empty (written w) ≡ false =
        (written_cases mapper w.name w.column w.descending h.0).0 in
      rw
        (
          e,
          join_nonempty (written w) (map written ws) full,
          split-join (written w) (map written ws) 44 (no_commas_written mapper (w ∷ ws) h),
          sort_values-written mapper (w ∷ ws) h,
        )
        refl
