-- ===== src/Runtime/Isotime.antt =====
-- pkg/isotime/isotime.go. time.Parse is a parameter; an error of it is `none`.
use bricks.Prelude.{List, [], ◌∷◌, Option, none, some, if◌then◌else◌}
use bricks.Prelude.Int.{ℤ, pos}
use bricks.Prelude.Text.{Text, codes, is_empty}

abbrev pub iso8601_layouts : List Text
iso8601_layouts =
    codes "2006-01-02T15:04:05.999999999Z07:00"
    ∷ codes "2006-01-02T15:04:05.999999999"
    ∷ codes "2006-01-02T15:04:05Z07:00"
    ∷ codes "2006-01-02T15:04:05"
    ∷ codes "2006-01-02T15:04Z07:00"
    ∷ codes "2006-01-02T15:04"
    ∷ codes "2006-01-02"
    ∷ codes "2006-01"
    ∷ codes "2006"
    ∷ []

abbrev pub or_else : Option ℤ → Option ℤ → Option ℤ
or_else none rest = rest
or_else (some t) rest = some t

module _ (parse : Text → Text → Option ℤ) where
  -- The loop over the layouts
  unfoldable pub parse_layouts : List Text → Text → Option ℤ
  parse_layouts [] str = none
  parse_layouts (l ∷ layouts) str = or_else (parse l str) (parse_layouts layouts str)

  -- ParseISO8601: the empty string is the zero time.
  unfoldable pub parse_iso8601 : Text → Option ℤ
  unfolding parse_layouts
  parse_iso8601 str = if is_empty str then some (pos 0) else parse_layouts iso8601_layouts str
