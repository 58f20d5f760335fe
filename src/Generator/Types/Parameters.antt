-- ===== src/Generator/Types/Parameters.antt =====
-- http/jsonapi/generator/generate_helper.go: the types of parameters that runtime.Scan reads itself.
use bricks.Prelude.{◌≡◌, refl, ap, ◌∙◌, Bool, true, false, List, Option, none, some, if◌then◌else◌}
use bricks.Prelude.Text.{Text, codes, text_eq}
use bricks.Generator.Types.{
  schema, Items, items, Base, time, decimal, GoType, plain, pointer, slice, Tags, string_type,
  scalar_type, with_enum, as_slice, invoke, remove_omitempty,
}

-- The formats of strings that runtime.Scan reads itself, with the types that it reads into
pub data IsParsed : Text → Base → Type 0 where
  date_time : IsParsed (codes "date-time") time
  date : IsParsed (codes "date") time
  decimal_text : IsParsed (codes "decimal") decimal

abbrev pub type_of : Option (GoType × Tags) → Option GoType
type_of none = none
type_of (some (t, tags)) = some t

type_of-with_enum :
    (enum : List Text) (o : Option (GoType × Tags)) → type_of (with_enum enum o) ≡ type_of o
type_of-with_enum enum none = refl
type_of-with_enum enum (some (t, tags)) = refl

abbrev pub map_slice : Option GoType → Option GoType
map_slice none = none
map_slice (some t) = some (slice t)

type_of-as_slice : (o : Option (GoType × Tags)) → type_of (as_slice o) ≡ map_slice (type_of o)
type_of-as_slice none = refl
type_of-as_slice (some (t, tags)) = refl

module _ (nullable : Bool) (enum : List Text) (its : Items) where
  -- A string of such a format
  scalar :
      {format : Text} {base : Base} (is_param : Bool) (tags : Tags)
      → IsParsed format base
      → type_of (invoke is_param (schema (codes "string") format nullable enum its) tags)
        ≡ some (if is_param then plain base else pointer base)
  unfolding invoke scalar_type string_type text_eq
  scalar is_param tags date_time =
      type_of-with_enum enum
        (scalar_type is_param (codes "string") (codes "date-time") nullable tags)
  scalar is_param tags date =
      type_of-with_enum enum (scalar_type is_param (codes "string") (codes "date") nullable tags)
  scalar is_param tags decimal_text =
      type_of-with_enum enum (scalar_type is_param (codes "string") (codes "decimal") nullable tags)

  -- A parameter that is a string of such a format has the type that Scan reads into, but the elements of
  -- a parameter that is an array of such strings are pointers to that type.
  pub invoke-elements_are_pointers :
      {format : Text} {base : Base} (f : Text) (n : Bool) (es : List Text) (tags : Tags)
      → IsParsed format base
      → (type_of (invoke true (schema (codes "string") format nullable enum its) tags)
          ≡ some (plain base))
        × (type_of (
              invoke true
                (schema
                  (codes "array")
                  f
                  n
                  es
                  (items (schema (codes "string") format nullable enum its)))
                tags)
            ≡ some (slice (pointer base)))
  unfolding invoke text_eq
  invoke-elements_are_pointers {format} {base} f n es tags p =
      let o =
        invoke false (schema (codes "string") format nullable enum its) (remove_omitempty tags) in
      (
        scalar true tags p,
        type_of-with_enum es (as_slice o)
            ∙ type_of-as_slice o
            ∙ ap map_slice (scalar false (remove_omitempty tags) p),
      )
