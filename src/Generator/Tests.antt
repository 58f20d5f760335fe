-- ===== src/Generator/Tests.antt =====
-- Runs of http/jsonapi/generator.
use bricks.Prelude.{◌≡◌, true, false, [], ◌∷◌, some}
use bricks.Prelude.Text.{codes}
use bricks.Generator.Types.{schema, no_items, items, time, plain, pointer, slice, invoke, Tags}
use bricks.Generator.Types.Parameters.{date_time, type_of, invoke-elements_are_pointers}

abbrev required : Tags
required = (codes "valid", codes "required") ∷ []

invoke-elements_are_pointers_example :
    (type_of (invoke true (schema (codes "string") (codes "date-time") false [] no_items) required)
      ≡ some (plain time))
    × (type_of (
          invoke true
            (schema
              (codes "array")
              []
              false
              []
              (items (schema (codes "string") (codes "date-time") false [] no_items)))
            required)
        ≡ some (slice (pointer time)))
invoke-elements_are_pointers_example =
    invoke-elements_are_pointers false [] no_items [] false [] required date_time
