-- ===== src/Generator/Types.antt =====
-- http/jsonapi/generator/generate_helper.go: the Go type and the struct tags of a schema.
pub mod Validators
pub mod Parameters
use bricks.Prelude.{
  ℕ, zero, suc, ◌-◌, Bool, true, false, not, ◌&&◌, ◌||◌, List, [], ◌∷◌, ◌++◌, Option, none, some,
  if◌then◌else◌, length, any_of,
}
use bricks.Prelude.Text.{Text, codes, text_eq, is_empty, has_prefix, split, join}
use bricks.Prelude.Assoc.{lookup, insert}

-- An OpenAPI schema: its type and format, whether it is nullable, the values of its enumeration as %v
-- prints them, and the schema of its items
mutual
  pub data Schema : Type 0 where
    schema : (typ format : Text) (nullable : Bool) (enum : List Text) → Items → Schema

  pub data Items : Type 0 where
    no_items : Items
    items : Schema → Items

pub data Base : Type 0 where
  bytes text time decimal int32 int64 float32 float64 boolean : Base

pub data GoType : Type 0 where
  plain pointer : Base → GoType
  slice : GoType → GoType

abbrev pub Tags : Type 0
Tags = List (Text × Text)

abbrev pub or_empty : Option Text → Text
or_empty none = []
or_empty (some v) = v

abbrev pub appended : Text → Text → Text
appended [] validator = validator
appended (c ∷ cur) validator = (c ∷ cur) ++ 44 ∷ validator

-- addValidator
unfoldable pub add_validator : Text → Tags → Tags
add_validator validator tags =
    insert (codes "valid") (appended (or_empty (lookup (codes "valid") tags)) validator) tags

-- hasValidator
abbrev pub has_in : Text → Option Text → Bool
has_in validator none = false
has_in validator (some cfg) = any_of (λ v. has_prefix v validator) (split cfg 44)

unfoldable pub has_validator : Text → Tags → Bool
has_validator validator tags = has_in validator (lookup (codes "valid") tags)

-- strings.ReplaceAll(s, old, ""), for an old text that is not empty: so many bytes are left out yet.
unfoldable pub remove_from : Text → ℕ → Text → Text
remove_from old skip [] = []
remove_from old (suc skip) (c ∷ s) = remove_from old skip s
remove_from old zero (c ∷ s) =
    let behind = remove_from old (length old - 1) s in
    let kept = c ∷ remove_from old 0 s in if has_prefix (c ∷ s) old then behind else kept

-- if v, ok := tags[key]; ok { tags[key] = strings.ReplaceAll(v, ",omitempty", "") }
unfoldable pub remove_omitempty_of : Text → Option Text → Tags → Tags
unfolding remove_from
remove_omitempty_of key none tags = tags
remove_omitempty_of key (some v) tags = insert key (remove_from (codes ",omitempty") 0 v) tags

-- removeOmitempty
unfoldable pub remove_omitempty : Tags → Tags
remove_omitempty tags =
    let tags' = remove_omitempty_of (codes "jsonapi") (lookup (codes "jsonapi") tags) tags in
    remove_omitempty_of (codes "json") (lookup (codes "json") tags') tags'

-- A hint for jsonapi, or else a validator
unfoldable pub iso8601_tags : Option Text → Tags → Tags
iso8601_tags (some jsonapi) tags = insert (codes "jsonapi") (jsonapi ++ codes ",iso8601") tags
iso8601_tags none tags = add_validator (codes "iso8601") tags

abbrev pub param_type : Bool → Base → GoType
param_type is_param b = if is_param then plain b else pointer b

abbrev pub null_type : Bool → Base → GoType
null_type nullable b = if nullable then pointer b else plain b

-- The case "string"
unfoldable pub string_type : Bool → Text → Bool → Tags → GoType × Tags
string_type is_param format nullable tags =
    if text_eq format (codes "byte") || text_eq format (codes "binary")
    then (plain bytes, tags)
    else if text_eq format (codes "date-time")
    then (param_type is_param time, iso8601_tags (lookup (codes "jsonapi") tags) tags)
    else if text_eq format (codes "date")
    then (param_type is_param time, add_validator (codes "time(2006-01-02)") tags)
    else if text_eq format (codes "uuid")
    then (null_type nullable text, add_validator (codes "uuid") tags)
    else if text_eq format (codes "decimal")
    then (param_type is_param decimal, add_validator (codes "matches(^(\\d*\\.)?\\d+$)") tags)
    else (null_type nullable text, tags)

-- The case "integer"
unfoldable pub integer_type : Text → Bool → Tags → GoType × Tags
integer_type format nullable tags = (
  null_type nullable (if text_eq format (codes "int32") then int32 else int64),
  remove_omitempty tags,
)

-- The case "number"
unfoldable pub number_type : Bool → Text → Bool → Tags → GoType × Tags
number_type is_param format nullable tags =
    if text_eq format (codes "decimal")
    then if is_param then (plain decimal, remove_omitempty tags) else (pointer decimal, tags)
    else if text_eq format (codes "float")
    then (null_type nullable float32, remove_omitempty tags)
    else (null_type nullable float64, remove_omitempty tags)

-- The other cases but "array"; `none` is an unknown type.
unfoldable pub scalar_type : Bool → Text → Text → Bool → Tags → Option (GoType × Tags)
scalar_type is_param typ format nullable tags =
    if text_eq typ (codes "string")
    then some (string_type is_param format nullable tags)
    else if text_eq typ (codes "integer")
    then some (integer_type format nullable tags)
    else if text_eq typ (codes "number")
    then some (number_type is_param format nullable tags)
    else if text_eq typ (codes "boolean")
    then some (null_type nullable boolean, remove_omitempty tags)
    else none

-- The validator of an enumeration
unfoldable pub enum_tags : List Text → Tags → Tags
enum_tags [] tags = tags
enum_tags (e ∷ es) tags =
    let strs = if has_validator (codes "optional") tags then (e ∷ es) ++ [] ∷ [] else e ∷ es in
    add_validator (codes "in(" ++ (join strs 124 ++ codes ")")) tags

abbrev pub with_enum : List Text → Option (GoType × Tags) → Option (GoType × Tags)
with_enum enum none = none
with_enum enum (some (t, tags)) = some (t, enum_tags enum tags)

abbrev pub as_slice : Option (GoType × Tags) → Option (GoType × Tags)
as_slice none = none
as_slice (some (t, tags)) = some (slice t, tags)

-- typeGenerator.invoke: the type and the tags. `none` is the error of an unknown type, and the panic of
-- an array without items. The items have a generator of their own, which is not that of a parameter.
unfoldable mutual
  pub invoke : Bool → Schema → Tags → Option (GoType × Tags)
  invoke is_param (schema typ format nullable enum its) tags =
      let array = as_slice (invoke_items its (remove_omitempty tags)) in
      with_enum enum (
        if text_eq typ (codes "array")
        then array
        else scalar_type is_param typ format nullable tags)

  pub invoke_items : Items → Tags → Option (GoType × Tags)
  invoke_items no_items tags = none
  invoke_items (items s) tags = invoke false s tags
