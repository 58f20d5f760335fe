-- ===== src/Generator/Types/Validators.antt =====
-- http/jsonapi/generator/generate_helper.go: the validators among the tags of a field.
use mathlib.Core.Path.{subst}
use bricks.Prelude.{
  ◌≡◌, refl, ap, ◌∙◌, Bool, true, false, ◌||◌, List, [], ◌∷◌, Option, none, some, if◌then◌else◌,
  any_of, Bool-cases, inl, inr,
}
use bricks.Prelude.Text.{Text, codes, text_eq, has_prefix, split}
use bricks.Prelude.Assoc.{lookup, insert, lookup-insert}
use bricks.Generator.Types.{
  Schema, schema, Items, no_items, items, GoType, Tags, or_empty, appended, add_validator, has_in,
  has_validator, remove_omitempty_of, remove_omitempty, iso8601_tags, string_type, integer_type,
  number_type, scalar_type, enum_tags, with_enum, as_slice, invoke, invoke_items,
}
use bricks.Prelude.Parts.{any_of-append, any_empty, split-append_sep}

abbrev pub Keeps : Text → Tags → Tags → Type 0
Keeps v tags tags' = has_validator v tags ≡ true → has_validator v tags' ≡ true

module _ (v : Text) where
  valid_after :
      (key value : Text) (tags : Tags)
      → has_validator v (insert key value tags)
        ≡ has_in v (if text_eq key (codes "valid") then some value else lookup (codes "valid") tags)
  unfolding has_validator
  valid_after key value tags = ap (has_in v) (lookup-insert key (codes "valid") value tags)

  in_appended :
      (o : Option Text) (validator : Text)
      → has_in v o ≡ true
      → any_of (λ x. has_prefix x v) (split (appended (or_empty o) validator) 44) ≡ true
  unfolding split
  in_appended none validator h = cc
  in_appended (some (c ∷ cur)) validator h =
      rw (split-append_sep (c ∷ cur) validator 44)
        (any_of-append (λ x. has_prefix x v) (split (c ∷ cur) 44) (split validator 44) h)
  in_appended (some []) validator h = of_empty v h
    where
      of_empty :
          (v : Text)
          → any_of (λ x. has_prefix x v) (split [] 44) ≡ true
          → any_of (λ x. has_prefix x v) (split validator 44) ≡ true
      of_empty [] h = any_empty validator
      of_empty (c ∷ v) h = absurd (unfold has_prefix in cc)

  add_validator-Keeps :
      (validator : Text) (tags : Tags) → Keeps v tags (add_validator validator tags)
  unfolding add_validator text_eq
  add_validator-Keeps validator tags h =
      valid_after (codes "valid") (appended (or_empty (lookup (codes "valid") tags)) validator) tags
      ∙ in_appended (lookup (codes "valid") tags) validator (unfold has_validator in h)

  other_key :
      (key value : Text) (tags : Tags)
      → text_eq key (codes "valid") ≡ false
      → Keeps v tags (insert key value tags)
  other_key key value tags n h = valid_after key value tags ∙ rw n (unfold has_validator in h)

  remove_omitempty_of-Keeps :
      (key : Text) (o : Option Text) (tags : Tags)
      → text_eq key (codes "valid") ≡ false
      → Keeps v tags (remove_omitempty_of key o tags)
  unfolding remove_omitempty_of
  remove_omitempty_of-Keeps key none tags n h = h
  remove_omitempty_of-Keeps key (some x) tags n h = other_key key _ tags n h

  remove_omitempty-Keeps : (tags : Tags) → Keeps v tags (remove_omitempty tags)
  unfolding remove_omitempty text_eq
  remove_omitempty-Keeps tags h =
      remove_omitempty_of-Keeps (codes "json") _ _ refl
        (remove_omitempty_of-Keeps (codes "jsonapi") (lookup (codes "jsonapi") tags) tags refl h)

  iso8601_tags-Keeps : (o : Option Text) (tags : Tags) → Keeps v tags (iso8601_tags o tags)
  unfolding iso8601_tags text_eq
  iso8601_tags-Keeps none tags h = add_validator-Keeps (codes "iso8601") tags h
  iso8601_tags-Keeps (some x) tags h = other_key (codes "jsonapi") _ tags refl h

  enum_tags-Keeps : (enum : List Text) (tags : Tags) → Keeps v tags (enum_tags enum tags)
  unfolding enum_tags
  enum_tags-Keeps [] tags h = h
  enum_tags-Keeps (e ∷ es) tags h = add_validator-Keeps _ tags h

  -- The tags of what a type comes to keep the validators.
  data KeepsIn (tags : Tags) : GoType × Tags → Type 0 where
    keeps : {t : GoType} {tags' : Tags} → Keeps v tags tags' → KeepsIn tags (t, tags')

  data KeepsIfAny (tags : Tags) : Option (GoType × Tags) → Type 0 where
    nothing : KeepsIfAny tags none
    just : {t : GoType} {tags' : Tags} → Keeps v tags tags' → KeepsIfAny tags (some (t, tags'))

  if_any : {tags : Tags} {x : GoType × Tags} → KeepsIn tags x → KeepsIfAny tags (some x)
  if_any (keeps k) = just k

  string_type-Keeps :
      (p : Bool) (format : Text) (nullable : Bool) (tags : Tags)
      → KeepsIn tags (string_type p format nullable tags)
  unfolding string_type
  string_type-Keeps p format nullable tags =
      (elim (Bool-cases (text_eq format (codes "byte") || text_eq format (codes "binary"))) [
        | inl q ↦ rw q (keeps (λ h. h))
        | inr n ↦ rw n (elim (Bool-cases (text_eq format (codes "date-time"))) [
          | inl q ↦ rw q (keeps (iso8601_tags-Keeps (lookup (codes "jsonapi") tags) tags))
          | inr n ↦ rw n (elim (Bool-cases (text_eq format (codes "date"))) [
            | inl q ↦ rw q (keeps (add_validator-Keeps (codes "time(2006-01-02)") tags))
            | inr n ↦ rw n (elim (Bool-cases (text_eq format (codes "uuid"))) [
              | inl q ↦ rw q (keeps (add_validator-Keeps (codes "uuid") tags))
              | inr n ↦ rw n (elim (Bool-cases (text_eq format (codes "decimal"))) [
                | inl q ↦
                    rw q (keeps (add_validator-Keeps (codes "matches(^(\\d*\\.)?\\d+$)") tags))
                | inr n ↦ rw n (keeps (λ h. h))
              ])
            ])
          ])
        ])
      ])

  number_type-Keeps :
      (p : Bool) (format : Text) (nullable : Bool) (tags : Tags)
      → KeepsIn tags (number_type p format nullable tags)
  unfolding number_type
  number_type-Keeps p format nullable tags = (elim (Bool-cases (text_eq format (codes "decimal"))) [
    | inl q ↦ rw q (
        (elim (Bool-cases (p)) [
          | inl q ↦ rw q (keeps (remove_omitempty-Keeps tags))
          | inr n ↦ rw n (keeps (λ h. h))
        ]))
    | inr n ↦ rw n (elim (Bool-cases (text_eq format (codes "float"))) [
      | inl q ↦ rw q (keeps (remove_omitempty-Keeps tags))
      | inr n ↦ rw n (keeps (remove_omitempty-Keeps tags))
    ])
  ])

  scalar_type-Keeps :
      (p : Bool) (typ format : Text) (nullable : Bool) (tags : Tags)
      → KeepsIfAny tags (scalar_type p typ format nullable tags)
  unfolding scalar_type integer_type
  scalar_type-Keeps p typ format nullable tags = (elim (Bool-cases (text_eq typ (codes "string"))) [
    | inl q ↦ rw q (if_any (string_type-Keeps p format nullable tags))
    | inr n ↦ rw n (elim (Bool-cases (text_eq typ (codes "integer"))) [
      | inl q ↦ rw q (just (remove_omitempty-Keeps tags))
      | inr n ↦ rw n (elim (Bool-cases (text_eq typ (codes "number"))) [
        | inl q ↦ rw q (if_any (number_type-Keeps p format nullable tags))
        | inr n ↦ rw n (elim (Bool-cases (text_eq typ (codes "boolean"))) [
          | inl q ↦ rw q (just (remove_omitempty-Keeps tags))
          | inr n ↦ rw n nothing
        ])
      ])
    ])
  ])

  with_enum-Keeps :
      (enum : List Text) (tags : Tags) (o : Option (GoType × Tags))
      → KeepsIfAny tags o
      → KeepsIfAny tags (with_enum enum o)
  with_enum-Keeps enum tags none k = nothing
  with_enum-Keeps enum tags (some (t, tags')) (just k) = just λ h. enum_tags-Keeps enum tags' (k h)

  as_slice-Keeps :
      (tags : Tags) (o : Option (GoType × Tags))
      → KeepsIfAny (remove_omitempty tags) o
      → KeepsIfAny tags (as_slice o)
  as_slice-Keeps tags none k = nothing
  as_slice-Keeps tags (some (t, tags')) (just k) = just λ h. k (remove_omitempty-Keeps tags h)

  mutual
    unfolding invoke

    invoke-Keeps : (s : Schema) (p : Bool) (tags : Tags) → KeepsIfAny tags (invoke p s tags)
    invoke-Keeps (schema typ format nullable enum its) p tags =
        with_enum-Keeps enum tags _ (elim (Bool-cases (text_eq typ (codes "array"))) [
          | inl q ↦ rw q (as_slice-Keeps tags _ (invoke_items-Keeps its (remove_omitempty tags)))
          | inr n ↦ rw n (scalar_type-Keeps p typ format nullable tags)
        ])

    invoke_items-Keeps : (its : Items) (tags : Tags) → KeepsIfAny tags (invoke_items its tags)
    invoke_items-Keeps no_items tags = nothing
    invoke_items-Keeps (items s) tags = invoke-Keeps s false tags

  abbrev KeepsFrom : Tags → Option (GoType × Tags) → Type 0
  KeepsFrom tags none = Unit
  KeepsFrom tags (some (s, tags')) = Keeps v tags tags'

  from_any : (tags : Tags) (o : Option (GoType × Tags)) → KeepsIfAny tags o → KeepsFrom tags o
  from_any tags none k = tt
  from_any tags (some (t, tags')) (just k) = k

  -- Whatever the schema, a validator that the tags have is kept when the type of the schema is generated.
  pub invoke-keeps_validator :
      (s : Schema) (p : Bool) (tags tags' : Tags) (t : GoType)
      → invoke p s tags ≡ some (t, tags')
      → has_validator v tags ≡ true
      → has_validator v tags' ≡ true
  invoke-keeps_validator s p tags tags' t e =
      subst (KeepsFrom tags) e (from_any tags _ (invoke-Keeps s p tags))
