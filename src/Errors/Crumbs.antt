-- ===== src/Errors/Crumbs.antt =====
-- What a breadcrumb keeps of a log entry, and when there are breadcrumbs at all.
use bricks.Prelude.{
  arith, ◌≡◌, refl, ap, ◌∙◌, ◌⊎◌, inl, inr, List, [], ◌∷◌, Option, none, some, if◌then◌else◌,
}
use bricks.Prelude.Int.{ℤ}
use bricks.Prelude.Text.{Text, codes, has, text_eq_iff}
use bricks.Prelude.Assoc.{lookup, remove, lookup-remove}
use bricks.Prelude.Result.{Result, ok, err}
use bricks.Errors.{
  Entry, Level, Breadcrumb, with_values, remove_all, consumed, read_breadcrumb, create_breadcrumb,
  collect, create_breadcrumbs, get_breadcrumbs,
}

remove_all-lookup :
    (ks : List Text) (k : Text) (d : Entry)
    → lookup k (remove_all ks d) ≡ (if has k ks then none else lookup k d)
unfolding has
remove_all-lookup [] k d = refl
remove_all-lookup (j ∷ ks) k d = ground (
  arith,
  remove_all-lookup ks k (remove j d),
  lookup-remove j k d,
  text_eq_iff j k,
  text_eq_iff k j,
)

module _ (parse_time : Text → Option ℤ) (parse_level : Text → Option Level) where
  values_left :
      (entry : Entry) (r : Result Text Breadcrumb) (crumb : Breadcrumb)
      → with_values (remove_all consumed entry) r ≡ ok crumb
      → crumb.values ≡ remove_all consumed entry
  values_left entry (err e) crumb h = cc
  values_left entry (ok c) crumb h = cc

  -- The breadcrumbs of entries: each keeps of its own every value but those that it has read.
  abbrev pub Keeps : List Entry → List Breadcrumb → Type 0
  Keeps [] [] = Unit
  Keeps [] (c ∷ cs) = ⊥
  Keeps (e ∷ es) [] = ⊥
  Keeps (e ∷ es) (c ∷ cs) =
      (create_breadcrumb parse_time parse_level e ≡ ok c)
      × ((k : Text) → lookup k c.values ≡ (if has k consumed then none else lookup k e))
      × Keeps es cs

  -- No breadcrumb can be made of one of the entries.
  abbrev pub Fails : List Entry → Type 0
  Fails [] = ⊥
  Fails (e ∷ es) =
      ((text : Text) × (create_breadcrumb parse_time parse_level e ≡ err text)) ⊎ Fails es

  abbrev Made : List Entry → Option (List Breadcrumb) → Type 0
  Made es none = Fails es
  Made es (some cs) = Keeps es cs

  collected :
      (e : Entry) (es : List Entry) (r : Result Text Breadcrumb) (o : Option (List Breadcrumb))
      → create_breadcrumb parse_time parse_level e ≡ r
      → Made es o
      → Made (e ∷ es) (collect r o)
  unfolding create_breadcrumb
  collected e es (err text) o h m = inl (text, h)
  collected e es (ok c) none h m = inr m
  collected e es (ok c) (some cs) h m =
      let left : c.values ≡ remove_all consumed e =
        values_left e (read_breadcrumb parse_time parse_level (remove (codes "req_id") e)) c h in
      (h, (λ k. ap (lookup k) left ∙ remove_all-lookup consumed k e), m)

  made : (es : List Entry) → Made es (create_breadcrumbs parse_time parse_level es)
  unfolding create_breadcrumbs
  made [] = tt
  made (e ∷ es) =
      collected e es (create_breadcrumb parse_time parse_level e)
        (create_breadcrumbs parse_time parse_level es) refl (made es)

  -- Of the log of a request either there is a breadcrumb for each entry, in order, which keeps all of
  -- the entry's values but the six that it has read; or there is none at all, and then one of the entries
  -- is such that no breadcrumb can be made of it.
  pub get_breadcrumbs-Made :
      (es : List Entry)
      → ((cs : List Breadcrumb) × (get_breadcrumbs parse_time parse_level (some (some es))
            ≡ some cs)
          × Keeps es cs)
        ⊎ ((get_breadcrumbs parse_time parse_level (some (some es)) ≡ none) × Fails es)
  unfolding get_breadcrumbs
  get_breadcrumbs-Made es = go (create_breadcrumbs parse_time parse_level es) refl (made es)
    where
      go :
          (o : Option (List Breadcrumb))
          → create_breadcrumbs parse_time parse_level es ≡ o
          → Made es o
          → ((cs : List Breadcrumb) × (create_breadcrumbs parse_time parse_level es ≡ some cs)
              × Keeps es cs)
            ⊎ ((create_breadcrumbs parse_time parse_level es ≡ none) × Fails es)
      go none h m = inr (h, m)
      go (some cs) h m = inl (cs, h, m)
