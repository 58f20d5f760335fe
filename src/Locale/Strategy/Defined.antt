-- ===== src/Locale/Strategy/Defined.antt =====
-- locale/strategy.go: which strategy defines what.
use bricks.Prelude.{
  ◌≡◌, refl, sym, ap, ◌∙◌, Bool, true, false, not, ◌&&◌, List, [], ◌∷◌, map, if◌then◌else◌,
  if_cases, arith,
}
use bricks.Prelude.Text.{Text, is_empty}
use bricks.Locale.{Locale, new_locale, has_language, has_timezone, Context}
use bricks.Locale.Strategy.{Strategy, StrategyList, take_defined, is_complete, complete, locale_of}

-- The first text that is not empty.
unfoldable pub first_defined : Text → List Text → Text
first_defined d [] = d
first_defined [] (t ∷ ts) = first_defined t ts
first_defined (c ∷ d) (t ∷ ts) = c ∷ d

abbrev languages : StrategyList → Context → List Text
languages ss ctx = map (λ s. (s ctx).accept_language) ss

abbrev timezones : StrategyList → Context → List Text
timezones ss ctx = map (λ s. (s ctx).accept_timezone) ss

-- A text that is defined is kept.
first_kept : (d : Text) (ts : List Text) → is_empty d ≡ false → d ≡ first_defined d ts
unfolding first_defined is_empty
first_kept [] ts h = cc
first_kept (c ∷ d) [] h = refl
first_kept (c ∷ d) (t ∷ ts) h = refl

first_step :
    (d t : Text) (ts : List Text)
    → first_defined (if not (is_empty d) then d else t) ts ≡ first_defined d (t ∷ ts)
unfolding first_defined is_empty
first_step [] t ts = refl
first_step (c ∷ d) t ts = sym (first_kept (c ∷ d) ts (unfold is_empty in refl))

one_step :
    (d t : Text)
    → (if not (not (is_empty d)) && not (is_empty t) then t else d)
      ≡ (if not (is_empty d) then d else t)
unfolding is_empty
one_step [] [] = refl
one_step [] (c ∷ t) = refl
one_step (c ∷ d) [] = refl
one_step (c ∷ d) (e ∷ t) = refl

abbrev Found : Locale → StrategyList → Context → Locale → Type 0
Found l ss ctx m =
    (m.accept_language ≡ first_defined l.accept_language (languages ss ctx))
    × (m.accept_timezone ≡ first_defined l.accept_timezone (timezones ss ctx))

complete_locale :
    (l : Locale) (ss : StrategyList) (ctx : Context) → is_complete l ≡ true → Found l ss ctx l
unfolding is_complete has_language has_timezone
complete_locale l ss ctx h = (
  first_kept l.accept_language (languages ss ctx)
      (left (is_empty l.accept_language) (is_empty l.accept_timezone) h),
  first_kept l.accept_timezone (timezones ss ctx)
      (right (is_empty l.accept_language) (is_empty l.accept_timezone) h),
)
  where
    left : (a b : Bool) → (not a && not b) ≡ true → a ≡ false
    left a b h = ground arith

    right : (a b : Bool) → (not a && not b) ≡ true → b ≡ false
    right a b h = ground arith

take_defined-Found :
    (l : Locale) (s : Strategy) (ss : StrategyList) (ctx : Context) (m : Locale)
    → Found (take_defined l (s ctx)) ss ctx m
    → Found l (s ∷ ss) ctx m
unfolding take_defined has_language has_timezone
take_defined-Found l s ss ctx m (a, b) = (
  a
      ∙ ap (λ d. first_defined d (languages ss ctx))
          (one_step l.accept_language (s ctx).accept_language)
      ∙ first_step l.accept_language (s ctx).accept_language (languages ss ctx),
  b
      ∙ ap (λ d. first_defined d (timezones ss ctx))
          (one_step l.accept_timezone (s ctx).accept_timezone)
      ∙ first_step l.accept_timezone (s ctx).accept_timezone (timezones ss ctx),
)

complete-Found :
    (l : Locale) (ss : StrategyList) (ctx : Context) → Found l ss ctx (complete l ss ctx)
unfolding complete
complete-Found l [] ctx = unfold first_defined in (refl, refl)
complete-Found l (s ∷ ss) ctx =
    if_cases (Found l (s ∷ ss) ctx) (is_complete (take_defined l (s ctx))) _ _
      (λ h.
        take_defined-Found l s ss ctx (take_defined l (s ctx))
          (complete_locale (take_defined l (s ctx)) ss ctx h))
      (λ _.
        take_defined-Found l s ss ctx (complete (take_defined l (s ctx)) ss ctx)
          (complete-Found (take_defined l (s ctx)) ss ctx))

-- The locale of a list of strategies has the language of the first strategy that defines one, and
-- the time zone of the first that defines one; each is empty if no strategy defines it.
pub locale_of-Found :
    (ss : StrategyList) (ctx : Context)
    → ((locale_of ss ctx).accept_language
        ≡ first_defined [] (map (λ s. (s ctx).accept_language) ss))
      × ((locale_of ss ctx).accept_timezone
          ≡ first_defined [] (map (λ s. (s ctx).accept_timezone) ss))
unfolding locale_of new_locale
locale_of-Found ss ctx = complete-Found (new_locale [] []) ss ctx
