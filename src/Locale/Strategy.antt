-- ===== src/Locale/Strategy.antt =====
-- locale/strategy.go: the strategies that find the locale of a user.
pub mod Defined
use bricks.Prelude.{Bool, true, false, not, ◌&&◌, List, [], ◌∷◌, ◌++◌, if◌then◌else◌}
use bricks.Prelude.Text.{Text}
use bricks.Locale.{Locale, new_locale, has_language, has_timezone, Context, from_ctx}

abbrev pub Strategy : Type 0
Strategy = Context → Locale

unfoldable pub new_fallback_strategy : Text → Text → Strategy
unfolding new_locale
new_fallback_strategy lang timezone ctx = new_locale lang timezone

unfoldable pub new_context_strategy : Strategy
unfolding from_ctx
new_context_strategy ctx = (from_ctx ctx).0

abbrev pub StrategyList : Type 0
StrategyList = List Strategy

unfoldable pub push_back : StrategyList → List Strategy → StrategyList
push_back s [] = s
push_back s (strategy ∷ strategies) = push_back (s ++ strategy ∷ []) strategies

unfoldable pub push_front : StrategyList → List Strategy → StrategyList
push_front s [] = s
push_front s (strategy ∷ strategies) = push_front (strategy ∷ s) strategies

-- What is not defined yet is taken of the current locale, if that defines it.
unfoldable pub take_defined : Locale → Locale → Locale
take_defined l cur_loc = record {
  accept_language =
      if not (has_language l) && has_language cur_loc
      then cur_loc.accept_language
      else l.accept_language;
  accept_timezone =
      if not (has_timezone l) && has_timezone cur_loc
      then cur_loc.accept_timezone
      else l.accept_timezone;
}

unfoldable pub is_complete : Locale → Bool
is_complete l = has_language l && has_timezone l

-- The loop of StrategyList.Locale, which stops when the locale is complete.
unfoldable pub complete : Locale → StrategyList → Context → Locale
unfolding take_defined is_complete
complete l [] ctx = l
complete l (s ∷ ss) ctx =
    let rest = complete (take_defined l (s ctx)) ss ctx in
    if is_complete (take_defined l (s ctx)) then take_defined l (s ctx) else rest

-- StrategyList.Locale
unfoldable pub locale_of : StrategyList → Context → Locale
unfolding complete new_locale
locale_of s ctx = complete (new_locale [] []) s ctx

-- NewDefaultFallbackStrategy, for the language and the time zone of the configuration
unfoldable pub new_default_fallback_strategy : Text → Text → StrategyList
unfolding push_front
new_default_fallback_strategy language timezone =
    push_front (push_front [] (new_fallback_strategy language timezone ∷ []))
      (new_context_strategy ∷ [])
