-- ===== src/Locale/Tests.antt =====
-- Runs of locale.
use bricks.Prelude.{◌≡◌, refl, true, [], ◌∷◌, none, some, map, if◌then◌else◌}
use bricks.Prelude.Text.{codes, is_empty, text_eq}
use bricks.Locale.{
  Locale, Context, Headers, from_ctx, serve_http, round_trip, parse_locale, serialize,
  serialize_sep, header_accept_language, header_accept_timezone,
}
use bricks.Locale.Strategy.{StrategyList, new_default_fallback_strategy, locale_of}
use bricks.Locale.Strategy.Defined.{first_defined, locale_of-Found}
use bricks.Locale.Propagation.{serve_http-round_trip}

abbrev french : Locale
french = record { accept_language = codes "fr-CH"; accept_timezone = [] }

abbrev strategies : StrategyList
strategies = new_default_fallback_strategy (codes "de-DE") (codes "Europe/Berlin")

locale_of_run :
    locale_of strategies (some french)
    ≡ record { accept_language = codes "fr-CH"; accept_timezone = codes "Europe/Berlin" }
unfolding locale_of bricks.Locale.Strategy.complete bricks.Locale.Strategy.take_defined
    bricks.Locale.Strategy.is_complete new_default_fallback_strategy
    bricks.Locale.Strategy.push_front bricks.Locale.Strategy.new_fallback_strategy
    bricks.Locale.Strategy.new_context_strategy from_ctx bricks.Locale.new_locale
    bricks.Locale.has_language bricks.Locale.has_timezone is_empty
locale_of_run = refl

locale_of-Found_example :
    ((locale_of strategies (some french)).accept_language
      ≡ first_defined [] (map (λ s. (s (some french)).accept_language) strategies))
    × ((locale_of strategies (some french)).accept_timezone
        ≡ first_defined [] (map (λ s. (s (some french)).accept_timezone) strategies))
locale_of-Found_example = locale_of-Found strategies (some french)

abbrev headers : Headers
headers name = if text_eq name header_accept_timezone then codes "UTC" else []

serve_http-round_trip_example :
    ((from_ctx (serve_http (round_trip (some french) headers) none)).1 ≡ true)
    × ((from_ctx (serve_http (round_trip (some french) headers) none)).0.accept_language
        ≡ first_defined
            (from_ctx (some french)).0.accept_language
            (headers header_accept_language ∷ []))
    × ((from_ctx (serve_http (round_trip (some french) headers) none)).0.accept_timezone
        ≡ first_defined
            (from_ctx (some french)).0.accept_timezone
            (headers header_accept_timezone ∷ []))
serve_http-round_trip_example = serve_http-round_trip (some french) none headers
