-- ===== src/Locale/Propagation.antt =====
-- The locale of a request that one service makes of another: http.go and context.go of locale, and
-- http/transport/locale_round_tripper.go.
use bricks.Prelude.{◌≡◌, refl, true, [], ◌∷◌, none, some}
use bricks.Prelude.Text.{Text, is_empty, text_eq}
use bricks.Locale.{
  Locale, new_locale, Context, from_ctx, with_locale, Headers, header_accept_language,
  header_accept_timezone, from_request, request, add_language, add_timezone, has_language,
  has_timezone, serve_http, round_trip,
}
use bricks.Locale.Strategy.Defined.{first_defined}

-- The headers of a locale, and those that were there where it does not define them.
abbrev Carried : Locale → Headers → Headers → Type 0
Carried l r q =
    (q header_accept_language ≡ first_defined l.accept_language (r header_accept_language ∷ []))
    × (q header_accept_timezone ≡ first_defined l.accept_timezone (r header_accept_timezone ∷ []))

request-Carried : (l : Locale) (r : Headers) → Carried l r (request l r)
unfolding request add_language add_timezone has_language has_timezone is_empty text_eq first_defined
request-Carried l r = added l.accept_language l.accept_timezone
  where
    added :
        (a t : Text)
        → Carried
            (record { accept_language = a; accept_timezone = t })
            r
            (request (record { accept_language = a; accept_timezone = t }) r)
    added [] [] = (refl, refl)
    added [] (c ∷ t) = (refl, refl)
    added (d ∷ a) [] = (refl, refl)
    added (d ∷ a) (c ∷ t) = (refl, refl)

round_trip-Carried : (ctx : Context) (r : Headers) → Carried (from_ctx ctx).0 r (round_trip ctx r)
unfolding round_trip from_ctx
round_trip-Carried none r = unfold first_defined new_locale in (refl, refl)
round_trip-Carried (some l) r = request-Carried l r

-- A handler behind the middleware of locale, that serves a request sent through the round tripper
-- with a context, has in its context the language of the sender's context, or else that of the
-- request's own header, and likewise for the time zone.
pub serve_http-round_trip :
    (ctx other : Context) (r : Headers)
    → ((from_ctx (serve_http (round_trip ctx r) other)).1 ≡ true)
      × ((from_ctx (serve_http (round_trip ctx r) other)).0.accept_language
          ≡ first_defined (from_ctx ctx).0.accept_language (r header_accept_language ∷ []))
      × ((from_ctx (serve_http (round_trip ctx r) other)).0.accept_timezone
          ≡ first_defined (from_ctx ctx).0.accept_timezone (r header_accept_timezone ∷ []))
serve_http-round_trip ctx other r =
    let sent : Carried (from_ctx ctx).0 r (round_trip ctx r) = round_trip-Carried ctx r in
    unfold serve_http with_locale from_request new_locale in
    (unfold from_ctx in refl, received sent.0, received_zone sent.1)
  where
    received :
        {t : Text}
        → round_trip ctx r header_accept_language ≡ t
        → (from_ctx (serve_http (round_trip ctx r) other)).0.accept_language ≡ t
    received e = unfold serve_http with_locale from_request new_locale from_ctx in e

    received_zone :
        {t : Text}
        → round_trip ctx r header_accept_timezone ≡ t
        → (from_ctx (serve_http (round_trip ctx r) other)).0.accept_timezone ≡ t
    received_zone e = unfold serve_http with_locale from_request new_locale from_ctx in e
