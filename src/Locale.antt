-- ===== src/Locale.antt =====
-- locale: the language and the time zone of a request (locale.go, context.go, http.go), and the
-- client's side of them (http/transport/locale_round_tripper.go). Of a context only the value under
-- the key of the package is modelled; a nil locale in it is left out.
pub mod Strategy
pub mod Serialized
pub mod Propagation
mod Tests
use bricks.Prelude.{
  ℕ, Bool, true, false, not, List, [], ◌∷◌, ◌++◌, Option, none, some, if◌then◌else◌,
}
use bricks.Prelude.Text.{Text, codes, is_empty, split, text_eq}
use bricks.Prelude.Result.{Result, ok, err}

pub record Locale : Type 0 where
  pub accept_language : Text
  pub accept_timezone : Text

unfoldable pub new_locale : Text → Text → Locale
new_locale accept_language accept_timezone = record {
  accept_language = accept_language;
  accept_timezone = accept_timezone;
}

unfoldable pub has_language : Locale → Bool
has_language l = not (is_empty l.accept_language)

unfoldable pub has_timezone : Locale → Bool
has_timezone l = not (is_empty l.accept_timezone)

-- time.LoadLocation is a parameter; the errors are ErrNoTimezone and those of LoadLocation.
pub data LocationError : Type 0 where
  no_timezone not_loaded : LocationError

abbrev loaded : {Zone : Type 0} → Option Zone → Result LocationError Zone
loaded none = err not_loaded
loaded (some z) = ok z

unfoldable pub location :
    {Zone : Type 0} → (Text → Option Zone) → Locale → Result LocationError Zone
location load l = if not (has_timezone l) then err no_timezone else loaded (load l.accept_timezone)

abbrev zone_of : {Zone : Type 0} → Result LocationError Zone → Option Zone
zone_of (err e) = none
zone_of (ok z) = some z

-- The zone of the time that Now gives; the local one is `none`.
unfoldable pub now_zone : {Zone : Type 0} → (Text → Option Zone) → Locale → Option Zone
unfolding location
now_zone load l = if has_timezone l then zone_of (location load l) else none

abbrev pub serialize_sep : ℕ
serialize_sep = 124

unfoldable pub serialize : Locale → Text
serialize l = l.accept_language ++ serialize_sep ∷ l.accept_timezone

unfoldable pub parse_parts : List Text → Option Locale
unfolding new_locale
parse_parts (language ∷ timezone ∷ []) = some (new_locale language timezone)
parse_parts _ = none

-- ParseLocale; an error is `none`.
unfoldable pub parse_locale : Text → Option Locale
unfolding parse_parts
parse_locale serialized = parse_parts (split serialized serialize_sep)

abbrev pub Context : Type 0
Context = Option Locale

unfoldable pub with_locale : Context → Locale → Context
with_locale ctx l = some l

-- FromCtx: the locale, and whether there was one
unfoldable pub from_ctx : Context → Locale × Bool
unfolding new_locale
from_ctx none = (new_locale [] [], false)
from_ctx (some l) = (l, true)

unfoldable pub context_transfer : Context → Context → Context
unfolding from_ctx with_locale
context_transfer source_ctx target_ctx = with_locale target_ctx (from_ctx source_ctx).0

abbrev pub header_accept_language : Text
header_accept_language = codes "Accept-Language"

abbrev pub header_accept_timezone : Text
header_accept_timezone = codes "Accept-Timezone"

-- r.Header.Get
abbrev pub Headers : Type 0
Headers = Text → Text

-- r.Header.Set
abbrev pub set_header : Text → Text → Headers → Headers
set_header name value headers n = if text_eq n name then value else headers n

unfoldable pub from_request : Headers → Locale
unfolding new_locale
from_request r = new_locale (r header_accept_language) (r header_accept_timezone)

unfoldable pub add_language : Locale → Headers → Headers
add_language l r =
    if has_language l then set_header header_accept_language l.accept_language r else r

unfoldable pub add_timezone : Locale → Headers → Headers
add_timezone l r =
    if has_timezone l then set_header header_accept_timezone l.accept_timezone r else r

-- Locale.Request
unfoldable pub request : Locale → Headers → Headers
unfolding add_language add_timezone
request l r = add_timezone l (add_language l r)

-- Middleware.ServeHTTP: the context of the request that the next handler gets
unfoldable pub serve_http : Headers → Context → Context
unfolding from_request with_locale
serve_http r ctx = with_locale ctx (from_request r)

-- LocaleRoundTripper.RoundTrip: the headers of the request that is sent
unfoldable pub round_trip : Context → Headers → Headers
unfolding from_ctx request
round_trip ctx req = let (loc, found) = from_ctx ctx in if found then request loc req else req
