-- ===== src/Transfer/Transferred.antt =====
-- pkg/context/transfer.go: what a transferred context holds.
use bricks.Prelude.{ℕ, ◌<◌, ◌≡◌, refl, [], Option, none, some}
use bricks.Prelude.Text.{Text}
use bricks.Security
use bricks.Oauth2
use bricks.Errors
use bricks.Middleware.Forwarded
use bricks.Redact.{ReplaceAll, Store, PatternRedactor, mask, do_nothing}
use bricks.Redact
use bricks.Redact.Isolation.{ctx-isolated}
use bricks.Utm
use bricks.Log.RequestId.{Xid}
use bricks.Log.RequestId
use bricks.Locale
use bricks.Transfer.{Context, transfer_address, transfer_utm, transfer}

address_lem : (o : Option ℕ) → transfer_address o none ≡ o
unfolding transfer_address
address_lem none = refl
address_lem (some a) = refl

utm_lem : (o : Option Utm.UtmData) → transfer_utm o none ≡ o
unfolding Utm.context_transfer
utm_lem none = refl
utm_lem (some d) = refl

request_lem : (o : Option Forwarded.CtxRequest) → Forwarded.context_transfer o none ≡ o
unfolding Forwarded.context_transfer
request_lem none = refl
request_lem (some r) = refl

error_request_lem : (o : Option ℕ) → Errors.context_transfer o none ≡ o
unfolding Errors.context_transfer
error_request_lem none = refl
error_request_lem (some r) = refl

id_lem : (xid : Xid Text) (o : Option Text) → RequestId.context_transfer xid o none ≡ o
unfolding RequestId.context_transfer
id_lem xid none = refl
id_lem xid (some r) = refl

-- What a context's redactor makes of a text; without one the text stays.
abbrev pub masked : ReplaceAll → Option PatternRedactor → Store → Text → Option Text
masked replace none s text = some text
masked replace (some r) s text = mask replace r s text

abbrev pub InStore : Option PatternRedactor → Store → Type 0
InStore none s = Unit
InStore (some r) s = r.patterns.array < s.next

redactor_lem :
    (replace : ReplaceAll) (o : Option PatternRedactor) (s : Store) (text : Text)
    → InStore o s
    → masked replace (Redact.context_transfer o s).0 (Redact.context_transfer o s).1 text
      ≡ masked replace o s text
unfolding Redact.context_transfer Redact.new_pattern_redactor
redactor_lem replace none s text h = unfold mask in refl
redactor_lem replace (some r) s text h = (ctx-isolated replace r s [] text h).0

-- What a transferred context shares with the one that it was made of
pub record Transferred (replace : ReplaceAll) (c : Context) (s : Store) (d : Context) (t : Store)
    : Type 0 where
  pub sink : d.sink ≡ c.sink
  pub token : Security.get_token_from_context d.auth ≡ Security.get_token_from_context c.auth
  pub error_request : d.error_request ≡ c.error_request
  pub request : d.request ≡ c.request
  pub redaction :
      (text : Text) → masked replace d.redactor t text ≡ masked replace c.redactor s text
  pub utm_data : d.utm_data ≡ c.utm_data
  pub request_id : d.request_id ≡ c.request_id
  pub span : d.span ≡ c.span
  pub locale : d.locale ≡ some (Locale.from_ctx c.locale).0
  pub dependencies : d.dependencies ≡ none

-- The context that Transfer makes has the sink, the token, the requests, the UTM data, the request's id,
-- the span and the locale of the given one, a redactor that masks every text as the given one's does, and
-- no external dependencies.
pub transfer-Transferred :
    (xid : Xid Text) (replace : ReplaceAll) (c : Context) (s : Store)
    → InStore c.redactor s
    → Transferred replace c s (transfer xid c s).0 (transfer xid c s).1
unfolding transfer
transfer-Transferred xid replace c s h = record {
  sink = address_lem c.sink;
  token =
      unfold Oauth2.context_transfer Security.context_with_token Security.get_token_from_context in
      refl;
  error_request = error_request_lem c.error_request;
  request = request_lem c.request;
  redaction = λ text. redactor_lem replace c.redactor s text h;
  utm_data = utm_lem c.utm_data;
  request_id = id_lem xid c.request_id;
  span = address_lem c.span;
  locale = unfold Locale.context_transfer Locale.with_locale in refl;
  dependencies = refl;
}
