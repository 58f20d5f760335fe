-- ===== src/Oauth2.antt =====
-- http/oauth2: the introspection of a request's token (oauth2.go, introspection.go) and what the
-- handlers read of it. The introspecter is a parameter. Tracing and logging are left out, and of
-- a context only the value under the key of the token is modelled.
pub mod Scope
pub mod Authorizer
pub mod Laws
mod Tests
use mathlib.Core.Option
use bricks.Prelude.{
  ℕ, Bool, true, false, [], ◌∷◌, ◌++◌, Option, none, some, List, if◌then◌else◌, ◌||◌,
}
use bricks.Prelude.Text.{Text, codes, is_empty, fields, text_eq}
use bricks.Prelude.Result.{Result, ok, err}
use bricks.Security.{
  Oauth2Token, Token, oauth2, get_value, Context, Request, Reply, Verdict,
  get_bearer_token_from_header, context_with_token, get_token_from_context, get_auth_header,
}
use bricks.Oauth2.Scope.{is_included_in}

-- IntrospectResponse; what identifies the backend is opaque.
pub record IntrospectResponse : Type 0 where
  pub active : Bool
  pub scope : Text
  pub client_id : Text
  pub user_id : Text
  pub backend : Option ℕ

-- The error of an introspecter: its text, and which of the package's errors it wraps.
pub record IntrospectError : Type 0 where
  pub message : Text
  pub is_bad_upstream_response : Bool
  pub is_upstream_connection : Bool
  pub is_invalid_token : Bool

abbrev pub TokenIntrospecter : Type 0
TokenIntrospecter = Context → Text → Result IntrospectError IntrospectResponse

abbrev pub oauth2_header : Text
oauth2_header = codes "Authorization"

-- http.Error(w, message, code), nil and false
abbrev pub refused : ℕ → Text → Verdict
refused code message = record {
  context = none;
  authorized = false;
  reply = some (record { code = code; message = message });
}

unfoldable pub error_status : IntrospectError → ℕ
error_status e =
    if e.is_bad_upstream_response || e.is_upstream_connection
    then 502
    else if e.is_invalid_token
    then 401
    else 500

unfoldable pub from_introspect_response : IntrospectResponse → Text → Oauth2Token
from_introspect_response s token_value = record {
  value = token_value;
  user_id = s.user_id;
  client_id = s.client_id;
  scope = s.scope;
  backend = s.backend;
}

unfoldable pub introspected : Context → Text → Result IntrospectError IntrospectResponse → Verdict
unfolding error_status from_introspect_response
introspected ctx tok (err e) = refused (error_status e) e.message
introspected ctx tok (ok s) = record {
  context = some (context_with_token ctx (some (oauth2 (from_introspect_response s tok))));
  authorized = true;
  reply = none;
}

unfoldable pub introspect_token : TokenIntrospecter → Context → Text → Verdict
unfolding introspected
introspect_token token_intro ctx tok =
    if is_empty tok
    then refused 401 (codes "Unauthorized")
    else introspected ctx tok (token_intro ctx tok)

unfoldable pub introspect_request : TokenIntrospecter → Request → Verdict
unfolding introspect_token
introspect_request token_intro r =
    introspect_token token_intro r.context (get_bearer_token_from_header (r.header oauth2_header))

-- What a handler does with a request: it is passed on to the next handler, or answered.
pub data Outcome : Type 0 where
  passed : Request → Outcome
  answered : Option Reply → Outcome

-- r.WithContext(ctx)
abbrev pub with_context : Request → Context → Request
with_context r ctx = record { header = r.header; context = ctx }

unfoldable pub passed_if : Request → Bool → Option Context → Option Reply → Outcome
passed_if r true (some ctx) w = passed (with_context r ctx)
passed_if r _ _ w = answered w

unfoldable pub passed_with : Request → Verdict → Outcome
unfolding passed_if
passed_with r v = passed_if r v.authorized v.context v.reply

-- Middleware.Handler
unfoldable pub handler : TokenIntrospecter → Request → Outcome
unfolding introspect_request passed_with
handler backend r = passed_with r (introspect_request backend r)

-- The token of oauth2 in a context
unfoldable pub oauth2_token : Option Token → Option Oauth2Token
oauth2_token (some (oauth2 t)) = some t
oauth2_token _ = none

unfoldable pub token_scope_includes : Text → Option Oauth2Token → Bool
token_scope_includes scope none = false
token_scope_includes scope (some t) = is_included_in scope t.scope

unfoldable pub has_scope : Context → Text → Bool
unfolding oauth2_token token_scope_includes
has_scope ctx scope = token_scope_includes scope (oauth2_token (get_token_from_context ctx))

unfoldable pub user_id : Context → Option Text
unfolding oauth2_token
user_id ctx = Option.map (λ t. t.user_id) (oauth2_token (get_token_from_context ctx))

unfoldable pub client_id : Context → Option Text
unfolding oauth2_token
client_id ctx = Option.map (λ t. t.client_id) (oauth2_token (get_token_from_context ctx))

unfoldable pub backend : Context → Option (Option ℕ)
unfolding oauth2_token
backend ctx = Option.map (λ t. t.backend) (oauth2_token (get_token_from_context ctx))

unfoldable pub scopes_of : Option Oauth2Token → List Text
scopes_of none = []
scopes_of (some t) = fields t.scope

unfoldable pub scopes : Context → List Text
unfolding oauth2_token scopes_of
scopes ctx = scopes_of (oauth2_token (get_token_from_context ctx))

unfoldable pub bearer_token : Context → Option Text
bearer_token ctx = Option.map get_value (get_token_from_context ctx)

unfoldable pub with_bearer_token : Context → Text → Context
with_bearer_token ctx t =
    context_with_token ctx (
      some
        (oauth2 (record { value = t; user_id = []; client_id = []; scope = []; backend = none })))

unfoldable pub context_transfer : Context → Context → Context
context_transfer source_ctx target_ctx =
    context_with_token target_ctx (get_token_from_context source_ctx)

-- r.Header.Set(name, value)
abbrev pub set_header : (Text → Text) → Text → Text → Text → Text
set_header headers name value n = if text_eq n name then value else headers n

unfoldable pub authorized_by : Request → Option Token → Request
authorized_by r none = r
authorized_by r (some tok) = record {
  header = set_header r.header oauth2_header (get_auth_header tok);
  context = r.context;
}

unfoldable pub request : Request → Request
unfolding authorized_by
request r = authorized_by r (get_token_from_context r.context)
