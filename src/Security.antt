-- ===== src/Security.antt =====
-- http/security: the token of a request, in its header and in its context.
-- Of a context only the value under the key of the token is modelled.
pub mod Laws
pub mod ApiKey
use bricks.Prelude.{ℕ, Bool, true, false, [], ◌∷◌, ◌++◌, Option, none, some, List, if◌then◌else◌}
use bricks.Prelude.Text.{Text, codes, has_prefix, trim_prefix}

-- The token of package oauth2; the value of `backend` is opaque.
pub record Oauth2Token : Type 0 where
  pub value : Text
  pub user_id : Text
  pub client_id : Text
  pub scope : Text
  pub backend : Option ℕ

-- The implementations of the interface Token: TokenString, and the tokens of apikey and oauth2.
pub data Token : Type 0 where
  token_string api_key : Text → Token
  oauth2 : Oauth2Token → Token

unfoldable pub get_value : Token → Text
get_value (token_string s) = s
get_value (api_key s) = s
get_value (oauth2 t) = t.value

pub record Context : Type 0 where
  pub token : Option Token

pub record Request : Type 0 where
  -- r.Header.Get
  pub header : Text → Text
  pub context : Context

-- What is written to the response: nothing, or an error with a status code.
pub record Reply : Type 0 where
  pub code : ℕ
  pub message : Text

-- What Authorize returns, with what it wrote. A nil context is `none`.
pub record Verdict : Type 0 where
  pub context : Option Context
  pub authorized : Bool
  pub reply : Option Reply

abbrev pub header_prefix : Text
header_prefix = codes "Bearer "

unfoldable pub get_bearer_token_from_header : Text → Text
get_bearer_token_from_header auth_header =
    if has_prefix auth_header header_prefix then trim_prefix auth_header header_prefix else []

unfoldable pub context_with_token : Context → Option Token → Context
context_with_token ctx token = record { token = token }

unfoldable pub get_token_from_context : Context → Option Token
get_token_from_context ctx = ctx.token

unfoldable pub get_auth_header : Token → Text
unfolding get_value
get_auth_header tok = header_prefix ++ get_value tok
