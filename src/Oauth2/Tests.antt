-- ===== src/Oauth2/Tests.antt =====
-- Runs of http/oauth2.
use bricks.Prelude.{◌≡◌, ◌↔◌, true, false, [], none, if◌then◌else◌}
use bricks.Prelude.Text.{Text, codes, text_eq}
use bricks.Prelude.Result.{ok, err}
use bricks.Security.{Context, Request}
use bricks.Oauth2.{IntrospectResponse, IntrospectError, TokenIntrospecter, oauth2_header}
use bricks.Oauth2.Authorizer.{Authorizer, authorize}
use bricks.Oauth2.Laws.{Introspected, authorize_iff}

abbrev nobody : Context
nobody = record { token = none }

abbrev with_token : Request
with_token = record {
  header = λ n. if text_eq n oauth2_header then codes "Bearer t" else [];
  context = nobody;
}

abbrev response : IntrospectResponse
response = record {
  active = true;
  scope = codes "b a";
  client_id = codes "c";
  user_id = codes "u";
  backend = none;
}

abbrev unknown : IntrospectError
unknown = record {
  message = codes "user token is invalid";
  is_bad_upstream_response = false;
  is_upstream_connection = false;
  is_invalid_token = true;
}

abbrev introspecter : TokenIntrospecter
introspecter _ t = if text_eq t (codes "t") then ok response else err unknown

abbrev checker : Authorizer
checker = record {
  introspection = introspecter;
  scope = codes "a";
  config = record {
    description = [];
    implicit = none;
    password = none;
    client_credentials = none;
    authorization_code = none;
  };
}

authorize_iff_example :
    ((authorize checker with_token).authorized ≡ true)
    ↔ ((v : Text) × (s : IntrospectResponse) × Introspected checker with_token v s)
authorize_iff_example = authorize_iff checker with_token
