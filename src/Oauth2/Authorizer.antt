-- ===== src/Oauth2/Authorizer.antt =====
-- http/oauth2/authorizer.go and middleware/scopes_middleware.go: the scope of a request's token.
use bricks.Prelude.{
  Bool, true, false, not, [], ◌∷◌, ◌++◌, Option, none, some, List, if◌then◌else◌, ◌||◌, ◌==◌,
}
use bricks.Prelude.Text.{Text, codes, is_empty}
use bricks.Prelude.Assoc.{lookup}
use bricks.Security.{Context, Request, Reply, Verdict, get_bearer_token_from_header}
use bricks.Oauth2.{
  TokenIntrospecter, introspect_request, has_scope, oauth2_header, Outcome, passed, answered,
}

pub record Flow : Type 0 where
  pub authorization_url : Text
  pub token_url : Text
  pub refresh_url : Text
  pub scopes : List (Text × Text)

-- A flow that is not configured (nil) is `none`.
pub record Config : Type 0 where
  pub description : Text
  pub implicit : Option Flow
  pub password : Option Flow
  pub client_credentials : Option Flow
  pub authorization_code : Option Flow

pub record Authorizer : Type 0 where
  pub introspection : TokenIntrospecter
  pub scope : Text
  pub config : Config

unfoldable pub new_authorizer : TokenIntrospecter → Config → Authorizer
new_authorizer introspector cfg = record { introspection = introspector; scope = []; config = cfg }

unfoldable pub with_scope : Authorizer → Text → Authorizer
with_scope a tok = record { introspection = a.introspection; scope = tok; config = a.config }

-- %q, for printable ASCII: quotation marks and backslashes are escaped
unfoldable pub escaped : Text → Text
escaped [] = []
escaped (c ∷ s) = let rest = escaped s in if c == 34 || c == 92 then 92 ∷ c ∷ rest else c ∷ rest

unfoldable pub forbidden : Text → Reply
unfolding escaped
forbidden scope = record {
  code = 403;
  message = codes "Forbidden - requires scope " ++ 34 ∷ escaped scope ++ 34 ∷ [];
}

-- validateScope, on the context that the introspection returned
unfoldable pub validate_scope : Context → Text → Verdict
unfolding forbidden
validate_scope ctx req =
    if has_scope ctx req
    then record { context = some ctx; authorized = true; reply = none }
    else record { context = some ctx; authorized = false; reply = some (forbidden req) }

unfoldable pub scope_of_context : Text → Option Context → Verdict → Verdict
unfolding validate_scope
scope_of_context scope (some ctx) v = validate_scope ctx scope
scope_of_context scope none v = v

unfoldable pub authorize_scope : Text → Verdict → Verdict
unfolding scope_of_context
authorize_scope scope v =
    if not v.authorized then v else if is_empty scope then v else scope_of_context scope v.context v

unfoldable pub authorize : Authorizer → Request → Verdict
unfolding authorize_scope
authorize a r = authorize_scope a.scope (introspect_request a.introspection r)

unfoldable pub can_authorize_request : Authorizer → Request → Bool
can_authorize_request a r = not (is_empty (get_bearer_token_from_header (r.header oauth2_header)))

-- RequiredScopes, by the name of the route; a missing name has the empty scope.
unfoldable pub required_scope : List (Text × Text) → Text → Text
required_scope scopes name = elim (lookup name scopes) [ some s ↦ s | none ↦ [] ]

-- ScopesMiddleware.Handler, for the name of the request's route
unfoldable pub scopes_handler : List (Text × Text) → Text → Request → Outcome
unfolding forbidden required_scope
scopes_handler scopes route_name r =
    if has_scope r.context (required_scope scopes route_name)
    then passed r
    else answered (some (forbidden (required_scope scopes route_name)))
