-- ===== src/Oauth2/Laws.antt =====
-- http/oauth2: when a request is authorized, what it is answered otherwise, and what the next
-- handler and the next service read of its token.
use bricks.Prelude.{
  ℕ, ◌≡◌, refl, ap, ◌↔◌, ◌≢◌, true, false, [], ◌∷◌, ◌++◌, none, some, arith, Bool-cases, inl, inr,
  All,
}
use bricks.Prelude.Text.{Text, codes, is_empty, Has, text_eq_refl, fields, fields_from, add_field}
use bricks.Prelude.Result.{Result, ok, err}
use bricks.Security.{
  Token, oauth2, Context, Request, Verdict, header_prefix, get_bearer_token_from_header,
  get_token_from_context, context_with_token, get_value,
}
use bricks.Security.Laws.{bearer_iff, bearer-auth_header, bearer-get_auth_header}
use bricks.Oauth2.{
  IntrospectResponse, IntrospectError, introspect_request, introspect_token, introspected,
  from_introspect_response, error_status, oauth2_header, request, authorized_by, refused,
  context_transfer, has_scope, oauth2_token, token_scope_includes,
}
use bricks.Oauth2.Scope.{to_slice, all_found, is_included_in, is_included_in_iff}
use bricks.Oauth2.Authorizer.{
  Authorizer, authorize, authorize_scope, scope_of_context, validate_scope, forbidden,
}

-- What the introspecter said of the token in a header.
pub record Introspected (a : Authorizer) (r : Request) (v : Text) (s : IntrospectResponse)
    : Type 0 where
  pub held : r.header oauth2_header ≡ header_prefix ++ v
  pub nonempty : v ≢ []
  pub accepted : a.introspection r.context v ≡ ok s
  pub permitted : All (λ p. Has p (to_slice s.scope)) (to_slice a.scope)

-- The verdict on a request with a good token and scope.
abbrev pub granted : Text → IntrospectResponse → Verdict
granted v s = record {
  context = some (record { token = some (oauth2 (from_introspect_response s v)) });
  authorized = true;
  reply = none;
}

scope-ok :
    (scope v : Text) (s : IntrospectResponse)
    → All (λ p. Has p (to_slice s.scope)) (to_slice scope)
    → authorize_scope scope (granted v s) ≡ granted v s
unfolding authorize_scope scope_of_context validate_scope has_scope oauth2_token
    token_scope_includes get_token_from_context from_introspect_response is_empty
scope-ok [] v s h = refl
scope-ok (c ∷ scope) v s h = rw ((is_included_in_iff (c ∷ scope) s.scope).1 h) refl

abbrev denied : Text → Text → IntrospectResponse → Verdict
denied scope v s = record {
  context = some (record { token = some (oauth2 (from_introspect_response s v)) });
  authorized = false;
  reply = some (forbidden scope);
}

no_scope : (t : Text) → is_included_in [] t ≡ true
unfolding is_included_in to_slice all_found fields fields_from add_field
no_scope t = refl

scope-lacks :
    (scope v : Text) (s : IntrospectResponse)
    → is_included_in scope s.scope ≡ false
    → authorize_scope scope (granted v s) ≡ denied scope v s
unfolding authorize_scope scope_of_context validate_scope has_scope oauth2_token
    token_scope_includes get_token_from_context from_introspect_response is_empty
scope-lacks [] v s h = absurd (ground (arith, no_scope s.scope))
scope-lacks (c ∷ scope) v s h = rw h refl

-- A request whose header holds a token that is introspected, and whose scope has all permissions
-- that the authorizer asks for, is authorized, no reply is written, and its context has the token.
pub authorize-granted :
    (a : Authorizer) (r : Request) (v : Text) (s : IntrospectResponse)
    → Introspected a r v s
    → authorize a r ≡ granted v s
unfolding authorize introspect_request introspect_token introspected is_empty context_with_token
authorize-granted a r [] s h = absurd (h.nonempty refl)
authorize-granted a r (c ∷ v) s h =
    rw (h.held, bearer-auth_header (c ∷ v), h.accepted) (scope-ok a.scope (c ∷ v) s h.permitted)

-- What becomes of a request: why it was refused, or what it was granted.
pub data Judged (a : Authorizer) (r : Request) : Verdict → Type 0 where
  no_token :
      get_bearer_token_from_header (r.header oauth2_header) ≡ []
      → Judged a r (refused 401 (codes "Unauthorized"))
  rejected :
      (v : Text) (e : IntrospectError)
      → r.header oauth2_header ≡ header_prefix ++ v
      → a.introspection r.context v ≡ err e
      → Judged a r (refused (error_status e) e.message)
  lacking :
      (v : Text) (s : IntrospectResponse)
      → r.header oauth2_header ≡ header_prefix ++ v
      → a.introspection r.context v ≡ ok s
      → is_included_in a.scope s.scope ≡ false
      → Judged a r (denied a.scope v s)
  accepted : (v : Text) (s : IntrospectResponse) → Introspected a r v s → Judged a r (granted v s)

module _ (a : Authorizer) (r : Request) (c : ℕ) (v : Text)
    (held : r.header oauth2_header ≡ header_prefix ++ c ∷ v) where
  judge_ok :
      (s : IntrospectResponse)
      → a.introspection r.context (c ∷ v) ≡ ok s
      → Judged a r (authorize_scope a.scope (granted (c ∷ v) s))
  unfolding authorize_scope scope_of_context validate_scope has_scope oauth2_token
      token_scope_includes get_token_from_context from_introspect_response
  judge_ok s k = elim (Bool-cases (is_included_in a.scope s.scope)) [
    | inl e ↦
        let h : All (λ p. Has p (to_slice s.scope)) (to_slice a.scope) =
          (is_included_in_iff a.scope s.scope).0 e in
        rw (scope-ok a.scope (c ∷ v) s h) (
          accepted (c ∷ v) s
            (record { held = held; nonempty = λ n. cc; accepted = k; permitted = h }))
    | inr e ↦ rw (scope-lacks a.scope (c ∷ v) s e) (lacking (c ∷ v) s held k e)
  ]

  judge_introspected :
      (x : Result IntrospectError IntrospectResponse)
      → a.introspection r.context (c ∷ v) ≡ x
      → Judged a r (authorize_scope a.scope (introspected r.context (c ∷ v) x))
  unfolding authorize_scope introspected context_with_token
  judge_introspected (err e) k = rejected (c ∷ v) e held k
  judge_introspected (ok s) k = judge_ok s k

judge :
    (a : Authorizer) (r : Request) (t : Text)
    → get_bearer_token_from_header (r.header oauth2_header) ≡ t
    → Judged a r (authorize_scope a.scope (introspect_token a.introspection r.context t))
unfolding introspect_token is_empty authorize_scope
judge a r [] h = no_token h
judge a r (c ∷ v) h =
    judge_introspected a r c v ((bearer_iff (r.header oauth2_header) (c ∷ v) (λ n. cc)).0 h)
      (a.introspection r.context (c ∷ v)) refl

-- Every verdict on a request is one of these: 401 without a token; 502, 401 or 500 for an error
-- of the introspecter; 403, with the token in the context, for a scope that lacks a permission;
-- or the request is authorized and nothing is written.
pub authorize-Judged : (a : Authorizer) (r : Request) → Judged a r (authorize a r)
unfolding authorize introspect_request
authorize-Judged a r = judge a r (get_bearer_token_from_header (r.header oauth2_header)) refl

granted_when :
    (a : Authorizer) (r : Request) (w : Verdict)
    → Judged a r w
    → w.authorized ≡ true
    → (v : Text) × (s : IntrospectResponse) × Introspected a r v s
granted_when a r w (no_token h) k = cc
granted_when a r w (rejected v e h i) k = cc
granted_when a r w (lacking v s h i n) k = cc
granted_when a r w (accepted v s h) k = (v, s, h)

-- A request is authorized exactly if its Authorization header is the prefix of a bearer token and
-- a token that is not empty, the introspecter accepts that token, and every permission of the
-- authorizer's scope is among those of the token's.
pub authorize_iff :
    (a : Authorizer) (r : Request)
    → ((authorize a r).authorized ≡ true)
      ↔ ((v : Text) × (s : IntrospectResponse) × Introspected a r v s)
authorize_iff a r = (
  granted_when a r (authorize a r) (authorize-Judged a r),
  λ (v, s, h). ap (λ w. w.authorized) (authorize-granted a r v s h),
)

-- A request made with a context that holds a token, and what another context is given of it:
-- the receiver reads the token's value from the header, whatever the header was.
pub request-context_transfer :
    (r : Request) (source : Context) (tok : Token)
    → get_token_from_context source ≡ some tok
    → get_bearer_token_from_header (
        (request (record { header = r.header; context = context_transfer source r.context })).header
          oauth2_header)
      ≡ get_value tok
unfolding request authorized_by context_transfer get_token_from_context context_with_token
request-context_transfer r source tok h =
    rw (h, text_eq_refl oauth2_header) (bearer-get_auth_header tok)
