-- ===== src/Security/ApiKey.antt =====
-- http/security/apikey/authorizer.go: the authorization by a configured api key.
use bricks.Prelude.{
  ◌≡◌, refl, sym, ap, ◌∙◌, ◌↔◌, ◌≢◌, Bool, true, false, not, ◌⊎◌, [], ◌∷◌, ◌++◌, none, some,
  if◌then◌else◌, Bool-cases, inl, inr, arith,
}
use bricks.Prelude.Text.{Text, codes, text_eq, text_eq_iff, is_empty}
use bricks.Security.{
  api_key, Request, Verdict, get_bearer_token_from_header, context_with_token, header_prefix,
}
use bricks.Security.Laws.{bearer_iff}

pub record Config : Type 0 where
  pub description : Text
  pub in_field : Text
  pub name : Text

pub record Authorizer : Type 0 where
  pub auth_config : Config
  pub key : Text

unfoldable pub new_authorizer : Config → Text → Authorizer
new_authorizer auth_config key = record { auth_config = auth_config; key = key }

-- http.Error(w, message, http.StatusUnauthorized) and the unchanged context
abbrev pub unauthorized : Request → Text → Verdict
unauthorized r message = record {
  context = some r.context;
  authorized = false;
  reply = some (record { code = 401; message = message });
}

unfoldable pub authorize_key : Authorizer → Request → Text → Verdict
authorize_key a r key =
    if is_empty key
    then unauthorized r (codes "Unauthorized")
    else if text_eq key a.key
    then record {
      context = some (context_with_token r.context (some (api_key key)));
      authorized = true;
      reply = none;
    }
    else unauthorized r (codes "ApiKey not valid")

unfoldable pub authorize : Authorizer → Request → Verdict
unfolding authorize_key
authorize a r = authorize_key a r (get_bearer_token_from_header (r.header a.auth_config.name))

unfoldable pub can_authorize_request : Authorizer → Request → Bool
can_authorize_request a r =
    not (is_empty (get_bearer_token_from_header (r.header a.auth_config.name)))

key_iff :
    (a : Authorizer) (r : Request) (key : Text)
    → ((authorize_key a r key).authorized ≡ true) ↔ ((key ≡ a.key) × (key ≢ []))
unfolding authorize_key is_empty
key_iff a r [] = (λ h. absurd (ground arith), λ h. absurd (h.1 refl))
key_iff a r (c ∷ k) = elim (Bool-cases (text_eq (c ∷ k) a.key)) [
  | inl e ↦ (λ _. ((text_eq_iff (c ∷ k) a.key).0 e, λ h. cc), λ _. rw e refl)
  | inr e ↦
      (λ h. absurd (ground arith), λ h. absurd (ground (arith, (text_eq_iff (c ∷ k) a.key).1 h.0)))
]

-- A request is authorized exactly if the configured header holds the configured key behind the
-- prefix of a bearer token, and that key is not empty.
pub authorize_key_iff :
    (a : Authorizer) (r : Request)
    → ((authorize a r).authorized ≡ true)
      ↔ ((r.header a.auth_config.name ≡ header_prefix ++ a.key) × (a.key ≢ []))
unfolding authorize
authorize_key_iff a r = (to, from)
  where
    bearer : Text
    bearer = get_bearer_token_from_header (r.header a.auth_config.name)

    to :
        (authorize_key a r bearer).authorized ≡ true
        → (r.header a.auth_config.name ≡ header_prefix ++ a.key) × (a.key ≢ [])
    to h =
        let both : (bearer ≡ a.key) × (bearer ≢ []) = (key_iff a r bearer).0 h in
        let n : a.key ≢ [] = λ e. both.1 (both.0 ∙ e) in
        ((bearer_iff (r.header a.auth_config.name) a.key n).0 both.0, n)

    from :
        (r.header a.auth_config.name ≡ header_prefix ++ a.key) × (a.key ≢ [])
        → (authorize_key a r bearer).authorized ≡ true
    from (e, n) =
        let b : bearer ≡ a.key = (bearer_iff (r.header a.auth_config.name) a.key n).1 e in
        (key_iff a r bearer).1 (b, λ h. n (sym b ∙ h))

-- Every request is either authorized, with the token that its header holds in its context and no
-- reply written, or answered by 401 with its context unchanged; and a request that the
-- authorizer can not authorize is not authorized.
pub authorize_verdict :
    (a : Authorizer) (r : Request)
    → ((authorize a r ≡ record {
      context = some (record { token = some (api_key a.key) });
      authorized = true;
      reply = none;
    })
        × (can_authorize_request a r ≡ true))
      ⊎ ((m : Text) × (authorize a r ≡ unauthorized r m))
unfolding authorize authorize_key can_authorize_request context_with_token is_empty
authorize_verdict a r = verdict (get_bearer_token_from_header (r.header a.auth_config.name))
  where
    verdict :
        (key : Text)
        → ((authorize_key a r key ≡ record {
          context = some (record { token = some (api_key a.key) });
          authorized = true;
          reply = none;
        })
            × (not (is_empty key) ≡ true))
          ⊎ ((m : Text) × (authorize_key a r key ≡ unauthorized r m))
    verdict [] = inr (codes "Unauthorized", refl)
    verdict (c ∷ k) = elim (Bool-cases (text_eq (c ∷ k) a.key)) [
      | inl e ↦
          let same : c ∷ k ≡ a.key = (text_eq_iff (c ∷ k) a.key).0 e in
          inl (
            rw e (
                ap
                  (λ t. record {
                    context = some (record { token = some (api_key t) });
                    authorized = true;
                    reply = none;
                  })
                  same),
            refl,
          )
      | inr e ↦ inr (codes "ApiKey not valid", rw e refl)
    ]
