-- ===== src/Security/Laws.antt =====
-- The bearer token of http/security/helper.go.
use bricks.Prelude.{◌≡◌, sym, ◌∙◌, ap, ◌≢◌, ◌↔◌, [], ◌++◌, arith, Bool-cases, inl, inr}
use bricks.Prelude.Text.{
  Text, has_prefix, trim_prefix, has_prefix-append, trim_prefix-append, append-trim_prefix,
}
use bricks.Security.{Token, get_value, get_bearer_token_from_header, get_auth_header, header_prefix}

pub bearer-auth_header : (v : Text) → get_bearer_token_from_header (header_prefix ++ v) ≡ v
unfolding get_bearer_token_from_header
bearer-auth_header v = rw (has_prefix-append header_prefix v) (trim_prefix-append header_prefix v)

-- The header that GetAuthHeader makes for a token is read back as the value of the token.
pub bearer-get_auth_header :
    (tok : Token) → get_bearer_token_from_header (get_auth_header tok) ≡ get_value tok
unfolding get_auth_header
bearer-get_auth_header tok = bearer-auth_header (get_value tok)

-- A token that is not empty is read from exactly one header.
pub bearer_iff :
    (h v : Text) → v ≢ [] → (get_bearer_token_from_header h ≡ v) ↔ (h ≡ header_prefix ++ v)
unfolding get_bearer_token_from_header
bearer_iff h v n = (to, λ e. rw e (bearer-auth_header v))
  where
    to : get_bearer_token_from_header h ≡ v → h ≡ header_prefix ++ v
    to e = elim (Bool-cases (has_prefix h header_prefix)) [
      | inl p ↦
          let cut : trim_prefix h header_prefix ≡ v = ground arith in
          sym (append-trim_prefix h header_prefix p) ∙ ap (◌++◌ header_prefix) cut
      | inr p ↦ absurd (n (ground arith))
    ]
