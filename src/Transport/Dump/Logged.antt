-- ===== src/Transport/Dump/Logged.antt =====
-- What is logged of a request: never what is blacklisted, and nothing that was not redacted.
use bricks.Prelude.{
  ◌≡◌, ◌↔◌, refl, ◌⊎◌, inl, inr, Bool, true, false, not, ◌&&◌, ◌||◌, [], ◌++◌, none, some,
  if◌then◌else◌, All, All-append, if_cases,
}
use bricks.Prelude.Text.{Text, codes}
use bricks.Transport.Dump.{
  DumpRoundTripper, any_enabled, contains_blacklisted_prefix, Dumps, Fields, dumped, dump_fields,
  dump_body, request_fields, response_fields, round_trip,
}

module _ (l : DumpRoundTripper) (d : Dumps) (mask : Text → Text) (url : Text) where
  -- A body is dumped if that is enabled and its URL is not blacklisted.
  abbrev pub WithBody : Bool → Type 0
  WithBody body =
      (body ≡ true)
      ↔ ((l.dump_body ≡ true) × (contains_blacklisted_prefix url l.blacklist_body ≡ false))

  abbrev pub IsDump : Text → Type 0
  IsDump dump =
      (body : Bool) × WithBody body
      × ((dump ≡ dumped (d.request body)) ⊎ (dump ≡ dumped (d.response body)))

  -- The value of a field is a masked dump, plain or in hexadecimals.
  abbrev pub IsMasked : Text × Text → Type 0
  IsMasked (name, value) =
      (dump : Text) × IsDump dump × ((value ≡ mask dump) ⊎ (value ≡ d.encode_hex (mask dump)))

  with_body : WithBody (dump_body l d mask url)
  with_body = body (contains_blacklisted_prefix url l.blacklist_body) l.dump_body
    where
      body : (b c : Bool) → (not b && c ≡ true) ↔ ((c ≡ true) × (b ≡ false))
      body true c = (λ h. cc, λ h. cc)
      body false c = (λ h. (h, refl), λ h. h.0)

  field-IsMasked :
      (plain as_hex : Bool) (name hex_name dump : Text)
      → IsDump dump
      → All IsMasked (dump_fields d.encode_hex plain name as_hex hex_name (mask dump))
  unfolding dump_fields
  field-IsMasked false false name hex_name dump h = tt
  field-IsMasked false true name hex_name dump h = ((dump, h, inr refl), tt)
  field-IsMasked true false name hex_name dump h = ((dump, h, inl refl), tt)
  field-IsMasked true true name hex_name dump h = ((dump, h, inl refl), ((dump, h, inr refl), tt))

  request-IsMasked : l.dump_no_redact ≡ false → All IsMasked (request_fields l d mask url)
  unfolding request_fields
  request-IsMasked h = rw h (
      if_cases (All IsMasked) (l.dump_request || l.dump_request_hex) _ []
        (λ _.
          field-IsMasked l.dump_request l.dump_request_hex (codes "request") (codes "request-hex")
            (dumped (d.request (dump_body l d mask url)))
            (dump_body l d mask url, with_body, inl refl))
        (λ _. tt))

  response-IsMasked : l.dump_no_redact ≡ false → All IsMasked (response_fields l d mask url)
  unfolding response_fields
  response-IsMasked h = rw h (
      if_cases (All IsMasked) (l.dump_response || l.dump_response_hex) _ []
        (λ _.
          field-IsMasked l.dump_response l.dump_response_hex (codes "response")
            (codes "response-hex") (dumped (d.response (dump_body l d mask url)))
            (dump_body l d mask url, with_body, inr refl))
        (λ _. tt))

  emitted :
      (succeeds : Bool) (fields : Fields)
      → round_trip l d mask url succeeds ≡ some fields
      → (any_enabled l ≡ true)
        × (contains_blacklisted_prefix url l.blacklist_any ≡ false)
        × (succeeds ≡ true)
        × (fields ≡ request_fields l d mask url ++ response_fields l d mask url)
  unfolding round_trip
  emitted succeeds fields h =
      go (any_enabled l) (contains_blacklisted_prefix url l.blacklist_any) succeeds
        (request_fields l d mask url ++ response_fields l d mask url) h
    where
      go :
          (a b c : Bool) (f : Fields)
          → (if not a then none else if b then none else if not c then none else some f)
            ≡ some fields
          → (a ≡ true) × (b ≡ false) × (c ≡ true) × (fields ≡ f)
      go false b c f h = cc
      go true true c f h = cc
      go true false false f h = cc
      go true false true f h = (refl, refl, refl, cc)

  -- Unless redaction is switched off: an event is logged only if some dump is enabled, the URL has no
  -- prefix of those that are not to be dumped, and the transport behind has returned no error; and each
  -- of its fields is a dump of the request or the response, plain or in hexadecimals, that the redactor
  -- has masked, with the body only if that is enabled and the URL is not blacklisted for it.
  pub round_trip-IsMasked :
      (succeeds : Bool) (fields : Fields)
      → l.dump_no_redact ≡ false
      → round_trip l d mask url succeeds ≡ some fields
      → (any_enabled l ≡ true)
        × (contains_blacklisted_prefix url l.blacklist_any ≡ false)
        × (succeeds ≡ true)
        × All IsMasked fields
  round_trip-IsMasked succeeds fields h e =
      let (a, b, c, f) = emitted succeeds fields e in
      (
        a,
        b,
        c,
        rw f (
            All-append IsMasked (request_fields l d mask url) (response_fields l d mask url)
              (request-IsMasked h) (response-IsMasked h)),
      )
