-- ===== src/Transport/Dump.antt =====
-- http/transport/dump_round_tripper.go: the options, and what of a request and its response is logged.
-- httputil and hex.EncodeToString are parameters.
pub mod Logged
use bricks.Prelude.{
  ℕ, Bool, true, false, not, ◌&&◌, ◌||◌, List, [], ◌∷◌, ◌++◌, Option, none, some, if◌then◌else◌,
  any_of,
}
use bricks.Prelude.Text.{Text, codes, text_eq, has_prefix}
use bricks.Prelude.Result.{Result, ok, err}

pub record DumpRoundTripper : Type 0 where
  pub dump_request : Bool
  pub dump_response : Bool
  pub dump_request_hex : Bool
  pub dump_response_hex : Bool
  pub dump_body : Bool
  pub dump_no_redact : Bool
  pub blacklist_body : List Text
  pub blacklist_any : List Text

abbrev pub new_tripper : DumpRoundTripper
new_tripper = record {
  dump_request = false;
  dump_response = false;
  dump_request_hex = false;
  dump_response_hex = false;
  dump_body = false;
  dump_no_redact = false;
  blacklist_body = [];
  blacklist_any = [];
}

-- The switch of setRoundTripOptions; an option that is not known is `none`.
unfoldable pub set_option : Text → DumpRoundTripper → Option DumpRoundTripper
set_option option rt =
    if text_eq option (codes "request")
    then some (record rt { dump_request = true })
    else if text_eq option (codes "response")
    then some (record rt { dump_response = true })
    else if text_eq option (codes "request-hex")
    then some (record rt { dump_request_hex = true })
    else if text_eq option (codes "response-hex")
    then some (record rt { dump_response_hex = true })
    else if text_eq option (codes "body")
    then some (record rt { dump_body = true })
    else if text_eq option (codes "no-redact")
    then some (record rt { dump_no_redact = true })
    else none

abbrev pub or_unknown :
    Option DumpRoundTripper
    → DumpRoundTripper
    → Text
    → (DumpRoundTripper → DumpRoundTripper × Option Text)
    → DumpRoundTripper × Option Text
or_unknown none rt option go = (rt, some option)
or_unknown (some rt') rt option go = go rt'

-- setRoundTripOptions: the tripper behind it, and the option that it fails on
unfoldable pub set_round_trip_options :
    List Text → DumpRoundTripper → DumpRoundTripper × Option Text
unfolding set_option
set_round_trip_options [] rt = (rt, none)
set_round_trip_options (option ∷ options) rt =
    or_unknown (set_option option rt) rt option (set_round_trip_options options)

-- The end of roundTripConfigViaEnv, for the lists of the environment
unfoldable pub with_blacklists :
    List Text → List Text → DumpRoundTripper × Option Text → DumpRoundTripper × Option Text
with_blacklists body any (rt, some e) = (rt, some e)
with_blacklists body any (rt, none) =
    (record rt { blacklist_body = body; blacklist_any = any }, none)

-- roundTripConfigViaEnv
unfoldable pub round_trip_config_via_env :
    List Text → List Text → List Text → DumpRoundTripper → DumpRoundTripper × Option Text
unfolding with_blacklists
round_trip_config_via_env options body any rt =
    with_blacklists body any (set_round_trip_options options rt)

-- AnyEnabled
unfoldable pub any_enabled : DumpRoundTripper → Bool
any_enabled l = l.dump_request || l.dump_response || l.dump_request_hex || l.dump_response_hex

-- ContainsBlacklistedPrefix, for the text of the URL
unfoldable pub contains_blacklisted_prefix : Text → List Text → Bool
contains_blacklisted_prefix url blacklist = any_of (has_prefix url) blacklist

-- What the libraries make of a request or a response: httputil.DumpRequest and DumpResponse, with the
-- body or without
pub record Dumps : Type 0 where
  pub request : Bool → Result Text Text
  pub response : Bool → Result Text Text
  pub encode_hex : Text → Text

-- The fields of the log event
abbrev pub Fields : Type 0
Fields = List (Text × Text)

-- The text of a dump, or of its error
abbrev pub dumped : Result Text Text → Text
dumped (ok dump) = dump
dumped (err e) = e

-- redactor.Mask, if there is a redactor
abbrev pub masked : Option (Text → Text) → Text → Text
masked none dump = dump
masked (some mask) dump = mask dump

abbrev pub field_if : Bool → Text → Text → Fields
field_if enabled name value = if enabled then (name, value) ∷ [] else []

-- The fields of one dump: plain and in hexadecimals
unfoldable pub dump_fields : (Text → Text) → Bool → Text → Bool → Text → Text → Fields
dump_fields hex plain name as_hex hex_name dump =
    field_if plain name dump ++ field_if as_hex hex_name (hex dump)

-- What RoundTrip logs, if it emits an event, for the mask of the context's redactor, the URL, and
-- whether the transport behind returns a response and no error
module _ (l : DumpRoundTripper) (d : Dumps) (mask : Text → Text) (url : Text) where
  abbrev pub redactor : Option (Text → Text)
  redactor = if l.dump_no_redact then none else some mask

  abbrev pub dump_body : Bool
  dump_body = not (contains_blacklisted_prefix url l.blacklist_body) && l.dump_body

  unfoldable pub request_fields : Fields
  unfolding dump_fields
  request_fields =
      if l.dump_request || l.dump_request_hex
      then dump_fields d.encode_hex l.dump_request (codes "request") l.dump_request_hex
          (codes "request-hex") (masked redactor (dumped (d.request dump_body)))
      else []

  unfoldable pub response_fields : Fields
  unfolding dump_fields
  response_fields =
      if l.dump_response || l.dump_response_hex
      then dump_fields d.encode_hex l.dump_response (codes "response") l.dump_response_hex
          (codes "response-hex") (masked redactor (dumped (d.response dump_body)))
      else []

  -- RoundTrip: the event that it emits
  unfoldable pub round_trip : Bool → Option Fields
  unfolding request_fields response_fields
  round_trip succeeds =
      if not (any_enabled l)
      then none
      else if contains_blacklisted_prefix url l.blacklist_any
      then none
      else if not succeeds
      then none
      else some (request_fields ++ response_fields)
