-- ===== src/Utm.antt =====
-- pkg/tracking/utm: the UTM data of a request (context.go, http.go). A request holds the address of
-- its URL, and a store has the query of the URL at each address. Of a query only the first value of
-- each name is modelled, which is what Get reads and Set writes; encoding and parsing it are not.
pub mod Carried
mod Tests
use bricks.Prelude.{
  ℕ, Bool, true, false, ◌&&◌, List, [], ◌∷◌, Option, none, some, if◌then◌else◌, ◌==◌,
}
use bricks.Prelude.Text.{Text, codes, is_empty, text_eq}
use bricks.Prelude.Assoc.{lookup}

pub record UtmData : Type 0 where
  pub source : Text
  pub medium : Text
  pub campaign : Text
  pub term : Text
  pub content : Text
  pub client : Text

-- data == emptyData
unfoldable pub is_empty_data : UtmData → Bool
is_empty_data d =
    is_empty d.source
    && is_empty d.medium
    && is_empty d.campaign
    && is_empty d.term
    && is_empty d.content
    && is_empty d.client

unfoldable pub to_map : UtmData → List (Text × Text)
to_map d =
    (codes "utm_source", d.source)
    ∷ (codes "utm_medium", d.medium)
    ∷ (codes "utm_campaign", d.campaign)
    ∷ (codes "utm_term", d.term)
    ∷ (codes "utm_content", d.content)
    ∷ (codes "utm_partner_client", d.client)
    ∷ []

-- m[key], empty if it is missing
abbrev pub value_or_empty : Option Text → Text
value_or_empty none = []
value_or_empty (some v) = v

unfoldable pub from_map : List (Text × Text) → UtmData
from_map m = record {
  source = value_or_empty (lookup (codes "utm_source") m);
  medium = value_or_empty (lookup (codes "utm_medium") m);
  campaign = value_or_empty (lookup (codes "utm_campaign") m);
  term = value_or_empty (lookup (codes "utm_term") m);
  content = value_or_empty (lookup (codes "utm_content") m);
  client = value_or_empty (lookup (codes "utm_partner_client") m);
}

-- A context: its UTM data, and the client of its oauth2 token.
pub record Context : Type 0 where
  pub utm_data : Option UtmData
  pub client_id : Option Text

unfoldable pub context_with_utm_data : Context → UtmData → Context
context_with_utm_data parent_ctx d = record { utm_data = some d; client_id = parent_ctx.client_id }

unfoldable pub from_context : Context → Option UtmData
from_context ctx = ctx.utm_data

unfoldable pub transfer_found : Option UtmData → Context → Context
unfolding context_with_utm_data
transfer_found none out = out
transfer_found (some d) out = context_with_utm_data out d

unfoldable pub context_transfer : Context → Context → Context
unfolding transfer_found from_context
context_transfer in_ctx out = transfer_found (from_context in_ctx) out

abbrev pub Query : Type 0
Query = Text → Text

abbrev pub Store : Type 0
Store = ℕ → Query

pub record Request : Type 0 where
  pub url : ℕ
  pub context : Context

unfoldable pub read_query : Query → UtmData
read_query q = record {
  source = q (codes "utm_source");
  medium = q (codes "utm_medium");
  campaign = q (codes "utm_campaign");
  term = q (codes "utm_term");
  content = q (codes "utm_content");
  client = q (codes "utm_partner_client");
}

unfoldable pub found_data : UtmData → Option UtmData
unfolding is_empty_data
found_data d = if is_empty_data d then none else some d

-- FromRequest; ErrNotFound is `none`.
unfoldable pub from_request : Request → Store → Option UtmData
unfolding read_query found_data
from_request req s = found_data (read_query (s req.url))

abbrev pub set_value : Text → Text → Query → Query
set_value name value q n = if text_eq n name then value else q n

unfoldable pub set_query : UtmData → Query → Query
set_query d q = set_value (codes "utm_partner_client") d.client (
    set_value (codes "utm_content") d.content (
      set_value (codes "utm_term") d.term (
        set_value (codes "utm_campaign") d.campaign
          (set_value (codes "utm_medium") d.medium (set_value (codes "utm_source") d.source q)))))

-- req.URL.RawQuery = ...
unfoldable pub write_url : ℕ → Query → Store → Store
write_url url q s u = if u == url then q else s u

-- AttachToRequest, which returns the request that it is given
unfoldable pub attach_to_request : UtmData → Request → Store → Store
unfolding set_query write_url is_empty_data
attach_to_request d req s =
    if is_empty_data d then s else write_url req.url (set_query d (s req.url)) s

-- The client of the data, or else that of the token
unfoldable pub with_client : Option Text → UtmData → UtmData
with_client none d = d
with_client (some client_id) d = if is_empty d.client then record d { client = client_id } else d

unfoldable pub served_context : Context → Option UtmData → Context
unfolding with_client context_with_utm_data
served_context ctx none = ctx
served_context ctx (some d) = context_with_utm_data ctx (with_client ctx.client_id d)

-- Middleware: the context that the next handler gets
unfoldable pub middleware : Request → Store → Context
unfolding served_context
middleware r s = served_context r.context (from_request r s)

-- cloneRequest copies the header, and keeps the URL.
unfoldable pub clone_request : Request → Request
clone_request r = record { url = r.url; context = r.context }

unfoldable pub send : Option UtmData → Request → Store → Request × Store
unfolding clone_request
send none req s = (req, s)
send (some d) req s = (clone_request req, attach_to_request d (clone_request req) s)

-- RoundTripper.RoundTrip: the request that is passed on, and the store then
unfoldable pub round_trip : Request → Store → Request × Store
unfolding send from_context
round_trip req s = send (from_context req.context) req s
