-- ===== src/Log/RequestId.antt =====
-- maintenance/log/handler.go: the id of a request (RequestIDHandler), which is in its context (log.go,
-- hlog/hlog.go); http/transport/request_id.go, which sends it on. The package xid is a parameter; of a
-- context the value under the key of the id is modelled.
pub mod Passed
use bricks.Prelude.{Bool, true, false, [], Option, none, some, if◌then◌else◌}
use bricks.Prelude.Text.{Text, codes, is_empty}
use bricks.Runtime.Errors.{Response, set_header}

-- xid.FromString, which gives the nil id behind an error, ID.String and NilID
pub record Xid (A : Type 0) : Type 0 where
  pub from_string : Text → A
  pub string : A → Text
  pub nil_id : A
  pub is_nil : A → Bool

pub record Handled (A : Type 0) : Type 0 where
  pub context : Option A
  pub response : Response

module _ {A : Type 0} (xid : Xid A) where
  -- From the header, if that has one
  abbrev pub from_header : Text → A
  from_header req_id = if is_empty req_id then xid.nil_id else xid.from_string req_id

  abbrev pub or_context : Option A → A → A
  or_context none id = id
  or_context (some nid) id = if xid.is_nil id then nid else id

  -- With the id that xid.New would give
  unfoldable pub request_id : Text → Option A → A → A
  request_id req_id context new =
      let id = or_context context (from_header req_id) in if xid.is_nil id then new else id

  -- RequestIDHandler, up to the next handler
  unfoldable pub request_id_handler : Text → Option A → A → Response → Handled A
  unfolding request_id
  request_id_handler req_id context new w = record {
    context = some (request_id req_id context new);
    response = set_header (codes "Request-Id") (xid.string (request_id req_id context new)) w;
  }

  -- RequestIDFromContext
  unfoldable pub request_id_from_context : Option A → Text
  request_id_from_context none = []
  request_id_from_context (some id) = xid.string id

  -- The header of a request that RequestIDRoundTripper passes on
  unfoldable pub round_trip : Option A → Text → Text
  round_trip context header =
      if is_empty (request_id_from_context context) then header else request_id_from_context context

  -- hlog.ContextTransfer
  unfoldable pub context_transfer : Option A → Option A → Option A
  context_transfer none out = out
  context_transfer (some id) out = some id
