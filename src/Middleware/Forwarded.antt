-- ===== src/Middleware/Forwarded.antt =====
-- http/middleware/context.go: the request in a context, and the headers that are made of it.
pub mod Received
use bricks.Prelude.{List, [], ◌∷◌, ◌++◌, Option, none, some, if◌then◌else◌}
use bricks.Prelude.Text.{Text, codes, is_empty}
use bricks.Prelude.Result.{Result, ok, err}
use bricks.Log.Remote.{Net, Request}

pub record CtxRequest : Type 0 where
  pub remote_addr : Text
  pub x_forwarded_for : Text
  pub user_agent : Text

-- ErrNotFound and ErrInvalidRequest, each with what is behind it
pub data ContextError : Type 0 where
  not_found invalid_request : ContextError

-- RequestInContext
unfoldable pub request_in_context : Request → CtxRequest
request_in_context r = record {
  remote_addr = r.remote_addr;
  x_forwarded_for = r.header (codes "X-Forwarded-For");
  user_agent = r.header (codes "User-Agent");
}

-- ContextTransfer, of the requests in the two contexts
unfoldable pub context_transfer : Option CtxRequest → Option CtxRequest → Option CtxRequest
context_transfer (some r) target = some r
context_transfer none target = target

-- The header with an address behind what it had
abbrev pub extended : Text → Text → Text
extended [] ip = ip
extended (c ∷ xff) ip = (c ∷ xff) ++ 44 ∷ 32 ∷ ip

abbrev pub forwarded_for : Text → Option (Text × Text) → Result ContextError Text
forwarded_for xff none = err invalid_request
forwarded_for xff (some (ip, port)) =
    if is_empty ip then err invalid_request else ok (extended xff ip)

-- GetXForwardedForHeaderFromContext
unfoldable pub get_x_forwarded_for_header_from_context :
    Net → Option CtxRequest → Result ContextError Text
get_x_forwarded_for_header_from_context net none = err not_found
get_x_forwarded_for_header_from_context net (some r) =
    forwarded_for r.x_forwarded_for (net.split_host_port r.remote_addr)

-- GetUserAgentFromContext
unfoldable pub get_user_agent_from_context : Option CtxRequest → Result ContextError Text
get_user_agent_from_context none = err not_found
get_user_agent_from_context (some r) = ok r.user_agent
