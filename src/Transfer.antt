-- ===== src/Transfer.antt =====
-- pkg/context/transfer.go: the context of a routine, which is made of the one that starts it. The sink,
-- the request of the error handling and the span are known by their addresses; the logger is left out.
pub mod Transferred
use bricks.Prelude.{ℕ, [], Option, none, some}
use bricks.Prelude.Text.{Text}
use bricks.Security
use bricks.Oauth2
use bricks.Errors
use bricks.Middleware.Forwarded
use bricks.Redact
use bricks.Utm
use bricks.Log.RequestId.{Xid}
use bricks.Log.RequestId
use bricks.Locale

pub record Context : Type 0 where
  pub sink : Option ℕ
  pub auth : Security.Context
  pub error_request : Option ℕ
  pub request : Option Forwarded.CtxRequest
  pub redactor : Option Redact.PatternRedactor
  pub utm_data : Option Utm.UtmData
  pub request_id : Option Text
  pub span : Option ℕ
  pub locale : Locale.Context
  pub dependencies : Option ℕ

-- context.Background()
abbrev pub background : Context
background = record {
  sink = none;
  auth = record { token = none };
  error_request = none;
  request = none;
  redactor = none;
  utm_data = none;
  request_id = none;
  span = none;
  locale = none;
  dependencies = none;
}

-- SinkContextTransfer, TransferTracingContext and TransferExternalDependencyContext, on the addresses
unfoldable pub transfer_address : Option ℕ → Option ℕ → Option ℕ
transfer_address none out = out
transfer_address (some a) out = some a

-- The UTM data behind a transfer, which does not depend on the client
abbrev pub transfer_utm : Option Utm.UtmData → Option Utm.UtmData → Option Utm.UtmData
transfer_utm in_data out =
    (Utm.context_transfer (record { utm_data = in_data; client_id = none })
      (record { utm_data = out; client_id = none })).utm_data

-- Transfer
unfoldable pub transfer : Xid Text → Context → Redact.Store → Context × Redact.Store
transfer xid c s =
    let (redactor, s') = Redact.context_transfer c.redactor s in
    (
      record {
        sink = transfer_address c.sink background.sink;
        auth = Oauth2.context_transfer c.auth background.auth;
        error_request = Errors.context_transfer c.error_request background.error_request;
        request = Forwarded.context_transfer c.request background.request;
        redactor = redactor;
        utm_data = transfer_utm c.utm_data background.utm_data;
        request_id = RequestId.context_transfer xid c.request_id background.request_id;
        span = transfer_address c.span background.span;
        locale = Locale.context_transfer c.locale background.locale;
        dependencies = background.dependencies;
      },
      s',
    )

-- TransferExternalDependencyContext
unfoldable pub transfer_external_dependency_context : Context → Context → Context
transfer_external_dependency_context c out = record out {
  dependencies = transfer_address c.dependencies out.dependencies;
}
