-- ===== src/Middleware/Metrics.antt =====
-- http/middleware/metrics.go: the status and the length of a response that are counted. A handler is the
-- list of its calls on the writer; with a write comes how many bytes the writer behind takes.
pub mod Recorded
use bricks.Prelude.{ℕ, ◌+◌, ◌==◌, List, [], ◌∷◌, ◌||◌, take, if◌then◌else◌}
use bricks.Prelude.Int.{pos}
use bricks.Prelude.Text.{Text, codes, text_eq}
use bricks.Prelude.Decimal.{format_int}
use bricks.Runtime.Errors.{Response, bytes, write_body}
use bricks.Runtime.Errors

pub record StatusWriter : Type 0 where
  pub response_writer : Response
  pub status : ℕ
  pub length : ℕ

pub data Call : Type 0 where
  write_header : ℕ → Call
  write : Text → ℕ → Call

-- WriteHeader and Write
unfoldable pub step : Call → StatusWriter → StatusWriter
step (write_header status) w = record {
  response_writer = Errors.write_header status w.response_writer;
  status = status;
  length = w.length;
}
step (write b n) w = record {
  response_writer = write_body (bytes (take n b)) w.response_writer;
  status = if w.status == 0 then 200 else w.status;
  length = w.length + n;
}

unfoldable pub steps : List Call → StatusWriter → StatusWriter
unfolding step
steps [] w = w
steps (c ∷ calls) w = steps calls (step c w)

-- filterRequestSource
unfoldable pub filter_request_source : Text → Text
filter_request_source source =
    if text_eq source (codes "uptime")
      || text_eq source (codes "kubernetes")
      || text_eq source (codes "nginx")
      || text_eq source (codes "livetest")
    then source
    else []

pub record Counted : Type 0 where
  pub code : Text
  pub method : Text
  pub source : Text
  pub size : ℕ

pub record Served : Type 0 where
  pub response : Response
  pub counted : Counted

abbrev pub observed : Text → Text → StatusWriter → Served
observed method source w = record {
  response = w.response_writer;
  counted = record {
    code = format_int (pos w.status);
    method = method;
    source = filter_request_source source;
    size = w.length;
  };
}

-- Metrics
unfoldable pub metrics : Text → Text → List Call → Response → Served
unfolding steps
metrics method source calls w =
    observed method source (steps calls (record { response_writer = w; status = 0; length = 0 }))
