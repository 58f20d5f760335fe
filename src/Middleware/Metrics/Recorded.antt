-- ===== src/Middleware/Metrics/Recorded.antt =====
-- http/middleware/metrics.go: the counted status, and the one that was sent.
use bricks.Prelude.{
  arith, ℕ, ◌+◌, ◌==◌, ◌≡◌, ◌≢◌, refl, sym, ap, ◌∙◌, List, [], ◌∷◌, Option, none, some,
  if◌then◌else◌,
}
use bricks.Prelude.Int.{pos}
use bricks.Prelude.Text.{Text}
use bricks.Prelude.Decimal.{format_int}
use bricks.Runtime.Errors.{Response, bytes, write_body, first_sent}
use bricks.Middleware.Metrics.{
  StatusWriter, Call, write_header, write, step, steps, Counted, observed, metrics,
  filter_request_source,
}

-- The statuses and the writes behind a first call
abbrev pub first_status : Call → ℕ
first_status (write_header status) = status
first_status (write b n) = 200

abbrev pub writes : List (Text × ℕ) → List Call
writes [] = []
writes ((b, n) ∷ ws) = write b n ∷ writes ws

abbrev pub taken : Call → ℕ
taken (write_header status) = 0
taken (write b n) = n

abbrev pub all_taken : List (Text × ℕ) → ℕ
all_taken [] = 0
all_taken ((b, n) ∷ ws) = n + all_taken ws

abbrev pub status_sent : Option (ℕ × List (Text × Text)) → Option ℕ
status_sent none = none
status_sent (some (code, header)) = some code

kept : (n : ℕ) → n ≢ 0 → (if n == 0 then 200 else n) ≡ n
kept n h = ground arith

writes_lem :
    (ws : List (Text × ℕ)) (w : StatusWriter) (sent : ℕ × List (Text × Text))
    → w.status ≢ 0
    → w.response_writer.sent ≡ some sent
    → ((steps (writes ws) w).status ≡ w.status)
      × ((steps (writes ws) w).length ≡ w.length + all_taken ws)
      × ((steps (writes ws) w).response_writer.sent ≡ some sent)
unfolding steps step write_body bricks.Runtime.Errors.write_header
writes_lem [] w sent h s = (refl, omega arith, s)
writes_lem ((b, n) ∷ ws) w sent h s =
    let (status, length, sent') =
      writes_lem ws (step (write b n) w) sent (λ e. h (sym (kept w.status h) ∙ e))
        (ap (λ o. first_sent o (200, w.response_writer.header)) s) in
    (status ∙ kept w.status h, length ∙ (omega arith), sent')

abbrev pub counted : Text → Text → ℕ → ℕ → Counted
counted method source status size = record {
  code = format_int (pos status);
  method = method;
  source = filter_request_source source;
  size = size;
}

counted_lem :
    (method source : Text) (ws : List (Text × ℕ)) (w : StatusWriter) (header : List (Text × Text))
    (size : ℕ)
    → w.status ≢ 0
    → w.response_writer.sent ≡ some (w.status, header)
    → w.length ≡ size
    → ((observed method source (steps (writes ws) w)).counted
        ≡ counted method source w.status (size + all_taken ws))
      × (status_sent (observed method source (steps (writes ws) w)).response.sent ≡ some w.status)
counted_lem method source ws w header size h s l =
    let (status, length, sent) = writes_lem ws w (w.status, header) h s in
    (
      ap (λ n. counted method source n (steps (writes ws) w).length) status
          ∙ ap (counted method source w.status) (length ∙ ap (λ n. n + all_taken ws) l),
      ap status_sent sent,
    )

-- A handler that calls WriteHeader only as its first call, if at all, and makes at least one call: the
-- status that is counted is the one that the client got, and the size is what was taken of its writes.
pub metrics-recorded :
    (method source : Text) (c : Call) (ws : List (Text × ℕ)) (w : Response)
    → first_status c ≢ 0
    → w.sent ≡ none
    → ((metrics method source (c ∷ writes ws) w).counted ≡ record {
      code = format_int (pos (first_status c));
      method = method;
      source = filter_request_source source;
      size = taken c + all_taken ws;
    })
      × (status_sent (metrics method source (c ∷ writes ws) w).response.sent
          ≡ some (first_status c))
unfolding metrics steps step write_body bricks.Runtime.Errors.write_header
metrics-recorded method source (write_header status) ws w h s =
    counted_lem method source ws
      (step (write_header status) (record { response_writer = w; status = 0; length = 0 })) w.header
      0 h (ap (λ o. first_sent o (status, w.header)) s) refl
metrics-recorded method source (write b n) ws w h s =
    counted_lem method source ws
      (step (write b n) (record { response_writer = w; status = 0; length = 0 })) w.header n h
      (ap (λ o. first_sent o (200, w.header)) s) (omega arith)
