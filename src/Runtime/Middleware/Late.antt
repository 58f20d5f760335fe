-- ===== src/Runtime/Middleware/Late.antt =====
-- http/jsonapi/middleware/error_middleware.go: the content type of an error behind its status.
use mathlib.Core.Path.{subst}
use bricks.Prelude.{
  arith, ℕ, leb, ◌≤◌, ◌≡◌, sym, ap, ◌∙◌, Bool, true, false, not, ◌&&◌, List, [], ◌∷◌, Option, none,
  some, if◌then◌else◌,
}
use bricks.Prelude.Text.{Text, codes, text_eq, text_eq_refl}
use bricks.Prelude.Assoc.{lookup, lookup-insert_self}
use bricks.Runtime.Errors.{
  Response, Body, document, content_type, or_empty, write_error, write_body, set_header, get_header,
}
use bricks.Runtime.Errors
use bricks.Runtime.Middleware.{
  ErrorMiddleware, set, write_header, write, write_through, send_error, write_bytes, step, steps,
  serve, is_converted,
}

abbrev pub fresh : Response
fresh = record { header = []; sent = none; body = [] }

-- One document alone
abbrev pub IsDocument : List Body → Type 0
IsDocument (document es ∷ []) = Unit
IsDocument _ = ⊥

-- The status and the content type that were sent
abbrev pub sent_type : Option (ℕ × List (Text × Text)) → Option (ℕ × Option Text)
sent_type none = none
sent_type (some (code, header)) = some (code, lookup (codes "Content-Type") header)

leb-true : (a b : ℕ) → a ≤ b → leb a b ≡ true
leb-true a b h = ground arith

all_true : (a b c : Bool) → a ≡ true → b ≡ true → c ≡ true → (a && b && c) ≡ true
all_true a b c h k l = ground arith

-- The writer behind the header and the status
abbrev answering : Text → ℕ → Response
answering own code = Errors.write_header code (set_header (codes "Content-Type") own fresh)

abbrev middleware : Text → ℕ → ErrorMiddleware
middleware own code = record {
  writer = answering own code;
  status_code = code;
  has_err = false;
  has_bytes = false;
}

answering_type :
    (own : Text) (code : ℕ) → get_header (codes "Content-Type") (answering own code) ≡ own
unfolding bricks.Runtime.Errors.write_header set_header
answering_type own code = ap or_empty (lookup-insert_self (codes "Content-Type") own [])

converted :
    (own : Text) (code : ℕ)
    → 400 ≤ code
    → text_eq own content_type ≡ false
    → is_converted content_type (middleware own code) ≡ true
unfolding is_converted
converted own code h n =
    all_true _ _ _ (leb-true 400 code h) (text_eq_refl content_type)
      (ap (λ t. not (text_eq t content_type)) (answering_type own code) ∙ ap not n)

write_converted :
    (own text : Text) (code n : ℕ) (succeeds : Bool)
    → is_converted content_type (middleware own code) ≡ true
    → write_bytes content_type text n succeeds (middleware own code)
      ≡ send_error text (middleware own code)
unfolding write_bytes
write_converted own text code n succeeds h =
    ap
      (λ b.
        if b
        then send_error text (middleware own code)
        else write_through text n succeeds (middleware own code))
      h

sent_by_error :
    (own text : Text) (code : ℕ)
    → (sent_type (send_error text (middleware own code)).writer.sent ≡ some (code, some own))
      × IsDocument (send_error text (middleware own code)).writer.body
unfolding send_error write_error write_body set_header bricks.Runtime.Errors.write_header
sent_by_error own text code =
    (ap (λ t. some (code, t)) (lookup-insert_self (codes "Content-Type") own []), tt)

-- A handler of a request for JSON API that sends the status of an error, as http.Error does, with a
-- content type of its own: the client gets a document of JSON API, but under the handler's content type.
pub serve-content_type :
    (code : ℕ) (own text : Text) (n : ℕ) (succeeds : Bool)
    → 400 ≤ code
    → text_eq own content_type ≡ false
    → (sent_type
          (serve content_type
            (set (codes "Content-Type") own ∷ write_header code ∷ write text n succeeds ∷ [])
            fresh).sent
        ≡ some (code, some own))
      × IsDocument
          (serve content_type
            (set (codes "Content-Type") own ∷ write_header code ∷ write text n succeeds ∷ [])
            fresh).body
unfolding serve steps step
serve-content_type code own text n succeeds h o =
    subst (λ e. (sent_type e.writer.sent ≡ some (code, some own)) × IsDocument e.writer.body)
      (sym (write_converted own text code n succeeds (converted own code h o)))
      (sent_by_error own text code)
