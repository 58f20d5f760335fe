-- ===== src/Runtime/Middleware/Answer.antt =====
-- http/jsonapi/middleware/error_middleware.go: what the client gets.
use bricks.Prelude.{
  ℕ, ◌≡◌, leb, ltb, Bool, true, false, not, ◌&&◌, ◌||◌, List, [], ◌∷◌, ◌++◌, Option, none, some,
  take, if◌then◌else◌,
}
use bricks.Prelude.Text.{Text, codes, text_eq}
use bricks.Prelude.Assoc.{lookup, insert}
use bricks.Runtime.Errors.{
  Body, document, bytes, Response, no_error, marked, or_empty, content_type,
}
use bricks.Runtime.Errors
use bricks.Runtime.Middleware.{ErrorMiddleware, Call, set, write_header, write, trim}

abbrev pub Header : Type 0
Header = List (Text × Text)

-- What a handler writes: bytes as they are, of which the client's connection takes some, or the text
-- of an error, to be sent as a document.
pub data Piece : Type 0 where
  plain : Text → Bool → Piece
  converted : Body → Piece

-- A text is one of an error to be converted if the handler's last status is one of an error, the
-- request accepts JSON API, and the handler has not set that content type itself.
abbrev is_error : Text → ℕ → Header → Bool
is_error accept status header =
    leb 400 status
    && text_eq accept content_type
    && not (text_eq (or_empty (lookup (codes "Content-Type") header)) content_type)

-- The document for a text: one error with the status, the text as its title, and the id of the
-- request.
abbrev error_document : ℕ → Header → Text → Body
error_document status header text = document (
    marked status (or_empty (lookup (codes "Request-Id") header))
      (record no_error { title = trim text } ∷ []))

abbrev piece : Text → ℕ → Header → Text → ℕ → Bool → Piece
piece accept status header b n succeeds =
    if is_error accept status header
    then converted (error_document status header b)
    else plain (take n b) (succeeds && ltb 0 n)

-- What a handler writes by its calls, from a status and a header on.
unfoldable pub pieces : Text → ℕ → Header → List Call → List Piece
pieces accept status header [] = []
pieces accept status header (set name value ∷ calls) =
    pieces accept status (insert name value header) calls
pieces accept status header (write_header code ∷ calls) = pieces accept code header calls
pieces accept status header (write b n succeeds ∷ calls) =
    piece accept status header b n succeeds ∷ pieces accept status header calls

-- All the bytes; those in front of the first error, and whether a write of them was a success.
abbrev all_bytes : List Piece → List Body
all_bytes [] = []
all_bytes (plain b delivered ∷ ps) = bytes b ∷ all_bytes ps
all_bytes (converted d ∷ ps) = all_bytes ps

abbrev front_bytes : List Piece → List Body
front_bytes [] = []
front_bytes (plain b delivered ∷ ps) = bytes b ∷ front_bytes ps
front_bytes (converted d ∷ ps) = []

abbrev front_delivered : List Piece → Bool
front_delivered [] = false
front_delivered (plain b delivered ∷ ps) = delivered || front_delivered ps
front_delivered (converted d ∷ ps) = false

abbrev first_error : List Piece → Option Body
first_error [] = none
first_error (plain b delivered ∷ ps) = first_error ps
first_error (converted d ∷ ps) = some d

abbrev choose : Option Body → Bool → List Body → List Body → List Body
choose none delivered front all = all
choose (some d) true front all = all
choose (some d) false front all = front ++ d ∷ []

-- The client gets all the bytes if there is no error or one comes too late, and otherwise the first
-- error and nothing behind it.
unfoldable pub answer : List Piece → List Body
answer ps = choose (first_error ps) (front_delivered ps) (front_bytes ps) (all_bytes ps)

-- What comes behind the body so far, by the two flags.
abbrev rest : Bool → Bool → List Piece → List Body
rest true has_bytes ps = []
rest false true ps = all_bytes ps
rest false false ps = answer ps

module _ (accept b : Text) (n : ℕ) (succeeds : Bool) (w : Response) (status : ℕ) where
  abbrev before : Bool → ErrorMiddleware
  before hb = record { writer = w; status_code = status; has_err = false; has_bytes = hb }

  abbrev Written : (ℕ → Header → List Piece) → Bool → ErrorMiddleware → Piece → Type 0
  Written ps hb e p =
      e.writer.body ++ rest e.has_err e.has_bytes (ps e.status_code e.writer.header)
      ≡ w.body ++ rest false hb (p ∷ ps status w.header)

-- Of a writer and what is still written: the body in the end.
abbrev body_by : (ℕ → Header → List Piece) → ErrorMiddleware → List Body
body_by ps e = e.writer.body ++ rest e.has_err e.has_bytes (ps e.status_code e.writer.header)
